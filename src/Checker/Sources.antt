-- ===== src/Checker/Sources.antt =====
-- check_prompt_subset and check_i4b: the events that a prompt was built from.
pub mod Agreement
use werewolf_agent.Checker.Rows.{InvariantViolation, RunArtifacts, error}
use werewolf_agent.Log.{Event, TurnRow}
use werewolf_agent.Prelude.{
  Dict, List, Option, String, [], elem, filter, get, if◌then◌else◌, map, none, not, some, string_eq,
  ◌++◌, ◌∷◌,
}
use werewolf_agent.Runtime.Triggers.{seat_index}
use werewolf_agent.Visibility.Guard.{events_by_id}
use werewolf_agent.Visibility.Observer.{SeatIndex, entitled, seat_index_from_players}

unfoldable pub check_prompt_subset :
    (game_id seat : String) (prompt_source_ids observation_event_ids : List String)
    → List InvariantViolation
check_prompt_subset game_id seat prompt_source_ids observation_event_ids =
    map
      (λ eid.
        error "I4a" game_id (eid ∷ [])
          ("seat " ∷ seat ∷ " prompt sourced " ∷ eid ∷ " outside its observation" ∷ []))
      (filter (λ eid. not (elem eid observation_event_ids)) prompt_source_ids)

-- what is wrong with the source `eid` of the seat's prompt
unfoldable pub source_fault :
    (game_id seat : String) → SeatIndex → (eid : String) → Option Event → List InvariantViolation
source_fault game_id seat seat_index eid none =
    error "I4b" game_id (eid ∷ []) (
      "seat " ∷ seat ∷ " prompt sourced event " ∷ eid
      ∷ " absent from the event log (dangling reference)" ∷ [])
    ∷ []
source_fault game_id seat seat_index eid (some e) =
    if entitled seat e seat_index
    then []
    else error "I4b" game_id (eid ∷ []) (
        "seat " ∷ seat ∷ " prompt sourced non-entitled event " ∷ eid ∷ " (visibility="
        ∷ e.visibility ∷ ")" ∷ [])
      ∷ []

unfoldable pub source_faults :
    (game_id : String)
    → SeatIndex
    → Dict String Event
    → (seat : String) → List String
    → List InvariantViolation
unfolding source_fault
source_faults game_id seat_index by_id seat [] = []
source_faults game_id seat_index by_id seat (eid ∷ eids) =
    source_fault game_id seat seat_index eid (get by_id eid)
    ++ source_faults game_id seat_index by_id seat eids

unfoldable pub turn_faults :
    (game_id : String) → SeatIndex → Dict String Event → List TurnRow → List InvariantViolation
unfolding source_faults
turn_faults game_id seat_index by_id [] = []
turn_faults game_id seat_index by_id (t ∷ turns) =
    source_faults game_id seat_index by_id t.actor t.observation_source_event_ids
    ++ turn_faults game_id seat_index by_id turns

unfoldable pub check_i4b : RunArtifacts → List InvariantViolation
unfolding turn_faults seat_index_from_players events_by_id
check_i4b arts =
    turn_faults arts.game_id (seat_index_from_players arts.players) (events_by_id arts.events [])
      arts.provider_turns
