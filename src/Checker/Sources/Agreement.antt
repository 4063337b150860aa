-- ===== src/Checker/Sources/Agreement.antt =====
-- check_i4b against the guard that the engine runs before each prompt.
use werewolf_agent.Checker.Rows.{RunArtifacts}
use werewolf_agent.Checker.Sources.{check_i4b, source_fault, source_faults, turn_faults}
use werewolf_agent.Log.{Event, TurnRow}
use werewolf_agent.Prelude.{
  Bool, Bool-cases, Dict, List, Option, String, [], all, empty_iff, false, get, inl, inr, is_empty,
  is_empty-append, none, refl, some, string_eq, sym, true, ◌&&◌, ◌↔◌, ◌∙◌, ◌∷◌, ◌≡◌,
}
use werewolf_agent.Runtime.Triggers.{seat_index}
use werewolf_agent.Visibility.Guard.{
  Leak, assert_prompt_entitled, check_source, events_by_id, first_leak,
}
use werewolf_agent.Visibility.Observer.{SeatIndex, entitled, seat_index_from_players}

abbrev pub is_clean : Option Leak → Bool
is_clean none = true
is_clean (some fault) = false

-- the guard lets the prompt of the turn through
abbrev pub lets_through : SeatIndex → Dict String Event → TurnRow → Bool
lets_through seat_index by_id t =
    is_clean (assert_prompt_entitled t.actor t.observation_source_event_ids by_id seat_index)

module _ (game_id : String) (seat_index : SeatIndex) (by_id : Dict String Event) where
  source_fault-guard :
      (seat eid : String) (o : Option Event) (later : Option Leak)
      → (is_empty (source_fault game_id seat seat_index eid o) && is_clean later)
        ≡ is_clean (first_leak (check_source seat seat_index eid o) later)
  unfolding source_fault first_leak check_source
  source_fault-guard seat eid none later = refl
  source_fault-guard seat eid (some e) later = elim (Bool-cases (entitled seat e seat_index)) [
    | inl seen ↦ rw seen refl
    | inr hidden ↦ rw hidden refl
  ]

  source_faults-guard :
      (seat : String) (eids : List String)
      → is_empty (source_faults game_id seat_index by_id seat eids)
        ≡ is_clean (assert_prompt_entitled seat eids by_id seat_index)
  unfolding source_faults assert_prompt_entitled
  source_faults-guard seat [] = refl
  source_faults-guard seat (eid ∷ eids) =
      rw
        (
          is_empty-append (source_fault game_id seat seat_index eid (get by_id eid))
              (source_faults game_id seat_index by_id seat eids),
          source_faults-guard seat eids,
        )
        (source_fault-guard seat eid (get by_id eid)
          (assert_prompt_entitled seat eids by_id seat_index))

  turn_faults-guard :
      (turns : List TurnRow)
      → is_empty (turn_faults game_id seat_index by_id turns)
        ≡ all (lets_through seat_index by_id) turns
  unfolding turn_faults
  turn_faults-guard [] = refl
  turn_faults-guard (t ∷ turns) =
      let sources = t.observation_source_event_ids in
      rw
        (
          is_empty-append (source_faults game_id seat_index by_id t.actor sources)
              (turn_faults game_id seat_index by_id turns),
          source_faults-guard t.actor sources,
          turn_faults-guard turns,
        )
        refl

-- check_i4b reports nothing exactly if the guard of the engine, run over the finished log, lets the
-- prompt of every turn through.
pub check_i4b-guard :
    (arts : RunArtifacts)
    → (check_i4b arts ≡ []) ↔ (
        all
          (lets_through (seat_index_from_players arts.players) (events_by_id arts.events []))
          arts.provider_turns
        ≡ true)
unfolding check_i4b
check_i4b-guard arts =
    let seat_index = seat_index_from_players arts.players in
    let by_id = events_by_id arts.events [] in
    let (to, from) = empty_iff (turn_faults arts.game_id seat_index by_id arts.provider_turns) in
    let same = turn_faults-guard arts.game_id seat_index by_id arts.provider_turns in
    (λ h. sym same ∙ from h, λ h. to (same ∙ h))
