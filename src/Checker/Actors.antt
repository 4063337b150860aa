-- ===== src/Checker/Actors.antt =====
-- check_i2 and check_i6: events in the order of their sequence numbers.
pub mod Order
use werewolf_agent.Checker.Rows.{InvariantViolation, RunArtifacts, error, gathered, is_death_commit}
use werewolf_agent.Log.{Event}
use werewolf_agent.Prelude.{
  Bool, Dict, List, Option, String, [], any, elem, false, filter, get, leb, ltb, map, none, not,
  some, sorted, string_eq, ℕ, ◌&&◌, ◌==◌, ◌∷◌,
}

abbrev pub by_sequence : Event → Event → Bool
by_sequence d e = leb d.sequence e.sequence

abbrev pub ordered : List Event → List Event
ordered = sorted by_sequence

abbrev pub active_action_types : List String
active_action_types =
    "werewolf_kill" ∷ "seer_check" ∷ "witch_save" ∷ "witch_poison" ∷ "witch_pass" ∷ "guard_protect"
    ∷ "player_speech" ∷ "player_vote" ∷ []

-- `dead_at.setdefault(target, sequence)`
abbrev pub first_time : ℕ → Option ℕ → ℕ
first_time n none = n
first_time n (some first) = first

unfoldable pub first_death_sequence : List Event → Dict String ℕ
first_death_sequence events =
    gathered (λ (e : Event). e.target) (λ e. first_time e.sequence)
      (filter is_death_commit (ordered events)) []

-- later than the first death, if there is one
abbrev pub late : Option ℕ → ℕ → Bool
late none n = false
late (some first) n = ltb first n

-- an action after the first death of its actor
unfoldable pub acts_after : Dict String ℕ → Event → Bool
acts_after dead_seq e = elem e.type active_action_types && late (get dead_seq e.actor) e.sequence

unfoldable pub dead_actor : RunArtifacts → Event → InvariantViolation
dead_actor arts e =
    error "I2" arts.game_id (e.event_id ∷ [])
      ("dead actor " ∷ e.actor ∷ " produced " ∷ e.type ∷ " after death" ∷ [])

unfoldable pub check_i2 : RunArtifacts → List InvariantViolation
unfolding first_death_sequence acts_after dead_actor
check_i2 arts =
    map (dead_actor arts) (filter (acts_after (first_death_sequence arts.events)) arts.events)

abbrev pub death_cause_types : List String
death_cause_types = "werewolf_kill" ∷ "witch_poison" ∷ "hunter_shoot" ∷ []

-- an earlier event that can be the cause of the death `e`
abbrev pub causes : Event → Event → Bool
causes e c = ltb c.sequence e.sequence && elem c.type death_cause_types && c.target == e.target

unfoldable pub uncaused : RunArtifacts → Event → InvariantViolation
uncaused arts e =
    error "I6" arts.game_id (e.event_id ∷ [])
      ("player_died(" ∷ e.target ∷ ") has no candidate cause event" ∷ [])

unfoldable pub lacks_cause : List Event → Event → Bool
lacks_cause events e = e.type == "player_died" && not (any (causes e) events)

unfoldable pub check_i6 : RunArtifacts → List InvariantViolation
unfolding uncaused lacks_cause
check_i6 arts =
    let events = ordered arts.events in map (uncaused arts) (filter (lacks_cause events) events)
