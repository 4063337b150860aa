-- ===== src/Checker/Commits.antt =====
-- check_i1, check_i3 and check_i5: what happens at most once.
pub mod Once
use werewolf_agent.Checker.Rows.{InvariantViolation, RunArtifacts, error, gathered, is_death_commit}
use werewolf_agent.Log.{Event, TurnRow}
use werewolf_agent.Prelude.{
  Bool, List, Option, String, [], elem, filter, length, ltb, map, none, pair_eq, show, some,
  string_eq, ℕ, ◌++◌, ◌+◌, ◌∷◌,
}

-- `d.setdefault(k, []).append(v)`
abbrev pub appended : String → Option (List String) → List String
appended v none = v ∷ []
appended v (some vs) = vs ++ v ∷ []

-- `d[k] = d.get(k, 0) + 1`
abbrev pub counted : Option ℕ → ℕ
counted none = 1
counted (some n) = n + 1

unfoldable pub died_twice : RunArtifacts → String × List String → InvariantViolation
died_twice arts (target, eids) =
    error "I1" arts.game_id eids
      ("player " ∷ target ∷ " committed dead " ∷ show (length eids) ∷ "x" ∷ [])

unfoldable pub check_i1 : RunArtifacts → List InvariantViolation
unfolding died_twice
check_i1 arts =
    let by_target =
      gathered (λ (e : Event). e.target) (λ e. appended e.event_id)
        (filter is_death_commit arts.events) [] in
    map (died_twice arts) (filter (λ entry. ltb 1 (length entry.1)) by_target)

abbrev pub consume_types : List String
consume_types = "witch_save" ∷ "witch_poison" ∷ "hunter_shoot" ∷ []

abbrev pub is_consume : Event → Bool
is_consume e = elem e.type consume_types

abbrev pub capability : Event → String × String
capability e = (e.actor, e.type)

unfoldable pub used_twice : RunArtifacts → (String × String) × List String → InvariantViolation
used_twice arts ((actor, cap), eids) =
    error "I3" arts.game_id eids
      (actor ∷ " used " ∷ cap ∷ " " ∷ show (length eids) ∷ "x (max 1)" ∷ [])

unfoldable pub check_i3 : RunArtifacts → List InvariantViolation
unfolding used_twice
check_i3 arts =
    let by_key =
      gathered capability (λ e. appended e.event_id) (filter is_consume arts.events) [] in
    map (used_twice arts) (filter (λ entry. ltb 1 (length entry.1)) by_key)

-- a request id alone is used again between night and day
abbrev pub identity : TurnRow → String × String
identity t = (t.request_id, t.phase)

unfoldable pub settled_twice : RunArtifacts → (String × String) × ℕ → InvariantViolation
settled_twice arts ((rid, ph), n) =
    error "I5" arts.game_id []
      ("decision identity (request_id=" ∷ rid ∷ ", phase=" ∷ ph ∷ ") settled " ∷ show n ∷ "x" ∷ [])

unfoldable pub check_i5 : RunArtifacts → List InvariantViolation
unfolding settled_twice
check_i5 arts =
    let seen = gathered identity (λ t. counted) arts.provider_turns [] in
    map (settled_twice arts) (filter (λ entry. ltb 1 entry.1) seen)
