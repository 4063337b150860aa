-- ===== src/Runtime/Abilities.antt =====
-- action_runtime/abilities.py: who may be the target of what.
use werewolf_agent.Prelude.{
  Bool, Dict, List, String, [], elem, eq_opt, not, string_eq, ◌&&◌, ◌==◌, ◌∷◌,
}
use werewolf_agent.Runtime.State.{RuntimeState, is_wolf}

-- (state, actor, candidate) -> is the candidate a legal target?
abbrev pub TargetPredicate : Type 0
TargetPredicate = RuntimeState → String → String → Bool

unfoldable pub alive_only : TargetPredicate
alive_only s actor cand = elem cand s.alive

unfoldable pub exclude_self : TargetPredicate
exclude_self s actor cand = elem cand s.alive && not (cand == actor)

unfoldable pub alive_non_wolf : TargetPredicate
alive_non_wolf s actor cand = elem cand s.alive && not (is_wolf s cand)

unfoldable pub is_night_victim : TargetPredicate
is_night_victim s actor cand = eq_opt cand s.night_victim

unfoldable pub exclude_last_guarded : TargetPredicate
exclude_last_guarded s actor cand = elem cand s.alive && not (eq_opt cand s.last_guarded_target)

abbrev pub target_rules : Dict String TargetPredicate
target_rules =
    ("alive_only", alive_only)
    ∷ ("exclude_self", exclude_self)
    ∷ ("alive_non_wolf", alive_non_wolf)
    ∷ ("is_night_victim", is_night_victim)
    ∷ ("exclude_last_guarded", exclude_last_guarded)
    ∷ []

abbrev pub arity_none : String
arity_none = "none"

abbrev pub arity_one : String
arity_one = "one"

pub record AbilityDefinition : Type 0 where
  pub action_id : String
  pub trigger : String
  pub target_rule : String
  pub target_arity : String
  pub visibility : String
  pub suppressed_by_cause : List String

pub record RoleDefinition : Type 0 where
  pub role : String
  pub team : String
  pub ability_ids : List String
