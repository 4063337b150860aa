-- ===== src/Runtime/Validator/Sole.antt =====
-- validate_in_state of action_runtime/validator.py where the role has one action, or none, in the phase.
use werewolf_agent.Prelude.{
  Bool, Bool-cases, String, [], arith, eq_iff, false, get, if◌then◌else◌, inl, inr, not, refl, some,
  string_eq, true, ◌&&◌, ◌==◌, ◌||◌, ◌∷◌, ◌≡◌,
}
use werewolf_agent.Prelude.Result.{Result, ok}
use werewolf_agent.Runtime.Abilities.{AbilityDefinition, TargetPredicate, arity_none, target_rules}
use werewolf_agent.Runtime.Envelope.{from_legacy}
use werewolf_agent.Runtime.Registry.{allowed_actions}
use werewolf_agent.Runtime.Ruleset.{BoardRuleset, ability}
use werewolf_agent.Runtime.State.{RuntimeState}
use werewolf_agent.Runtime.Validator.{ValidationResult, accept, reject, validate_in_state}
use werewolf_agent.Runtime.Validator.Agreement.{IsAllowed, no_target, one_target}

abbrev pub verdict :
    BoardRuleset → (actor role phase action t : String) → RuntimeState → Result ValidationResult
verdict rs actor role phase action t state =
    validate_in_state rs (from_legacy actor role phase action (some t) "" "") state

-- a text that `from_legacy` takes for a target
abbrev pub is_target : String → Bool
is_target t = not (t == "" || t == "none")

-- If the role has the one action `id` in the phase, and its ability takes a target and names a known
-- target rule, then the validator judges an action on `t` without an exception, and accepts it exactly
-- if it is that action, `t` is a target, and the ability's rule allows it.
pub sole_action :
    (rs : BoardRuleset) (actor role phase id : String) (a : AbilityDefinition)
    (pred : TargetPredicate)
    → allowed_actions rs role phase ≡ ok (id ∷ [])
    → ability rs id ≡ ok a
    → get target_rules a.target_rule ≡ some pred
    → (a.target_arity == arity_none) ≡ false
    → (action t : String) (state : RuntimeState)
    → (v : ValidationResult) × (verdict rs actor role phase action t state ≡ ok v)
      × (v.valid ≡ (action == id && (is_target t && pred state actor t)))
unfolding validate_in_state from_legacy
sole_action rs actor role phase id a pred listed defined rule arity action t state =
    elim (Bool-cases (action == id)) [
      | inr other ↦ (reject "invalid_action", rw (listed, other) refl, rw other refl)
      | inl it ↦ elim (Bool-cases (t == "" || t == "none")) [
        | inl unreal ↦ (
          reject "bad_arity",
          no_target rs role phase action a actor t "" "" state (allowed it) arity unreal,
          rw (it, unreal) refl,
        )
        | inr real ↦ (
          if pred state actor t then accept else reject "invalid_target",
          one_target rs role phase action a pred actor t "" "" state (allowed it) arity rule real,
          rw (it, real) (ground arith),
        )
      ]
    ]
  where
    allowed : (action == id) ≡ true → IsAllowed rs role phase action a
    allowed it = record {
      actions = id ∷ [];
      listed = listed;
      found = rw it refl;
      defined = rw ((eq_iff action id).0 it) defined;
    }

-- If the role has no action in the phase, the validator accepts nothing.
pub no_action :
    (rs : BoardRuleset) (actor role phase : String)
    → allowed_actions rs role phase ≡ ok []
    → (action t : String) (state : RuntimeState)
    → verdict rs actor role phase action t state ≡ ok (reject "invalid_action")
unfolding validate_in_state from_legacy
no_action rs actor role phase listed action t state = rw listed refl
