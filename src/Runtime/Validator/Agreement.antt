-- ===== src/Runtime/Validator/Agreement.antt =====
-- validate_in_state of action_runtime/validator.py beside legal_targets of registry.py.
use werewolf_agent.Prelude.{
  Bool-cases, List, String, arith, elem, elem-filter, elem-sorted, eq_iff, false, filter, get,
  if◌then◌else◌, inl, inr, refl, some, sorted, str_leb, string_eq, true, ◌&&◌, ◌==◌, ◌||◌, ◌≡◌,
}
use werewolf_agent.Prelude.Result.{ok}
use werewolf_agent.Runtime.Abilities.{AbilityDefinition, TargetPredicate, arity_none, target_rules}
use werewolf_agent.Runtime.Envelope.{from_legacy}
use werewolf_agent.Runtime.Registry.{allowed_actions, legal_targets}
use werewolf_agent.Runtime.Ruleset.{BoardRuleset, ability}
use werewolf_agent.Runtime.State.{RuntimeState}
use werewolf_agent.Runtime.Validator.{ValidationResult, accept, reject, validate_in_state}

-- An action that the role may take in the phase, with its definition.
pub record IsAllowed (rs : BoardRuleset) (role phase action : String) (a : AbilityDefinition)
    : Type 0 where
  pub actions : List String
  pub listed : allowed_actions rs role phase ≡ ok actions
  pub found : elem action actions ≡ true
  pub defined : ability rs action ≡ ok a

-- the verdict on an allowed action with one target
pub one_target :
    (rs : BoardRuleset) (role phase action : String) (a : AbilityDefinition)
    (pred : TargetPredicate) (actor t why type : String) (state : RuntimeState)
    → IsAllowed rs role phase action a
    → (a.target_arity == arity_none) ≡ false
    → get target_rules a.target_rule ≡ some pred
    → (t == "" || t == "none") ≡ false
    → validate_in_state rs (from_legacy actor role phase action (some t) why type) state
      ≡ ok (if pred state actor t then accept else reject "invalid_target")
unfolding validate_in_state from_legacy
one_target rs role phase action a pred actor t why type state h arity rule name =
    rw (h.listed, h.found, h.defined, arity, rule, name) (ground arith)

-- the verdict on an allowed action whose target is empty
pub no_target :
    (rs : BoardRuleset) (role phase action : String) (a : AbilityDefinition)
    (actor t why type : String) (state : RuntimeState)
    → IsAllowed rs role phase action a
    → (a.target_arity == arity_none) ≡ false
    → (t == "" || t == "none") ≡ true
    → validate_in_state rs (from_legacy actor role phase action (some t) why type) state
      ≡ ok (reject "bad_arity")
unfolding validate_in_state from_legacy
no_target rs role phase action a actor t why type state h arity name =
    rw (h.listed, h.found, h.defined, arity, name) (ground arith)

-- For an action that the role may take in the phase, which takes a target and names a known target
-- rule: the registry lists its legal targets without an exception, the validator judges the action
-- with any one target (other than the texts "" and "none") without an exception, and a target is
-- listed exactly if the validator accepts it and it is alive.
pub legal_targets-validate :
    (rs : BoardRuleset) (role phase action : String) (a : AbilityDefinition)
    (pred : TargetPredicate) (actor : String) (state : RuntimeState)
    → IsAllowed rs role phase action a
    → (a.target_arity == arity_none) ≡ false
    → get target_rules a.target_rule ≡ some pred
    → (targets : List String) × (legal_targets rs action actor state ≡ ok targets)
      × ((t why type : String)
          → (t == "" || t == "none") ≡ false
          → (v : ValidationResult) × (validate_in_state rs
                (from_legacy actor role phase action (some t) why type)
                state
              ≡ ok v)
            × (elem t targets ≡ (elem t state.alive && v.valid)))
unfolding legal_targets
legal_targets-validate rs role phase action a pred actor state h arity rule = (
  filter (pred state actor) (sorted str_leb state.alive),
  rw (h.defined, named, rule) refl,
  λ t why type name. (
    if pred state actor t then accept else reject "invalid_target",
    one_target rs role phase action a pred actor t why type state h arity rule name,
    ground (
      arith,
      elem-filter (pred state actor) t (sorted str_leb state.alive),
      elem-sorted str_leb t state.alive,
    ),
  ),
)
  where
    named : (a.target_rule == "") ≡ false
    named = elim (Bool-cases (a.target_rule == "")) [
      | inl empty ↦ cc (rw ((eq_iff a.target_rule "").0 empty) at rule)
      | inr full ↦ full
    ]
