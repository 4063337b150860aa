-- ===== src/Runtime/Validator.antt =====
-- action_runtime/validator.py: the verdict on an envelope, without and with the live state.
pub mod Agreement
pub mod Sole
use werewolf_agent.Prelude.{
  Bool, List, Option, String, all, elem, eqb, false, get, if◌then◌else◌, is_empty, length, none,
  not, some, string_eq, true, ◌&&◌, ◌==◌, ◌||◌,
}
use werewolf_agent.Prelude.Result.{Result, ok, ◌>>=◌}
use werewolf_agent.Runtime.Abilities.{AbilityDefinition, TargetPredicate, arity_none, target_rules}
use werewolf_agent.Runtime.Envelope.{ActionEnvelope}
use werewolf_agent.Runtime.Registry.{allowed_actions}
use werewolf_agent.Runtime.Ruleset.{BoardRuleset, ability}
use werewolf_agent.Runtime.State.{RuntimeState}

pub record ValidationResult : Type 0 where
  pub valid : Bool
  pub reason_kind : String

abbrev pub accept : ValidationResult
accept = record { valid = true; reason_kind = "" }

abbrev pub reject : String → ValidationResult
reject reason_kind = record { valid = false; reason_kind = reason_kind }

-- the verdict on the number of targets
unfoldable pub check_arity : AbilityDefinition → List String → ValidationResult
check_arity a targets =
    if a.target_arity == arity_none
    then (if is_empty targets then accept else reject "bad_arity")
    else if eqb (length targets) 1
    then reject "needs_state"
    else reject "bad_arity"

unfoldable pub validate : BoardRuleset → ActionEnvelope → Result ValidationResult
unfolding check_arity
validate rs env = do
  allowed ← allowed_actions rs env.role env.phase
  if not (elem env.action allowed)
      then ok (reject "invalid_action")
      else do a ← ability rs env.action; ok (check_arity a env.targets)

-- the verdict on the targets of a well-formed action
unfoldable pub check_targets :
    AbilityDefinition → Option TargetPredicate → ActionEnvelope → RuntimeState → ValidationResult
check_targets a none env state = reject "invalid_target"
check_targets a (some pred) env state =
    if not (is_empty env.targets) && all (pred state env.actor) env.targets
    then accept
    else reject "invalid_target"

unfoldable pub validate_in_state :
    BoardRuleset → ActionEnvelope → RuntimeState → Result ValidationResult
unfolding validate check_targets
validate_in_state rs env state = do
  base ← validate rs env
  let final = base.reason_kind == "invalid_action" || base.reason_kind == "bad_arity"
  if not base.valid && final then ok base else do
    a ← ability rs env.action
    let pred = get target_rules a.target_rule
    ok (if a.target_arity == arity_none then accept else check_targets a pred env state)
