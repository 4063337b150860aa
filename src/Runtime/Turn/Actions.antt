-- ===== src/Runtime/Turn/Actions.antt =====
-- The turns that the engine opens on the shipped boards, and what the validator says of them.
use werewolf_agent.Prelude.{
  Bool, String, [], all, arith, elem, eq_iff, eq_opt, false, get, inl, inr, not, refl, some,
  string_eq, sym, true, ◌&&◌, ◌==◌, ◌∙◌, ◌∷◌, ◌≡◌, ◌⊎◌,
}
use werewolf_agent.Prelude.Result.{ok}
use werewolf_agent.Runtime.Abilities.{
  AbilityDefinition, TargetPredicate, arity_none, exclude_last_guarded, exclude_self, target_rules,
}
use werewolf_agent.Runtime.Registry.{abilities_for, allowed_actions, by_role, for_role}
use werewolf_agent.Runtime.Ruleset.{BoardRuleset, ability, rules_v1_1, rules_v1_2}
use werewolf_agent.Runtime.Turn.{
  AgentAction, DecisionWindow, Resolver, guard_resolver, seer_resolver, vote_resolver,
}
use werewolf_agent.Runtime.Validator.{ValidationResult, reject}
use werewolf_agent.Runtime.Validator.Sole.{is_target, no_action, sole_action, verdict}

-- the boards that the engine runs
pub data IsBoard : BoardRuleset → Type 0 where
  hunter_board : IsBoard rules_v1_1
  guard_board : IsBoard rules_v1_2

abbrev pub action_of : Resolver → String
action_of seer_resolver = "seer_check"
action_of guard_resolver = "guard_protect"
action_of vote_resolver = "player_vote"

-- whom the rules bar as the target of a turn
abbrev pub is_barred : Resolver → DecisionWindow → String → Bool
is_barred guard_resolver w t = eq_opt t w.runtime_state.last_guarded_target
is_barred _ w t = t == w.actor

-- role and phase of the turns that the engine opens
abbrev pub Opens : Resolver → DecisionWindow → Type 0
Opens seer_resolver w = (w.role ≡ "seer") × (w.registry_phase ≡ "night")
Opens guard_resolver w = (w.role ≡ "guard") × (w.registry_phase ≡ "night")
Opens vote_resolver w = w.registry_phase ≡ "day_vote"

pub record IsTurn (r : Resolver) (w : DecisionWindow) : Type 0 where
  pub board : IsBoard w.validator
  pub opens : Opens r w
  pub seats_alive : all (λ p. elem p w.runtime_state.alive) w.alive_seat_order ≡ true

ability_of : Resolver → AbilityDefinition
ability_of seer_resolver = record {
  action_id = "seer_check";
  trigger = "phase:night";
  target_rule = "exclude_self";
  target_arity = "one";
  visibility = "seer";
  suppressed_by_cause = [];
}
ability_of guard_resolver = record {
  action_id = "guard_protect";
  trigger = "phase:night";
  target_rule = "exclude_last_guarded";
  target_arity = "one";
  visibility = "guard";
  suppressed_by_cause = [];
}
ability_of vote_resolver = record {
  action_id = "player_vote";
  trigger = "phase:day_vote";
  target_rule = "exclude_self";
  target_arity = "one";
  visibility = "public";
  suppressed_by_cause = [];
}

unfoldable pub rule_of : Resolver → TargetPredicate
rule_of guard_resolver = exclude_last_guarded
rule_of _ = exclude_self

pub rule_lem :
    (r : Resolver) (w : DecisionWindow) (t : String)
    → rule_of r w.runtime_state w.actor t ≡ (elem t w.runtime_state.alive && not (is_barred r w t))
unfolding rule_of exclude_last_guarded exclude_self
rule_lem seer_resolver w t = refl
rule_lem guard_resolver w t = refl
rule_lem vote_resolver w t = refl

abbrev Voters : BoardRuleset → String → Type 0
Voters rs role =
    (allowed_actions rs role "day_vote" ≡ ok ("player_vote" ∷ []))
    ⊎ (allowed_actions rs role "day_vote" ≡ ok [])

Voters-v1_1 : (role : String) → Voters rules_v1_1 role
unfolding allowed_actions abilities_for for_role by_role
Voters-v1_1 role = ground (
  arith,
  eq_iff "werewolf" role,
  eq_iff "seer" role,
  eq_iff "witch" role,
  eq_iff "villager" role,
  eq_iff "hunter" role,
)

Voters-v1_2 : (role : String) → Voters rules_v1_2 role
unfolding allowed_actions abilities_for for_role by_role
Voters-v1_2 role = ground (
  arith,
  eq_iff "werewolf" role,
  eq_iff "seer" role,
  eq_iff "witch" role,
  eq_iff "villager" role,
  eq_iff "hunter" role,
  eq_iff "guard" role,
)

-- On a board the actor of a turn has the action of its resolver, or none.
turn_actions :
    {rs : BoardRuleset} (r : Resolver) (w : DecisionWindow)
    → IsBoard rs
    → Opens r w
    → (allowed_actions rs w.role w.registry_phase ≡ ok (action_of r ∷ []))
      ⊎ (allowed_actions rs w.role w.registry_phase ≡ ok [])
unfolding allowed_actions abilities_for for_role by_role
turn_actions seer_resolver w hunter_board (p, q) = rw (p, q) (inl refl)
turn_actions seer_resolver w guard_board (p, q) = rw (p, q) (inl refl)
turn_actions guard_resolver w hunter_board (p, q) = rw (p, q) (inr refl)
turn_actions guard_resolver w guard_board (p, q) = rw (p, q) (inl refl)
turn_actions vote_resolver w hunter_board q = rw q (Voters-v1_1 w.role)
turn_actions vote_resolver w guard_board q = rw q (Voters-v1_2 w.role)

-- Such a turn has the verdict of the one ability, or no action is accepted.
abbrev Judged : BoardRuleset → Resolver → DecisionWindow → AgentAction → Type 0
Judged rs r w a =
    (v : ValidationResult) × (verdict rs w.actor w.role w.registry_phase a.action a.target
        w.runtime_state
      ≡ ok v)
    × (v.valid ≡ true
        → (a.action == action_of r
            && (is_target a.target && rule_of r w.runtime_state w.actor a.target))
          ≡ true)

Judged-by :
    (rs : BoardRuleset) (r : Resolver) (w : DecisionWindow) (a : AgentAction)
    → (get target_rules (ability_of r).target_rule ≡ some (rule_of r))
    → ((ability_of r).target_arity == arity_none) ≡ false
    → ability rs (action_of r) ≡ ok (ability_of r)
    → (allowed_actions rs w.role w.registry_phase ≡ ok (action_of r ∷ []))
      ⊎ (allowed_actions rs w.role w.registry_phase ≡ ok [])
    → Judged rs r w a
Judged-by rs r w a rule arity defined (inl listed) =
    let (v, e, valid) =
      sole_action rs w.actor w.role w.registry_phase (action_of r) (ability_of r) (rule_of r) listed
        defined rule arity a.action a.target w.runtime_state in
    (v, e, λ h. sym valid ∙ h)
Judged-by rs r w a rule arity defined (inr nothing) = (
  reject "invalid_action",
  no_action rs w.actor w.role w.registry_phase nothing a.action a.target w.runtime_state,
  λ h. cc,
)

pub judged :
    {rs : BoardRuleset} (r : Resolver) (w : DecisionWindow) (a : AgentAction)
    → IsBoard rs
    → Opens r w
    → Judged rs r w a
unfolding ability rule_of ability_of allowed_actions abilities_for for_role by_role
judged seer_resolver w a hunter_board o =
    Judged-by rules_v1_1 seer_resolver w a refl refl refl
      (turn_actions seer_resolver w hunter_board o)
judged seer_resolver w a guard_board o =
    Judged-by rules_v1_2 seer_resolver w a refl refl refl
      (turn_actions seer_resolver w guard_board o)
judged guard_resolver w a hunter_board (p, q) = (
  reject "invalid_action",
  no_action rules_v1_1 w.actor w.role w.registry_phase (rw (p, q) refl) a.action a.target
      w.runtime_state,
  λ h. cc,
)
judged guard_resolver w a guard_board o =
    Judged-by rules_v1_2 guard_resolver w a refl refl refl
      (turn_actions guard_resolver w guard_board o)
judged vote_resolver w a hunter_board o =
    Judged-by rules_v1_1 vote_resolver w a refl refl refl
      (turn_actions vote_resolver w hunter_board o)
judged vote_resolver w a guard_board o =
    Judged-by rules_v1_2 vote_resolver w a refl refl refl
      (turn_actions vote_resolver w guard_board o)
