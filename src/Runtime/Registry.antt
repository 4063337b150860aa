-- ===== src/Runtime/Registry.antt =====
-- action_runtime/registry.py: which actions a (role, phase) may take, and which targets are legal.
pub mod Total
use werewolf_agent.Prelude.{
  Dict, List, Option, String, [], filter, get, if◌then◌else◌, map, none, put, some, sorted, str_leb,
  string_eq, ◌++◌, ◌==◌, ◌∷◌,
}
use werewolf_agent.Prelude.Result.{Result, key_error, map_result, ok, or_raise, ◌>>=◌}
use werewolf_agent.Runtime.Abilities.{AbilityDefinition, RoleDefinition, target_rules}
use werewolf_agent.Runtime.Ruleset.{BoardRuleset, ability}
use werewolf_agent.Runtime.State.{RuntimeState}

abbrev pub phase_trigger : Dict String String
phase_trigger = ("night", "phase:night") ∷ ("day_vote", "phase:day_vote") ∷ []

-- `{r.role: r for r in ruleset.roles}`
unfoldable pub index_roles :
    List RoleDefinition → Dict String RoleDefinition → Dict String RoleDefinition
index_roles [] d = d
index_roles (r ∷ roles) d = index_roles roles (put d r.role r)

unfoldable pub by_role : BoardRuleset → Dict String RoleDefinition
unfolding index_roles
by_role rs = index_roles rs.roles []

-- the abilities of a role with a given trigger, in the order of its `ability_ids`
unfoldable pub triggered : BoardRuleset → String → RoleDefinition → Result (List AbilityDefinition)
unfolding ability
triggered rs trig role_def = do
  abilities ← map_result (ability rs) role_def.ability_ids
  ok (filter (λ a. a.trigger == trig) abilities)

unfoldable pub for_role :
    BoardRuleset → Option String → Option RoleDefinition → Result (List AbilityDefinition)
unfolding triggered
for_role rs none role_def = ok []
for_role rs (some trig) none = ok []
for_role rs (some trig) (some role_def) = triggered rs trig role_def

unfoldable pub abilities_for :
    BoardRuleset → (role phase : String) → Result (List AbilityDefinition)
unfolding for_role by_role
abilities_for rs role phase = for_role rs (get phase_trigger phase) (get (by_role rs) role)

unfoldable pub allowed_actions : BoardRuleset → (role phase : String) → Result (List String)
unfolding abilities_for
allowed_actions rs role phase = do
  abilities ← abilities_for rs role phase
  ok (map (λ a. a.action_id) abilities)

unfoldable pub on_death_abilities : BoardRuleset → String → Result (List AbilityDefinition)
unfolding for_role by_role
on_death_abilities rs role = for_role rs (some "event:on_death") (get (by_role rs) role)

unfoldable pub all_causes : List AbilityDefinition → List String
all_causes [] = []
all_causes (a ∷ abilities) = a.suppressed_by_cause ++ all_causes abilities

-- the union of the causes, as a list of which only the membership is read
unfoldable pub death_trigger_suppressing_causes : BoardRuleset → String → Result (List String)
unfolding on_death_abilities all_causes
death_trigger_suppressing_causes rs role = do
  abilities ← on_death_abilities rs role
  ok (all_causes abilities)

unfoldable pub shown_targets : String → RuntimeState → List String
shown_targets action_id state = sorted str_leb state.alive

unfoldable pub legal_targets :
    BoardRuleset → (action_id actor : String) → RuntimeState → Result (List String)
unfolding ability
legal_targets rs action_id actor state = do
  a ← ability rs action_id
  if a.target_rule == "" then ok [] else do
    pred ← or_raise (key_error a.target_rule) (get target_rules a.target_rule)
    ok (filter (pred state actor) (sorted str_leb state.alive))
