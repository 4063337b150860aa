-- ===== src/Runtime/Ruleset.antt =====
-- action_runtime/ruleset.py: the boards as data, and the role table over all of them.
pub mod Teams
use werewolf_agent.Prelude.{
  Dict, List, String, [], find, get, if◌then◌else◌, none, put, some, string_eq, ◌++◌, ◌==◌, ◌∷◌,
}
use werewolf_agent.Prelude.Result.{Result, err, key_error, ok, or_raise, value_error, ◌>>=◌}
use werewolf_agent.Runtime.Abilities.{AbilityDefinition, RoleDefinition, arity_none, arity_one}

pub record BoardRuleset : Type 0 where
  pub rules_version : String
  pub roles : List RoleDefinition
  pub abilities : List AbilityDefinition
  pub night_rules : Dict String String
  pub death_order_key : List String

unfoldable pub night_settlement_rule : BoardRuleset → String → Result String
night_settlement_rule rs key = or_raise (key_error key) (get rs.night_rules key)

unfoldable pub ability : BoardRuleset → String → Result AbilityDefinition
ability rs action_id =
    or_raise (key_error action_id) (find (λ a. a.action_id == action_id) rs.abilities)

abbrev define_ability :
    (action_id trigger target_rule target_arity visibility : String) → AbilityDefinition
define_ability action_id trigger target_rule target_arity visibility = record {
  action_id = action_id;
  trigger = trigger;
  target_rule = target_rule;
  target_arity = target_arity;
  visibility = visibility;
  suppressed_by_cause = [];
}

abbrev define_role : (role team : String) → List String → RoleDefinition
define_role role team ability_ids = record { role = role; team = team; ability_ids = ability_ids }

abbrev pub rules_v1 : BoardRuleset
rules_v1 = record {
  rules_version = "rules_v1";
  roles =
      define_role "werewolf" "werewolf" ("werewolf_kill" ∷ "player_vote" ∷ [])
      ∷ define_role "seer" "villager" ("seer_check" ∷ "player_vote" ∷ [])
      ∷ define_role "witch" "villager"
          ("witch_save" ∷ "witch_poison" ∷ "witch_pass" ∷ "player_vote" ∷ [])
      ∷ define_role "villager" "villager" ("player_vote" ∷ [])
      ∷ [];
  abilities =
      define_ability "werewolf_kill" "phase:night" "alive_non_wolf" arity_one "werewolf_team"
      ∷ define_ability "seer_check" "phase:night" "exclude_self" arity_one "seer"
      ∷ define_ability "witch_save" "phase:night" "is_night_victim" arity_one "witch"
      ∷ define_ability "witch_poison" "phase:night" "exclude_self" arity_one "witch"
      ∷ define_ability "witch_pass" "phase:night" "" arity_none "witch"
      ∷ define_ability "player_vote" "phase:day_vote" "exclude_self" arity_one "public"
      ∷ [];
  night_rules = ("guard+save_same_target", "death") ∷ [];
  death_order_key = "phase_priority" ∷ "cause_priority" ∷ "seat_index" ∷ [];
}

abbrev pub rules_v1_1 : BoardRuleset
rules_v1_1 = record {
  rules_version = "rules_v1_1";
  roles =
      rules_v1.roles
      ++ define_role "hunter" "villager" ("player_vote" ∷ "hunter_shoot" ∷ "hunter_pass" ∷ []) ∷ [];
  abilities =
      rules_v1.abilities
      ++ record (define_ability "hunter_shoot" "event:on_death" "exclude_self" arity_one "public") {
        suppressed_by_cause = "witch_poison" ∷ [];
      }
        ∷ define_ability "hunter_pass" "event:on_death" "" arity_none "public"
        ∷ [];
  night_rules = rules_v1.night_rules;
  death_order_key = rules_v1.death_order_key;
}

abbrev pub rules_v1_2 : BoardRuleset
rules_v1_2 = record {
  rules_version = "rules_v1_2";
  roles =
      rules_v1_1.roles
      ++ define_role "guard" "villager" ("guard_protect" ∷ "player_vote" ∷ []) ∷ [];
  abilities =
      rules_v1_1.abilities
      ++ define_ability "guard_protect" "phase:night" "exclude_last_guarded" arity_one "guard" ∷ [];
  night_rules = rules_v1_1.night_rules;
  death_order_key = rules_v1_1.death_order_key;
}

abbrev pub all_rulesets : List BoardRuleset
all_rulesets = rules_v1 ∷ rules_v1_1 ∷ rules_v1_2 ∷ []

-- the body of the loop of `known_role_teams`: a role may not change its team
unfoldable pub enter_role : Dict String String → RoleDefinition → Result (Dict String String)
enter_role teams r = elim (get teams r.role) [
  | none ↦ ok (put teams r.role r.team)
  | some existing ↦
      if existing == r.team then ok (put teams r.role r.team) else err (value_error r.role)
]

unfoldable pub enter_roles : List RoleDefinition → Dict String String → Result (Dict String String)
unfolding enter_role
enter_roles [] teams = ok teams
enter_roles (r ∷ roles) teams = do after ← enter_role teams r; enter_roles roles after

unfoldable pub enter_rulesets : List BoardRuleset → Dict String String → Result (Dict String String)
unfolding enter_roles
enter_rulesets [] teams = ok teams
enter_rulesets (rs ∷ rest) teams = do after ← enter_roles rs.roles teams; enter_rulesets rest after

unfoldable pub known_role_teams : Result (Dict String String)
unfolding enter_rulesets
known_role_teams = enter_rulesets all_rulesets []
