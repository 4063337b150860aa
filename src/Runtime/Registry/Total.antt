-- ===== src/Runtime/Registry/Total.antt =====
-- The registry of action_runtime/registry.py over well-formed rulesets and the shipped boards.
use mathlib.Core.Path.{subst}
use werewolf_agent.Prelude.{
  All, All-elem, Bool, Bool-cases, Dict, List, Option, String, [], all, any, arith, elem, filter,
  find, get, get-put, has_key, if◌then◌else◌, inl, inr, map, none, put, refl, some, string_eq, sym,
  true, ◌==◌, ◌||◌, ◌∙◌, ◌∷◌, ◌≡◌,
}
use werewolf_agent.Prelude.Result.{map_result, ok, ◌>>=◌}
use werewolf_agent.Runtime.Abilities.{AbilityDefinition, RoleDefinition, target_rules}
use werewolf_agent.Runtime.Registry.{
  abilities_for, allowed_actions, by_role, for_role, index_roles, phase_trigger,
}
use werewolf_agent.Runtime.Ruleset.{BoardRuleset, ability, rules_v1, rules_v1_1, rules_v1_2}

-- an ability id of a role is the id of an ability of the ruleset
pub defines : BoardRuleset → String → Bool
defines rs id = any (λ (a : AbilityDefinition). a.action_id == id) rs.abilities

-- an ability with targets names a known target rule
pub has_rule : AbilityDefinition → Bool
has_rule a = a.target_rule == "" || has_key target_rules a.target_rule

pub record IsWellFormed (rs : BoardRuleset) : Type 0 where
  pub abilities_defined : All (λ r. all (defines rs) r.ability_ids ≡ true) rs.roles
  pub rules_known : all has_rule rs.abilities ≡ true

pub rules_v1-IsWellFormed : IsWellFormed rules_v1
unfolding defines has_rule
rules_v1-IsWellFormed = record {
  abilities_defined = (refl, (refl, (refl, (refl, tt))));
  rules_known = refl;
}

pub rules_v1_1-IsWellFormed : IsWellFormed rules_v1_1
unfolding defines has_rule
rules_v1_1-IsWellFormed = record {
  abilities_defined = (refl, (refl, (refl, (refl, (refl, tt)))));
  rules_known = refl;
}

pub rules_v1_2-IsWellFormed : IsWellFormed rules_v1_2
unfolding defines has_rule
rules_v1_2-IsWellFormed = record {
  abilities_defined = (refl, (refl, (refl, (refl, (refl, (refl, tt))))));
  rules_known = refl;
}

found_of_any :
    (abilities : List AbilityDefinition) (id : String)
    → any (λ (a : AbilityDefinition). a.action_id == id) abilities ≡ true
    → (a : AbilityDefinition) × (find (λ (a : AbilityDefinition). a.action_id == id) abilities
        ≡ some a)
found_of_any [] id h = cc
found_of_any (a ∷ abilities) id h = elim (Bool-cases (a.action_id == id)) [
  | inl here ↦ (a, rw here refl)
  | inr not_here ↦
      let (b, found) = found_of_any abilities id (rw not_here at h) in (b, rw not_here found)
]

ability-total :
    (rs : BoardRuleset) (id : String)
    → defines rs id ≡ true
    → (a : AbilityDefinition) × (ability rs id ≡ ok a)
unfolding ability defines
ability-total rs id h = let (a, found) = found_of_any rs.abilities id h in (a, rw found refl)

abilities-total :
    (rs : BoardRuleset) (ids : List String)
    → all (defines rs) ids ≡ true
    → (abilities : List AbilityDefinition) × (map_result (ability rs) ids ≡ ok abilities)
abilities-total rs [] h = ([], refl)
abilities-total rs (id ∷ ids) h =
    let (a, first) = ability-total rs id (ground arith) in
    let (rest, others) = abilities-total rs ids (ground arith) in
    (a ∷ rest, rw (first, others) refl)

some_inj : {a b : RoleDefinition} → some a ≡ some b → a ≡ b
some_inj h = cc

-- every role that the index of the roles holds has its abilities defined
index_roles-All :
    (P : RoleDefinition → Type 0) (roles : List RoleDefinition) (d : Dict String RoleDefinition)
    → ((role : String) (r : RoleDefinition) → get d role ≡ some r → P r)
    → All P roles
    → (role : String) (r : RoleDefinition) → get (index_roles roles d) role ≡ some r
    → P r
unfolding index_roles
index_roles-All P [] d old new role r h = old role r h
index_roles-All P (x ∷ roles) d old new role r h =
    index_roles-All P roles (put d x.role x)
      (λ role' r' h'. entered role' r' (get-put d x.role role' x) h') new.1 role r h
  where
    entered :
        (name : String) (found : RoleDefinition)
        → get (put d x.role x) name ≡ (if x.role == name then some x else get d name)
        → get (put d x.role x) name ≡ some found
        → P found
    entered name found e k = elim (Bool-cases (x.role == name)) [
      | inl hit ↦ let p : some x ≡ some found = rw hit at (sym e ∙ k) in subst P (some_inj p) new.0
      | inr other ↦ old name found (rw other at (sym e ∙ k))
    ]

-- Over a well-formed ruleset the list of a role's abilities for a phase is computed without an
-- exception, whatever the role and the phase, known or not.
pub allowed_actions-total :
    (rs : BoardRuleset) (role phase : String)
    → IsWellFormed rs
    → (actions : List String) × (allowed_actions rs role phase ≡ ok actions)
unfolding allowed_actions abilities_for for_role by_role
allowed_actions-total rs role phase h =
    go (get phase_trigger phase) (get (index_roles rs.roles []) role) known
  where
    known :
        (r : RoleDefinition)
        → get (index_roles rs.roles []) role ≡ some r
        → all (defines rs) r.ability_ids ≡ true
    known =
        index_roles-All (λ r. all (defines rs) r.ability_ids ≡ true) rs.roles [] (λ _ _ e. cc)
          h.abilities_defined role

    go :
        (trig : Option String) (found : Option RoleDefinition)
        → ((r : RoleDefinition) → found ≡ some r → all (defines rs) r.ability_ids ≡ true)
        → (actions : List String) × ((do
          abilities ← for_role rs trig found
          ok (map (λ a. a.action_id) abilities))
            ≡ ok actions)
    go none found ok_ids = ([], refl)
    go (some trig) none ok_ids = ([], refl)
    go (some trig) (some r) ok_ids =
        let (abilities, total) = abilities-total rs r.ability_ids (ok_ids r refl) in
        (map (λ a. a.action_id) (filter (λ a. a.trigger == trig) abilities), rw total refl)

-- The rules of the four original roles are the same on every shipped board.
abbrev pub original_roles : List String
original_roles = "werewolf" ∷ "seer" ∷ "witch" ∷ "villager" ∷ []

abbrev OneRule : Option String → String → Type 0
OneRule trig role =
    (for_role rules_v1_1 trig (get (by_role rules_v1_1) role)
      ≡ for_role rules_v1 trig (get (by_role rules_v1) role))
    × (for_role rules_v1_2 trig (get (by_role rules_v1_2) role)
        ≡ for_role rules_v1 trig (get (by_role rules_v1) role))

each_role : (trig : Option String) → All (OneRule trig) original_roles
unfolding for_role by_role
each_role none = ((refl, refl), ((refl, refl), ((refl, refl), ((refl, refl), tt))))
each_role (some trig) = ((refl, refl), ((refl, refl), ((refl, refl), ((refl, refl), tt))))

-- For each of the roles werewolf, seer, witch and villager, in every phase, the boards rules_v1_1 and
-- rules_v1_2 give exactly the abilities that rules_v1 gives.
pub abilities_for-superset :
    (role phase : String)
    → elem role original_roles ≡ true
    → (abilities_for rules_v1_1 role phase ≡ abilities_for rules_v1 role phase)
      × (abilities_for rules_v1_2 role phase ≡ abilities_for rules_v1 role phase)
unfolding abilities_for
abilities_for-superset role phase h =
    All-elem (OneRule (get phase_trigger phase)) role original_roles
      (each_role (get phase_trigger phase)) h
