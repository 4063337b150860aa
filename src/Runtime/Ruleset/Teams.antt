-- ===== src/Runtime/Ruleset/Teams.antt =====
-- known_role_teams of action_runtime/ruleset.py: the role table over all rulesets.
use werewolf_agent.Prelude.{
  All, Dict, List, String, [], arith, eq_iff, get, get-put, refl, some, string_eq, ◌∷◌, ◌≡◌, ◌≢◌,
}
use werewolf_agent.Prelude.Result.{>>=-eq-ok, err, ok, value_error}
use werewolf_agent.Runtime.Abilities.{RoleDefinition}
use werewolf_agent.Runtime.Ruleset.{
  BoardRuleset, enter_role, enter_roles, enter_rulesets, known_role_teams,
}

abbrev pub HasTeam : Dict String String → RoleDefinition → Type 0
HasTeam teams r = get teams r.role ≡ some r.team

-- Entering a role keeps the team of every role that is in the table.
enter_role-keeps :
    (teams after : Dict String String) (r : RoleDefinition) (role team : String)
    → enter_role teams r ≡ ok after
    → get teams role ≡ some team
    → get after role ≡ some team
unfolding enter_role
enter_role-keeps teams after r role team h k =
    ground (arith, get-put teams r.role role r.team, eq_iff r.role role, eq_iff team r.team)

enter_role-HasTeam :
    (teams after : Dict String String) (r : RoleDefinition)
    → enter_role teams r ≡ ok after
    → HasTeam after r
unfolding enter_role
enter_role-HasTeam teams after r h =
    ground (arith, get-put teams r.role r.role r.team, eq_iff r.role r.role)

enter_roles-keeps :
    (roles : List RoleDefinition) (teams after : Dict String String) (role team : String)
    → enter_roles roles teams ≡ ok after
    → get teams role ≡ some team
    → get after role ≡ some team
unfolding enter_roles
enter_roles-keeps [] teams after role team h k = cc
enter_roles-keeps (r ∷ roles) teams after role team h k =
    let (mid, first, rest) = >>=-eq-ok (enter_role teams r) (enter_roles roles) h in
    enter_roles-keeps roles mid after role team rest
      (enter_role-keeps teams mid r role team first k)

enter_roles-HasTeam :
    (roles : List RoleDefinition) (teams after : Dict String String)
    → enter_roles roles teams ≡ ok after
    → All (HasTeam after) roles
unfolding enter_roles
enter_roles-HasTeam [] teams after h = tt
enter_roles-HasTeam (r ∷ roles) teams after h =
    let (mid, first, rest) = >>=-eq-ok (enter_role teams r) (enter_roles roles) h in
    (
      enter_roles-keeps roles mid after r.role r.team rest (enter_role-HasTeam teams mid r first),
      enter_roles-HasTeam roles mid after rest,
    )

enter_rulesets-keeps :
    (rulesets : List BoardRuleset) (teams after : Dict String String) (role team : String)
    → enter_rulesets rulesets teams ≡ ok after
    → get teams role ≡ some team
    → get after role ≡ some team
unfolding enter_rulesets
enter_rulesets-keeps [] teams after role team h k = cc
enter_rulesets-keeps (rs ∷ rest) teams after role team h k =
    let (mid, first, others) = >>=-eq-ok (enter_roles rs.roles teams) (enter_rulesets rest) h in
    enter_rulesets-keeps rest mid after role team others
      (enter_roles-keeps rs.roles teams mid role team first k)

All-keeps :
    (rulesets : List BoardRuleset) (mid after : Dict String String)
    → enter_rulesets rulesets mid ≡ ok after
    → (roles : List RoleDefinition) → All (HasTeam mid) roles
    → All (HasTeam after) roles
All-keeps rulesets mid after h [] k = tt
All-keeps rulesets mid after h (r ∷ roles) k = (
  enter_rulesets-keeps rulesets mid after r.role r.team h k.0,
  All-keeps rulesets mid after h roles k.1,
)

-- If the role table over a list of rulesets is built without an exception, then it maps every role
-- of every one of the rulesets to the team that the ruleset gives it.
pub enter_rulesets-HasTeam :
    (rulesets : List BoardRuleset) (teams after : Dict String String)
    → enter_rulesets rulesets teams ≡ ok after
    → All (λ rs. All (HasTeam after) rs.roles) rulesets
unfolding enter_rulesets
enter_rulesets-HasTeam [] teams after h = tt
enter_rulesets-HasTeam (rs ∷ rest) teams after h =
    let (mid, first, others) = >>=-eq-ok (enter_roles rs.roles teams) (enter_rulesets rest) h in
    (
      All-keeps rest mid after others rs.roles (enter_roles-HasTeam rs.roles teams mid first),
      enter_rulesets-HasTeam rest mid after others,
    )

-- The other way round: a role that changes its team stops the table.
pub enter_role_conflict :
    (teams : Dict String String) (r : RoleDefinition) (team : String)
    → get teams r.role ≡ some team
    → team ≢ r.team
    → enter_role teams r ≡ err (value_error r.role)
unfolding enter_role
enter_role_conflict teams r team h k = ground (arith, eq_iff team r.team)

-- The table over the shipped rulesets is built without an exception.
pub known_role_teams_lem :
    known_role_teams
    ≡ ok (
        ("werewolf", "werewolf")
        ∷ ("seer", "villager")
        ∷ ("witch", "villager")
        ∷ ("villager", "villager")
        ∷ ("hunter", "villager")
        ∷ ("guard", "villager")
        ∷ [])
unfolding known_role_teams enter_rulesets enter_roles enter_role
known_role_teams_lem = refl
