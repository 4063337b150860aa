-- ===== src/Runtime/State.antt =====
-- action_runtime/state.py: the read model that the rule layer judges over. A `frozenset` is a list
-- of which only the membership is read.
use werewolf_agent.Prelude.{
  Bool, Dict, List, Option, String, eq_opt, get, has_key, if◌then◌else◌, none, some, string_eq,
}

pub record RuntimeState : Type 0 where
  pub alive : List String
  -- player_id -> role
  pub roles : Dict String String
  -- tonight's pending wolf victim
  pub night_victim : Option String
  -- the last effective target of the guard
  pub last_guarded_target : Option String
  -- player_id -> team
  pub teams : Option (Dict String String)

role_is_wolf : RuntimeState → String → Bool
role_is_wolf s pid = eq_opt "werewolf" (get s.roles pid)

team_is_wolf : Option (Dict String String) → String → Bool → Bool
team_is_wolf none pid by_role = by_role
team_is_wolf (some teams) pid by_role =
    if has_key teams pid then eq_opt "werewolf" (get teams pid) else by_role

unfoldable pub is_wolf : RuntimeState → String → Bool
unfolding role_is_wolf team_is_wolf
is_wolf s pid = team_is_wolf s.teams pid (role_is_wolf s pid)
