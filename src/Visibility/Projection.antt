-- ===== src/Visibility/Projection.antt =====
-- observer_projection.py: what a perspective is shown of the players. An entry of the trust index is a dictionary; a key that it lacks is `none` here.
pub mod Events
pub mod Filtered
pub mod Seats
pub mod Redacted
pub mod NoSecrets
use werewolf_agent.Prelude.{
  Bool, Dict, List, Option, String, [], eq_opt, get, get_default, if◌then◌else◌, is_empty, keys,
  map, none, some, sorted, str_leb, string_eq, ◌&&◌, ◌==◌, ◌||◌, ◌∷◌,
}
use werewolf_agent.Prelude.Result.{err, ok}
use werewolf_agent.Runtime.Ruleset.{known_role_teams}
use werewolf_agent.Visibility.Observer.{
  Perspective, god, public, seat_role, team_werewolf, trusted_source,
}

pub record TrustEntry : Type 0 where
  pub role : Option String
  pub team : Option String
  pub alive : Option Bool
  pub role_source : Option String
  pub team_source : Option String
  pub alive_source : Option String
  pub projected_known_roles : Option (Dict String String)

abbrev pub TrustIndex : Type 0
TrustIndex = Dict String TrustEntry

-- `{"player_id": pid}`
abbrev pub bare_entry : TrustEntry
bare_entry = record {
  role = none;
  team = none;
  alive = none;
  role_source = none;
  team_source = none;
  alive_source = none;
  projected_known_roles = none;
}

-- `str(entry.get(key, "unknown"))`
abbrev pub or_unknown : Option String → String
or_unknown none = "unknown"
or_unknown (some s) = s

abbrev pub seat_of : TrustIndex → String → TrustEntry
seat_of index pid = get_default index pid bare_entry

-- KNOWN_ROLE_TEAMS, which is built when the program is loaded
unfoldable pub known_teams : Dict String String
known_teams = elim known_role_teams [ ok teams ↦ teams | err e ↦ [] ]

unfoldable pub is_werewolf_role : String → Bool
unfolding known_teams
is_werewolf_role role = eq_opt "werewolf" (get known_teams role)

abbrev pub default_player_ids : List String
default_player_ids = "p1" ∷ "p2" ∷ "p3" ∷ "p4" ∷ "p5" ∷ "p6" ∷ []

abbrev pub infer_player_ids : TrustIndex → List String
infer_player_ids index = if is_empty index then default_player_ids else sorted str_leb (keys index)

-- an entry of the player projection
pub record PlayerView : Type 0 where
  pub player_id : String
  pub display_role : String
  pub display_team : String
  pub alive : Option Bool
  pub visibility : String
  pub source : String

abbrev pub is_trusted : Option String → Bool
is_trusted source = or_unknown source == trusted_source

unfoldable pub god_view : String → TrustEntry → PlayerView
god_view pid e = record {
  player_id = pid;
  display_role = or_unknown e.role;
  display_team = or_unknown e.team;
  alive = e.alive;
  visibility = "full";
  source = or_unknown e.role_source;
}

unfoldable pub public_view : String → TrustEntry → PlayerView
public_view pid e = record {
  player_id = pid;
  display_role = "unknown";
  display_team = "unknown";
  alive = e.alive;
  visibility = "public";
  source = or_unknown e.alive_source;
}

unfoldable pub own_view : String → TrustEntry → PlayerView
own_view pid e = record {
  player_id = pid;
  display_role = if is_trusted e.role_source then or_unknown e.role else "unknown";
  display_team = if is_trusted e.team_source then or_unknown e.team else "unknown";
  alive = e.alive;
  visibility = "self";
  source = or_unknown e.role_source;
}

-- the role of `pid` that the seat's own projected_known_roles names
abbrev pub known_role : Option (Dict String String) → String → String
known_role none pid = "unknown"
known_role (some roles) pid = get_default roles pid "unknown"

unfoldable pub other_view : (role : String) → String → TrustEntry → PlayerView
unfolding is_werewolf_role known_teams
other_view role pid e =
    let hidden = role == "unknown" || is_werewolf_role role in
    record {
      player_id = pid;
      display_role = if hidden then "unknown" else role;
      display_team = if hidden then "unknown" else get_default known_teams role "villager";
      alive = e.alive;
      visibility = "hidden";
      source = "projected_known_roles";
    }

unfoldable pub seat_view : String → TrustEntry → String → TrustEntry → PlayerView
unfolding own_view other_view
seat_view role_player self_entry pid e =
    if pid == role_player
    then own_view pid e
    else other_view (known_role self_entry.projected_known_roles pid) pid e

abbrev pub both_trusted : TrustEntry → Bool
both_trusted e = is_trusted e.role_source && is_trusted e.team_source

unfoldable pub team_view : String → TrustEntry → PlayerView
team_view pid e =
    if both_trusted e && or_unknown e.team == "werewolf"
    then record {
      player_id = pid;
      display_role = or_unknown e.role;
      display_team = or_unknown e.team;
      alive = e.alive;
      visibility = "team";
      source = trusted_source;
    }
    else record {
      player_id = pid;
      display_role = "unknown";
      display_team = "unknown";
      alive = e.alive;
      visibility = "hidden";
      source = if both_trusted e then trusted_source else or_unknown e.role_source;
    }

-- the branch of build_player_projection for one player
unfoldable pub player_view : TrustIndex → Perspective → String → PlayerView
unfolding god_view public_view seat_view team_view
player_view index god pid = god_view pid (seat_of index pid)
player_view index public pid = public_view pid (seat_of index pid)
player_view index (seat_role p) pid = seat_view p (seat_of index p) pid (seat_of index pid)
player_view index team_werewolf pid = team_view pid (seat_of index pid)

unfoldable pub build_player_projection : TrustIndex → Perspective → List PlayerView
unfolding player_view
build_player_projection index p = map (player_view index p) (infer_player_ids index)
