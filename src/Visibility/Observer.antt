-- ===== src/Visibility/Observer.antt =====
-- observer_projection.py: which event a perspective may see, decided from the trusted entries of the
-- seat index; invariants/visibility_oracle.py: the seat index of a game log's players.
use werewolf_agent.Log.{Event, Player}
use werewolf_agent.Prelude.{
  Bool, Dict, List, Option, String, [], concat, elem, false, get, if◌then◌else◌, none, put, some,
  string_eq, true, ◌==◌, ◌∷◌,
}

pub record SeatEntry : Type 0 where
  pub role : String
  pub team : String
  pub role_source : String
  pub team_source : String

abbrev pub SeatIndex : Type 0
SeatIndex = Dict String SeatEntry

-- what `perspective_kind` tells of a perspective's text
pub data Perspective : Type 0 where
  god public team_werewolf : Perspective
  seat_role : String → Perspective

abbrev pub public_event_visibilities : List String
public_event_visibilities = "public" ∷ "all" ∷ []

abbrev pub role_specific_visibilities : List String
role_specific_visibilities = "seer" ∷ "witch" ∷ "guard" ∷ []

abbrev pub trusted_source : String
trusted_source = "role_projection_snapshot"

-- WEREWOLF_TEAM_EVENT_VISIBILITIES of observer_protocol.py
abbrev pub werewolf_team_event_visibilities : List String
werewolf_team_event_visibilities = "public" ∷ "all" ∷ "werewolf_team" ∷ []

unfoldable pub trusted_role : Option SeatEntry → String
trusted_role none = "unknown"
trusted_role (some entry) = if entry.role_source == trusted_source then entry.role else "unknown"

unfoldable pub trusted_team : Option SeatEntry → String
trusted_team none = "unknown"
trusted_team (some entry) = if entry.team_source == trusted_source then entry.team else "unknown"

unfoldable pub trusted_role_for_player : SeatIndex → String → String
unfolding trusted_role
trusted_role_for_player seats pid = trusted_role (get seats pid)

unfoldable pub trusted_team_for_player : SeatIndex → String → String
unfolding trusted_team
trusted_team_for_player seats pid = trusted_team (get seats pid)

-- the branch of a seat's own perspective
unfoldable pub visible_to_role : SeatIndex → String → String → Bool × String
unfolding trusted_role_for_player trusted_team_for_player
visible_to_role seats pid v =
    if elem v public_event_visibilities
    then (true, "public_event")
    else if elem v role_specific_visibilities
    then (if trusted_role_for_player seats pid == v
        then (true, concat (v ∷ "_event" ∷ []))
        else (false, "hidden"))
    else if v == "werewolf_team"
    then (if trusted_team_for_player seats pid == "werewolf"
        then (true, "werewolf_team_event")
        else (false, "hidden"))
    else (false, "hidden")

unfoldable pub event_visible_in_projection : Event → Perspective → SeatIndex → Bool × String
unfolding visible_to_role
event_visible_in_projection e god seats = (true, "god_view")
event_visible_in_projection e public seats =
    (elem e.visibility public_event_visibilities, "public_event")
event_visible_in_projection e (seat_role pid) seats = visible_to_role seats pid e.visibility
event_visible_in_projection e team_werewolf seats =
    if elem e.visibility werewolf_team_event_visibilities
    then (true, "werewolf_team_event")
    else (false, "hidden")

abbrev pub seat_entry : Player → SeatEntry
seat_entry p = record {
  role = p.role;
  team = p.team;
  role_source = trusted_source;
  team_source = trusted_source;
}

-- the dict comprehension over the players
unfoldable pub seat_index_from : List Player → SeatIndex → SeatIndex
seat_index_from [] seats = seats
seat_index_from (p ∷ players) seats = seat_index_from players (put seats p.player_id (seat_entry p))

unfoldable pub seat_index_from_players : List Player → SeatIndex
unfolding seat_index_from
seat_index_from_players players = seat_index_from players []

unfoldable pub entitled : String → Event → SeatIndex → Bool
unfolding event_visible_in_projection
entitled seat e seats = (event_visible_in_projection e (seat_role seat) seats).0
