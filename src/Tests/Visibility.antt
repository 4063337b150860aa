-- ===== src/Tests/Visibility.antt =====
-- The theorems on what an observer is shown at concrete inputs.
use werewolf_agent.Log.{Event, Player}
use werewolf_agent.Prelude.{
  Bool, List, String, [], false, get, refl, some, string_eq, true, ℕ, ◌∷◌, ◌≡◌,
}
use werewolf_agent.Runtime.Ruleset.{known_role_teams}
use werewolf_agent.Visibility.Observer.{seat_role, team_werewolf}
use werewolf_agent.Visibility.Projection.{PlayerView, TrustEntry, build_player_projection}
use werewolf_agent.Visibility.Projection.Events.{build_proof, project_events}
use werewolf_agent.Visibility.Projection.Seats.{IsFaithful, project_events-IsFaithful}
use werewolf_agent.Visibility.Projection.Redacted.{redacted}
use werewolf_agent.Visibility.Trust.{
  GodSnapshot, RoleSnapshot, Snapshot, build_seat_role_index, god_view_of, other_snapshot,
  role_projection,
}
use werewolf_agent.Visibility.Trust.Shown.{shown-redacted}
use werewolf_agent.Visibility.Trust.Sources.{IsBacked, trusted-IsBacked}

abbrev wolf_snapshot : (pid : String) (round : ℕ) → RoleSnapshot
wolf_snapshot pid round = record {
  player_id = pid;
  round = round;
  phase = "night";
  role = some "werewolf";
  team = some "werewolf";
  alive_players = some ("p1" ∷ "p2" ∷ "p3" ∷ []);
  projected_known_roles = some (("p1", "werewolf") ∷ ("p2", "werewolf") ∷ ("p3", "unknown") ∷ []);
}

abbrev end_of_night : GodSnapshot
end_of_night = record {
  round = 1;
  phase = "night";
  players =
      record { player_id = "p2"; role = some "werewolf"; team = some "werewolf" }
      ∷ record { player_id = "p3"; role = some "seer"; team = some "villager" }
      ∷ [];
  alive_players = some ("p1" ∷ "p2" ∷ []);
}

-- p1 has two snapshots of its own, p2 and p3 have none
abbrev snapshots : List Snapshot
snapshots =
    role_projection (wolf_snapshot "p1" 2)
    ∷ god_view_of end_of_night
    ∷ role_projection (wolf_snapshot "p1" 1)
    ∷ other_snapshot
    ∷ []

abbrev shown_of :
    (player_id display_role display_team : String)
    → (alive : Bool) → (visibility source : String) → PlayerView
shown_of player_id display_role display_team alive visibility source = record {
  player_id = player_id;
  display_role = display_role;
  display_team = display_team;
  alive = some alive;
  visibility = visibility;
  source = source;
}

-- p1 sees itself, and not that p2 is a wolf, which only the god snapshot and its own known roles say
seat_of_wolf :
    build_player_projection (build_seat_role_index snapshots) (seat_role "p1")
    ≡ shown_of "p1" "werewolf" "werewolf" true "self" "role_projection_snapshot"
      ∷ shown_of "p2" "unknown" "unknown" true "hidden" "projected_known_roles"
      ∷ shown_of "p3" "unknown" "unknown" false "hidden" "projected_known_roles"
      ∷ []
unfolding build_player_projection build_seat_role_index known_role_teams
seat_of_wolf = refl

-- the wolf team sees p1, which an own snapshot tells, and not p2
team_of_wolves :
    build_player_projection (build_seat_role_index snapshots) team_werewolf
    ≡ shown_of "p1" "werewolf" "werewolf" true "team" "role_projection_snapshot"
      ∷ shown_of "p2" "unknown" "unknown" true "hidden" "god_snapshot"
      ∷ shown_of "p3" "unknown" "unknown" false "hidden" "god_snapshot"
      ∷ []
unfolding build_player_projection build_seat_role_index
team_of_wolves = refl

abbrev wolf_entry : TrustEntry
wolf_entry = record {
  role = some "werewolf";
  team = some "werewolf";
  alive = some true;
  role_source = some "role_projection_snapshot";
  team_source = some "role_projection_snapshot";
  alive_source = some "god_snapshot";
  projected_known_roles = some (("p1", "werewolf") ∷ ("p2", "werewolf") ∷ ("p3", "unknown") ∷ []);
}

wolf_entry-there : get (build_seat_role_index snapshots) "p1" ≡ some wolf_entry
unfolding build_seat_role_index
wolf_entry-there = refl

trusted-IsBacked_example : IsBacked snapshots "p1" wolf_entry
trusted-IsBacked_example = trusted-IsBacked snapshots "p1" wolf_entry wolf_entry-there refl

abbrev wolf_event : Event
wolf_event = record {
  event_id = "e1";
  sequence = 1;
  round = 1;
  phase = "night";
  type = "werewolf_kill";
  actor = "p1";
  target = "p3";
  visibility = "werewolf_team";
  summary = "";
  visible_info_refs = [];
}

shown-redacted_example :
    (build_player_projection
        (redacted (seat_role "p1") (build_seat_role_index snapshots))
        (seat_role "p1")
      ≡ build_player_projection (build_seat_role_index snapshots) (seat_role "p1"))
    × (project_events
          (wolf_event ∷ [])
          (seat_role "p1")
          (redacted (seat_role "p1") (build_seat_role_index snapshots))
        ≡ project_events (wolf_event ∷ []) (seat_role "p1") (build_seat_role_index snapshots))
    × (build_proof (redacted (seat_role "p1") (build_seat_role_index snapshots)) (seat_role "p1")
        ≡ build_proof (build_seat_role_index snapshots) (seat_role "p1"))
shown-redacted_example = shown-redacted snapshots (wolf_event ∷ []) (seat_role "p1")

abbrev wolf : Player
wolf = record { player_id = "p1"; role = "werewolf"; team = "werewolf" }

abbrev public_event : Event
public_event = record wolf_event { event_id = "e2"; sequence = 2; visibility = "public" }

abbrev seer_event : Event
seer_event = record wolf_event { event_id = "e3"; sequence = 3; visibility = "seer" }

project_events-IsFaithful_example : IsFaithful wolf (wolf_event ∷ public_event ∷ seer_event ∷ []) (
    project_events
      (wolf_event ∷ public_event ∷ seer_event ∷ [])
      (seat_role "p1")
      (build_seat_role_index snapshots))
unfolding build_seat_role_index
project_events-IsFaithful_example =
    project_events-IsFaithful wolf (wolf_event ∷ public_event ∷ seer_event ∷ [])
      (build_seat_role_index snapshots) refl refl refl
