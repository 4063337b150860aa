-- ===== src/Visibility/Trust.antt =====
-- observer_trust_index.py: which snapshot backs what the observer knows of a player. The snapshots come
-- in the order of their names, parsed, with the types that their writer gives; a file that is no JSON
-- object is left out.
pub mod Sources
pub mod Shown
use werewolf_agent.Participant.Payload.{kept}
use werewolf_agent.Prelude.{
  Bool, Dict, List, Option, String, [], elem, eqb, filter, get, get_default, if◌then◌else◌, keys,
  leb, ltb, map, none, not, put, some, sorted, str_leb, string_eq, true, ℕ, ◌&&◌, ◌++◌, ◌==◌, ◌||◌,
  ◌∷◌,
}
use werewolf_agent.Visibility.Observer.{trusted_source}
use werewolf_agent.Visibility.Projection.{TrustEntry, TrustIndex, or_unknown}

-- a role_projection snapshot; an `alive_players` that is no list is `none`
pub record RoleSnapshot : Type 0 where
  pub player_id : String
  pub round : ℕ
  pub phase : String
  pub role : Option String
  pub team : Option String
  pub alive_players : Option (List String)
  pub projected_known_roles : Option (Dict String String)

pub record GodPlayer : Type 0 where
  pub player_id : String
  pub role : Option String
  pub team : Option String

-- a god snapshot; `alive_players` may be missing
pub record GodSnapshot : Type 0 where
  pub round : ℕ
  pub phase : String
  pub players : List GodPlayer
  pub alive_players : Option (List String)

pub data Snapshot : Type 0 where
  role_projection : RoleSnapshot → Snapshot
  god_view_of : GodSnapshot → Snapshot
  other_snapshot : Snapshot

abbrev pub phase_rank : Dict String ℕ
phase_rank =
    ("setup", 0)
    ∷ ("night", 1)
    ∷ ("day", 2)
    ∷ ("vote", 3)
    ∷ ("voting", 3)
    ∷ ("game_end", 4)
    ∷ ("result", 4)
    ∷ []

abbrev pub snap_order : (round : ℕ) (phase : String) → ℕ × ℕ
snap_order round phase = (round, get_default phase_rank phase 1)

-- `a >= b` on pairs
abbrev pub not_before : ℕ × ℕ → ℕ × ℕ → Bool
not_before a b = ltb b.0 a.0 || (eqb a.0 b.0 && leb b.1 a.1)

-- the later of a snapshot and the one that was kept before
unfoldable pub later_of : RoleSnapshot → Option RoleSnapshot → RoleSnapshot
later_of s none = s
later_of s (some prev) =
    if not_before (snap_order s.round s.phase) (snap_order prev.round prev.phase) then s else prev

unfoldable pub role_snaps : List Snapshot → Dict String RoleSnapshot → Dict String RoleSnapshot
unfolding later_of
role_snaps [] kept = kept
role_snaps (role_projection s ∷ snapshots) kept =
    role_snaps snapshots
      (if s.player_id == "" then kept else put kept s.player_id (later_of s (get kept s.player_id)))
role_snaps (god_view_of s ∷ snapshots) kept = role_snaps snapshots kept
role_snaps (other_snapshot ∷ snapshots) kept = role_snaps snapshots kept

unfoldable pub god_snaps : List Snapshot → List GodSnapshot
god_snaps [] = []
god_snaps (god_view_of s ∷ snapshots) = s ∷ god_snaps snapshots
god_snaps (role_projection s ∷ snapshots) = god_snaps snapshots
god_snaps (other_snapshot ∷ snapshots) = god_snaps snapshots

-- a set of ids, of which the sorted list is read
abbrev pub add_ids : List String → List String → List String
add_ids [] ids = ids
add_ids (pid ∷ pids) ids = add_ids pids (if elem pid ids then ids else ids ++ pid ∷ [])

abbrev pub listed : Option (List String) → List String
listed none = []
listed (some pids) = pids

unfoldable pub god_player_ids : List GodSnapshot → List String
god_player_ids [] = []
god_player_ids (s ∷ snapshots) =
    filter (λ pid. not (pid == "")) (map (λ (p : GodPlayer). p.player_id) s.players)
    ++ god_player_ids snapshots

unfoldable pub god_alive_ids : List GodSnapshot → List String
god_alive_ids [] = []
god_alive_ids (s ∷ snapshots) = listed s.alive_players ++ god_alive_ids snapshots

unfoldable pub all_player_ids : List Snapshot → List String
unfolding role_snaps god_snaps god_player_ids god_alive_ids
all_player_ids snapshots =
    add_ids (god_alive_ids (god_snaps snapshots))
      (add_ids (god_player_ids (god_snaps snapshots)) (keys (role_snaps snapshots [])))

-- the first value that a god snapshot has for the player
unfoldable pub find_in_players :
    (GodPlayer → Option String) → String → List GodPlayer → Option String
find_in_players field pid [] = none
find_in_players field pid (p ∷ players) =
    let rest = find_in_players field pid players in
    if p.player_id == pid then elim (field p) [ none ↦ rest | some value ↦ some value ] else rest

unfoldable pub find_in_god_snaps :
    (GodPlayer → Option String) → String → List GodSnapshot → Option String
unfolding find_in_players
find_in_god_snaps field pid [] = none
find_in_god_snaps field pid (s ∷ snapshots) =
    let rest = find_in_god_snaps field pid snapshots in
    elim (find_in_players field pid s.players) [ none ↦ rest | some value ↦ some value ]

-- the order and the list of the latest god snapshot with a list of the living
unfoldable pub later_alive :
    GodSnapshot → Option ((ℕ × ℕ) × List String) → List String → Option ((ℕ × ℕ) × List String)
later_alive s none alive = some (snap_order s.round s.phase, alive)
later_alive s (some (order, latest)) alive =
    if not_before (snap_order s.round s.phase) order
    then some (snap_order s.round s.phase, alive)
    else some (order, latest)

unfoldable pub latest_god_alive :
    List GodSnapshot → Option ((ℕ × ℕ) × List String) → Option ((ℕ × ℕ) × List String)
unfolding later_alive
latest_god_alive [] latest = latest
latest_god_alive (s ∷ snapshots) latest =
    latest_god_alive snapshots
      (elim s.alive_players [ none ↦ latest | some alive ↦ later_alive s latest alive ])

-- role and team, each with its source
unfoldable pub told_by : Option String → Option String × Option String
told_by none = (some "unknown", some "unknown")
told_by (some value) = (some value, some "god_snapshot")

-- the living by the own snapshot
unfoldable pub alive_by_own : String → Option RoleSnapshot → Bool × String
alive_by_own pid none = (true, "unknown")
alive_by_own pid (some s) = elim s.alive_players [
  | none ↦ (true, "unknown")
  | some alive ↦ (elem pid alive, "role_projection_snapshot")
]

unfoldable pub alive_of :
    String → Option RoleSnapshot → Option ((ℕ × ℕ) × List String) → Bool × String
unfolding alive_by_own
alive_of pid own none = alive_by_own pid own
alive_of pid own (some (order, alive)) = (elem pid alive, "god_snapshot")

abbrev pub or_no_roles : Option (Dict String String) → Dict String String
or_no_roles none = []
or_no_roles (some roles) = roles

unfoldable pub entry_of : List GodSnapshot → String → Option RoleSnapshot → TrustEntry
unfolding find_in_god_snaps latest_god_alive told_by alive_of
entry_of gods pid none =
    let (role, role_source) = told_by (find_in_god_snaps (λ p. p.role) pid gods) in
    let (team, team_source) = told_by (find_in_god_snaps (λ p. p.team) pid gods) in
    let (alive, alive_source) = alive_of pid none (latest_god_alive gods none) in
    record {
      role = role;
      team = team;
      alive = some alive;
      role_source = role_source;
      team_source = team_source;
      alive_source = some alive_source;
      projected_known_roles = some [];
    }
entry_of gods pid (some s) =
    let (alive, alive_source) = alive_of pid (some s) (latest_god_alive gods none) in
    record {
      role = some (or_unknown s.role);
      team = some (or_unknown s.team);
      alive = some alive;
      role_source = some trusted_source;
      team_source = some trusted_source;
      alive_source = some alive_source;
      projected_known_roles = some (or_no_roles s.projected_known_roles);
    }

unfoldable pub entries : List Snapshot → List String → TrustIndex
unfolding entry_of role_snaps god_snaps
entries snapshots pids =
    map (λ pid. (pid, entry_of (god_snaps snapshots) pid (get (role_snaps snapshots []) pid))) pids

unfoldable pub build_seat_role_index : List Snapshot → TrustIndex
unfolding entries all_player_ids
build_seat_role_index snapshots = entries snapshots (sorted str_leb (all_player_ids snapshots))
