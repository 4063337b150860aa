-- ===== src/Visibility/Trust/Shown.antt =====
-- What an observer is shown of a run: build_seat_role_index of observer_trust_index.py under the
-- projections of observer_projection.py.
use werewolf_agent.Log.{Event}
use werewolf_agent.Prelude.{List, ◌≡◌}
use werewolf_agent.Visibility.Observer.{Perspective}
use werewolf_agent.Visibility.Projection.{build_player_projection}
use werewolf_agent.Visibility.Projection.Events.{build_proof, project_events}
use werewolf_agent.Visibility.Projection.NoSecrets.{IsPaired, projection-redacted}
use werewolf_agent.Visibility.Projection.Redacted.{redacted}
use werewolf_agent.Visibility.Trust.{Snapshot, build_seat_role_index}
use werewolf_agent.Visibility.Trust.Sources.{trusted-IsBacked}

build_seat_role_index-IsPaired :
    (snapshots : List Snapshot) → IsPaired (build_seat_role_index snapshots)
build_seat_role_index-IsPaired snapshots pid e h t =
    let (s, own, role, team, paired) = trusted-IsBacked snapshots pid e h t in paired

-- Of any snapshots of a run, a perspective is shown the same players, the same events and the same
-- proof section as of the index redacted to what it is entitled to know: everything for god; for
-- the others no role and no team of another player, save the members of the wolf team for that
-- team; for a seat its own role and team only as its own snapshot tells them, and no role of the
-- wolf team among the roles that this snapshot knows.
pub shown-redacted :
    (snapshots : List Snapshot) (events : List Event) (p : Perspective)
    → (build_player_projection (redacted p (build_seat_role_index snapshots)) p
        ≡ build_player_projection (build_seat_role_index snapshots) p)
      × (project_events events p (redacted p (build_seat_role_index snapshots))
          ≡ project_events events p (build_seat_role_index snapshots))
      × (build_proof (redacted p (build_seat_role_index snapshots)) p
          ≡ build_proof (build_seat_role_index snapshots) p)
shown-redacted snapshots events p =
    let (players, shown, proof) = projection-redacted events p (build_seat_role_index snapshots) in
    (players, shown, proof (build_seat_role_index-IsPaired snapshots))
