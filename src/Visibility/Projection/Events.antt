-- ===== src/Visibility/Projection/Events.antt =====
-- observer_projection.py: what a perspective is shown of the events, and the proof section.
-- the entry as event_visible_in_projection reads it
use werewolf_agent.Log.{Event}
use werewolf_agent.Prelude.{
  Bool, Dict, List, Option, String, [], any, get, get_default, if◌then◌else◌, map, none, put, some,
  string_eq, ℕ, ◌++◌, ◌+◌, ◌∷◌,
}
use werewolf_agent.Visibility.Observer.{
  Perspective, SeatEntry, SeatIndex, event_visible_in_projection, seat_role, team_werewolf,
}
use werewolf_agent.Visibility.Projection.{TrustEntry, TrustIndex, is_trusted, or_unknown}

abbrev pub trusted_part : TrustEntry → SeatEntry
trusted_part e = record {
  role = or_unknown e.role;
  team = or_unknown e.team;
  role_source = or_unknown e.role_source;
  team_source = or_unknown e.team_source;
}

abbrev pub seat_index_of : TrustIndex → SeatIndex
seat_index_of index = map (λ entry. (entry.0, trusted_part entry.1)) index

pub record EventProjection : Type 0 where
  -- each event with the reason why it is shown
  pub events : List (Event × String)
  pub hidden_event_count : ℕ
  pub event_visibility_reasons : Dict String ℕ

-- the loop of project_events, with `visible` so far
unfoldable pub enter_visible : EventProjection → Event → Bool × String → EventProjection
enter_visible shown e (is_visible, reason) = record {
  events = if is_visible then shown.events ++ (e, reason) ∷ [] else shown.events;
  hidden_event_count =
      if is_visible then shown.hidden_event_count else shown.hidden_event_count + 1;
  event_visibility_reasons =
      put shown.event_visibility_reasons reason
        (get_default shown.event_visibility_reasons reason 0 + 1);
}

unfoldable pub project_from :
    List Event → Perspective → SeatIndex → EventProjection → EventProjection
unfolding enter_visible
project_from [] p seats shown = shown
project_from (e ∷ events) p seats shown =
    project_from events p seats (enter_visible shown e (event_visible_in_projection e p seats))

unfoldable pub project_events : List Event → Perspective → TrustIndex → EventProjection
unfolding project_from event_visible_in_projection
project_events events p index =
    project_from events p (seat_index_of index)
      (record { events = []; hidden_event_count = 0; event_visibility_reasons = [] })

-- the proof section, without its fixed list of rules
pub record ProofSection : Type 0 where
  pub source : String
  -- the player, the role and the team of `role:pN`
  pub self : Option (String × String × String)
  pub team : Option String

unfoldable pub self_proof : String → Option TrustEntry → Option (String × String × String)
self_proof pid none = none
self_proof pid (some e) =
    if is_trusted e.role_source then some (pid, or_unknown e.role, or_unknown e.team) else none

unfoldable pub self_part : TrustIndex → Perspective → Option (String × String × String)
unfolding self_proof
self_part index (seat_role p) = self_proof p (get index p)
self_part index _ = none

abbrev pub team_part : Perspective → Option String
team_part team_werewolf = some "werewolf"
team_part _ = none

unfoldable pub build_proof : TrustIndex → Perspective → ProofSection
unfolding self_part
build_proof index p = record {
  source =
      if any (λ entry. is_trusted entry.1.role_source) index
      then "snapshots"
      else "insufficient_artifacts";
  self = self_part index p;
  team = team_part p;
}
