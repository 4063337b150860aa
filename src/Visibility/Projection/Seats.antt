-- ===== src/Visibility/Projection/Seats.antt =====
-- project_events of observer_projection.py for a seat, beside the refs that role_visibility.py gives
-- the seat.
use werewolf_agent.Log.{Event, Player}
use werewolf_agent.Participant.Submissions.{named}
use werewolf_agent.Prelude.{
  Bool, List, String, [], all, ap, arith, elem, false, filter, length, map, not, refl, some,
  string_eq, true, ◌==◌, ◌||◌, ◌∙◌, ◌∷◌, ◌≡◌,
}
use werewolf_agent.Runtime.Settler.Deaths.{same}
use werewolf_agent.Visibility.Engine.{
  private_refs_for_role, public_refs, public_visibilities, sees_privately,
}
use werewolf_agent.Visibility.Observer.{entitled, seat_role}
use werewolf_agent.Visibility.Projection.{TrustIndex}
use werewolf_agent.Visibility.Projection.Events.{EventProjection, project_events, seat_index_of}
use werewolf_agent.Visibility.Projection.Filtered.{is_shown, project_events-filter}
use werewolf_agent.Visibility.Witness.{
  IsSeated, engine_shows, engine_visibilities, entitled-eq-engine_shows,
}

filter-same :
    (p q : Event → Bool) (events : List Event)
    → ((e : Event) → elem e.visibility engine_visibilities ≡ true → p e ≡ q e)
    → all (λ e. elem e.visibility engine_visibilities) events ≡ true
    → filter p events ≡ filter q events
filter-same p q [] same known = refl
filter-same p q (e ∷ events) same known =
    rw (same e (ground (arith, known)), filter-same p q events same (ground (arith, known))) refl

elem-filter_or :
    (p q : Event → Bool) (x : String) (events : List Event)
    → elem x (map (λ e. e.event_id) (filter (λ e. p e || q e) events)) ≡ (
        elem x (map (λ e. e.event_id) (filter p events))
        || elem x (map (λ e. e.event_id) (filter q events)))
elem-filter_or p q x [] = refl
elem-filter_or p q x (e ∷ events) = ground (arith, elem-filter_or p q x events)

-- The projection shows a player exactly what the engine does.
pub record IsFaithful (p : Player) (events : List Event) (shown : EventProjection) : Type 0 where
  pub listed :
      map (λ entry. entry.0) shown.events ≡ filter (λ e. engine_shows p e.visibility) events
  pub referred :
      (id : String)
      → elem id (map (λ entry. entry.0.event_id) shown.events) ≡ (
          elem id (public_refs events)
          || elem id (private_refs_for_role events p.role (some p.team)))
  pub hidden :
      shown.hidden_event_count ≡ length (filter (λ e. not (engine_shows p e.visibility)) events)

map-first :
    (entries : List (Event × String))
    → map (λ entry. entry.0.event_id) entries
      ≡ map (λ e. e.event_id) (map (λ entry. entry.0) entries)
map-first [] = refl
map-first (entry ∷ entries) = ap (λ ids. entry.0.event_id ∷ ids) (map-first entries)

-- For a player whose role and team the index has from the player's own snapshot, whose role is not
-- spelled like the wolf channel, and for events with visibilities that the engine uses, the
-- projection for the player's seat lists exactly the events that the engine's rule shows to the
-- player, in their order; their ids are those of the engine's public and private refs for the player;
-- and it counts the other events.
pub project_events-IsFaithful :
    (p : Player) (events : List Event) (index : TrustIndex)
    → IsSeated (seat_index_of index) p
    → (p.role == "werewolf_team") ≡ false
    → all (λ e. elem e.visibility engine_visibilities) events ≡ true
    → IsFaithful p events (project_events events (seat_role p.player_id) index)
unfolding entitled public_refs private_refs_for_role
project_events-IsFaithful p events index seated named known =
    let seats = seat_index_of index in
    let (shown, others) = project_events-filter events (seat_role p.player_id) index in
    let same : (e : Event)
        → elem e.visibility engine_visibilities ≡ true
        → is_shown (seat_role p.player_id) seats e ≡ engine_shows p e.visibility =
      λ e k. entitled-eq-engine_shows p seats e seated named k in
    let listed = shown ∙ filter-same _ (λ e. engine_shows p e.visibility) events same known in
    record {
      listed = listed;
      referred = λ id.
          ap (elem id) (map-first _ ∙ ap (map (λ e. e.event_id)) listed)
          ∙ elem-filter_or (λ e. elem e.visibility public_visibilities)
              (λ e. sees_privately p.role (some p.team) e.visibility) id events;
      hidden =
          others
          ∙ ap length (
              filter-same _ (λ e. not (engine_shows p e.visibility)) events
                (λ e k. ap not (same e k)) known);
    }
