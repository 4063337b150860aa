-- ===== src/Visibility/Projection/Filtered.antt =====
-- project_events of observer_projection.py against the list that it filters.
use werewolf_agent.Log.{Event}
use werewolf_agent.Prelude.{
  append-nil, append_assoc, Bool, List, String, [], ap, arith, false, filter, if◌then◌else◌, length,
  map, map-snoc, not, refl, sym, true, ℕ, ◌++◌, ◌+◌, ◌∙◌, ◌∷◌, ◌≡◌,
}
use werewolf_agent.Visibility.Observer.{Perspective, SeatIndex, event_visible_in_projection}
use werewolf_agent.Visibility.Projection.{TrustIndex}
use werewolf_agent.Visibility.Projection.Events.{
  EventProjection, enter_visible, project_events, project_from, seat_index_of,
}

-- what the rule says of an event
abbrev pub is_shown : Perspective → SeatIndex → Event → Bool
is_shown p seats e = (event_visible_in_projection e p seats).0

shown_events : EventProjection → List Event
shown_events shown = map (λ entry. entry.0) shown.events

append_if :
    (b : Bool) (xs : List Event) (e : Event) (ys : List Event)
    → (if b then xs ++ e ∷ [] else xs) ++ ys ≡ xs ++ (if b then e ∷ ys else ys)
append_if true xs e ys = append_assoc xs (e ∷ []) ys
append_if false xs e ys = refl

count_if :
    (b : Bool) (n : ℕ) (e : Event) (ys : List Event)
    → (if b then n else n + 1) + length ys ≡ n + length (if not b then e ∷ ys else ys)
count_if true n e ys = refl
count_if false n e ys = omega arith

module _ (p : Perspective) (seats : SeatIndex) where
  enter_visible-events :
      (e : Event) (shown : EventProjection) (verdict : Bool × String)
      → shown_events (enter_visible shown e verdict)
        ≡ (if verdict.0 then shown_events shown ++ e ∷ [] else shown_events shown)
  unfolding enter_visible shown_events
  enter_visible-events e shown (true, reason) = map-snoc (λ entry. entry.0) shown.events (e, reason)
  enter_visible-events e shown (false, reason) = refl

  enter_visible-hidden :
      (e : Event) (shown : EventProjection) (verdict : Bool × String)
      → (enter_visible shown e verdict).hidden_event_count
        ≡ (if verdict.0 then shown.hidden_event_count else shown.hidden_event_count + 1)
  unfolding enter_visible
  enter_visible-hidden e shown (true, reason) = refl
  enter_visible-hidden e shown (false, reason) = refl

  project_from-events :
      (events : List Event) (shown : EventProjection)
      → shown_events (project_from events p seats shown)
        ≡ shown_events shown ++ filter (is_shown p seats) events
  unfolding project_from
  project_from-events [] shown = sym (append-nil (shown_events shown))
  project_from-events (e ∷ events) shown =
      let verdict = event_visible_in_projection e p seats in
      let rest = project_from-events events (enter_visible shown e verdict) in
      let entered = enter_visible-events e shown verdict in
      rest
      ∙ ap (λ xs. xs ++ filter (is_shown p seats) events) entered
      ∙ append_if verdict.0 (shown_events shown) e (filter (is_shown p seats) events)

  project_from-hidden :
      (events : List Event) (shown : EventProjection)
      → (project_from events p seats shown).hidden_event_count
        ≡ shown.hidden_event_count + length (filter (λ e. not (is_shown p seats e)) events)
  unfolding project_from
  project_from-hidden [] shown = omega arith
  project_from-hidden (e ∷ events) shown =
      let verdict = event_visible_in_projection e p seats in
      let rest = project_from-hidden events (enter_visible shown e verdict) in
      let entered = enter_visible-hidden e shown verdict in
      rest
      ∙ ap (λ n. n + length (filter (λ f. not (is_shown p seats f)) events)) entered
      ∙ count_if verdict.0 shown.hidden_event_count e
          (filter (λ f. not (is_shown p seats f)) events)

-- The loop as a filter and a count.
pub project_events-filter :
    (events : List Event) (p : Perspective) (index : TrustIndex)
    → (map (λ entry. entry.0) (project_events events p index).events
        ≡ filter (is_shown p (seat_index_of index)) events)
      × ((project_events events p index).hidden_event_count
          ≡ length (filter (λ e. not (is_shown p (seat_index_of index) e)) events))
unfolding project_events shown_events
project_events-filter events p index = (
  project_from-events p (seat_index_of index) events _,
  project_from-hidden p (seat_index_of index) events _ ∙ omega arith,
)
