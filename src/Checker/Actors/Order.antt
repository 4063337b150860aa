-- ===== src/Checker/Actors/Order.antt =====
-- What check_i2 and check_i6 report, against the events in the order of the log.
use werewolf_agent.Checker.Actors.{
  active_action_types, acts_after, by_sequence, causes, check_i2, check_i6, dead_actor,
  first_death_sequence, first_time, lacks_cause, late, ordered, uncaused,
}
use werewolf_agent.Checker.Rows.{RunArtifacts, gathered, get-update, is_death_commit, update}
use werewolf_agent.Log.{Event}
use werewolf_agent.Prelude.{
  Bool, Bool-cases, Dict, List, String, [], all, all-insert, all-same, all-sorted, any, any-sorted,
  arith, comprehension-empty, elem, eq_iff, filter, get, if◌then◌else◌, inl, inr, insert, leb, none,
  not, refl, some, string_eq, sym, true, ℕ, ◌&&◌, ◌==◌, ◌||◌, ◌↔◌, ◌∷◌, ◌≡◌,
}

-- not later than any death of `actor`
abbrev pub not_after : (actor : String) → ℕ → List Event → Bool
not_after actor n = all (λ d. not (is_death_commit d && d.target == actor) || leb n d.sequence)

abbrev deaths_from : List Event → Dict String ℕ → Dict String ℕ
deaths_from events =
    gathered (λ (e : Event). e.target) (λ e. first_time e.sequence) (filter is_death_commit events)

-- an entry stays once it is there
deaths_from-kept :
    (events : List Event) (d : Dict String ℕ) (actor : String) (n : ℕ)
    → get d actor ≡ some n
    → get (deaths_from events d) actor ≡ some n
deaths_from-kept [] d actor n h = h
deaths_from-kept (e ∷ events) d actor n h = elim (Bool-cases (is_death_commit e)) [
  | inl k ↦
      let kept : get (update d e.target (first_time e.sequence)) actor ≡ some n =
        (rw (get-update d e.target actor (first_time e.sequence))
          (elim (Bool-cases (e.target == actor)) [
            | inl equal ↦ rw (equal, (eq_iff e.target actor).0 equal, h) refl
            | inr other ↦ rw (other, h) refl
          ])) in
      rw k (deaths_from-kept events (update d e.target (first_time e.sequence)) actor n kept)
  | inr k ↦ rw k (deaths_from-kept events d actor n h)
]

not_after-later :
    (actor : String) (n m : ℕ) (events : List Event)
    → all (λ d. leb m d.sequence) events ≡ true
    → leb n m ≡ true
    → not_after actor n events ≡ true
not_after-later actor n m [] h k = refl
not_after-later actor n m (e ∷ events) h k = ground (arith, not_after-later actor n m events)

-- each event against all behind it
behind : List Event → Bool
behind [] = true
behind (e ∷ events) = all (λ d. leb e.sequence d.sequence) events && behind events

all_later :
    (e f : Event) (events : List Event)
    → leb e.sequence f.sequence ≡ true
    → all (λ d. leb f.sequence d.sequence) events ≡ true
    → all (λ d. leb e.sequence d.sequence) events ≡ true
all_later e f [] h k = refl
all_later e f (g ∷ events) h k = ground (arith, all_later e f events)

update_first :
    (d : Dict String ℕ) (e : Event) (actor : String)
    → get d actor ≡ none
    → get (update d e.target (first_time e.sequence)) actor
      ≡ (if e.target == actor then some e.sequence else none)
update_first d e actor k =
    rw (get-update d e.target actor (first_time e.sequence))
      (elim (Bool-cases (e.target == actor)) [
        | inl equal ↦ rw (equal, (eq_iff e.target actor).0 equal, k) refl
        | inr other ↦ rw (other, k) refl
      ])

late-deaths_from :
    (events : List Event) (d : Dict String ℕ) (actor : String) (n : ℕ)
    → behind events ≡ true
    → get d actor ≡ none
    → late (get (deaths_from events d) actor) n ≡ not (not_after actor n events)
unfolding behind
late-deaths_from [] d actor n h k = rw k refl
late-deaths_from (e ∷ events) d actor n h k =
    let earliest : all (λ d. leb e.sequence d.sequence) events ≡ true = ground (arith, h) in
    let later : behind events ≡ true = ground (arith, h) in
    let new = update d e.target (first_time e.sequence) in
    elim (Bool-cases (is_death_commit e)) [
      | inr other ↦ rw (other) (late-deaths_from events d actor n later k)
      | inl death ↦ elim (Bool-cases (e.target == actor)) [
        | inr other ↦
            let still : get new actor ≡ none = rw (update_first d e actor k, other) refl in
            rw (death, other) (late-deaths_from events new actor n later still)
        | inl equal ↦
            let here : get new actor ≡ some e.sequence =
              rw (update_first d e actor k, equal) refl in
            rw (death, equal, deaths_from-kept events new actor e.sequence here)
              (ground (arith, not_after-later actor n e.sequence events earliest))
      ]
    ]

behind-insert :
    (e : Event) (events : List Event)
    → behind events ≡ true
    → behind (insert by_sequence e events) ≡ true
unfolding behind
behind-insert e [] h = refl
behind-insert e (f ∷ events) h = elim (Bool-cases (leb e.sequence f.sequence)) [
  | inl first ↦ rw first (ground (arith, h, all_later e f events))
  | inr other ↦
      rw (other, all-insert by_sequence (λ d. leb f.sequence d.sequence) e events)
        (ground (arith, h, behind-insert e events))
]

behind-ordered : (events : List Event) → behind (ordered events) ≡ true
unfolding behind
behind-ordered [] = refl
behind-ordered (e ∷ events) = behind-insert e (ordered events) (behind-ordered events)

-- the deaths before the actor's action, in the sorted events and in those of the log
acts_after-not_after :
    (events : List Event) (e : Event)
    → acts_after (first_death_sequence events) e
      ≡ (elem e.type active_action_types && not (not_after e.actor e.sequence events))
unfolding acts_after first_death_sequence
acts_after-not_after events e =
    rw
      (
        sym (
            all-sorted by_sequence
              (λ d. not (is_death_commit d && d.target == e.actor) || leb e.sequence d.sequence)
              events),
        sym (late-deaths_from (ordered events) [] e.actor e.sequence (behind-ordered events) refl),
      )
      refl

-- the event is no action, or no death of its actor comes before it
abbrev pub acts_alive : List Event → Event → Bool
acts_alive events e = not (elem e.type active_action_types) || not_after e.actor e.sequence events

-- the event is no player_died, or a possible cause comes before it
abbrev pub has_cause : List Event → Event → Bool
has_cause events e = not (e.type == "player_died") || any (causes e) events

acts_after-acts_alive :
    (events : List Event) (e : Event)
    → not (acts_after (first_death_sequence events) e) ≡ acts_alive events e
acts_after-acts_alive events e = rw (acts_after-not_after events e) (ground arith)

lacks_cause-has_cause :
    (events : List Event) (e : Event) → not (lacks_cause (ordered events) e) ≡ has_cause events e
unfolding lacks_cause
lacks_cause-has_cause events e = rw (any-sorted by_sequence (causes e) events) (ground arith)

-- check_i2 reports nothing exactly if no action of the log is later than a death of its actor, and
-- check_i6 exactly if every player_died has an earlier possible cause, in whatever order the log is.
pub checks-Ordered :
    (arts : RunArtifacts)
    → ((check_i2 arts ≡ []) ↔ (all (acts_alive arts.events) arts.events ≡ true))
      × ((check_i6 arts ≡ []) ↔ (all (has_cause arts.events) arts.events ≡ true))
unfolding check_i2 check_i6
checks-Ordered arts =
    let dead = first_death_sequence arts.events in
    let events = ordered arts.events in
    (
      rw
          (sym (
            all-same (λ e. not (acts_after dead e)) (acts_alive arts.events) arts.events
              (acts_after-acts_alive arts.events)))
          (comprehension-empty (dead_actor arts) (acts_after dead) arts.events),
      rw
          (
            sym (all-sorted by_sequence (has_cause arts.events) arts.events),
            sym (
                all-same (λ e. not (lacks_cause events e)) (has_cause arts.events) events
                  (lacks_cause-has_cause arts.events)),
          )
          (comprehension-empty (uncaused arts) (lacks_cause events) events),
    )
