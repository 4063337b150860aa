-- ===== src/Visibility/NoLeak.antt =====
-- The refs of role_visibility.py under the guard of invariants/guards.py.
use werewolf_agent.Log.{Event, Player}
use werewolf_agent.Prelude.{
  Bool, Bool-cases, Dict, List, String, [], all, arith, distinct, elem, elem-append, eq_iff, false,
  filter, get, get-put, inl, inr, map, none, put, refl, some, string_eq, true, ◌&&◌, ◌++◌, ◌==◌,
  ◌∷◌, ◌≡◌,
}
use werewolf_agent.Visibility.Engine.{
  private_refs_for_role, public_refs, public_visibilities, sees_privately,
}
use werewolf_agent.Visibility.Guard.{assert_prompt_entitled, events_by_id}
use werewolf_agent.Visibility.Observer.{SeatIndex, entitled}
use werewolf_agent.Visibility.Witness.{IsSeated, engine_visibilities, entitled-eq-engine_shows}

abbrev ids : List Event → List String
ids events = map (λ e. e.event_id) events

get-absent :
    (events : List Event) (d : Dict String Event) (k : String)
    → elem k (ids events) ≡ false
    → get (events_by_id events d) k ≡ get d k
unfolding events_by_id
get-absent [] d k h = refl
get-absent (e ∷ events) d k h = ground (
  arith,
  get-absent events (put d e.event_id e) k,
  get-put d e.event_id k e,
  eq_iff e.event_id k,
  eq_iff k e.event_id,
)

-- An id of the events that pass a test is the id of such an event in the index.
indexed :
    (p q : Event → Bool) (events : List Event) (d : Dict String Event) (k : String)
    → distinct (ids events) ≡ true
    → all q events ≡ true
    → elem k (ids (filter p events)) ≡ true
    → (e : Event) × (get (events_by_id events d) k ≡ some e) × (p e ≡ true) × (q e ≡ true)
unfolding events_by_id
indexed p q [] d k h a m = cc
indexed p q (e ∷ events) d k h a m = elim (Bool-cases (p e && e.event_id == k)) [
  | inl here ↦ (
    e,
    ground (
      arith,
      get-absent events (put d e.event_id e) k,
      get-put d e.event_id k e,
      eq_iff e.event_id k,
    ),
    ground arith,
    ground arith,
  )
  | inr there ↦
      indexed p q events (put d e.event_id e) k (ground arith) (ground arith)
        (ground (arith, eq_iff e.event_id k, eq_iff k e.event_id))
]

module _ (p : Player) (events : List Event) (seats : SeatIndex) (seated : IsSeated seats p)
    (named : (p.role == "werewolf_team") ≡ false) (unique : distinct (ids events) ≡ true)
    (known : all (λ e. elem e.visibility engine_visibilities) events ≡ true) where
  abbrev refs : List String
  refs = public_refs events ++ private_refs_for_role events p.role (some p.team)

  source_shown :
      (k : String)
      → elem k refs ≡ true
      → (e : Event) × (get (events_by_id events []) k ≡ some e)
        × (entitled p.player_id e seats ≡ true)
  unfolding public_refs private_refs_for_role
  source_shown k m = elim (Bool-cases (elem k (public_refs events))) [
    | inl in_public ↦
        let (e, found, shown, v) =
          indexed (λ e. elem e.visibility public_visibilities)
            (λ e. elem e.visibility engine_visibilities) events [] k unique known in_public in
        (e, found, ground (arith, entitled-eq-engine_shows p seats e seated named v, shown))
    | inr not_public ↦
        let (e, found, shown, v) =
          indexed (λ e. sees_privately p.role (some p.team) e.visibility)
            (λ e. elem e.visibility engine_visibilities) events [] k unique known
            (ground (
              arith,
              elem-append k (public_refs events)
                  (private_refs_for_role events p.role (some p.team)),
            )) in
        (e, found, ground (arith, entitled-eq-engine_shows p seats e seated named v, shown))
  ]

  -- In a log with distinct event ids and the engine's visibilities, for a seat that the seat index
  -- backs by the trusted source and whose role is not spelled like the wolf channel, a prompt whose
  -- sources are all among the seat's public and private refs passes the guard: no source is dangling,
  -- and none is an event that the observer's rule hides from the seat.
  pub assert_prompt_entitled-refs :
      (sources : List String)
      → all (λ k. elem k refs) sources ≡ true
      → assert_prompt_entitled p.player_id sources (events_by_id events []) seats ≡ none
  unfolding assert_prompt_entitled
  assert_prompt_entitled-refs [] h = refl
  assert_prompt_entitled-refs (k ∷ sources) h =
      let (e, found, shown) = source_shown k (ground arith) in
      rw (found, shown) (assert_prompt_entitled-refs sources (ground arith))
