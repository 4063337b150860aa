-- ===== src/Runtime/Triggers/Chain.antt =====
-- The loop of TriggerSystem.resolve in action_runtime/triggers.py: its fuel and its result.
use werewolf_agent.Prelude.{
  Bool-cases, List, Option, String, [], ap, arith, distinct, distinct-snoc, elem, elem-append,
  elem-filter, elem-sorted, eq_iff, false, filter, inl, inr, length, length-append,
  length-filter-le, none, not, refl, some, sorted, string_eq, suc, true, zero, ℕ, ◌&&◌, ◌++◌, ◌+◌,
  ◌<◌, ◌||◌, ◌∙◌, ◌∷◌, ◌≡◌, ◌≤◌,
}
use werewolf_agent.Runtime.State.{RuntimeState}
use werewolf_agent.Runtime.Triggers.{
  DeathTrigger, TriggerSystem, by_seat, by_seat_and_id, drain, enqueue, handler_of, requeue,
  resolve,
}

-- whom a handler names; no handler names nobody
names : Option DeathTrigger → RuntimeState → String → List String
names none state dead = []
names (some handler) state dead = handler state dead

unfoldable pub named_by : TriggerSystem → RuntimeState → String → List String
unfolding names
named_by t state dead = names (handler_of t state dead) state dead

elem-requeue :
    (t : TriggerSystem) (h : Option DeathTrigger) (state : RuntimeState) (seen : List String)
    (dead : String) (queue : List String) (x : String)
    → elem x (requeue t h state seen dead queue)
      ≡ (elem x queue || elem x (names h state dead) && (not (elem x seen) && elem x state.alive))
unfolding requeue names
elem-requeue t none state seen dead queue x = ground arith
elem-requeue t (some handler) state seen dead queue x =
    let fresh = λ (d : String). not (elem d seen) && elem d state.alive in
    elem-sorted (by_seat_and_id t) x (queue ++ filter fresh (handler state dead))
    ∙ elem-append x queue (filter fresh (handler state dead))
    ∙ ap (λ b. elem x queue || b) (elem-filter fresh x (handler state dead))

pub elem-enqueue :
    (t : TriggerSystem) (state : RuntimeState) (seen : List String) (dead : String)
    (queue : List String) (x : String)
    → elem x (enqueue t state seen dead queue) ≡ (
        elem x queue || elem x (named_by t state dead) && (not (elem x seen) && elem x state.alive))
unfolding enqueue named_by
elem-enqueue t state seen dead queue x =
    elem-requeue t (handler_of t state dead) state seen dead queue x

-- The players of `universe` that are not processed yet.
abbrev pending : List String → List String → ℕ
pending universe processed = length (filter (λ u. not (elem u processed)) universe)

pending-le :
    (universe processed : List String) (dead : String)
    → pending universe (processed ++ dead ∷ []) ≤ pending universe processed
pending-le [] processed dead = omega arith
pending-le (u ∷ universe) processed dead =
    ground (arith, pending-le universe processed dead, elem-append u processed (dead ∷ []))

pending-lt :
    (universe processed : List String) (dead : String)
    → elem dead universe ≡ true
    → elem dead processed ≡ false
    → pending universe (processed ++ dead ∷ []) < pending universe processed
pending-lt [] processed dead m h = cc
pending-lt (u ∷ universe) processed dead m h = ground (
  arith,
  pending-lt universe processed dead,
  pending-le universe processed dead,
  elem-append u processed (dead ∷ []),
  eq_iff dead u,
  eq_iff u dead,
)

module _ (t : TriggerSystem) (state : RuntimeState) (initial : List String) where
  -- the players that can die in the chain
  abbrev universe : List String
  universe = initial ++ state.alive

  record Inv (processed queue : List String) : Type 0 where
    once : distinct processed ≡ true
    known : (x : String) → (elem x processed || elem x queue) ≡ true → elem x universe ≡ true
    start : (x : String) → elem x initial ≡ true → (elem x processed || elem x queue) ≡ true
    closed :
        (dead x : String)
        → elem dead processed ≡ true
        → elem x (named_by t state dead) ≡ true
        → elem x state.alive ≡ true
        → (elem x processed || elem x queue) ≡ true

  skip :
      (processed : List String) (dead : String) (queue : List String)
      → elem dead processed ≡ true
      → Inv processed (dead ∷ queue)
      → Inv processed queue
  skip processed dead queue m i = record {
    once = i.once;
    known = λ x h. ground (arith, i.known x);
    start = λ x h. ground (arith, i.start x, eq_iff x dead);
    closed = λ d x a b c. ground (arith, i.closed d x a b c, eq_iff x dead);
  }

  process :
      (processed : List String) (dead : String) (queue : List String)
      → elem dead processed ≡ false
      → Inv processed (dead ∷ queue)
      → Inv (processed ++ dead ∷ []) (enqueue t state (processed ++ dead ∷ []) dead queue)
  process processed dead queue m i = record {
    once = distinct-snoc processed dead i.once m;
    known = λ x h. ground (
      arith,
      i.known x,
      elem-append x processed (dead ∷ []),
      elem-append x initial state.alive,
      elem-enqueue t state (processed ++ dead ∷ []) dead queue x,
    );
    start = λ x h. ground (
      arith,
      i.start x,
      elem-append x processed (dead ∷ []),
      elem-enqueue t state (processed ++ dead ∷ []) dead queue x,
    );
    closed = λ d x a b c. ground (
      arith,
      i.closed d x,
      eq_iff d dead,
      elem-append x processed (dead ∷ []),
      elem-append d processed (dead ∷ []),
      elem-enqueue t state (processed ++ dead ∷ []) dead queue x,
    );
  }

  drain_lem :
      (fuel : ℕ) (processed queue : List String)
      → pending universe processed ≤ fuel
      → Inv processed queue
      → (r : List String) × (drain t state fuel processed queue ≡ some r) × Inv r []
  unfolding drain
  drain_lem fuel processed [] bound i = (processed, refl, i)
  drain_lem zero processed (dead ∷ queue) bound i = elim (Bool-cases (elem dead processed)) [
    | inl old ↦
        rw (old, drain) (drain_lem zero processed queue bound (skip processed dead queue old i))
    | inr new ↦ absurd (
        omega (
          arith,
          pending-lt universe processed dead (i.known dead (ground (arith, eq_iff dead dead))) new,
        ))
  ]
  drain_lem (suc fuel) processed (dead ∷ queue) bound i = elim (Bool-cases (elem dead processed)) [
    | inl old ↦
        rw (old, drain)
          (drain_lem (suc fuel) processed queue bound (skip processed dead queue old i))
    | inr new ↦
        rw (new, drain)
          (drain_lem fuel (processed ++ dead ∷ [])
            (enqueue t state (processed ++ dead ∷ []) dead queue)
            (omega (
              arith,
              pending-lt universe processed dead (i.known dead (ground (arith, eq_iff dead dead)))
                  new,
            ))
            (process processed dead queue new i))
  ]

-- The result of the chain of deaths from `initial`.
pub record IsChain (t : TriggerSystem) (state : RuntimeState) (initial r : List String)
    : Type 0 where
  pub once : distinct r ≡ true
  pub starts : (x : String) → elem x initial ≡ true → elem x r ≡ true
  pub known : (x : String) → elem x r ≡ true → (elem x initial || elem x state.alive) ≡ true
  pub closed :
      (dead x : String)
      → elem dead r ≡ true
      → elem x (named_by t state dead) ≡ true
      → elem x state.alive ≡ true
      → elem x r ≡ true

Inv-IsChain :
    (t : TriggerSystem) (state : RuntimeState) (initial r : List String)
    → Inv t state initial r []
    → IsChain t state initial r
Inv-IsChain t state initial r i = record {
  once = i.once;
  starts = λ x h. ground (arith, i.start x);
  known = λ x h. ground (arith, i.known x, elem-append x initial state.alive);
  closed = λ d x a b c. ground (arith, i.closed d x);
}

-- The queue drains within its fuel, and the result is closed under the handlers.
pub resolve-IsChain :
    (t : TriggerSystem) (initial : List String) (state : RuntimeState)
    → (r : List String) × (resolve t initial state ≡ some r) × IsChain t state initial r
unfolding resolve
resolve-IsChain t initial state =
    let queue = sorted (by_seat t) initial in
    let (r, e, inv) =
      drain_lem t state initial (length initial + length state.alive) [] queue bound (record {
        once = refl;
        known = λ x h.
            ground (arith, elem-sorted (by_seat t) x initial, elem-append x initial state.alive);
        start = λ x h. ground (arith, elem-sorted (by_seat t) x initial);
        closed = λ d x a b c. cc;
      }) in
    (r, e, Inv-IsChain t state initial r inv)
  where
    bound : pending (initial ++ state.alive) [] ≤ length initial + length state.alive
    bound = omega (
      arith,
      length-filter-le (λ u. not (elem u [])) (initial ++ state.alive),
      length-append initial state.alive,
    )
