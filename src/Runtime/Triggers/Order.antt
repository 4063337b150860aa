-- ===== src/Runtime/Triggers/Order.antt =====
-- TriggerSystem.resolve in action_runtime/triggers.py: the order in which the deaths are processed.
use mathlib.Core.Path.{subst}
use werewolf_agent.Prelude.{
  append-nil, append_assoc, Bool, Bool-cases, List, String, [], all-elem, any, arith, elem,
  elem-append, elem-sorted, eq_iff, eq_self, false, inl, inr, length, none, refl, some, sorted,
  string_eq, suc, sym, true, zero, ℕ, ◌&&◌, ◌++◌, ◌+◌, ◌==◌, ◌||◌, ◌∙◌, ◌∷◌, ◌≡◌,
}
use werewolf_agent.Runtime.State.{RuntimeState}
use werewolf_agent.Runtime.Triggers.{TriggerSystem, by_seat, drain, enqueue, handler_of, resolve}
use werewolf_agent.Runtime.Triggers.Chain.{IsChain, elem-enqueue, named_by, resolve-IsChain}
use werewolf_agent.Runtime.Triggers.Seats.{
  by_seat-Refines, by_seat-no_later, by_seat_refl, no_later, requeue-seated_order, seated_order,
  sorted-seated_order,
}

-- Once the players `before` are processed, a player is due if it is an initial death, or if it lives
-- and the handler of one of `before` names it.
abbrev pub is_due : TriggerSystem → RuntimeState → (initial before : List String) → String → Bool
is_due t state initial before x =
    elem x initial || elem x state.alive && any (λ d. elem x (named_by t state d)) before

-- After `before`, the players of `rest` are processed one by one: next is always a player that is
-- due and not processed yet and that no other such player precedes by seat, until none is left.
pub data Follows (t : TriggerSystem) (state : RuntimeState) (initial : List String)
    : (before rest : List String) → Type 0 where
  settled :
      (before : List String)
      → ((x : String) → is_due t state initial before x ≡ true → elem x before ≡ true)
      → Follows t state initial before []
  next :
      (before : List String) (dead : String) (rest : List String)
      → is_due t state initial before dead ≡ true
      → elem dead before ≡ false
      → ((x : String)
          → is_due t state initial before x ≡ true
          → elem x before ≡ false
          → no_later t.seat_order dead x ≡ true)
      → Follows t state initial (before ++ dead ∷ []) rest
      → Follows t state initial before (dead ∷ rest)

any-append : (p : String → Bool) (xs ys : List String) → any p (xs ++ ys) ≡ (any p xs || any p ys)
any-append p [] ys = refl
any-append p (x ∷ xs) ys = ground (arith, any-append p xs ys)

some-inj : {r s : List String} → some r ≡ some s → r ≡ s
some-inj h = cc

module _ (t : TriggerSystem) (state : RuntimeState) (initial : List String) where
  -- the loop between two steps
  record Queued (processed queue : List String) : Type 0 where
    sound : (x : String) → elem x queue ≡ true → is_due t state initial processed x ≡ true
    complete :
        (x : String)
        → is_due t state initial processed x ≡ true
        → (elem x processed || elem x queue) ≡ true
    in_order : seated_order t queue ≡ true

  skip :
      (processed : List String) (dead : String) (queue : List String)
      → elem dead processed ≡ true
      → Queued processed (dead ∷ queue)
      → Queued processed queue
  skip processed dead queue m i = record {
    sound = λ x h. i.sound x (ground (arith, h));
    complete = λ x h. ground (arith, i.complete x h, eq_iff x dead);
    in_order = ground (arith, i.in_order);
  }

  is_due-snoc :
      (processed : List String) (dead x : String)
      → is_due t state initial (processed ++ dead ∷ []) x ≡ (
          is_due t state initial processed x
          || elem x state.alive && elem x (named_by t state dead))
  is_due-snoc processed dead x =
      let names = any-append (λ d. elem x (named_by t state d)) processed (dead ∷ []) in
      ground (arith, names)

  process :
      (processed : List String) (dead : String) (queue : List String)
      → Queued processed (dead ∷ queue)
      → Queued (processed ++ dead ∷ []) (enqueue t state (processed ++ dead ∷ []) dead queue)
  unfolding enqueue
  process processed dead queue i = record {
    sound = λ x h.
        rw (is_due-snoc processed dead x) (
          ground (arith, i.sound x, elem-enqueue t state (processed ++ dead ∷ []) dead queue x, h));
    complete = λ x h.
        let due = sym (is_due-snoc processed dead x) ∙ h in
        ground (
          arith,
          due,
          i.complete x,
          elem-append x processed (dead ∷ []),
          elem-enqueue t state (processed ++ dead ∷ []) dead queue x,
        );
    in_order =
        requeue-seated_order t (handler_of t state dead) state (processed ++ dead ∷ []) dead queue
          (ground (arith, i.in_order));
  }

  least :
      (processed : List String) (dead : String) (queue : List String)
      → Queued processed (dead ∷ queue)
      → (x : String) → is_due t state initial processed x ≡ true
      → elem x processed ≡ false
      → no_later t.seat_order dead x ≡ true
  least processed dead queue i x due new =
      by_seat-no_later t dead x (elim (Bool-cases (x == dead)) [
        | inl same ↦
            subst (λ y. by_seat t dead y ≡ true) (sym ((eq_iff x dead).0 same))
              (by_seat_refl t dead)
        | inr other ↦
            all-elem (by_seat t dead) x queue (ground (arith, i.in_order))
              (ground (arith, i.complete x due))
      ])

  Result : (processed r : List String) → Type 0
  Result processed r =
      (rest : List String) × (r ≡ processed ++ rest) × Follows t state initial processed rest

  one_more :
      (processed : List String) (dead : String) (queue r : List String)
      → elem dead processed ≡ false
      → Queued processed (dead ∷ queue)
      → Result (processed ++ dead ∷ []) r
      → Result processed r
  unfolding Result
  one_more processed dead queue r new i (rest, e, follows) = (
    dead ∷ rest,
    e ∙ append_assoc processed (dead ∷ []) rest,
    next processed dead rest (i.sound dead (ground (arith, eq_self dead))) new
        (least processed dead queue i) follows,
  )

  drain-Follows :
      (fuel : ℕ) (processed queue r : List String)
      → drain t state fuel processed queue ≡ some r
      → Queued processed queue
      → Result processed r
  unfolding drain Result
  drain-Follows fuel processed [] r h i = (
    [],
    sym (some-inj h) ∙ sym (append-nil processed),
    settled processed λ x due. ground (arith, i.complete x due),
  )
  drain-Follows zero processed (dead ∷ queue) r h i = elim (Bool-cases (elem dead processed)) [
    | inl old ↦
        drain-Follows zero processed queue r (rw (old, drain) at h)
          (skip processed dead queue old i)
    | inr new ↦ let stuck : none ≡ some r = rw (new, drain) at h in cc
  ]
  drain-Follows (suc fuel) processed (dead ∷ queue) r h i =
      elim (Bool-cases (elem dead processed)) [
        | inl old ↦
            drain-Follows (suc fuel) processed queue r (rw (old, drain) at h)
              (skip processed dead queue old i)
        | inr new ↦ one_more processed dead queue r new i (
            drain-Follows fuel (processed ++ dead ∷ [])
              (enqueue t state (processed ++ dead ∷ []) dead queue) r (rw (new, drain) at h)
              (process processed dead queue i))
      ]

-- Whatever the handlers return, the queue drains within its fuel. Its result lists every initial
-- death and nobody but initial deaths and living players, each at most once. A player is due as an
-- initial death, or as a living player that the handler of a player listed before names: each player
-- of the result is due at its place, and no other due player that is not listed yet precedes it by
-- seat; at the end no due player is missing.
pub resolve-Follows :
    (t : TriggerSystem) (initial : List String) (state : RuntimeState)
    → (r : List String) × (resolve t initial state ≡ some r)
      × IsChain t state initial r
      × Follows t state initial [] r
unfolding resolve Result
resolve-Follows t initial state =
    let (r, e, chain) = resolve-IsChain t initial state in
    let (rest, same, follows) =
      drain-Follows t state initial (length initial + length state.alive) []
        (sorted (by_seat t) initial) r e
        (record {
          sound = λ x h. ground (arith, elem-sorted (by_seat t) x initial, h);
          complete = λ x h. ground (arith, elem-sorted (by_seat t) x initial, h);
          in_order = sorted-seated_order t (by_seat t) (by_seat-Refines t) initial;
        }) in
    (r, e, chain, subst (Follows t state initial []) (sym same) follows)
