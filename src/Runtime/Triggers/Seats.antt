-- ===== src/Runtime/Triggers/Seats.antt =====
-- action_runtime/triggers.py: the order of the seats, in which the death queue is sorted.
use werewolf_agent.Prelude.{
  Bool, List, Option, String, [], all, all-insert, arith, false, insert, leb, none, not, refl, some,
  sorted, string_eq, true, ◌&&◌, ◌++◌, ◌==◌, ◌||◌, ◌∷◌, ◌≡◌,
}
use werewolf_agent.Runtime.State.{RuntimeState}
use werewolf_agent.Runtime.Triggers.{
  DeathTrigger, TriggerSystem, by_seat, by_seat_and_id, index_or_length, new_deaths, requeue,
  seat_index,
}

-- On the way along the seats, `y` is not met before `x`.
abbrev pub no_later : (seats : List String) → (x y : String) → Bool
no_later [] x y = true
no_later (s ∷ seats) x y = s == x || not (s == y) && no_later seats x y

index-no_later :
    (seats : List String) (x y : String)
    → leb (index_or_length x seats) (index_or_length y seats) ≡ true
    → no_later seats x y ≡ true
unfolding index_or_length
index-no_later [] x y h = refl
index-no_later (s ∷ seats) x y h = ground (arith, index-no_later seats x y)

pub by_seat-no_later :
    (t : TriggerSystem) (x y : String) → by_seat t x y ≡ true → no_later t.seat_order x y ≡ true
unfolding by_seat seat_index
by_seat-no_later t x y h = index-no_later t.seat_order x y h

pub by_seat_refl : (t : TriggerSystem) (x : String) → by_seat t x x ≡ true
unfolding by_seat
by_seat_refl t x = ground arith

by_seat_trans :
    (t : TriggerSystem) (x y z : String)
    → by_seat t x y ≡ true
    → by_seat t y z ≡ true
    → by_seat t x z ≡ true
unfolding by_seat
by_seat_trans t x y z h k = ground arith

-- each before all behind it, by seat
abbrev pub seated_order : TriggerSystem → List String → Bool
seated_order t [] = true
seated_order t (x ∷ xs) = all (by_seat t x) xs && seated_order t xs

all-by_seat :
    (t : TriggerSystem) (x y : String) (ys : List String)
    → by_seat t x y ≡ true
    → all (by_seat t y) ys ≡ true
    → all (by_seat t x) ys ≡ true
all-by_seat t x y [] h k = refl
all-by_seat t x y (z ∷ ys) h k = ground (arith, all-by_seat t x y ys, by_seat_trans t x y z)

-- a test that refines the order of the seats
pub record Refines (t : TriggerSystem) (le : String → String → Bool) : Type 0 where
  hit : (x y : String) → le x y ≡ true → by_seat t x y ≡ true
  miss : (x y : String) → le x y ≡ false → by_seat t y x ≡ true

module _ (t : TriggerSystem) (le : String → String → Bool) (fine : Refines t le) where
  insert-seated_order :
      (a : String) (xs : List String)
      → seated_order t xs ≡ true
      → seated_order t (insert le a xs) ≡ true
  insert-seated_order a [] h = refl
  insert-seated_order a (x ∷ xs) h = ground (
    arith,
    insert-seated_order a xs,
    all-insert le (by_seat t x) a xs,
    fine.hit a x,
    fine.miss a x,
    all-by_seat t a x xs,
  )

  pub sorted-seated_order : (xs : List String) → seated_order t (sorted le xs) ≡ true
  sorted-seated_order [] = refl
  sorted-seated_order (x ∷ xs) = insert-seated_order x (sorted le xs) (sorted-seated_order xs)

pub by_seat-Refines : (t : TriggerSystem) → Refines t (by_seat t)
unfolding by_seat
by_seat-Refines t = record { hit = λ x y h. h; miss = λ x y h. ground arith }

by_seat_and_id-Refines : (t : TriggerSystem) → Refines t (by_seat_and_id t)
unfolding by_seat by_seat_and_id
by_seat_and_id-Refines t = record { hit = λ x y h. ground arith; miss = λ x y h. ground arith }

pub requeue-seated_order :
    (t : TriggerSystem) (h : Option DeathTrigger) (state : RuntimeState) (seen : List String)
    (dead : String) (queue : List String)
    → seated_order t queue ≡ true
    → seated_order t (requeue t h state seen dead queue) ≡ true
unfolding requeue
requeue-seated_order t none state seen dead queue k = k
requeue-seated_order t (some handler) state seen dead queue k =
    sorted-seated_order t (by_seat_and_id t) (by_seat_and_id-Refines t)
      (queue ++ new_deaths handler state seen dead)
