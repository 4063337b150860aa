-- ===== src/Prelude/Sort.antt =====
-- Python's `sorted` and `list.sort`, as the stable insertion sort.
use Prim.Native.Nat.{◌+◌}
use Prim.Native.String.{String, compare}
use Prim.Native.Nat.{Ordering}
use mathlib.Core.Path.{◌≡◌, refl}
use mathlib.Core.Bool.{Bool, true, false, ◌&&◌, ◌||◌, not}
use mathlib.Core.List.{List, [], ◌∷◌}
use native.Mathlib.Omega.{arith}
use werewolf_agent.Prelude.Tests.{if◌then◌else◌, Eq, ◌==◌}
use werewolf_agent.Prelude.Lists.{elem, distinct, length, all, any}

-- The order of texts, by code points.
abbrev pub str_leb : String → String → Bool
str_leb s t = elim (compare s t) [ Ordering.gt ↦ false | _ ↦ true ]

module _ {ℓ} {A : Type ℓ} (le : A → A → Bool) where
  abbrev pub insert : A → List A → List A
  insert a [] = a ∷ []
  insert a (x ∷ xs) = let rest = insert a xs in if le a x then a ∷ x ∷ xs else x ∷ rest

  abbrev pub sorted : List A → List A
  sorted [] = []
  sorted (x ∷ xs) = insert x (sorted xs)

  -- each element against the one behind it
  abbrev pub ascending : List A → Bool
  ascending [] = true
  ascending (x ∷ []) = true
  ascending (x ∷ y ∷ xs) = le x y && ascending (y ∷ xs)

  pub length-insert : (a : A) (xs : List A) → length (insert a xs) ≡ length xs + 1
  length-insert a [] = omega arith
  length-insert a (x ∷ xs) = ground (arith, length-insert a xs)

  pub length-sorted : (xs : List A) → length (sorted xs) ≡ length xs
  length-sorted [] = refl
  length-sorted (x ∷ xs) = omega (arith, length-insert x (sorted xs), length-sorted xs)

  pub all-insert : (p : A → Bool) (a : A) (xs : List A) → all p (insert a xs) ≡ (p a && all p xs)
  all-insert p a [] = refl
  all-insert p a (x ∷ xs) = ground (arith, all-insert p a xs)

  pub all-sorted : (p : A → Bool) (xs : List A) → all p (sorted xs) ≡ all p xs
  all-sorted p [] = refl
  all-sorted p (x ∷ xs) = ground (arith, all-insert p x (sorted xs), all-sorted p xs)

  any-insert : (p : A → Bool) (a : A) (xs : List A) → any p (insert a xs) ≡ (p a || any p xs)
  any-insert p a [] = refl
  any-insert p a (x ∷ xs) = ground (arith, any-insert p a xs)

  pub any-sorted : (p : A → Bool) (xs : List A) → any p (sorted xs) ≡ any p xs
  any-sorted p [] = refl
  any-sorted p (x ∷ xs) = ground (arith, any-insert p x (sorted xs), any-sorted p xs)

module _ {ℓ} {A : Type ℓ} (le : A → A → Bool) (total : (a b : A) → (le a b || le b a) ≡ true) where
  insert-ascending :
      (a : A) (xs : List A) → ascending le xs ≡ true → ascending le (insert le a xs) ≡ true
  insert-ascending a [] h = refl
  insert-ascending a (x ∷ []) h = ground (arith, total a x)
  insert-ascending a (x ∷ y ∷ xs) h = ground (arith, total a x, insert-ascending a (y ∷ xs))

  pub sorted-ascending : (xs : List A) → ascending le (sorted le xs) ≡ true
  sorted-ascending [] = refl
  sorted-ascending (x ∷ xs) = insert-ascending x (sorted le xs) (sorted-ascending xs)

module _ {ℓ} {A : Type ℓ} ⦃e : Eq A⦄ (le : A → A → Bool) where
  pub elem-insert : (b a : A) (xs : List A) → elem b (insert le a xs) ≡ (b == a || elem b xs)
  elem-insert b a [] = refl
  elem-insert b a (x ∷ xs) = ground (arith, elem-insert b a xs)

  pub elem-sorted : (b : A) (xs : List A) → elem b (sorted le xs) ≡ elem b xs
  elem-sorted b [] = refl
  elem-sorted b (x ∷ xs) = ground (arith, elem-insert b x (sorted le xs), elem-sorted b xs)

  distinct-insert :
      (a : A) (xs : List A) → distinct (insert le a xs) ≡ (not (elem a xs) && distinct xs)
  distinct-insert a [] = refl
  distinct-insert a (x ∷ xs) =
      ground (arith, distinct-insert a xs, elem-insert x a xs, e.test_iff a x, e.test_iff x a)

  pub distinct-sorted : (xs : List A) → distinct (sorted le xs) ≡ distinct xs
  distinct-sorted [] = refl
  distinct-sorted (x ∷ xs) =
      ground (arith, distinct-insert x (sorted le xs), elem-sorted x xs, distinct-sorted xs)
