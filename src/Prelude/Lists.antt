-- ===== src/Prelude/Lists.antt =====
-- Lists with Boolean tests and native lengths: Python's `in`, comprehensions, `any`, `all`, `len`.
use Prim.Native.Nat.{ℕ, suc, ◌+◌, ◌≤◌}
use mathlib.Core.Path.{◌≡◌, refl, sym, subst, ap}
use mathlib.Core.Logic.{◌↔◌, inl, inr}
use mathlib.Core.Bool.{Bool, true, false, not, ◌&&◌, ◌||◌}
use mathlib.Core.Option.{Option, none, some}
use mathlib.Core.List.{List, [], ◌∷◌, ◌++◌, map}
use native.Mathlib.Omega.{arith}
use werewolf_agent.Prelude.Tests.{if◌then◌else◌, Eq, ◌==◌, eq_self, Bool-cases}

module _ {ℓ} {A : Type ℓ} where
  abbrev pub length : List A → ℕ
  length [] = 0
  length (x ∷ xs) = suc (length xs)

  abbrev pub is_empty : List A → Bool
  is_empty [] = true
  is_empty (x ∷ xs) = false

  abbrev pub filter : (A → Bool) → List A → List A
  filter p [] = []
  filter p (x ∷ xs) = let rest = filter p xs in if p x then x ∷ rest else rest

  abbrev pub any : (A → Bool) → List A → Bool
  any p [] = false
  any p (x ∷ xs) = p x || any p xs

  abbrev pub all : (A → Bool) → List A → Bool
  all p [] = true
  all p (x ∷ xs) = p x && all p xs

  -- `next((x for x in xs if p(x)), None)`
  abbrev pub find : (A → Bool) → List A → Option A
  find p [] = none
  find p (x ∷ xs) = let rest = find p xs in if p x then some x else rest

  pub append-nil : (xs : List A) → xs ++ [] ≡ xs
  append-nil [] = refl
  append-nil (x ∷ xs) = ap (λ ys. x ∷ ys) (append-nil xs)

  pub append_assoc : (xs ys zs : List A) → (xs ++ ys) ++ zs ≡ xs ++ (ys ++ zs)
  append_assoc [] ys zs = refl
  append_assoc (x ∷ xs) ys zs = ap (λ ws. x ∷ ws) (append_assoc xs ys zs)

  pub length-append : (xs ys : List A) → length (xs ++ ys) ≡ length xs + length ys
  length-append [] ys = omega arith
  length-append (x ∷ xs) ys = omega (arith, length-append xs ys)

  pub length-filter-le : (p : A → Bool) (xs : List A) → length (filter p xs) ≤ length xs
  length-filter-le p [] = omega arith
  length-filter-le p (x ∷ xs) = ground (arith, length-filter-le p xs)

  pub all-append : (p : A → Bool) (xs ys : List A) → all p (xs ++ ys) ≡ (all p xs && all p ys)
  all-append p [] ys = refl
  all-append p (x ∷ xs) ys = ground (arith, all-append p xs ys)

  pub filter-snoc :
      (p : A → Bool) (xs : List A) (x : A)
      → filter p (xs ++ x ∷ []) ≡ (if p x then filter p xs ++ x ∷ [] else filter p xs)
  filter-snoc p [] x = refl
  filter-snoc p (y ∷ xs) x = elim (Bool-cases (p x)) [
    | inl h ↦ elim (Bool-cases (p y)) [
      | inl k ↦ rw (filter-snoc p xs x, h, k) refl
      | inr k ↦ rw (filter-snoc p xs x, h, k) refl
    ]
    | inr h ↦ elim (Bool-cases (p y)) [
      | inl k ↦ rw (filter-snoc p xs x, h, k) refl
      | inr k ↦ rw (filter-snoc p xs x, h, k) refl
    ]
  ]

  pub all-filter : (p : A → Bool) (xs : List A) → all p (filter p xs) ≡ true
  all-filter p [] = refl
  all-filter p (x ∷ xs) = ground (arith, all-filter p xs)

pub map-snoc {ℓ κ} :
    {A : Type ℓ} {B : Type κ} (f : A → B) (xs : List A) (x : A)
    → map f (xs ++ x ∷ []) ≡ map f xs ++ f x ∷ []
map-snoc f [] x = refl
map-snoc f (y ∷ xs) x = ap (λ ys. f y ∷ ys) (map-snoc f xs x)

-- A comprehension over the rows that fail a test is empty exactly if all pass it.
pub comprehension-empty {ℓ κ} :
    {A : Type ℓ} {B : Type κ} (f : A → B) (bad : A → Bool) (xs : List A)
    → (map f (filter bad xs) ≡ []) ↔ (all (λ x. not (bad x)) xs ≡ true)
comprehension-empty f bad [] = (λ h. refl, λ h. refl)
comprehension-empty f bad (x ∷ xs) = elim (Bool-cases (bad x)) [
  | inl h ↦ rw h (λ k. ground (arith, k), λ k. ground (arith, k))
  | inr h ↦ rw h (comprehension-empty f bad xs)
]

pub all-same {ℓ} :
    {A : Type ℓ} (p q : A → Bool) (xs : List A) → ((x : A) → p x ≡ q x) → all p xs ≡ all q xs
all-same p q [] h = refl
all-same p q (x ∷ xs) h = rw (h x, all-same p q xs h) refl

pub is_empty-append {ℓ} :
    {A : Type ℓ} (xs ys : List A) → is_empty (xs ++ ys) ≡ (is_empty xs && is_empty ys)
is_empty-append [] ys = refl
is_empty-append (x ∷ xs) ys = refl

pub empty_iff {ℓ} : {A : Type ℓ} (xs : List A) → (is_empty xs ≡ true) ↔ (xs ≡ [])
empty_iff [] = (λ h. refl, λ h. refl)
empty_iff (x ∷ xs) = (λ h. ground (arith, h), λ h. ap is_empty h)

-- a predicate on every element
abbrev pub All {ℓ κ} : {A : Type ℓ} → (A → Type κ) → List A → Type κ
All P [] = Unit
All P (x ∷ xs) = P x × All P xs

module _ {ℓ} {A : Type ℓ} ⦃e : Eq A⦄ where
  -- `a in xs`
  abbrev pub elem : A → List A → Bool
  elem a [] = false
  elem a (x ∷ xs) = a == x || elem a xs

  abbrev pub count : A → List A → ℕ
  count a [] = 0
  count a (x ∷ xs) = let rest = count a xs in if a == x then suc rest else rest

  -- no element stands twice
  abbrev pub distinct : List A → Bool
  distinct [] = true
  distinct (x ∷ xs) = not (elem x xs) && distinct xs

  pub elem-append : (a : A) (xs ys : List A) → elem a (xs ++ ys) ≡ (elem a xs || elem a ys)
  elem-append a [] ys = refl
  elem-append a (x ∷ xs) ys = ground (arith, elem-append a xs ys)

  pub elem-filter : (p : A → Bool) (a : A) (xs : List A) → elem a (filter p xs) ≡ (elem a xs && p a)
  elem-filter p a [] = refl
  elem-filter p a (x ∷ xs) = ground (arith, elem-filter p a xs, e.test_iff a x)

  pub all-elem :
      (p : A → Bool) (a : A) (xs : List A) → all p xs ≡ true → elem a xs ≡ true → p a ≡ true
  all-elem p a [] h m = ground arith
  all-elem p a (x ∷ xs) h m = ground (arith, all-elem p a xs, e.test_iff a x)

  pub distinct-filter :
      (p : A → Bool) (xs : List A) → distinct xs ≡ true → distinct (filter p xs) ≡ true
  distinct-filter p [] h = refl
  distinct-filter p (x ∷ xs) h = ground (arith, distinct-filter p xs, elem-filter p x xs)

  pub distinct-snoc :
      (xs : List A) (a : A)
      → distinct xs ≡ true
      → elem a xs ≡ false
      → distinct (xs ++ a ∷ []) ≡ true
  distinct-snoc [] a h m = refl
  distinct-snoc (x ∷ xs) a h m =
      ground (arith, distinct-snoc xs a, elem-append x xs (a ∷ []), e.test_iff x a, eq_self x)

  pub elem-count : (a : A) (xs : List A) → elem a xs ≡ true → 1 ≤ count a xs
  elem-count a [] h = ground arith
  elem-count a (x ∷ xs) h = ground (arith, elem-count a xs)

  pub count-elem : (a : A) (xs : List A) → elem a xs ≡ false → count a xs ≡ 0
  count-elem a [] h = refl
  count-elem a (x ∷ xs) h = ground (arith, count-elem a xs)

-- A predicate that holds of every element of a list holds of each element that is found in it.
pub All-elem {ℓ κ} :
    {A : Type ℓ} ⦃e : Eq A⦄ (P : A → Type κ) (a : A) (xs : List A)
    → All P xs
    → elem a xs ≡ true
    → P a
All-elem P a [] h m = cc
All-elem ⦃e⦄ P a (x ∷ xs) h m = elim (Bool-cases (a == x)) [
  | inl here ↦ subst P (sym ((e.test_iff a x).0 here)) h.0
  | inr there ↦ All-elem P a xs h.1 (rw there at m)
]
