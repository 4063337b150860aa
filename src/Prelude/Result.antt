-- ===== src/Prelude/Result.antt =====
-- Python's exceptions as values, each with the text that it names.
use mathlib.Core.Path.{◌≡◌, refl}
use mathlib.Core.List.{List, [], ◌∷◌}
use mathlib.Core.Option.{Option, none, some}
use Prim.Native.String.{String}

pub data Error : Type 0 where
  key_error value_error type_error stop_iteration index_error : String → Error

pub data Result {ℓ} (V : Type ℓ) : Type ℓ where
  err : Error → Result V
  ok : V → Result V

module _ {ℓ κ} {V : Type ℓ} {W : Type κ} where
  infixl 5 ◌>>=◌ ◌>>◌
  -- the first exception ends the block
  abbrev pub ◌>>=◌ : Result V → (V → Result W) → Result W
  err e >>= next = err e
  ok v >>= next = next v

  abbrev pub ◌>>◌ : Result V → Result W → Result W
  before >> after = before >>= λ v. after

module _ {ℓ} {A : Type ℓ} where
  -- d[k]
  abbrev pub or_raise : Error → Option A → Result A
  or_raise e none = err e
  or_raise e (some a) = ok a

module _ {ℓ κ} {A : Type ℓ} {B : Type κ} where
  -- a comprehension whose body may raise
  abbrev pub map_result : (A → Result B) → List A → Result (List B)
  map_result f [] = ok []
  map_result f (x ∷ xs) = do y ← f x; ys ← map_result f xs; ok (y ∷ ys)

module _ {ℓ κ} {V : Type ℓ} {W : Type κ} where
  pub >>=-eq-ok :
      (before : Result V) (next : V → Result W) {w : W}
      → (before >>= next) ≡ ok w
      → (v : V) × (before ≡ ok v) × (next v ≡ ok w)
  >>=-eq-ok (err e) next returned = cc
  >>=-eq-ok (ok v) next returned = (v, refl, returned)
