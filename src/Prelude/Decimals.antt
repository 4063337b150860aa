-- ===== src/Prelude/Decimals.antt =====
-- Numbers as text, read back.
use Prim.Native.Nat.{ℕ, zero, suc, ◌+◌, ◌*◌, ◌/◌, ◌%◌, ◌<◌}
use Prim.Native.Char.{Char, code}
use Prim.Native.String.{String, ◌++◌}
use mathlib.Core.Path.{◌≡◌, refl, sym, ap, ◌∙◌}
use mathlib.Core.Logic.{◌≢◌, inl, inr}
use native.Mathlib.Omega.{arith}
use text.Mathlib.TextLemmas.{
  append_assoc, append-nil, append-ne-nil_of_right_ne-nil, cons-append, nil-append,
}
use werewolf_agent.Prelude.Tests.{ltb, Bool-cases}
use mathlib.Core.Option.{Option, none, some}
use werewolf_agent.Prelude.Text.{digit, digits_of, show, strip_prefix}

-- What Python's Unicode tables say of a code point: its value as a decimal digit, and none if
-- `isdecimal` does not hold of it.
abbrev pub DecimalTable : Type 0
DecimalTable = ℕ → Option ℕ

-- the ASCII digits are the digits of ten
abbrev pub HasAscii : DecimalTable → Type 0
HasAscii decimal = (d : ℕ) → d < 10 → decimal (48 + d) ≡ some d

-- `int(s)` after `acc`, for a text of decimal digits; none for another text
abbrev pub read_from : DecimalTable → ℕ → String → Option ℕ
read_from decimal acc String.[] = some acc
read_from decimal acc (String.◌∷◌ c s) = elim (decimal (code c)) [
  | none ↦ none
  | some d ↦ read_from decimal (acc * 10 + d) s
]

-- `int(s)` if `s and s.isdecimal()`
abbrev pub read_number : DecimalTable → String → Option ℕ
read_number decimal String.[] = none
read_number decimal (String.◌∷◌ c s) = read_from decimal 0 (String.◌∷◌ c s)

module _ (decimal : DecimalTable) (ascii : HasAscii decimal) where
  read_char :
      (c : Char) (d acc : ℕ) (s : String)
      → decimal (code c) ≡ some d
      → read_from decimal acc (String.◌∷◌ c String.[] ++ s) ≡ read_from decimal (acc * 10 + d) s
  read_char c d acc s h = rw (cons-append c String.[] s, nil-append s) (ground (arith, h))

  read_digit :
      (acc d : ℕ) (s : String)
      → d < 10
      → read_from decimal acc (digit d ++ s) ≡ read_from decimal (acc * 10 + d) s
  unfolding digit
  read_digit acc zero s h = read_char _ 0 acc s (ascii 0 h)
  read_digit acc (suc zero) s h = read_char _ 1 acc s (ascii 1 h)
  read_digit acc (suc (suc zero)) s h = read_char _ 2 acc s (ascii 2 h)
  read_digit acc (suc (suc (suc zero))) s h = read_char _ 3 acc s (ascii 3 h)
  read_digit acc (suc (suc (suc (suc zero)))) s h = read_char _ 4 acc s (ascii 4 h)
  read_digit acc (suc (suc (suc (suc (suc zero))))) s h = read_char _ 5 acc s (ascii 5 h)
  read_digit acc (suc (suc (suc (suc (suc (suc zero)))))) s h = read_char _ 6 acc s (ascii 6 h)
  read_digit acc (suc (suc (suc (suc (suc (suc (suc zero))))))) s h =
      read_char _ 7 acc s (ascii 7 h)
  read_digit acc (suc (suc (suc (suc (suc (suc (suc (suc zero)))))))) s h =
      read_char _ 8 acc s (ascii 8 h)
  read_digit acc (suc (suc (suc (suc (suc (suc (suc (suc (suc zero))))))))) s h =
      read_char _ 9 acc s (ascii 9 h)
  read_digit acc (suc (suc (suc (suc (suc (suc (suc (suc (suc (suc d)))))))))) s h =
      absurd (omega arith)

  -- the digits of `n` continue a number by as many places as they are
  read_digits :
      (fuel n : ℕ) (s : String)
      → n < fuel
      → read_from decimal 0 (digits_of fuel n ++ s) ≡ read_from decimal n s
  unfolding digits_of
  read_digits zero n s h = absurd (omega arith)
  read_digits (suc fuel) n s h = elim (Bool-cases (ltb n 10)) [
    | inl small ↦
        rw small (read_digit 0 n s (ground arith) ∙ ap (λ k. read_from decimal k s) (omega arith))
    | inr large ↦
        rw (large, append_assoc (digits_of fuel (n / 10)) (digit (n % 10)) s)
          (read_digits fuel (n / 10) (digit (n % 10) ++ s) (ground arith)
            ∙ read_digit (n / 10) (n % 10) s (omega arith)
            ∙ ap (λ k. read_from decimal k s) (omega arith))
  ]

  pub read_from-show : (n : ℕ) → read_from decimal 0 (show n) ≡ some n
  unfolding show
  read_from-show n =
      ap (read_from decimal 0) (sym (append-nil (digits_of (suc n) n)))
      ∙ read_digits (suc n) n String.[] (omega arith)

  digit-ne-nil : (d : ℕ) → d < 10 → digit d ≢ String.[]
  digit-ne-nil d h e =
      let q : some 1 ≡ some (1 * 10 + d) =
        ap (read_from decimal 1) (sym (ap (λ t. t ++ String.[]) e ∙ nil-append String.[]))
        ∙ read_digit 1 d String.[] h in
      absurd (ground (arith, q))

  show-ne-nil : (n : ℕ) → show n ≢ String.[]
  unfolding show digits_of
  show-ne-nil n = elim (Bool-cases (ltb n 10)) [
    | inl small ↦ rw small (digit-ne-nil n (ground arith))
    | inr large ↦
        rw large (
          append-ne-nil_of_right_ne-nil (digits_of n (n / 10))
            (digit-ne-nil (n % 10) (omega arith)))
  ]

  -- A number that is written in decimal digits is read back.
  pub read_number-show : (n : ℕ) → read_number decimal (show n) ≡ some n
  read_number-show n = by_first (show n) (show-ne-nil n) (read_from-show n)
    where
      by_first :
          (s : String)
          → s ≢ String.[]
          → read_from decimal 0 s ≡ some n
          → read_number decimal s ≡ some n
      by_first String.[] e h = absurd (e refl)
      by_first (String.◌∷◌ c s) e h = h

pub strip_prefix-append : (p s : String) → strip_prefix p (p ++ s) ≡ some s
strip_prefix-append String.[] s = rw (nil-append s) refl
strip_prefix-append (String.◌∷◌ c p) s =
    rw (cons-append c p s) (ground (arith, strip_prefix-append p s))
