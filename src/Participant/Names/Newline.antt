-- ===== src/Participant/Names/Newline.antt =====
-- The end of a name: `$` in the patterns of validate_run_id and validate_protocol_id.
use Prim.Native.Char.{code}
use Prim.Native.String.{◌++◌}
use text.Mathlib.TextLemmas.{cons-append}
use werewolf_agent.Participant.Errors.{valid}
use werewolf_agent.Participant.Names.{
  has_dots, is_forbidden, is_name_code, match_name, match_rest, validate_run_id,
}
use werewolf_agent.Prelude.{
  Bool, List, String, [], any, ap, arith, codes, eqb, eqb_iff, false, is_empty, refl, suc, true,
  zero, ℕ, ◌∷◌, ◌≡◌,
}

-- the codes of a text with a line feed behind it
with_newline : List ℕ → List ℕ
with_newline [] = 10 ∷ []
with_newline (c ∷ cs) = c ∷ with_newline cs

codes-newline : (s : String) → codes (s ++ "\n") ≡ with_newline (codes s)
unfolding with_newline
codes-newline String.[] = refl
codes-newline (String.◌∷◌ c s) =
    rw (cons-append c s "\n") (ap (λ cs. code c ∷ cs) (codes-newline s))

has_dots-newline : (cs : List ℕ) → has_dots (with_newline cs) ≡ has_dots cs
unfolding has_dots with_newline
has_dots-newline [] = refl
has_dots-newline (c ∷ []) = ground arith
has_dots-newline (c ∷ d ∷ cs) = ground (arith, has_dots-newline (d ∷ cs))

any-newline : (c : ℕ) (cs : List ℕ) → (c ≡ 10 → ⊥) → any (eqb c) (with_newline cs) ≡ any (eqb c) cs
unfolding with_newline
any-newline c [] h = ground (arith, h, eqb_iff c 10)
any-newline c (d ∷ cs) h = ground (arith, any-newline c cs h)

-- a text that matches to its end matches with a line feed behind it
match_rest-newline :
    (class : ℕ → Bool) (limit : ℕ) (cs : List ℕ)
    → any (eqb 10) cs ≡ false
    → match_rest class limit cs ≡ true
    → match_rest class limit (with_newline cs) ≡ true
unfolding match_rest with_newline
match_rest-newline class zero [] n h = refl
match_rest-newline class (suc limit) [] n h = refl
match_rest-newline class zero (c ∷ cs) n h = ground (arith, n, h)
match_rest-newline class (suc limit) (c ∷ cs) n h =
    ground (arith, n, h, match_rest-newline class limit cs)

is_forbidden-newline : (cs : List ℕ) → is_forbidden (with_newline cs) ≡ is_forbidden cs
unfolding is_forbidden
is_forbidden-newline cs = ground (
  arith,
  has_dots-newline cs,
  any-newline 47 cs (λ e. omega (arith, e)),
  any-newline 92 cs (λ e. omega (arith, e)),
  any-newline 63 cs (λ e. omega (arith, e)),
  any-newline 37 cs (λ e. omega (arith, e)),
)

match_name-newline :
    (class : ℕ → Bool) (limit : ℕ) (cs : List ℕ)
    → any (eqb 10) cs ≡ false
    → match_name class limit cs ≡ true
    → match_name class limit (with_newline cs) ≡ true
unfolding match_name with_newline
match_name-newline class limit [] n h = ground (arith, h)
match_name-newline class limit (c ∷ cs) n h =
    ground (arith, n, h, match_rest-newline class limit cs)

is_empty-newline : (cs : List ℕ) → is_empty (with_newline cs) ≡ false
unfolding with_newline
is_empty-newline [] = refl
is_empty-newline (c ∷ cs) = refl

-- A run id without a line feed that is valid is also valid with a line feed behind it.
pub validate_run_id-newline :
    (s : String)
    → any (eqb 10) (codes s) ≡ false
    → validate_run_id s ≡ valid s
    → validate_run_id (s ++ "\n") ≡ valid (s ++ "\n")
unfolding validate_run_id
validate_run_id-newline s n h =
    let passes : (is_forbidden (codes s) ≡ false) × (match_name is_name_code 127 (codes s) ≡ true) =
      (ground (arith, h), ground (arith, h)) in
    rw
      (
        codes-newline s,
        is_empty-newline (codes s),
        is_forbidden-newline (codes s),
        passes.0,
        match_name-newline is_name_code 127 (codes s) n passes.1,
      )
      refl
