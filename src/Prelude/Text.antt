-- ===== src/Prelude/Text.antt =====
-- Python's f-strings and numbers as text.
use Prim.Native.Nat.{ℕ, zero, suc, ◌/◌, ◌%◌}
use Prim.Native.Char.{code}
use Prim.Native.String.{String, ◌++◌}
use mathlib.Core.Option.{Option, none, some}
use mathlib.Core.List.{List, [], ◌∷◌}
use werewolf_agent.Prelude.Tests.{eqb, ltb, if◌then◌else◌}

-- the parts of an f-string, joined
abbrev pub concat : List String → String
concat [] = ""
concat (s ∷ ss) = s ++ concat ss

-- the texts joined by a separator
abbrev pub join : String → List String → String
join sep [] = ""
join sep (s ∷ []) = s
join sep (s ∷ t ∷ ss) = s ++ sep ++ join sep (t ∷ ss)

unfoldable pub digit : ℕ → String
digit zero = "0"
digit (suc zero) = "1"
digit (suc (suc zero)) = "2"
digit (suc (suc (suc zero))) = "3"
digit (suc (suc (suc (suc zero)))) = "4"
digit (suc (suc (suc (suc (suc zero))))) = "5"
digit (suc (suc (suc (suc (suc (suc zero)))))) = "6"
digit (suc (suc (suc (suc (suc (suc (suc zero))))))) = "7"
digit (suc (suc (suc (suc (suc (suc (suc (suc zero)))))))) = "8"
digit n = "9"

-- The digits of a number at most as long as the fuel; a number has fewer digits than its value + 1.
unfoldable pub digits_of : ℕ → ℕ → String
digits_of zero n = ""
digits_of (suc fuel) n =
    let more = digits_of fuel (n / 10) ++ digit (n % 10) in if ltb n 10 then digit n else more

unfoldable pub show : ℕ → String
unfolding digits_of digit
show n = digits_of (suc n) n

-- `f"{n:02d}"`
unfoldable pub show_padded_two : ℕ → String
unfolding show
show_padded_two n = if ltb n 10 then "0" ++ show n else show n

-- `f"{n:03d}"`
unfoldable pub show_padded_three : ℕ → String
unfolding show
show_padded_three n =
    if ltb n 10 then "00" ++ show n else if ltb n 100 then "0" ++ show n else show n

-- `f"{n:04d}"`
unfoldable pub show_padded_four : ℕ → String
unfolding show show_padded_three
show_padded_four n = if ltb n 1000 then "0" ++ show_padded_three n else show n

-- the code points of a text
abbrev pub codes : String → List ℕ
codes String.[] = []
codes (String.◌∷◌ c s) = code c ∷ codes s

-- s[len(prefix):] if s.startswith(prefix)
abbrev pub strip_prefix : String → String → Option String
strip_prefix String.[] s = some s
strip_prefix (String.◌∷◌ p ps) String.[] = none
strip_prefix (String.◌∷◌ p ps) (String.◌∷◌ c s) =
    let rest = strip_prefix ps s in if eqb (code p) (code c) then rest else none

-- s[:n]
abbrev pub truncate : ℕ → String → String
truncate zero s = ""
truncate (suc n) String.[] = ""
truncate (suc n) (String.◌∷◌ c s) = String.◌∷◌ c (truncate n s)
