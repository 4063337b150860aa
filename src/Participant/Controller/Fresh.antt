-- ===== src/Participant/Controller/Fresh.antt =====
-- The ids that open_action_window makes: the counter can be read off the end.
use Prim.Native.Char.{code}
use Prim.Native.String.{◌++◌}
use text.Mathlib.TextLemmas.{append-nil, cons-append, nil-append}
use werewolf_agent.Participant.Controller.{window_id}
use werewolf_agent.Prelude.{
  DecimalTable, HasAscii, Option, String, ap, arith, if◌then◌else◌, leb, none, read_from,
  read_from-show, refl, show, show_padded_four, show_padded_three, some, ℕ, ◌&&◌, ◌*◌, ◌+◌, ◌-◌,
  ◌∙◌, ◌≡◌,
}

-- the ASCII digits
ascii_digit : DecimalTable
ascii_digit c = if leb 48 c && leb c 57 then some (c - 48) else none

ascii_digit-HasAscii : HasAscii ascii_digit
unfolding ascii_digit
ascii_digit-HasAscii d h = ground arith

-- the number after the last code that is no digit
pub ending : ℕ → String → ℕ
ending acc String.[] = acc
ending acc (String.◌∷◌ c s) = elim (ascii_digit (code c)) [
  | none ↦ ending 0 s
  | some d ↦ ending (acc * 10 + d) s
]

ending-append : (acc : ℕ) (s t : String) → ending acc (s ++ t) ≡ ending (ending acc s) t
unfolding ending
ending-append acc String.[] t = rw (nil-append t) refl
ending-append acc (String.◌∷◌ c s) t =
    rw (cons-append c s t) (
      by_digit (ending-append 0 s t) (λ d. ending-append (acc * 10 + d) s t) (ascii_digit (code c)))
  where
    by_digit :
        ending 0 (s ++ t) ≡ ending (ending 0 s) t
        → ((d : ℕ) → ending (acc * 10 + d) (s ++ t) ≡ ending (ending (acc * 10 + d) s) t)
        → (d : Option ℕ)
        → elim d [ none ↦ ending 0 (s ++ t) | some d ↦ ending (acc * 10 + d) (s ++ t) ]
          ≡ ending (elim d [ none ↦ ending 0 s | some d ↦ ending (acc * 10 + d) s ]) t
    by_digit none_case some_case none = none_case
    by_digit none_case some_case (some d) = some_case d

ending-read_from :
    (acc : ℕ) (s : String) (n : ℕ) → read_from ascii_digit acc s ≡ some n → ending acc s ≡ n
unfolding ending
ending-read_from acc String.[] n h = cc h
ending-read_from acc (String.◌∷◌ c s) n h =
    by_digit (λ d. ending-read_from (acc * 10 + d) s n) (ascii_digit (code c)) h
  where
    by_digit :
        ((d : ℕ) → read_from ascii_digit (acc * 10 + d) s ≡ some n → ending (acc * 10 + d) s ≡ n)
        → (d : Option ℕ)
        → elim d [ none ↦ none | some d ↦ read_from ascii_digit (acc * 10 + d) s ] ≡ some n
        → elim d [ none ↦ ending 0 s | some d ↦ ending (acc * 10 + d) s ] ≡ n
    by_digit some_case none h = cc h
    by_digit some_case (some d) h = some_case d h

ending-show : (n : ℕ) → ending 0 (show n) ≡ n
ending-show n = ending-read_from 0 (show n) n (read_from-show ascii_digit ascii_digit-HasAscii n)

zeros_first : (s : String) → ending 0 ("0" ++ s) ≡ ending 0 s
unfolding ending ascii_digit
zeros_first s = ending-append 0 "0" s

ending-show_padded_four : (n : ℕ) → ending 0 (show_padded_four n) ≡ n
unfolding show_padded_four show_padded_three ending ascii_digit
ending-show_padded_four n =
    let two : ending 0 ("0" ++ show n) ≡ n = zeros_first (show n) ∙ ending-show n in
    let three : ending 0 ("00" ++ show n) ≡ n = ending-append 0 "00" (show n) ∙ ending-show n in
    ground (arith, zeros_first (show_padded_three n), two, three, ending-show n)

ending_tail : (acc n : ℕ) → ending acc ("_" ++ (show_padded_four n ++ "")) ≡ n
unfolding ending ascii_digit
ending_tail acc n =
    ending-append acc "_" (show_padded_four n ++ "")
    ∙ ap (ending 0) (append-nil (show_padded_four n))
    ∙ ending-show_padded_four n

-- The counter is at the end of the id.
pub ending-window_id : (run seat : String) (n : ℕ) → ending 0 (window_id run seat n) ≡ n
unfolding window_id
ending-window_id run seat n =
    let tail = "_" ++ (show_padded_four n ++ "") in
    ending-append 0 "aw_" (run ++ ("_" ++ (seat ++ tail)))
    ∙ ending-append (ending 0 "aw_") run ("_" ++ (seat ++ tail))
    ∙ ending-append (ending (ending 0 "aw_") run) "_" (seat ++ tail)
    ∙ ending-append (ending (ending (ending 0 "aw_") run) "_") seat tail
    ∙ ending_tail (ending (ending (ending (ending 0 "aw_") run) "_") seat) n
