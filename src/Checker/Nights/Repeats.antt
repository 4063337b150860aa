-- ===== src/Checker/Nights/Repeats.antt =====
-- check_i8c against the nights of the guard.
use werewolf_agent.Checker.Nights.{check_i8c, guarded_night, pair_leb, repeat_faults, repeats}
use werewolf_agent.Checker.Rows.{RunArtifacts}
use werewolf_agent.Log.{Event}
use werewolf_agent.Prelude.{
  Bool, Bool-cases, List, String, [], all, all-insert, all-same, all-sorted, arith, distinct, elem,
  empty_iff, eqb, false, filter, inl, inr, insert, is_empty, ltb, map, nat_eq, not, refl, sorted,
  string_eq, sym, true, ℕ, ◌&&◌, ◌==◌, ◌||◌, ◌↔◌, ◌∙◌, ◌∷◌, ◌≡◌,
}

-- no night of the list after `a` repeats the target of `a`
abbrev none_repeats : ℕ × String → List (ℕ × String) → Bool
none_repeats a = all (λ b. not (repeats a b))

-- no night repeats the target of the night before, wherever the two stand
abbrev pub varied : List (ℕ × String) → Bool
varied nights = all (λ a. none_repeats a nights) nights

abbrev pub rounds : List (ℕ × String) → List ℕ
rounds nights = map (λ a. a.0) nights

-- each night is earlier than all behind it
rising : List (ℕ × String) → Bool
rising [] = true
rising (a ∷ nights) = all (λ b. ltb a.0 b.0) nights && rising nights

-- no night behind repeats the target of one before it
varied_behind : List (ℕ × String) → Bool
varied_behind [] = true
varied_behind (a ∷ nights) = none_repeats a nights && varied_behind nights

far_apart :
    (a b : ℕ × String) (nights : List (ℕ × String))
    → ltb a.0 b.0 ≡ true
    → all (λ c. ltb b.0 c.0) nights ≡ true
    → none_repeats a nights ≡ true
far_apart a b [] h k = refl
far_apart a b (c ∷ nights) h k = ground (arith, far_apart a b nights)

repeat_faults-varied_behind :
    (game_id : String) (nights : List (ℕ × String))
    → rising nights ≡ true
    → is_empty (repeat_faults game_id nights) ≡ varied_behind nights
unfolding repeat_faults rising varied_behind
repeat_faults-varied_behind game_id [] h = refl
repeat_faults-varied_behind game_id (a ∷ []) h = refl
repeat_faults-varied_behind game_id (a ∷ b ∷ nights) h =
    ground (arith, h, far_apart a b nights, repeat_faults-varied_behind game_id (b ∷ nights))

-- behind a night only later ones can repeat it
none_before :
    (a : ℕ × String) (nights : List (ℕ × String))
    → all (λ b. ltb a.0 b.0) nights ≡ true
    → all (λ b. not (repeats b a)) nights ≡ true
none_before a [] h = refl
none_before a (b ∷ nights) h = ground (arith, none_before a nights)

all-and {ℓ} :
    {A : Type ℓ} (p q : A → Bool) (xs : List A) → all (λ x. p x && q x) xs ≡ (all p xs && all q xs)
all-and p q [] = refl
all-and p q (x ∷ xs) = ground (arith, all-and p q xs)

varied-behind :
    (nights : List (ℕ × String)) → rising nights ≡ true → varied nights ≡ varied_behind nights
unfolding rising varied_behind
varied-behind [] h = refl
varied-behind (a ∷ nights) h =
    rw (all-and (λ b. not (repeats b a)) (λ b. none_repeats b nights) nights)
      (ground (arith, h, none_before a nights, varied-behind nights))

rounds-insert :
    (n : ℕ) (a : ℕ × String) (nights : List (ℕ × String))
    → elem n (rounds (insert pair_leb a nights)) ≡ (eqb n a.0 || elem n (rounds nights))
rounds-insert n a [] = refl
rounds-insert n a (b ∷ nights) = ground (arith, rounds-insert n a nights)

rounds-sorted :
    (n : ℕ) (nights : List (ℕ × String))
    → elem n (rounds (sorted pair_leb nights)) ≡ elem n (rounds nights)
rounds-sorted n [] = refl
rounds-sorted n (a ∷ nights) =
    rw (rounds-insert n a (sorted pair_leb nights), rounds-sorted n nights) refl

before_all :
    (a b : ℕ × String) (nights : List (ℕ × String))
    → ltb a.0 b.0 ≡ true
    → all (λ c. ltb b.0 c.0) nights ≡ true
    → all (λ c. ltb a.0 c.0) nights ≡ true
before_all a b [] h k = refl
before_all a b (c ∷ nights) h k = ground (arith, before_all a b nights)

rising-insert :
    (a : ℕ × String) (nights : List (ℕ × String))
    → rising nights ≡ true
    → elem a.0 (rounds nights) ≡ false
    → rising (insert pair_leb a nights) ≡ true
unfolding rising
rising-insert a [] h k = refl
rising-insert a (b ∷ nights) h k = elim (Bool-cases (pair_leb a b)) [
  | inl first ↦ rw first (ground (arith, h, k, before_all a b nights))
  | inr other ↦
      rw (other, all-insert pair_leb (λ c. ltb b.0 c.0) a nights)
        (ground (arith, h, k, rising-insert a nights))
]

rising-sorted :
    (nights : List (ℕ × String))
    → distinct (rounds nights) ≡ true
    → rising (sorted pair_leb nights) ≡ true
unfolding rising
rising-sorted [] h = refl
rising-sorted (a ∷ nights) h =
    rising-insert a (sorted pair_leb nights) (rising-sorted nights (ground (arith, h)))
      (rw (rounds-sorted a.0 nights) (ground (arith, h)))

varied-sorted : (nights : List (ℕ × String)) → varied (sorted pair_leb nights) ≡ varied nights
varied-sorted nights =
    rw (all-sorted pair_leb (λ a. none_repeats a (sorted pair_leb nights)) nights) (
      all-same (λ a. none_repeats a (sorted pair_leb nights)) (λ a. none_repeats a nights) nights
        (λ a. all-sorted pair_leb (λ b. not (repeats a b)) nights))

-- the nights in which the guard protected a player
abbrev pub guarded_nights : RunArtifacts → List (ℕ × String)
guarded_nights arts =
    map guarded_night (filter (λ (e : Event). e.type == "guard_protect") arts.events)

-- Where the guard acts at most once in a round, check_i8c reports nothing exactly if no target is
-- protected in a round and in the next, in whatever order the log is.
pub check_i8c-varied :
    (arts : RunArtifacts)
    → distinct (rounds (guarded_nights arts)) ≡ true
    → (check_i8c arts ≡ []) ↔ (varied (guarded_nights arts) ≡ true)
unfolding check_i8c
check_i8c-varied arts h =
    let nights = sorted pair_leb (guarded_nights arts) in
    let up = rising-sorted (guarded_nights arts) h in
    let same : is_empty (repeat_faults arts.game_id nights) ≡ varied (guarded_nights arts) =
      repeat_faults-varied_behind arts.game_id nights up
      ∙ sym (varied-behind nights up)
      ∙ varied-sorted (guarded_nights arts) in
    let (to, from) = empty_iff (repeat_faults arts.game_id nights) in
    (λ k. sym same ∙ from k, λ k. to (same ∙ k))
