-- ===== src/Checker/Commits/Once.antt =====
-- What check_i1, check_i3 and check_i5 report, against the list of what happened.
use werewolf_agent.Checker.Commits.{
  appended, capability, check_i1, check_i3, check_i5, counted, died_twice, identity, is_consume,
  settled_twice, used_twice,
}
use werewolf_agent.Checker.Rows.{RunArtifacts, gathered, is_death_commit, update}
use werewolf_agent.Log.{Event}
use werewolf_agent.Prelude.{
  Bool, Dict, Eq, List, Option, String, [], all, arith, comprehension-empty, distinct, elem, filter,
  keys, length, length-append, ltb, map, none, not, pair_eq, refl, some, string_eq, sym, true, ℕ,
  ◌&&◌, ◌+◌, ◌==◌, ◌||◌, ◌↔◌, ◌∷◌, ◌≡◌,
}

-- Rows that are gathered by a key, where `size` counts what is gathered under it.
module _ {ℓ κ ι} {A : Type ι} {K : Type ℓ} {V : Type κ} ⦃e : Eq K⦄ (key : A → K)
    (f : A → Option V → V) (size : V → ℕ) (first : (x : A) → size (f x none) ≡ 1)
    (more : (x : A) (v : V) → size (f x (some v)) ≡ size v + 1) where
  abbrev single : Dict K V → Bool
  single = all (λ entry. not (ltb 1 (size entry.1)))

  abbrev started : Dict K V → Bool
  started = all (λ entry. ltb 0 (size entry.1))

  update-started :
      (d : Dict K V) (x : A) → started d ≡ true → started (update d (key x) (f x)) ≡ true
  update-started [] x h = ground (arith, first x)
  update-started ((j, v) ∷ d) x h = ground (arith, more x v, update-started d x)

  update-single :
      (d : Dict K V) (x : A)
      → started d ≡ true
      → single (update d (key x) (f x)) ≡ (single d && not (elem (key x) (keys d)))
  update-single [] x h = ground (arith, first x)
  update-single ((j, v) ∷ d) x h =
      ground (arith, more x v, update-single d x, e.test_iff (key x) j, e.test_iff j (key x))

  update-keys :
      (d : Dict K V) (x : A) (k : K)
      → elem k (keys (update d (key x) (f x))) ≡ (elem k (keys d) || k == key x)
  update-keys [] x k = ground arith
  update-keys ((j, v) ∷ d) x k =
      ground (arith, update-keys d x k, e.test_iff j (key x), e.test_iff k j, e.test_iff k (key x))

  all-update :
      (d : Dict K V) (x : A) (ks : List K)
      → all (λ k. not (elem k (keys (update d (key x) (f x))))) ks
        ≡ (all (λ k. not (elem k (keys d))) ks && not (elem (key x) ks))
  all-update d x [] = refl
  all-update d x (k ∷ ks) =
      ground
        (arith, update-keys d x k, all-update d x ks, e.test_iff k (key x), e.test_iff (key x) k)

  gathered-single :
      (xs : List A) (d : Dict K V)
      → started d ≡ true
      → single (gathered key f xs d)
        ≡ (single d && all (λ k. not (elem k (keys d))) (map key xs) && distinct (map key xs))
  gathered-single [] d h = ground arith
  gathered-single (x ∷ xs) d h = ground (
    arith,
    gathered-single xs (update d (key x) (f x)) (update-started d x h),
    update-single d x h,
    all-update d x (map key xs),
  )

  all-new : (ks : List K) → all (λ k. not (elem k (keys {V = V} []))) ks ≡ true
  all-new [] = refl
  all-new (k ∷ ks) = all-new ks

  gathered-distinct : (xs : List A) → single (gathered key f xs []) ≡ distinct (map key xs)
  gathered-distinct xs = rw (gathered-single xs [] refl, all-new (map key xs)) refl

  -- Nothing is reported as gathered twice under one key exactly if the keys are distinct.
  report-Once :
      {B : Type 0} (report : K × V → B) (xs : List A)
      → (map report (filter (λ entry. ltb 1 (size entry.1)) (gathered key f xs [])) ≡ [])
        ↔ (distinct (map key xs) ≡ true)
  report-Once report xs =
      rw (sym (gathered-distinct xs))
        (comprehension-empty report (λ entry. ltb 1 (size entry.1)) (gathered key f xs []))

length-appended : (v : String) (vs : List String) → length (appended v (some vs)) ≡ length vs + 1
length-appended v vs = omega (arith, length-append vs (v ∷ []))

-- check_i1 reports nothing exactly if no two death events have one target; check_i3 exactly if no
-- actor has two events of one consumable; check_i5 exactly if no two turns have one request id and
-- phase.
pub checks-Once :
    (arts : RunArtifacts)
    → ((check_i1 arts ≡ [])
        ↔ (distinct (map (λ (e : Event). e.target) (filter is_death_commit arts.events)) ≡ true))
      × ((check_i3 arts ≡ []) ↔ (distinct (map capability (filter is_consume arts.events)) ≡ true))
      × ((check_i5 arts ≡ []) ↔ (distinct (map identity arts.provider_turns) ≡ true))
unfolding check_i1 check_i3 check_i5
checks-Once arts = (
  report-Once (λ (e : Event). e.target) (λ e. appended e.event_id) length (λ e. refl)
      (λ e. length-appended e.event_id) (died_twice arts) (filter is_death_commit arts.events),
  report-Once capability (λ e. appended e.event_id) length (λ e. refl)
      (λ e. length-appended e.event_id) (used_twice arts) (filter is_consume arts.events),
  report-Once identity (λ t. counted) (λ n. n) (λ t. refl) (λ t n. refl) (settled_twice arts)
      arts.provider_turns,
)
