-- ===== src/Runtime/Tally/Plurality.antt =====
-- The leaders of the tally in _run_vote_round of emergent_engine.py.
use werewolf_agent.Prelude.{
  Bool, Bool-cases, Dict, List, String, [], arith, count, count-elem, distinct, distinct-sorted,
  elem, elem-count, elem-sorted, eq_iff, eqb, false, filter, get, get-put, get_default, has_key,
  if◌then◌else◌, inl, inr, keys, ltb, none, not, put, refl, some, str_leb, string_eq, true, values,
  ℕ, ◌&&◌, ◌+◌, ◌↔◌, ◌∙◌, ◌∷◌, ◌≡◌, ◌≤◌,
}
use werewolf_agent.Runtime.Tally.{leaders, maximum, tally, tally_from}

get-tally_from :
    (votes : List String) (counts : Dict String ℕ) (t : String)
    → get (tally_from counts votes) t ≡ (
        if eqb (count t votes) 0
        then get counts t
        else some (get_default counts t 0 + count t votes))
unfolding tally_from
get-tally_from [] counts t = refl
get-tally_from (v ∷ votes) counts t = ground (
  arith,
  get-tally_from votes (put counts v (get_default counts v 0 + 1)) t,
  get-put counts v t (get_default counts v 0 + 1),
  eq_iff v t,
  eq_iff t v,
)

module _ {ℓ} {V : Type ℓ} where
  elem-keys : (d : Dict String V) (k : String) → elem k (keys d) ≡ has_key d k
  elem-keys [] k = refl
  elem-keys ((j, v) ∷ d) k = ground (arith, elem-keys d k, eq_iff k j, eq_iff j k)

  distinct-keys-put :
      (d : Dict String V) (k : String) (v : V)
      → distinct (keys d) ≡ true
      → distinct (keys (put d k v)) ≡ true
  distinct-keys-put [] k v h = refl
  distinct-keys-put ((j, w) ∷ d) k v h = ground (
    arith,
    distinct-keys-put d k v,
    elem-keys d j,
    elem-keys (put d k v) j,
    get-put d k j v,
    eq_iff j k,
    eq_iff k j,
  )

  -- the keys of the entries whose value passes a test
  elem-keys-filter :
      (p : V → Bool) (d : Dict String V) (k : String)
      → distinct (keys d) ≡ true
      → elem k (keys (filter (λ e. p e.1) d)) ≡ (elim (get d k) [ none ↦ false | some v ↦ p v ])
  elem-keys-filter p [] k h = refl
  elem-keys-filter p ((j, v) ∷ d) k h =
      ground (arith, elem-keys-filter p d k, elem-keys d j, eq_iff j k, eq_iff k j)

  distinct-keys-filter :
      (p : V → Bool) (d : Dict String V)
      → distinct (keys d) ≡ true
      → distinct (keys (filter (λ e. p e.1) d)) ≡ true
  distinct-keys-filter p [] h = refl
  distinct-keys-filter p ((j, v) ∷ d) h =
      ground (arith, distinct-keys-filter p d, elem-keys-filter p d j, elem-keys d j)

distinct-tally_from :
    (votes : List String) (counts : Dict String ℕ)
    → distinct (keys counts) ≡ true
    → distinct (keys (tally_from counts votes)) ≡ true
unfolding tally_from
distinct-tally_from [] counts h = h
distinct-tally_from (v ∷ votes) counts h =
    distinct-tally_from votes (put counts v (get_default counts v 0 + 1))
      (distinct-keys-put counts v (get_default counts v 0 + 1) h)

get-le-maximum :
    (d : Dict String ℕ) (k : String) (v : ℕ) → get d k ≡ some v → v ≤ maximum (values d)
unfolding maximum
get-le-maximum [] k v h = cc
get-le-maximum ((j, w) ∷ d) k v h = ground (arith, get-le-maximum d k v)

-- the largest value of a tally that is not empty stands at some key
maximum-attained :
    (e : String × ℕ) (d : Dict String ℕ)
    → distinct (keys (e ∷ d)) ≡ true
    → (k : String) × (get (e ∷ d) k ≡ some (maximum (values (e ∷ d))))
unfolding maximum
maximum-attained (j, w) [] h = (j, ground (arith, eq_iff j j))
maximum-attained (j, w) (e ∷ d) h =
    let (k, top) = maximum-attained e d (ground arith) in
    elim (Bool-cases (ltb w (maximum (values (e ∷ d))))) [
      | inl below ↦ (k, ground (arith, top, elem-keys (e ∷ d) k, eq_iff j k))
      | inr above ↦ (j, ground (arith, eq_iff j j))
    ]

get-tally :
    (votes : List String) (t : String)
    → get (tally votes) t ≡ (if eqb (count t votes) 0 then none else some (count t votes))
unfolding tally
get-tally votes t = ground (arith, get-tally_from votes [] t)

distinct-tally : (votes : List String) → distinct (keys (tally votes)) ≡ true
unfolding tally
distinct-tally votes = distinct-tally_from votes [] refl

count-le-maximum :
    (votes : List String) (t : String) → count t votes ≤ maximum (values (tally votes))
count-le-maximum votes t =
    ground (arith, get-tally votes t, get-le-maximum (tally votes) t (count t votes))

elem-leaders :
    (votes : List String) (t : String)
    → elem t (leaders (tally votes))
      ≡ (not (eqb (count t votes) 0) && eqb (count t votes) (maximum (values (tally votes))))
unfolding leaders
elem-leaders votes t =
    let top = maximum (values (tally votes)) in
    ground (
      arith,
      elem-sorted str_leb t (keys (filter (λ (e : String × ℕ). eqb e.1 top) (tally votes))),
      elem-keys-filter (λ v. eqb v top) (tally votes) t (distinct-tally votes),
      get-tally votes t,
    )

attained_somewhere :
    (d : Dict String ℕ) (k : String)
    → distinct (keys d) ≡ true
    → has_key d k ≡ true
    → (j : String) × (get d j ≡ some (maximum (values d)))
attained_somewhere [] k h m = cc
attained_somewhere (e ∷ d) k h m = maximum-attained e d h

-- Some choice has as many votes as the maximum says.
top_choice :
    (votes : List String) (t : String)
    → elem t votes ≡ true
    → (u : String) × (count u votes ≡ maximum (values (tally votes)))
top_choice votes t m =
    let (u, top) =
      attained_somewhere (tally votes) t (distinct-tally votes)
        (ground (arith, get-tally votes t, elem-count t votes m)) in
    (u, ground (arith, get-tally votes u, top))

-- A choice is a leader of the tally of some votes exactly if somebody voted for it and no choice has
-- more votes.
pub leaders-tally :
    (votes : List String) (t : String)
    → (elem t (leaders (tally votes)) ≡ true)
      ↔ ((elem t votes ≡ true) × ((u : String) → count u votes ≤ count t votes))
leaders-tally votes t = (forth, back)
  where
    forth :
        elem t (leaders (tally votes)) ≡ true
        → (elem t votes ≡ true) × ((u : String) → count u votes ≤ count t votes)
    forth h = (
      ground (arith, elem-leaders votes t, count-elem t votes),
      λ u. ground (arith, elem-leaders votes t, count-le-maximum votes u),
    )

    back :
        (elem t votes ≡ true) × ((u : String) → count u votes ≤ count t votes)
        → elem t (leaders (tally votes)) ≡ true
    back (m, most) =
        let (u, top) = top_choice votes t m in
        ground
          (arith, elem-leaders votes t, elem-count t votes m, most u, top, count-le-maximum votes t)

-- The list of leaders is in the order of the texts' code points, and empty only without votes.
pub leaders-ne-nil :
    (votes : List String) (t : String)
    → elem t votes ≡ true
    → (u : String) × (elem u (leaders (tally votes)) ≡ true)
leaders-ne-nil votes t m =
    let (u, top) = top_choice votes t m in
    (u, ground (arith, elem-leaders votes u, elem-count t votes m, top, count-le-maximum votes t))

pub distinct-leaders : (votes : List String) → distinct (leaders (tally votes)) ≡ true
unfolding leaders
distinct-leaders votes =
    let top = maximum (values (tally votes)) in
    let leading = λ (e : String × ℕ). eqb e.1 top in
    distinct-sorted str_leb (keys (filter leading (tally votes)))
    ∙ distinct-keys-filter (λ v. eqb v top) (tally votes) (distinct-tally votes)
