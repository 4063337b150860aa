-- ===== src/Participant/Overview/Laws.antt =====
-- Single open windows, and the latest cursor.
use mathlib.Core.Path.{subst}
use werewolf_agent.Participant.Controller.{Controller, seat_pair, windows_of}
use werewolf_agent.Participant.Errors.{>>=-eq-valid, Checked, refused, valid, valid_inj}
use werewolf_agent.Participant.Names.{parse_reconnect_cursor}
use werewolf_agent.Participant.Overview.{
  ensure_single_open_action_window, latest_from, latest_of, latest_reconnect_cursor, owner,
  single_open_from,
}
use werewolf_agent.Participant.Window.{ActionWindow, PyText, is_open}
use werewolf_agent.Prelude.{
  Bool, Bool-cases, DecimalTable, Dict, Eq, List, String, [], all, ap, arith, distinct, elem,
  eq_self, false, filter, has_key, inl, inr, leb, ltb, map, not, pair_eq, put, refl, some,
  string_eq, sym, true, ℕ, ◌&&◌, ◌==◌, ◌||◌, ◌↔◌, ◌∙◌, ◌∷◌, ◌≡◌,
}

is_valid {ℓ} : {A : Type ℓ} → Checked A → Bool
is_valid (valid a) = true
is_valid (refused fault) = false

-- no owner of the windows is a key of `seen`
abbrev unseen : Dict (String × String) String → List (String × String) → Bool
unseen seen = all (λ pair. not (has_key seen pair))

module _ {K V : Type 0} ⦃e : Eq K⦄ where
  has_key-put : (d : Dict K V) (k j : K) (v : V) → has_key (put d k v) j ≡ (has_key d j || k == j)
  has_key-put [] k j v = ground arith
  has_key-put ((i, w) ∷ d) k j v =
      ground (arith, has_key-put d k j v, e.test_iff i k, e.test_iff i j, e.test_iff k j)

  all-put :
      (d : Dict K V) (k : K) (v : V) (ks : List K)
      → all (λ j. not (has_key (put d k v) j)) ks
        ≡ (all (λ j. not (has_key d j)) ks && not (elem k ks))
  all-put d k v [] = refl
  all-put d k v (j ∷ ks) = ground (arith, has_key-put d k j v, all-put d k v ks)

abbrev pub owners : List ActionWindow → List (String × String)
owners windows = map owner (filter (λ w. is_open w.status) windows)

single_open_from-distinct :
    (seen : Dict (String × String) String) (windows : List ActionWindow)
    → is_valid (single_open_from seen windows)
      ≡ (unseen seen (owners windows) && distinct (owners windows))
unfolding single_open_from is_valid
single_open_from-distinct seen [] = refl
single_open_from-distinct seen (w ∷ windows) = elim (Bool-cases (is_open w.status)) [
  | inr closed ↦ rw closed (single_open_from-distinct seen windows)
  | inl is_up ↦ elim (Bool-cases (has_key seen (owner w))) [
    | inl there ↦ rw (is_up, there) refl
    | inr fresh ↦
        let rest = single_open_from-distinct (put seen (owner w) w.action_window_id) windows in
        let put_in = all-put seen (owner w) w.action_window_id (owners windows) in
        rw (is_up, fresh) (ground (arith, rest, put_in))
  ]
]

unseen-none : (pairs : List (String × String)) → unseen [] pairs ≡ true
unseen-none [] = refl
unseen-none (pair ∷ pairs) = unseen-none pairs

is_valid_iff : (c : Checked (Unit {0})) → (is_valid c ≡ true) ↔ (c ≡ valid tt)
unfolding is_valid
is_valid_iff (valid tt) = (λ h. refl, λ h. refl)
is_valid_iff (refused fault) = (λ h. ground (arith, h), λ h. ap is_valid h)

-- The windows pass exactly if no two of the open ones are of one run and seat.
pub ensure_single_open_action_window-distinct :
    (windows : List ActionWindow)
    → (ensure_single_open_action_window windows ≡ valid tt) ↔ (distinct (owners windows) ≡ true)
unfolding ensure_single_open_action_window
ensure_single_open_action_window-distinct windows =
    let same : is_valid (single_open_from [] windows) ≡ distinct (owners windows) =
      rw (single_open_from-distinct [] windows, unseen-none (owners windows)) refl in
    let (to, from) = is_valid_iff (single_open_from [] windows) in
    (λ h. sym same ∙ from h, λ h. to (same ∙ h))

abbrev pub at_most : ℕ → Checked ℕ → Bool
at_most n (refused fault) = false
at_most n (valid m) = leb m n

-- the cursors of the windows of a run and a seat
abbrev pub cursors_of : Controller → String × String → List String
cursors_of c pair = map (λ (w : ActionWindow). w.reconnect_cursor) (windows_of c pair.0 pair.1)

-- a cursor whose index is at most `n`
abbrev pub is_up_to : DecimalTable → ℕ → String → Bool
is_up_to decimal n cursor = at_most n (parse_reconnect_cursor decimal cursor)

-- one of the cursors, with the greatest index
pub record IsLatest (decimal : DecimalTable) (latest : String) (cursors : List String)
    : Type 0 where
  pub index : ℕ
  pub parsed : parse_reconnect_cursor decimal latest ≡ valid index
  pub listed : elem latest cursors ≡ true
  pub greatest : all (is_up_to decimal index) cursors ≡ true

module _ (decimal : DecimalTable) where
  up_to_index :
      (cursor : String) (m n : ℕ)
      → parse_reconnect_cursor decimal cursor ≡ valid m
      → is_up_to decimal n cursor ≡ leb m n
  up_to_index cursor m n h = ap (at_most n) h

  latest_from-IsLatest :
      (best : String) (n : ℕ) (cursors : List String) (latest : String)
      → parse_reconnect_cursor decimal best ≡ valid n
      → latest_from decimal best n cursors ≡ valid latest
      → IsLatest decimal latest (best ∷ cursors)
  unfolding latest_from
  latest_from-IsLatest best n [] latest h e =
      subst (λ l. IsLatest decimal l (best ∷ [])) (valid_inj e)
        (record {
          index = n;
          parsed = h;
          listed = rw (eq_self best) refl;
          greatest = rw (up_to_index best n n h) (ground arith);
        })
  latest_from-IsLatest best n (cursor ∷ cursors) latest h e =
      let (m, here, k) = >>=-eq-valid (parse_reconnect_cursor decimal cursor) _ e in
      elim (Bool-cases (ltb n m)) [
        | inl less ↦
            let rest = latest_from-IsLatest cursor m cursors latest here (rw less at k) in
            record {
              index = rest.index;
              parsed = rest.parsed;
              listed = ground (arith, rest.listed);
              greatest = ground (
                arith,
                less,
                rest.greatest,
                up_to_index best n rest.index h,
                up_to_index cursor m rest.index here,
              );
            }
        | inr other ↦
            let rest = latest_from-IsLatest best n cursors latest h (rw other at k) in
            record {
              index = rest.index;
              parsed = rest.parsed;
              listed = ground (arith, rest.listed);
              greatest = ground (
                arith,
                other,
                rest.greatest,
                up_to_index best n rest.index h,
                up_to_index cursor m rest.index here,
              );
            }
      ]

  latest_of-IsLatest :
      (cursors : List String) (latest : String)
      → latest_of decimal cursors ≡ valid (some latest)
      → IsLatest decimal latest cursors
  unfolding latest_of
  latest_of-IsLatest [] latest e = cc e
  latest_of-IsLatest (cursor ∷ cursors) latest e =
      let (n, here, k) = >>=-eq-valid (parse_reconnect_cursor decimal cursor) _ e in
      let (found, there, l) = >>=-eq-valid (latest_from decimal cursor n cursors) _ k in
      latest_from-IsLatest cursor n cursors latest here (cc (there, l))

-- The cursor that latest_reconnect_cursor gives is that of a window of the run and the seat, and no
-- window of theirs has a later one.
pub latest_reconnect_cursor-IsLatest :
    (py : PyText) (c : Controller) (run_id seat_id latest : String)
    → latest_reconnect_cursor py c run_id seat_id ≡ valid (some latest)
    → (pair : String × String) × (seat_pair run_id seat_id ≡ valid pair)
      × IsLatest py.decimal latest (cursors_of c pair)
unfolding latest_reconnect_cursor
latest_reconnect_cursor-IsLatest py c run_id seat_id latest h =
    let (pair, named, k) = >>=-eq-valid (seat_pair run_id seat_id) _ h in
    (pair, named, latest_of-IsLatest py.decimal (cursors_of c pair) latest k)
