-- ===== src/Participant/Life.antt =====
-- The changes that the calls make to the store, one by one.
use mathlib.Core.Path.{subst}
use werewolf_agent.Participant.Controller.{Controller}
use werewolf_agent.Participant.Idempotency.{IdempotencyRecord, Ledger, recorded}
use werewolf_agent.Participant.Steps.{IsConsistent, IsKept, IsSound}
use werewolf_agent.Participant.Window.{ActionWindow, PyText, Submission, accepted_status, is_open}
use werewolf_agent.Participant.Window.Stored.{IsStored}
use werewolf_agent.Prelude.{
  Bool, Bool-cases, Dict, Option, String, ap, arith, count, elem, eq_iff, false, get, get-put, inl,
  inr, none, put, refl, some, string_eq, sym, true, ℕ, ◌==◌, ◌∙◌, ◌≡◌, ◌≤◌, ◌⊎◌,
}

pub put-cases :
    {V : Type 0} (d : Dict String V) (k j : String) (v u : V)
    → get (put d k v) j ≡ some u
    → ((k ≡ j) × (v ≡ u)) ⊎ (((k == j) ≡ false) × (get d j ≡ some u))
put-cases d k j v u h = elim (Bool-cases (k == j)) [
  | inl e ↦ inl ((eq_iff k j).0 e, ground (arith, get-put d k j v, e, h))
  | inr e ↦ inr (e, ground (arith, get-put d k j v, e, h))
]

pub get-put_other :
    {V : Type 0} (d : Dict String V) (k j : String) (v : V)
    → (k == j) ≡ false
    → get (put d k v) j ≡ get d j
get-put_other d k j v e = rw (get-put d k j v, e) refl

pub get-put_same :
    {V : Type 0} (d : Dict String V) (k : String) (v : V) → get (put d k v) k ≡ some v
get-put_same d k v = rw (get-put d k k v, (eq_iff k k).1 refl) refl

-- a key that is missing is another one
pub missing_other :
    {V : Type 0} (d : Dict String V) (k j : String) (u : V)
    → get d k ≡ none
    → get d j ≡ some u
    → (k == j) ≡ false
missing_other d k j u missing found = ground (arith, eq_iff k j)

abbrev pub is_open_or : (ActionWindow → Bool) → Option ActionWindow → Bool
is_open_or f none = true
is_open_or f (some w) = f w

module _ (py : PyText) (c : Controller) (h : IsConsistent py c) where
  -- seats and counters alone
  pub count_up :
      (d : Controller)
      → d.windows ≡ c.windows
      → d.accepted_submissions ≡ c.accepted_submissions
      → d.ledger ≡ c.ledger
      → c.window_counter ≤ d.window_counter
      → IsSound py c d
  count_up d w a l n = record {
    consistent = record {
      kept = λ id u g.
          let k = h.kept id u (rw (← w) g) in
          record { named = k.named; made = omega (arith, k.made, n); stored = k.stored };
      one_open = rw w h.one_open;
      accepted = rw (a, w) h.accepted;
    };
    later = record {
      closed_stays = λ id u g s. rw w g;
      window_stays = λ id u g. (u, rw w g);
      accepted_stays = λ id s g. rw a g;
      none_comes = λ id u g s e. rw a e;
      recorded_stays = λ s r g. rw l g;
    };
  }

  -- a new open window for a seat without one
  pub add_window :
      (w : ActionWindow) (counter : ℕ)
      → c.window_counter ≤ counter
      → IsKept py counter w.action_window_id w
      → get c.windows w.action_window_id ≡ none
      → ((id : String) (v : ActionWindow)
          → get c.windows id ≡ some v
          → is_open v.status ≡ true
          → v.run_id ≡ w.run_id
          → v.seat_id ≡ w.seat_id
          → ⊥)
      → IsSound py c
          (record c { window_counter = counter; windows = put c.windows w.action_window_id w })
  add_window w counter n k missing alone = record {
    consistent = record {
      kept = λ id u g. elim (put-cases c.windows w.action_window_id id w u g) [
        | inl (e, f) ↦
            subst (λ id. IsKept py counter id u) e
              (subst (IsKept py counter w.action_window_id) f k)
        | inr (e, f) ↦
            let k = h.kept id u f in
            record { named = k.named; made = omega (arith, k.made, n); stored = k.stored }
      ];
      one_open = λ id jd u v gu gv ou ov r s.
          elim (put-cases c.windows w.action_window_id id w u gu) [
            | inl (e, f) ↦ elim (put-cases c.windows w.action_window_id jd w v gv) [
              | inl (e', f') ↦ sym e ∙ e'
              | inr (e', f') ↦ absurd (
                  alone jd v f' ov (sym r ∙ ap (λ w. w.run_id) (sym f))
                    (sym s ∙ ap (λ w. w.seat_id) (sym f)))
            ]
            | inr (e, f) ↦ elim (put-cases c.windows w.action_window_id jd w v gv) [
              | inl (e', f') ↦ absurd (
                  alone id u f ou (r ∙ ap (λ w. w.run_id) (sym f'))
                    (s ∙ ap (λ w. w.seat_id) (sym f')))
              | inr (e', f') ↦ h.one_open id jd u v f f' ou ov r s
            ]
          ];
      accepted = λ id s g.
          let (u, found, status, allowed) = h.accepted id s g in
          (
            u,
            get-put_other c.windows w.action_window_id id w
                  (missing_other c.windows w.action_window_id id u missing found)
                ∙ found,
            status,
            allowed,
          );
    };
    later = record {
      closed_stays = λ id u g s.
          get-put_other c.windows w.action_window_id id w
            (missing_other c.windows w.action_window_id id u missing g)
          ∙ g;
      window_stays = λ id u g. (
        u,
        get-put_other c.windows w.action_window_id id w
              (missing_other c.windows w.action_window_id id u missing g)
            ∙ g,
      );
      accepted_stays = λ id s g. g;
      none_comes = λ id u g s e. e;
      recorded_stays = λ s r g. g;
    };
  }

  -- An open window is closed. The accepted submissions may gain one for it, and the ledger records.
  pub close_window :
      (id : String) (v w : ActionWindow) (subs : Dict String Submission) (entries : Ledger)
      (count : ℕ)
      → get c.windows id ≡ some v
      → is_open v.status ≡ true
      → is_open w.status ≡ false
      → w.action_window_id ≡ id
      → IsStored py w
      → ((jd : String) (s : Submission)
          → get subs jd ≡ some s
          → ((id ≡ jd)
              × (w.status ≡ accepted_status)
              × (elem s.action_type w.allowed_actions ≡ true))
            ⊎ (get c.accepted_submissions jd ≡ some s))
      → ((jd : String) (s : Submission)
          → get c.accepted_submissions jd ≡ some s
          → get subs jd ≡ some s)
      → ((jd : String)
          → (id == jd) ≡ false
          → get c.accepted_submissions jd ≡ none
          → get subs jd ≡ none)
      → ((s : Submission) (r : IdempotencyRecord)
          → recorded c.ledger s ≡ some r
          → recorded entries s ≡ some r)
      → IsSound py c (record c {
        windows = put c.windows id w;
        accepted_submissions = subs;
        ledger = entries;
        action_counter = count;
      })
  close_window id v w subs entries count found opened closed named stored new old none_new
        kept_entries =
      record {
        consistent = record {
          kept = λ jd u g. elim (put-cases c.windows id jd w u g) [
            | inl (e, f) ↦
                subst (λ jd. IsKept py c.window_counter jd u) e
                  (subst (IsKept py c.window_counter id) f
                    (record { named = named; made = (h.kept id v found).made; stored = stored }))
            | inr (e, f) ↦ h.kept jd u f
          ];
          one_open = λ id' jd u t gu gt ou ot r s. elim (put-cases c.windows id id' w u gu) [
            | inl (e, f) ↦ absurd (is_closed f ou)
            | inr (e, f) ↦ elim (put-cases c.windows id jd w t gt) [
              | inl (e', f') ↦ absurd (is_closed f' ot)
              | inr (e', f') ↦ h.one_open id' jd u t f f' ou ot r s
            ]
          ];
          accepted = λ jd s g. elim (new jd s g) [
            | inl (e, status, allowed) ↦ (
              w,
              subst (λ jd. get (put c.windows id w) jd ≡ some w) e (get-put_same c.windows id w),
              status,
              allowed,
            )
            | inr old_one ↦
                let (u, there, status, allowed) = h.accepted jd s old_one in
                (
                  u,
                  get-put_other c.windows id jd w (not_this jd u there (ap is_open status)) ∙ there,
                  status,
                  allowed,
                )
          ];
        };
        later = record {
          closed_stays = λ jd u g s. get-put_other c.windows id jd w (not_this jd u g s) ∙ g;
          window_stays = λ jd u g. elim (Bool-cases (id == jd)) [
            | inl e ↦ (
              w,
              subst (λ jd. get (put c.windows id w) jd ≡ some w) ((eq_iff id jd).0 e)
                  (get-put_same c.windows id w),
            )
            | inr e ↦ (u, get-put_other c.windows id jd w e ∙ g)
          ];
          accepted_stays = old;
          none_comes = λ jd u g s e. none_new jd (not_this jd u g s) e;
          recorded_stays = kept_entries;
        };
      }
    where
      is_closed : {u : ActionWindow} → w ≡ u → is_open u.status ≡ true → ⊥
      is_closed e o = absurd (ground (arith, sym (ap (λ w. is_open w.status) e) ∙ closed, o))

      not_this :
          (jd : String) (u : ActionWindow)
          → get c.windows jd ≡ some u
          → is_open u.status ≡ false
          → (id == jd) ≡ false
      not_this jd u g s = elim (Bool-cases (id == jd)) [
        | inl e ↦
            let same : some v ≡ some u = sym found ∙ ap (get c.windows) ((eq_iff id jd).0 e) ∙ g in
            absurd
              (ground (arith, sym opened ∙ ap (λ o. is_open_or (λ w. is_open w.status) o) same ∙ s))
        | inr e ↦ e
      ]
