-- ===== src/Participant/Submissions.antt =====
-- submit_action keeps the store consistent, and what it answers.
use mathlib.Core.Path.{subst}
use werewolf_agent.Participant.Calls.{
  closed_again, configure-IsSound, open_action_window-IsSound, poll-IsSound, same_state,
  stub_for-IsSound, with_seat-IsSound,
}
use werewolf_agent.Participant.Controller.{
  Controller, configure, configure_human_seat, ensure_stub_action_window, new_controller, seat_pair,
  stub_for_seat,
}
use werewolf_agent.Participant.Errors.{>>=-eq-valid, Checked, refused, valid, ◌>>=◌}
use werewolf_agent.Participant.Idempotency.{
  IdempotencyRecord, Ledger, answer_recorded, duplicate_for, fingerprint_of, record_or_duplicate,
  recorded, store,
}
use werewolf_agent.Participant.Life.{
  close_window, get-put_other, is_open_or, missing_other, put-cases,
}
use werewolf_agent.Participant.Names.{Fields, format_reconnect_cursor, parse_reconnect_cursor}
use werewolf_agent.Participant.Steps.{
  Call, IsConsistent, IsLater_refl, IsLater_trans, IsSound, after, configures, opens, polls, step,
  stubs, submits,
}
use werewolf_agent.Participant.Submit.{
  Verdict, accept, accept_at, accept_with, accepted_window, follow, fresh, judge, judge_new,
  repeated, result_of, submit_action, submit_for_seat, window_for,
}
use werewolf_agent.Participant.Window.{
  ActionWindow, PyText, Submission, SubmitResult, accepted_status, is_open, new_submission,
  validate_submission_for_window,
}
use werewolf_agent.Participant.Window.Stored.{IsPython, post_init_again, stored_index}
use werewolf_agent.Prelude.{
  Bool-cases, List, Option, Option-cases, String, [], ap, arith, elem, eq_iff, eqb_iff, get,
  get-put, get_default, inl, inr, none, put, refl, some, string_eq, sym, true, ℕ, ◌+◌, ◌==◌, ◌∙◌,
  ◌∷◌, ◌≡◌,
}
use werewolf_agent.Runtime.Settler.Deaths.{same}

-- A submission that is accepted: a new key, for an open window of that revision that allows the action.
pub record IsFresh (c : Controller) (s : Submission) (w : ActionWindow) : Type 0 where
  pub found : get c.windows s.action_window_id ≡ some w
  pub unrecorded : recorded c.ledger s ≡ none
  pub opened : is_open w.status ≡ true
  pub current : s.game_revision ≡ w.game_revision
  pub allowed : elem s.action_type w.allowed_actions ≡ true

window_for-eq-valid :
    (run seat : String) (s : Submission) (o : Option ActionWindow) (w : ActionWindow)
    → window_for run seat s o ≡ valid w
    → o ≡ some w
unfolding window_for
window_for-eq-valid run seat s none w h = cc h
window_for-eq-valid run seat s (some v) w h = ground (arith, h)

-- what the four tests say of a submission that passes them
fits-window :
    (s : Submission) (w : ActionWindow)
    → validate_submission_for_window s w ≡ valid tt
    → (is_open w.status ≡ true)
      × (s.game_revision ≡ w.game_revision)
      × (elem s.action_type w.allowed_actions ≡ true)
unfolding validate_submission_for_window
fits-window s w h = (
  ground (arith, h),
  ground (arith, h, eqb_iff s.game_revision w.game_revision),
  ground (arith, h),
)

module _ (c : Controller) (run seat : String) (s t : Submission) (w : ActionWindow) where
  judge_new-IsFresh :
      recorded c.ledger s ≡ none
      → judge_new c run seat s none ≡ valid (fresh t w)
      → (t ≡ s) × IsFresh c s w
  unfolding judge_new
  judge_new-IsFresh unrecorded h =
      let (v, window, h1) =
        >>=-eq-valid (window_for run seat s (get c.windows s.action_window_id)) _ h in
      let (_, fits, h2) = >>=-eq-valid (validate_submission_for_window s v) _ h1 in
      let same : v ≡ w = cc h2 in
      let (opened, current, allowed) =
        fits-window s w (subst (λ w. validate_submission_for_window s w ≡ valid tt) same fits) in
      (
        cc h2,
        record {
          found = window_for-eq-valid run seat s _ w (window ∙ ap valid same);
          unrecorded = unrecorded;
          opened = opened;
          current = current;
          allowed = allowed;
        },
      )

  pub judge_recorded :
      (r : Option IdempotencyRecord)
      → recorded c.ledger s ≡ r
      → (answer_recorded s r >>= judge_new c run seat s) ≡ valid (fresh t w)
      → (t ≡ s) × IsFresh c s w
  unfolding answer_recorded judge_new
  judge_recorded none e h = judge_new-IsFresh e h
  judge_recorded (some r) e h = absurd (ground (arith, h))

pub judge-IsFresh :
    (c : Controller) (run seat : String) (submission : Checked Submission) (t : Submission)
    (w : ActionWindow)
    → judge c run seat submission ≡ valid (fresh t w)
    → IsFresh c t w
unfolding judge duplicate_for
judge-IsFresh c run seat (refused fault) t w h = cc h
judge-IsFresh c run seat (valid s) t w h =
    let (same, k) = judge_recorded c run seat s t w (recorded c.ledger s) refl h in
    subst (λ s. IsFresh c s w) (sym same) k

-- the state after a submission is accepted, for a window whose cursor has the index `n`
abbrev pub accepted_state : Submission → ActionWindow → ℕ → Controller → Controller
accepted_state s w n c =
    let counted = record c { action_counter = c.action_counter + 1 } in
    record counted {
      windows =
          put c.windows w.action_window_id (accepted_window w (format_reconnect_cursor (n + 1)));
      accepted_submissions = put c.accepted_submissions w.action_window_id s;
      ledger = store c.ledger s (result_of counted w (format_reconnect_cursor (n + 1)));
    }

abbrev pub accepted_result : ActionWindow → ℕ → Controller → SubmitResult
accepted_result w n c =
    result_of (record c { action_counter = c.action_counter + 1 }) w
      (format_reconnect_cursor (n + 1))

recorded-store :
    (ledger : Ledger) (s t : Submission) (result : SubmitResult) (r : IdempotencyRecord)
    → recorded ledger s ≡ none
    → recorded ledger t ≡ some r
    → recorded (store ledger s result) t ≡ some r
recorded-store ledger s t result r missing there =
    let entry : IdempotencyRecord = record { fingerprint = fingerprint_of s; result = result } in
    let entries = get_default ledger s.action_window_id [] in
    elim (Bool-cases (s.action_window_id == t.action_window_id)) [
      | inr other ↦ ground (
        arith,
        get-put ledger s.action_window_id t.action_window_id (put entries s.idempotency_key entry),
        other,
        there,
      )
      | inl alike ↦
          let e : s.action_window_id ≡ t.action_window_id =
            (eq_iff s.action_window_id t.action_window_id).0 alike in
          let there_too : get entries t.idempotency_key ≡ some r =
            subst (λ id. get (get_default ledger id []) t.idempotency_key ≡ some r) (sym e) there in
          let other =
            missing_other entries s.idempotency_key t.idempotency_key r missing there_too in
          ground (
            arith,
            get-put ledger s.action_window_id t.action_window_id
                (put entries s.idempotency_key entry),
            alike,
            get-put_other entries s.idempotency_key t.idempotency_key entry other,
            there_too,
          )
    ]

module _ (py : PyText) (python : IsPython py) (c : Controller) (h : IsConsistent py c)
    (s : Submission) (w : ActionWindow) (k : IsFresh c s w) where
  pub named : w.action_window_id ≡ s.action_window_id
  named = (h.kept s.action_window_id w k.found).named

  pub accept_lem :
      (n : ℕ)
      → parse_reconnect_cursor py.decimal w.reconnect_cursor ≡ valid n
      → accept py s w c ≡ (valid (accepted_result w n c), accepted_state s w n c)
  unfolding accept accept_at accept_with record_or_duplicate duplicate_for answer_recorded
      accepted_window result_of
  accept_lem n index =
      rw
        (
          index,
          k.unrecorded,
          closed_again py python c h s.action_window_id w accepted_status (w.game_revision + 1)
              (n + 1) k.found,
        )
        refl

  -- nothing is accepted yet for an open window
  none_yet : get c.accepted_submissions w.action_window_id ≡ none
  none_yet = elim (Option-cases (get c.accepted_submissions w.action_window_id)) [
    | inl e ↦ e
    | inr (t, e) ↦
        let (u, there, status, _) = h.accepted w.action_window_id t e in
        let alike : some u ≡ some w = sym there ∙ ap (get c.windows) named ∙ k.found in
        absurd (
          ground (
            arith,
            sym (ap (is_open_or (λ w. is_open w.status)) alike) ∙ ap is_open status,
            k.opened,
          ))
  ]

  pub accept-IsSound : IsSound py c (accept py s w c).1
  unfolding accepted_window result_of
  accept-IsSound =
      let (n, index) = stored_index py w (h.kept s.action_window_id w k.found).stored in
      let id = w.action_window_id in
      rw (accept_lem n index) (
        close_window py c h id w (accepted_window w (format_reconnect_cursor (n + 1)))
          (put c.accepted_submissions id s) (store c.ledger s (accepted_result w n c))
          (c.action_counter + 1) (ap (get c.windows) named ∙ k.found) k.opened refl refl
          (post_init_again py python w accepted_status (w.game_revision + 1) (n + 1)
            (h.kept s.action_window_id w k.found).stored).1
          (λ jd t g. elim (put-cases c.accepted_submissions id jd s t g) [
            | inl (e, f) ↦
                inl (e, refl, subst (λ t. elem t.action_type w.allowed_actions ≡ true) f k.allowed)
            | inr (e, f) ↦ inr f
          ])
          (λ jd t g.
            get-put_other c.accepted_submissions id jd s
              (missing_other c.accepted_submissions id jd t none_yet g)
            ∙ g)
          (λ jd e g. get-put_other c.accepted_submissions id jd s e ∙ g)
          (λ t r g. recorded-store c.ledger s t _ r k.unrecorded g))

module _ (py : PyText) (python : IsPython py) (c : Controller) (h : IsConsistent py c) where
  submit_for_seat-IsSound :
      (request : Fields) (run seat : String)
      → IsSound py c (submit_for_seat py request run seat c).1
  unfolding submit_for_seat follow
  submit_for_seat-IsSound request run seat =
      by_verdict (judge c run seat (new_submission request)) refl
    where
      by_verdict :
          (v : Checked Verdict)
          → judge c run seat (new_submission request) ≡ v
          → IsSound py c (follow py v c).1
      by_verdict (refused fault) e = same_state py c h
      by_verdict (valid (repeated result)) e = same_state py c h
      by_verdict (valid (fresh s w)) e =
          accept-IsSound py python c h s w (judge-IsFresh c run seat (new_submission request) s w e)

  step-IsSound : (call : Call) → IsSound py c (step py call c)
  unfolding step configure_human_seat ensure_stub_action_window stub_for_seat submit_action
  step-IsSound (configures run seat) =
      with_seat-IsSound py c h (seat_pair run seat) configure (configure-IsSound py c h)
  step-IsSound (opens run seat r) = open_action_window-IsSound py python c h run seat r
  step-IsSound (stubs deadline_at run seat) =
      with_seat-IsSound py c h (seat_pair run seat) (stub_for_seat py deadline_at)
        (λ run seat. stub_for-IsSound py python c h deadline_at run seat _ _)
  step-IsSound (submits run seat request) =
      with_seat-IsSound py c h (seat_pair run seat) (submit_for_seat py request)
        (submit_for_seat-IsSound request)
  step-IsSound (polls id expired) = poll-IsSound py python c h id expired

-- Where texts are stripped and digits are read as Python does it: from a consistent store, whatever
-- calls the threads make, the store is consistent, and no call took anything back: a closed window
-- stayed as it was, an accepted submission stayed accepted, no closed window got one, and a recorded
-- answer stayed recorded.
pub after-IsSound :
    (py : PyText)
    → IsPython py
    → (calls : List Call) (c : Controller) → IsConsistent py c
    → IsSound py c (after py calls c)
unfolding after
after-IsSound py python [] c h = record { consistent = h; later = IsLater_refl c }
after-IsSound py python (call ∷ calls) c h =
    let first = step-IsSound py python c h call in
    let rest = after-IsSound py python calls (step py call c) first.consistent in
    record {
      consistent = rest.consistent;
      later =
          IsLater_trans c (step py call c) (after py calls (step py call c)) first.later rest.later;
    }

-- The store of a new process is consistent.
pub new_controller-IsConsistent : (py : PyText) → IsConsistent py new_controller
new_controller-IsConsistent py = record {
  kept = λ id w g. cc g;
  one_open = λ id jd v w g. cc g;
  accepted = λ id s g. cc g;
}
