-- ===== src/Participant/Resubmit.antt =====
-- The ledger of idempotency keys: a request that is sent again.
use mathlib.Core.Path.{subst}
use werewolf_agent.Participant.Controller.{Controller, seat_pair, with_seat}
use werewolf_agent.Participant.Errors.{>>=-eq-valid, Checked, refused, valid, valid_inj, ◌>>=◌}
use werewolf_agent.Participant.Idempotency.{
  Fingerprint, IdempotencyRecord, Ledger, answer_recorded, duplicate_for, fingerprint_of, recorded,
  same_entry, same_fingerprint, same_payload, same_texts, store,
}
use werewolf_agent.Participant.Life.{get-put_same}
use werewolf_agent.Participant.Names.{Fields}
use werewolf_agent.Participant.Payload.{ActionPayload, aimed, last_words, nothing, words}
use werewolf_agent.Participant.Steps.{Call, IsConsistent, IsSound, after}
use werewolf_agent.Participant.Submissions.{
  accept-IsSound, accept_lem, accepted_result, accepted_state, after-IsSound, judge-IsFresh,
  judge_recorded,
}
use werewolf_agent.Participant.Submit.{
  Verdict, accept, follow, fresh, judge, judge_new, repeated, submit_action, submit_for_seat,
  window_for,
}
use werewolf_agent.Participant.Window.{
  ActionWindow, PyText, Submission, SubmitResult, new_submission, validate_submission_for_window,
}
use werewolf_agent.Participant.Window.Stored.{IsPython, stored_index}
use werewolf_agent.Prelude.{
  List, Option, String, [], ap, arith, eq_self, eqb_iff, false, get, get_default, none, put, refl,
  some, string_eq, sym, true, ◌∙◌, ◌∷◌, ◌≡◌,
}

same_texts_refl : (xs : List String) → same_texts xs xs ≡ true
unfolding same_texts
same_texts_refl [] = refl
same_texts_refl (x ∷ xs) = ground (arith, same_texts_refl xs, eq_self x)

same_entry_refl : (xs : Option (List String)) → same_entry xs xs ≡ true
unfolding same_entry
same_entry_refl none = refl
same_entry_refl (some xs) = same_texts_refl xs

same_payload_refl : (p : ActionPayload) → same_payload p p ≡ true
unfolding same_payload
same_payload_refl (words s r a) = ground (arith, eq_self s, same_entry_refl r, same_entry_refl a)
same_payload_refl (last_words s) = eq_self s
same_payload_refl (aimed s) = eq_self s
same_payload_refl nothing = refl

same_fingerprint_refl : (f : Fingerprint) → same_fingerprint f f ≡ true
unfolding same_fingerprint
same_fingerprint_refl f = ground (
  arith,
  eqb_iff f.game_revision f.game_revision,
  eq_self f.action_type,
  same_payload_refl f.payload,
)

recorded-store_same :
    (ledger : Ledger) (s : Submission) (result : SubmitResult)
    → recorded (store ledger s result) s
      ≡ some (record { fingerprint = fingerprint_of s; result = result })
recorded-store_same ledger s result =
    let entry : IdempotencyRecord = record { fingerprint = fingerprint_of s; result = result } in
    let entries = get_default ledger s.action_window_id [] in
    ground (
      arith,
      get-put_same ledger s.action_window_id (put entries s.idempotency_key entry),
      get-put_same entries s.idempotency_key entry,
    )

-- a verdict of a recorded submission
judge-recorded :
    (c : Controller) (run seat : String) (s : Submission) (result : SubmitResult)
    → recorded c.ledger s ≡ some (record { fingerprint = fingerprint_of s; result = result })
    → judge c run seat (valid s) ≡ valid (repeated (record result { duplicate = true }))
unfolding judge duplicate_for answer_recorded judge_new
judge-recorded c run seat s result e = rw (e, same_fingerprint_refl (fingerprint_of s)) refl

judge-submission :
    (c : Controller) (run seat : String) (submission : Checked Submission) (t : Submission)
    (w : ActionWindow)
    → judge c run seat submission ≡ valid (fresh t w)
    → submission ≡ valid t
unfolding judge duplicate_for
judge-submission c run seat (refused fault) t w h = cc h
judge-submission c run seat (valid s) t w h =
    ap valid (sym (judge_recorded c run seat s t w (recorded c.ledger s) refl h).0)

-- a verdict that repeats an answer says so
judge_repeated :
    (c : Controller) (run seat : String) (submission : Checked Submission) (result : SubmitResult)
    → judge c run seat submission ≡ valid (repeated result)
    → result.duplicate ≡ true
unfolding judge duplicate_for answer_recorded judge_new
judge_repeated c run seat (refused fault) result h = cc h
judge_repeated c run seat (valid s) result h = by_record (recorded c.ledger s) h
  where
    by_record :
        (r : Option IdempotencyRecord)
        → (answer_recorded s r >>= judge_new c run seat s) ≡ valid (repeated result)
        → result.duplicate ≡ true
    by_record none h =
        let (v, window, h1) =
          >>=-eq-valid (window_for run seat s (get c.windows s.action_window_id)) _ h in
        let (_, fits, h2) = >>=-eq-valid (validate_submission_for_window s v) _ h1 in cc h2
    by_record (some r) h = ground (arith, h)

module _ (py : PyText) (python : IsPython py) (request : Fields) (c : Controller)
    (h : IsConsistent py c) (r : SubmitResult) (d : Controller) (news : r.duplicate ≡ false)
    (calls : List Call) where
  abbrev Repeats : (Controller → Checked SubmitResult × Controller) → Type 0
  Repeats submit =
      submit c ≡ (valid r, d)
      → submit (after py calls d) ≡ (valid (record r { duplicate = true }), after py calls d)

  again_fresh :
      (run seat : String) (s : Submission) (w : ActionWindow)
      → judge c run seat (new_submission request) ≡ valid (fresh s w)
      → accept py s w c ≡ (valid r, d)
      → submit_for_seat py request run seat (after py calls d)
        ≡ (valid (record r { duplicate = true }), after py calls d)
  unfolding submit_for_seat follow
  again_fresh run seat s w fits e =
      let k = judge-IsFresh c run seat (new_submission request) s w fits in
      let (n, index) = stored_index py w (h.kept s.action_window_id w k.found).stored in
      let both = sym (accept_lem py python c h s w k n index) ∙ e in
      let answer : accepted_result w n c ≡ r = valid_inj (ap (λ p. p.0) both) in
      let state : accepted_state s w n c ≡ d = ap (λ p. p.1) both in
      let written : recorded d.ledger s
          ≡ some (record { fingerprint = fingerprint_of s; result = r }) =
        subst
          (λ d. recorded d.ledger s ≡ some (record { fingerprint = fingerprint_of s; result = r }))
          state
          (subst
            (λ r.
              recorded (accepted_state s w n c).ledger s
              ≡ some (record { fingerprint = fingerprint_of s; result = r }))
            answer (recorded-store_same c.ledger s (accepted_result w n c))) in
      let sound : IsSound py c d =
        subst (IsSound py c) (ap (λ p. p.1) e) (accept-IsSound py python c h s w k) in
      let later = (after-IsSound py python calls d sound.consistent).later in
      rw
        (
          judge-submission c run seat (new_submission request) s w fits,
          judge-recorded (after py calls d) run seat s r (later.recorded_stays s _ written),
        )
        refl

  again_for_seat : (run seat : String) → Repeats (submit_for_seat py request run seat)
  unfolding submit_for_seat follow
  again_for_seat run seat = by_verdict (judge c run seat (new_submission request)) refl
    where
      by_verdict :
          (v : Checked Verdict)
          → judge c run seat (new_submission request) ≡ v
          → follow py v c ≡ (valid r, d)
          → submit_for_seat py request run seat (after py calls d)
            ≡ (valid (record r { duplicate = true }), after py calls d)
      by_verdict (refused fault) e f = cc (ap (λ p. p.0) f)
      by_verdict (valid (repeated result)) e f = absurd (
          ground (
            arith,
            judge_repeated c run seat (new_submission request) result e,
            ap (λ r. r.duplicate) (valid_inj (ap (λ p. p.0) f)),
            news,
          ))
      by_verdict (valid (fresh s w)) e f = again_fresh run seat s w e f

  again_with_seat :
      (pair : Checked (String × String)) → Repeats (with_seat pair (submit_for_seat py request))
  again_with_seat (refused fault) e = cc (ap (λ p. p.0) e)
  again_with_seat (valid (run, seat)) e = again_for_seat run seat e

-- Where texts are stripped and digits are read as Python does it: once a request is accepted by a
-- consistent store, and not as a duplicate, the same request, sent again after any calls of the
-- threads, gets the same answer marked as a duplicate, and changes nothing.
pub submit_action_again :
    (py : PyText) (python : IsPython py) (run_id seat_id : String) (request : Fields)
    (c : Controller) (r : SubmitResult) (d : Controller) (calls : List Call)
    → IsConsistent py c
    → submit_action py run_id seat_id request c ≡ (valid r, d)
    → r.duplicate ≡ false
    → submit_action py run_id seat_id request (after py calls d)
      ≡ (valid (record r { duplicate = true }), after py calls d)
unfolding submit_action
submit_action_again py python run_id seat_id request c r d calls h e news =
    again_with_seat py python request c h r d news calls (seat_pair run_id seat_id) e
