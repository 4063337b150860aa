-- ===== src/Participant/Finality.antt =====
-- wait_for_action: the loop, and what its answer says.
use mathlib.Core.Path.{subst}
use werewolf_agent.Participant.Calls.{closed_again, poll-IsSound}
use werewolf_agent.Participant.Controller.{Controller}
use werewolf_agent.Participant.Errors.{Checked, ProtocolError, refused, valid}
use werewolf_agent.Participant.Life.{get-put_same}
use werewolf_agent.Participant.Names.{format_reconnect_cursor}
use werewolf_agent.Participant.Steps.{Call, IsConsistent, IsSound, after}
use werewolf_agent.Participant.Submissions.{after-IsSound}
use werewolf_agent.Participant.Wait.{
  Poll, poll, poll_accepted, poll_window, returns, time_out, timed_out_window, waits,
}
use werewolf_agent.Participant.Window.{ActionWindow, PyText, Submission, is_open, timed_out_status}
use werewolf_agent.Participant.Window.Stored.{IsPython, stored_index}
use werewolf_agent.Prelude.{
  Bool, Bool-cases, List, Option, Option-cases, String, [], any, ap, arith, false, get, inl, inr,
  none, put, refl, some, string_eq, true, ℕ, ◌+◌, ◌∷◌, ◌≡◌,
}

-- One turn of the wait: the calls of the other threads before the next pass, and whether the deadline
-- of the wait has passed at that pass.
abbrev pub Turn : Type 0
Turn = List Call × Bool

pub data Waited : Type 0 where
  answered : Option Submission → Waited
  failed_wait : ProtocolError → Waited
  -- the schedule ends before the wait does
  still_waiting : Waited

-- the rest of the loop after a pass
unfoldable pub pass_on :
    Checked Poll → (Controller → Waited × Controller) → Controller → Waited × Controller
pass_on (refused fault) rest d = (failed_wait fault, d)
pass_on (valid (returns s)) rest d = (answered s, d)
pass_on (valid waits) rest d = rest d

unfoldable pub wait_for_action :
    PyText → (id : String) → List Turn → Controller → Waited × Controller
unfolding pass_on
wait_for_action py id [] c = (still_waiting, c)
wait_for_action py id ((calls, expired) ∷ turns) c =
    let (answer, d) = poll py id expired (after py calls c) in
    pass_on answer (wait_for_action py id turns) d

-- the wait has answered with `s`, and whatever is called later, `s` is what is accepted for the window
pub data IsFinal (py : PyText) (id : String) : Waited × Controller → Type 0 where
  final :
      (s : Option Submission) (d : Controller)
      → ((calls : List Call) → get (after py calls d).accepted_submissions id ≡ s)
      → IsFinal py id (answered s, d)

module _ (py : PyText) (python : IsPython py) (id : String) where
  -- an accepted submission stays
  accepted-IsFinal :
      (c : Controller) (s : Submission)
      → IsConsistent py c
      → get c.accepted_submissions id ≡ some s
      → IsFinal py id (answered (some s), c)
  accepted-IsFinal c s h e =
      final (some s) c λ calls. (after-IsSound py python calls c h).later.accepted_stays id s e

  -- a closed window without one gets none
  closed-IsFinal :
      (c : Controller) (w : ActionWindow)
      → IsConsistent py c
      → get c.windows id ≡ some w
      → is_open w.status ≡ false
      → get c.accepted_submissions id ≡ none
      → IsFinal py id (answered none, c)
  closed-IsFinal c w h g s e =
      final none c λ calls. (after-IsSound py python calls c h).later.none_comes id w g s e

  -- what a pass does on a window of the store
  pub data Passes (c : Controller) (expired : Bool) : Checked Poll × Controller → Type 0 where
    ends :
        (s : Option Submission) (d : Controller)
        → IsFinal py id (answered s, d)
        → Passes c expired (valid (returns s), d)
    goes_on : expired ≡ false → Passes c expired (valid waits, c)

  time_out-Passes :
      (c : Controller) (w : ActionWindow)
      → IsConsistent py c
      → get c.windows id ≡ some w
      → is_open w.status ≡ true
      → get c.accepted_submissions id ≡ none
      → (n : ℕ)
      → poll py id true c ≡ (
        valid (returns none),
        record c {
          windows = put c.windows id (timed_out_window w (format_reconnect_cursor (n + 1)));
        },
      )
      → Passes c true (poll py id true c)
  unfolding timed_out_window
  time_out-Passes c w h g o none_here n e =
      let v = timed_out_window w (format_reconnect_cursor (n + 1)) in
      let d = record c { windows = put c.windows id v } in
      let sound : IsSound py c d =
        subst (IsSound py c) (ap (λ p. p.1) e) (poll-IsSound py python c h id true) in
      rw e (
        ends none d
          (closed-IsFinal d v sound.consistent (get-put_same c.windows id v) refl none_here))

  poll_late :
      (c : Controller) (w : ActionWindow)
      → IsConsistent py c
      → get c.windows id ≡ some w
      → is_open w.status ≡ true
      → get c.accepted_submissions id ≡ none
      → (n : ℕ) × (poll py id true c ≡ (
        valid (returns none),
        record c {
          windows = put c.windows id (timed_out_window w (format_reconnect_cursor (n + 1)));
        },
      ))
  unfolding poll poll_accepted poll_window time_out timed_out_window
  poll_late c w h g o e =
      let (n, index) = stored_index py w (h.kept id w g).stored in
      (
        n,
        rw
            (
              e,
              g,
              o,
              index,
              closed_again py python c h id w timed_out_status w.game_revision (n + 1) g,
            )
            refl,
      )

  poll-Passes :
      (c : Controller) (w : ActionWindow) (expired : Bool)
      → IsConsistent py c
      → get c.windows id ≡ some w
      → Passes c expired (poll py id expired c)
  unfolding poll poll_accepted poll_window
  poll-Passes c w expired h g = elim (Option-cases (get c.accepted_submissions id)) [
    | inr (s, e) ↦ rw e (ends (some s) c (accepted-IsFinal c s h e))
    | inl e ↦ elim (Bool-cases (is_open w.status)) [
      | inr closed ↦ rw (e, g, closed) (ends none c (closed-IsFinal c w h g closed e))
      | inl opened ↦ open-Passes expired e opened
    ]
  ]
    where
      open-Passes :
          (expired : Bool)
          → get c.accepted_submissions id ≡ none
          → is_open w.status ≡ true
          → Passes c expired (poll py id expired c)
      open-Passes false e opened = rw (e, g, opened) (goes_on refl)
      open-Passes true e opened =
          let (n, q) = poll_late c w h g opened e in time_out-Passes c w h g opened e n q

-- Where texts are stripped and digits are read as Python does it: a wait for a window of a consistent
-- store, whose deadline passes at one of its passes, ends at the latest at the first pass after the
-- deadline, whatever the other threads call between its passes, never by an error; and its answer is
-- final: what it gives, the accepted submission or none, is what is accepted for the window after any
-- later calls.
pub wait_for_action-IsFinal :
    (py : PyText)
    → IsPython py
    → (id : String) (turns : List Turn) (c : Controller) (w : ActionWindow) → IsConsistent py c
    → get c.windows id ≡ some w
    → any (λ turn. turn.1) turns ≡ true
    → IsFinal py id (wait_for_action py id turns c)
unfolding wait_for_action
wait_for_action-IsFinal py python id [] c w h g due = ground (arith, due)
wait_for_action-IsFinal py python id ((calls, expired) ∷ turns) c w h g due =
    let sound = after-IsSound py python calls c h in
    let (v, there) = sound.later.window_stays id w g in
    by_pass (poll py id expired (after py calls c))
      (poll-Passes py python id (after py calls c) v expired sound.consistent there)
      (λ early.
        wait_for_action-IsFinal py python id turns (after py calls c) v sound.consistent there
          (ground (arith, due, early)))
  where
    by_pass :
        (p : Checked Poll × Controller)
        → Passes py python id (after py calls c) expired p
        → (expired ≡ false → IsFinal py id (wait_for_action py id turns (after py calls c)))
        → IsFinal py id (pass_on p.0 (wait_for_action py id turns) p.1)
    by_pass _ (ends s d k) rest = k
    by_pass _ (goes_on early) rest = rest early
