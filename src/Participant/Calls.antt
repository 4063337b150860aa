-- ===== src/Participant/Calls.antt =====
-- Every call keeps the store consistent and takes nothing back.
use werewolf_agent.Participant.Controller.{
  Controller, OpenRequest, configure, install, is_open_of, open_action_window, open_for,
  open_for_seat, open_window_for, seat_pair, stub_for, window_id, window_of, with_seat,
}
use werewolf_agent.Participant.Controller.Fresh.{ending-window_id}
use werewolf_agent.Participant.Errors.{Checked, refused, valid}
use werewolf_agent.Participant.Life.{add_window, close_window, count_up}
use werewolf_agent.Participant.Names.{format_reconnect_cursor}
use werewolf_agent.Participant.Steps.{IsConsistent, IsSound}
use werewolf_agent.Participant.Wait.{poll, poll_accepted, poll_window, time_out}
use werewolf_agent.Participant.Window.{
  ActionWindow, PyText, Submission, WindowStatus, is_open, post_init, timed_out_status,
}
use werewolf_agent.Participant.Window.Stored.{
  IsPython, post_init-IsChecked, post_init_again, stored_index,
}
use werewolf_agent.Prelude.{
  Bool, Bool-cases, Dict, List, Option, Option-cases, String, [], ap, arith, eq_iff, false, find,
  get, inl, inr, none, refl, some, string_eq, true, values, ℕ, ◌+◌, ◌∙◌, ◌∷◌, ◌≡◌,
}

find-none-get :
    (p : ActionWindow → Bool) (d : Dict String ActionWindow) (id : String) (w : ActionWindow)
    → find p (values d) ≡ none
    → get d id ≡ some w
    → p w ≡ false
find-none-get p [] id w h g = ground arith
find-none-get p ((k, v) ∷ d) id w h g = ground (arith, find-none-get p d id w)

module _ (py : PyText) (c : Controller) (h : IsConsistent py c) where
  pub same_state : IsSound py c c
  same_state = count_up py c h c refl refl refl (omega arith)

  pub with_seat-IsSound :
      {A : Type 0} (pair : Checked (String × String))
      (body : String → String → Controller → Checked A × Controller)
      → ((run seat : String) → IsSound py c (body run seat c).1)
      → IsSound py c (with_seat pair body c).1
  with_seat-IsSound (refused fault) body k = same_state
  with_seat-IsSound (valid (run, seat)) body k = k run seat

  pub configure-IsSound : (run seat : String) → IsSound py c (configure run seat c).1
  unfolding configure
  configure-IsSound run seat = count_up py c h _ refl refl refl (omega arith)

  -- the id of the next window is free
  free_id : (run seat : String) → get c.windows (window_id run seat (c.window_counter + 1)) ≡ none
  free_id run seat =
      elim (Option-cases (get c.windows (window_id run seat (c.window_counter + 1)))) [
        | inl e ↦ e
        | inr (w, e) ↦ absurd (
            omega (
              arith,
              (h.kept (window_id run seat (c.window_counter + 1)) w e).made,
              ending-window_id run seat (c.window_counter + 1),
            ))
      ]

module _ (py : PyText) (python : IsPython py) (c : Controller) (h : IsConsistent py c) where
  open_for-IsSound :
      (r : OpenRequest) (run seat : String) (current : Option ActionWindow)
      → find (is_open_of run seat) (values c.windows) ≡ current
      → IsSound py c (open_for py r run seat current c).1
  unfolding open_for
  open_for-IsSound r run seat (some w) e = same_state py c h
  open_for-IsSound r run seat none e =
      by_check (post_init py (window_of r run seat (c.window_counter + 1))) refl
    where
      by_check :
          (w : Checked ActionWindow)
          → post_init py (window_of r run seat (c.window_counter + 1)) ≡ w
          → IsSound py c (install w (record c { window_counter = c.window_counter + 1 })).1
      by_check (refused fault) f = count_up py c h _ refl refl refl (omega arith)
      by_check (valid w) f =
          let k = post_init-IsChecked py python _ w f in
          let free : get c.windows w.action_window_id ≡ none =
            ap (get c.windows) k.same_id ∙ free_id py c h run seat in
          add_window py c h w (c.window_counter + 1) (omega arith)
            (record {
              named = refl;
              made = rw (k.same_id, ending-window_id run seat (c.window_counter + 1)) (omega arith);
              stored = k.stored;
            })
            free
            (λ id v g o same_run same_seat. absurd (
              ground (
                arith,
                find-none-get (is_open_of run seat) c.windows id v e g,
                o,
                eq_iff v.run_id run,
                eq_iff v.seat_id seat,
                same_run ∙ k.same_run,
                same_seat ∙ k.same_seat,
              )))

  open_for_seat-IsSound :
      (r : OpenRequest) (run seat : String) → IsSound py c (open_for_seat py r run seat c).1
  unfolding open_for_seat open_window_for
  open_for_seat-IsSound r run seat = open_for-IsSound r run seat _ refl

  pub open_action_window-IsSound :
      (run seat : String) (r : OpenRequest) → IsSound py c (open_action_window py run seat r c).1
  unfolding open_action_window
  open_action_window-IsSound run seat r =
      with_seat-IsSound py c h (seat_pair run seat) (open_for_seat py r) (open_for_seat-IsSound r)

  pub stub_for-IsSound :
      (deadline_at run seat : String) (current : Option ActionWindow) (existing : List ActionWindow)
      → IsSound py c (stub_for py deadline_at run seat current existing c).1
  unfolding stub_for
  stub_for-IsSound deadline_at run seat (some w) existing = same_state py c h
  stub_for-IsSound deadline_at run seat none (w ∷ existing) = same_state py c h
  stub_for-IsSound deadline_at run seat none [] = open_action_window-IsSound run seat _

  -- `replace` lets the closed window through, so that the call ends
  pub closed_again :
      (id : String) (v : ActionWindow) (status : WindowStatus) (revision n : ℕ)
      → get c.windows id ≡ some v
      → post_init py (record v {
        status = status;
        game_revision = revision;
        reconnect_cursor = format_reconnect_cursor n;
      })
        ≡ valid (record v {
          status = status;
          game_revision = revision;
          reconnect_cursor = format_reconnect_cursor n;
        })
  closed_again id v status revision n g =
      (post_init_again py python v status revision n (h.kept id v g).stored).0

  poll_window-IsSound :
      (id : String) (expired : Bool) (found : Option ActionWindow)
      → get c.windows id ≡ found
      → IsSound py c (poll_window py id expired found c).1
  unfolding poll_window time_out
  poll_window-IsSound id expired none g = same_state py c h
  poll_window-IsSound id false (some w) g = elim (Bool-cases (is_open w.status)) [
    | inr closed ↦ rw closed (same_state py c h)
    | inl opened ↦ rw opened (same_state py c h)
  ]
  poll_window-IsSound id true (some w) g = elim (Bool-cases (is_open w.status)) [
    | inr closed ↦ rw closed (same_state py c h)
    | inl opened ↦
        let (n, index) = stored_index py w (h.kept id w g).stored in
        rw (opened, index, closed_again id w timed_out_status w.game_revision (n + 1) g)
          (close_window py c h id w _ c.accepted_submissions c.ledger c.action_counter g opened refl
            (h.kept id w g).named
            (post_init_again py python w timed_out_status w.game_revision (n + 1)
              (h.kept id w g).stored).1
            (λ jd s e. inr e) (λ jd s e. e) (λ jd d e. e) (λ s r e. e))
  ]

  pub poll-IsSound : (id : String) (expired : Bool) → IsSound py c (poll py id expired c).1
  unfolding poll poll_accepted
  poll-IsSound id expired = by_accepted (get c.accepted_submissions id)
    where
      by_accepted : (s : Option Submission) → IsSound py c (poll_accepted py id expired s c).1
      by_accepted (some s) = same_state py c h
      by_accepted none = poll_window-IsSound id expired (get c.windows id) refl
