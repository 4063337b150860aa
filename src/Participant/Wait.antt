-- ===== src/Participant/Wait.antt =====
-- wait_for_action of the controller: the passes of its loop.
use werewolf_agent.Participant.Controller.{Controller, replace_window}
use werewolf_agent.Participant.Errors.{Checked, refused, valid}
use werewolf_agent.Participant.Names.{format_reconnect_cursor, parse_reconnect_cursor}
use werewolf_agent.Participant.Window.{
  ActionWindow, PyText, Submission, is_open, post_init, timed_out_status,
}
use werewolf_agent.Prelude.{
  Bool, Option, String, get, if◌then◌else◌, none, not, some, string_eq, ℕ, ◌+◌,
}

-- One pass of the loop of wait_for_action: it returns, or waits for a notice.
pub data Poll : Type 0 where
  returns : Option Submission → Poll
  waits : Poll

unfoldable pub timed_out_window : ActionWindow → (cursor : String) → ActionWindow
timed_out_window w cursor = record w { status = timed_out_status; reconnect_cursor = cursor }

unfoldable pub time_out :
    PyText → (id : String) → ActionWindow → Checked ℕ → Controller → Checked Poll × Controller
unfolding timed_out_window format_reconnect_cursor
time_out py id w (refused fault) c = (refused fault, c)
time_out py id w (valid event_index) c =
    replace_window id
      (post_init py (timed_out_window w (format_reconnect_cursor (event_index + 1)))) (returns none)
      c

unfoldable pub poll_window :
    PyText
    → (id : String) → (expired : Bool) → Option ActionWindow
    → Controller
    → Checked Poll × Controller
unfolding time_out parse_reconnect_cursor
poll_window py id expired none c = (valid (returns none), c)
poll_window py id expired (some w) c =
    if not (is_open w.status)
    then (valid (returns none), c)
    else if expired
    then time_out py id w (parse_reconnect_cursor py.decimal w.reconnect_cursor) c
    else (valid waits, c)

unfoldable pub poll_accepted :
    PyText
    → (id : String) → (expired : Bool) → Option Submission
    → Controller
    → Checked Poll × Controller
unfolding poll_window
poll_accepted py id expired (some s) c = (valid (returns (some s)), c)
poll_accepted py id expired none c = poll_window py id expired (get c.windows id) c

-- `expired` says that the deadline of the wait has passed
unfoldable pub poll :
    PyText → (id : String) → (expired : Bool) → Controller → Checked Poll × Controller
unfolding poll_accepted
poll py id expired c = poll_accepted py id expired (get c.accepted_submissions id) c
