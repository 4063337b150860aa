-- ===== src/Participant/Submit.antt =====
-- submit_action of the controller.
use werewolf_agent.Participant.Controller.{Controller, is_of, replace_window, seat_pair, with_seat}
use werewolf_agent.Participant.Errors.{
  Checked, ProtocolError, action_window_not_found, bare, refused, valid, ◌>>=◌, ◌>>◌,
}
use werewolf_agent.Participant.Idempotency.{Ledger, duplicate_for, record_or_duplicate}
use werewolf_agent.Participant.Names.{Fields, format_reconnect_cursor, parse_reconnect_cursor}
use werewolf_agent.Participant.Window.{
  ActionWindow, PyText, Submission, SubmitResult, accepted_status, new_submission, post_init,
  validate_submission_for_window,
}
use werewolf_agent.Prelude.{
  Option, String, [], concat, false, get, if◌then◌else◌, none, put, show_padded_four, some,
  string_eq, true, ℕ, ◌+◌, ◌∷◌,
}

-- submit_action: what the request is, before anything is changed
pub data Verdict : Type 0 where
  repeated : SubmitResult → Verdict
  fresh : Submission → ActionWindow → Verdict

unfoldable pub not_found : (run seat : String) → Submission → ProtocolError
not_found run seat s = record (bare action_window_not_found) {
  run_id = some run;
  seat_id = some seat;
  action_window_id = some s.action_window_id;
  reconnect_cursor = some "event:0";
}

unfoldable pub window_for :
    (run seat : String) → Submission → Option ActionWindow → Checked ActionWindow
unfolding not_found
window_for run seat s none = refused (not_found run seat s)
window_for run seat s (some w) =
    if is_of run seat w then valid w else refused (not_found run seat s)

unfoldable pub judge_new :
    Controller → (run seat : String) → Submission → Option SubmitResult → Checked Verdict
unfolding window_for validate_submission_for_window
judge_new c run seat s (some result) = valid (repeated (record result { duplicate = true }))
judge_new c run seat s none = do
  w ← window_for run seat s (get c.windows s.action_window_id)
  validate_submission_for_window s w
  valid (fresh s w)

unfoldable pub judge : Controller → (run seat : String) → Checked Submission → Checked Verdict
unfolding duplicate_for judge_new
judge c run seat submission = do
  s ← submission
  duplicate ← duplicate_for c.ledger s
  judge_new c run seat s duplicate

unfoldable pub result_of : Controller → ActionWindow → (cursor : String) → SubmitResult
result_of c w cursor = record {
  duplicate = false;
  action_window_id = w.action_window_id;
  game_revision = w.game_revision + 1;
  accepted_event_id = concat ("evt_participant_action_" ∷ show_padded_four c.action_counter ∷ []);
  reconnect_cursor = cursor;
}

-- the window after its submission
unfoldable pub accepted_window : ActionWindow → (cursor : String) → ActionWindow
accepted_window w cursor = record w {
  status = accepted_status;
  game_revision = w.game_revision + 1;
  reconnect_cursor = cursor;
}

unfoldable pub accept_with :
    PyText
    → Submission
    → ActionWindow
    → SubmitResult
    → Checked Ledger
    → Controller
    → Checked SubmitResult × Controller
unfolding accepted_window
accept_with py s w result (refused fault) c = (refused fault, c)
accept_with py s w result (valid ledger) c =
    let stored = record c {
      ledger = ledger;
      accepted_submissions = put c.accepted_submissions w.action_window_id s;
    } in
    replace_window w.action_window_id (post_init py (accepted_window w result.reconnect_cursor))
      result stored

-- `event_index` is the index of the window's cursor
unfoldable pub accept_at :
    PyText
    → Submission
    → ActionWindow
    → (event_index : Checked ℕ) → Controller
    → Checked SubmitResult × Controller
unfolding accept_with result_of record_or_duplicate format_reconnect_cursor
accept_at py s w (refused fault) c = (refused fault, c)
accept_at py s w (valid event_index) c =
    let result = result_of c w (format_reconnect_cursor (event_index + 1)) in
    accept_with py s w result (record_or_duplicate c.ledger s result) c

unfoldable pub accept :
    PyText → Submission → ActionWindow → Controller → Checked SubmitResult × Controller
unfolding accept_at parse_reconnect_cursor
accept py s w c =
    accept_at py s w (parse_reconnect_cursor py.decimal w.reconnect_cursor)
      (record c { action_counter = c.action_counter + 1 })

unfoldable pub follow : PyText → Checked Verdict → Controller → Checked SubmitResult × Controller
unfolding accept
follow py (refused fault) c = (refused fault, c)
follow py (valid (repeated result)) c = (valid result, c)
follow py (valid (fresh s w)) c = accept py s w c

unfoldable pub submit_for_seat :
    PyText → Fields → (run seat : String) → Controller → Checked SubmitResult × Controller
unfolding judge follow new_submission
submit_for_seat py request run seat c = follow py (judge c run seat (new_submission request)) c

unfoldable pub submit_action :
    PyText → (run_id seat_id : String) → Fields → Controller → Checked SubmitResult × Controller
unfolding submit_for_seat
submit_action py run_id seat_id request =
    with_seat (seat_pair run_id seat_id) (submit_for_seat py request)
