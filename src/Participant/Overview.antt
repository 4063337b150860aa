-- ===== src/Participant/Overview.antt =====
-- ensure_single_open_action_window of participant_protocol.py, and what the controller of
-- participant_controller.py reads out of its store.
pub mod Laws
use werewolf_agent.Participant.Controller.{Controller, seat_pair, windows_of}
use werewolf_agent.Participant.Errors.{
  Checked, ProtocolError, invalid_payload, refused, valid, ◌>>=◌,
}
use werewolf_agent.Participant.Names.{parse_reconnect_cursor, validate_run_id, validate_seat_id}
use werewolf_agent.Participant.Payload.{kept}
use werewolf_agent.Participant.Window.{ActionWindow, PyText, is_open}
use werewolf_agent.Prelude.{
  Bool, DecimalTable, Dict, List, Option, String, [], any, has_key, if◌then◌else◌, ltb, map, none,
  not, pair_eq, put, some, string_eq, ℕ, ◌==◌, ◌∷◌,
}
use werewolf_agent.Runtime.Turn.{skipped}

abbrev pub owner : ActionWindow → String × String
owner w = (w.run_id, w.seat_id)

abbrev pub second_open : ActionWindow → ProtocolError
second_open w = record {
  error_code = invalid_payload;
  run_id = some w.run_id;
  seat_id = some w.seat_id;
  action_window_id = some w.action_window_id;
  current_game_revision = none;
  reconnect_cursor = some w.reconnect_cursor;
  text_cap = none;
}

-- the loop, with the open windows that it has `seen`
unfoldable pub single_open_from :
    Dict (String × String) String → List ActionWindow → Checked (Unit {0})
single_open_from seen [] = valid tt
single_open_from seen (w ∷ windows) =
    let skipped = single_open_from seen windows in
    let entered = single_open_from (put seen (owner w) w.action_window_id) windows in
    if not (is_open w.status)
    then skipped
    else if has_key seen (owner w)
    then refused (second_open w)
    else entered

unfoldable pub ensure_single_open_action_window : List ActionWindow → Checked (Unit {0})
unfolding single_open_from
ensure_single_open_action_window windows = single_open_from [] windows

unfoldable pub run_has_human_seat : Controller → (run_id : String) → Checked Bool
unfolding validate_run_id
run_has_human_seat c run_id = do
  run ← validate_run_id run_id
  valid (any (λ pair. pair.0 == run) c.configured_seats)

-- `max` by the index of a cursor: the first of the greatest
unfoldable pub latest_from :
    DecimalTable → (best : String) (index : ℕ) → List String → Checked String
unfolding parse_reconnect_cursor
latest_from decimal best index [] = valid best
latest_from decimal best index (cursor ∷ cursors) = do
  n ← parse_reconnect_cursor decimal cursor
  let kept = latest_from decimal best index cursors
  let later = latest_from decimal cursor n cursors
  if ltb index n then later else kept

unfoldable pub latest_of : DecimalTable → List String → Checked (Option String)
unfolding latest_from parse_reconnect_cursor
latest_of decimal [] = valid none
latest_of decimal (cursor ∷ cursors) = do
  n ← parse_reconnect_cursor decimal cursor
  latest ← latest_from decimal cursor n cursors
  valid (some latest)

unfoldable pub latest_reconnect_cursor :
    PyText → Controller → (run_id seat_id : String) → Checked (Option String)
unfolding latest_of windows_of validate_run_id validate_seat_id
latest_reconnect_cursor py c run_id seat_id = do
  pair ← seat_pair run_id seat_id
  latest_of py.decimal (map (λ (w : ActionWindow). w.reconnect_cursor) (windows_of c pair.0 pair.1))
