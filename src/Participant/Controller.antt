-- ===== src/Participant/Controller.antt =====
-- InMemoryParticipantActionController. A method runs under one lock, so it is a function on the state;
-- `wait_for_action` gives the lock up between the passes of its loop, so a pass is a method too.
pub mod Fresh
use werewolf_agent.Participant.Errors.{
  Checked, ProtocolError, bare, invalid_payload, refused, valid, ◌>>=◌,
}
use werewolf_agent.Participant.Idempotency.{Ledger}
use werewolf_agent.Participant.Names.{validate_run_id, validate_seat_id}
use werewolf_agent.Participant.Window.{
  ActionWindow, PyText, Submission, is_open, open_status, post_init,
}
use werewolf_agent.Prelude.{
  Bool, Dict, List, Option, String, [], any, concat, false, filter, find, none, put,
  show_padded_four, some, string_eq, values, ℕ, ◌&&◌, ◌++◌, ◌+◌, ◌==◌, ◌∷◌,
}
use werewolf_agent.Runtime.Registry.{allowed_actions}

pub record Controller : Type 0 where
  pub configured_seats : List (String × String)
  pub windows : Dict String ActionWindow
  pub accepted_submissions : Dict String Submission
  pub ledger : Ledger
  pub window_counter : ℕ
  pub action_counter : ℕ

abbrev pub new_controller : Controller
new_controller = record {
  configured_seats = [];
  windows = [];
  accepted_submissions = [];
  ledger = [];
  window_counter = 0;
  action_counter = 0;
}

-- a window of a seat
abbrev pub is_of : (run_id seat_id : String) → ActionWindow → Bool
is_of run_id seat_id w = w.run_id == run_id && w.seat_id == seat_id

abbrev pub is_open_of : (run_id seat_id : String) → ActionWindow → Bool
is_open_of run_id seat_id w = is_of run_id seat_id w && is_open w.status

-- _open_window_for_locked
unfoldable pub open_window_for : Controller → (run_id seat_id : String) → Option ActionWindow
open_window_for c run_id seat_id = find (is_open_of run_id seat_id) (values c.windows)

-- validate_participant_run_id and validate_seat_id, the first statements of most methods
abbrev pub seat_pair : (run_id seat_id : String) → Checked (String × String)
seat_pair run_id seat_id = do
  run ← validate_run_id run_id
  seat ← validate_seat_id seat_id
  valid (run, seat)

-- an error before the lock is taken changes nothing
abbrev pub with_seat :
    {A : Type 0}
    → Checked (String × String)
    → (String → String → Controller → Checked A × Controller)
    → Controller
    → Checked A × Controller
with_seat (refused fault) body c = (refused fault, c)
with_seat (valid (run, seat)) body c = body run seat c

unfoldable pub configure : (run seat : String) → Controller → Checked (Unit {0}) × Controller
configure run seat c =
    (valid tt, record c { configured_seats = c.configured_seats ++ (run, seat) ∷ [] })

unfoldable pub configure_human_seat :
    (run_id seat_id : String) → Controller → Checked (Unit {0}) × Controller
unfolding configure
configure_human_seat run_id seat_id = with_seat (seat_pair run_id seat_id) configure

unfoldable pub is_human_seat : Controller → (run_id seat_id : String) → Checked Bool
is_human_seat c run_id seat_id = do
  run ← validate_run_id run_id
  seat ← validate_seat_id seat_id
  valid (any (λ p. p.0 == run && p.1 == seat) c.configured_seats)

-- the arguments of open_action_window after the seat; the deadline is already a text
pub record OpenRequest : Type 0 where
  pub phase : String
  pub round : ℕ
  pub game_revision : ℕ
  pub opened_at_event_id : String
  pub allowed_actions : List String
  pub required : Bool
  pub default_on_timeout : String
  pub reconnect_cursor : String
  pub deadline_at : String
  pub skippable : Bool
  pub ai_takeover_allowed : Bool

-- f"aw_{run_id}_{seat_id}_{counter:04d}"
unfoldable pub window_id : (run_id seat_id : String) → ℕ → String
window_id run_id seat_id counter =
    concat ("aw_" ∷ run_id ∷ "_" ∷ seat_id ∷ "_" ∷ show_padded_four counter ∷ [])

unfoldable pub window_of : OpenRequest → (run_id seat_id : String) → ℕ → ActionWindow
window_of r run_id seat_id counter = record {
  action_window_id = window_id run_id seat_id counter;
  run_id = run_id;
  seat_id = seat_id;
  phase = r.phase;
  round = r.round;
  game_revision = r.game_revision;
  opened_at_event_id = r.opened_at_event_id;
  deadline_at = r.deadline_at;
  allowed_actions = r.allowed_actions;
  required = r.required;
  default_on_timeout = r.default_on_timeout;
  status = open_status;
  reconnect_cursor = r.reconnect_cursor;
  skippable = r.skippable;
  ai_takeover_allowed = r.ai_takeover_allowed;
}

-- the error for a seat that has an open window
unfoldable pub already_open : ActionWindow → ProtocolError
already_open w = record (bare invalid_payload) {
  run_id = some w.run_id;
  seat_id = some w.seat_id;
  action_window_id = some w.action_window_id;
  reconnect_cursor = some w.reconnect_cursor;
}

-- the new window goes into the store, if its fields are valid
unfoldable pub install : Checked ActionWindow → Controller → Checked ActionWindow × Controller
install (refused fault) c = (refused fault, c)
install (valid w) c = (valid w, record c { windows = put c.windows w.action_window_id w })

-- The window that the error names: with two or more open ones of a seat,
-- `ensure_single_open_action_window` names the second.
abbrev pub reported : ActionWindow → List ActionWindow → ActionWindow
reported w (first ∷ second ∷ current) = second
reported w current = w

-- Open a window for a seat without one; one open window, or more, is refused.
unfoldable pub open_for :
    PyText
    → OpenRequest
    → (run_id seat_id : String) → Option ActionWindow
    → Controller
    → Checked ActionWindow × Controller
unfolding window_of already_open install
open_for py r run_id seat_id (some w) c =
    let current = filter (is_open_of run_id seat_id) (values c.windows) in
    (refused (already_open (reported w current)), c)
open_for py r run_id seat_id none c =
    let counter = c.window_counter + 1 in
    install (post_init py (window_of r run_id seat_id counter))
      (record c { window_counter = counter })

unfoldable pub open_for_seat :
    PyText → OpenRequest → (run seat : String) → Controller → Checked ActionWindow × Controller
unfolding open_for open_window_for
open_for_seat py r run seat c = open_for py r run seat (open_window_for c run seat) c

unfoldable pub open_action_window :
    PyText
    → (run_id seat_id : String) → OpenRequest
    → Controller
    → Checked ActionWindow × Controller
unfolding open_for_seat
open_action_window py run_id seat_id r = with_seat (seat_pair run_id seat_id) (open_for_seat py r)

-- `self._windows[id] = replace(window, …)`, where `replace` checks the fields again
abbrev pub replace_window :
    {A : Type 0} → (id : String) → Checked ActionWindow → A → Controller → Checked A × Controller
replace_window id (refused fault) a c = (refused fault, c)
replace_window id (valid w) a c = (valid a, record c { windows = put c.windows id w })

-- the seat's windows, in the order of their opening
unfoldable pub windows_of : Controller → (run seat : String) → List ActionWindow
windows_of c run seat = filter (is_of run seat) (values c.windows)

unfoldable pub last_of : ActionWindow → List ActionWindow → ActionWindow
last_of w [] = w
last_of w (v ∷ vs) = last_of v vs

-- the fixed arguments of the stub window
abbrev stub_request : (deadline_at : String) → OpenRequest
stub_request deadline_at = record {
  phase = "p3c_stub";
  round = 0;
  game_revision = 0;
  opened_at_event_id = "evt_participant_stub_0000";
  allowed_actions = "speech" ∷ "pass" ∷ [];
  required = false;
  default_on_timeout = "pass";
  reconnect_cursor = "event:0";
  deadline_at = deadline_at;
  skippable = false;
  ai_takeover_allowed = false;
}

-- an open window, or else the last one, or else a new one
unfoldable pub stub_for :
    PyText
    → (deadline_at run seat : String) → Option ActionWindow
    → List ActionWindow
    → Controller
    → Checked ActionWindow × Controller
unfolding open_action_window last_of
stub_for py deadline_at run seat (some w) existing c = (valid w, c)
stub_for py deadline_at run seat none (w ∷ existing) c = (valid (last_of w existing), c)
stub_for py deadline_at run seat none [] c =
    open_action_window py run seat (stub_request deadline_at) c

unfoldable pub stub_for_seat :
    PyText → (deadline_at run seat : String) → Controller → Checked ActionWindow × Controller
unfolding stub_for windows_of open_window_for
stub_for_seat py deadline_at run seat c =
    stub_for py deadline_at run seat (open_window_for c run seat) (windows_of c run seat) c

unfoldable pub ensure_stub_action_window :
    PyText → (deadline_at run_id seat_id : String) → Controller → Checked ActionWindow × Controller
unfolding stub_for_seat
ensure_stub_action_window py deadline_at run_id seat_id =
    with_seat (seat_pair run_id seat_id) (stub_for_seat py deadline_at)
