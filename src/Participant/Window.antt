-- ===== src/Participant/Window.antt =====
-- Action windows, submissions, and the ledger of idempotency keys.
pub mod Stored
use werewolf_agent.Participant.Errors.{
  Checked, ErrorCode, ProtocolError, action_window_closed, action_window_not_found, bare, check_all,
  illegal_action, invalid_payload, refused, require, stale_game_revision, valid, ◌>>=◌, ◌>>◌,
}
use werewolf_agent.Participant.Names.{
  Fields, Value, text, text_of, validate_action_type, validate_game_revision, validate_protocol_id,
  validate_protocol_text, validate_reconnect_cursor, validate_run_id, validate_seat_id, value_of,
}
use werewolf_agent.Participant.Payload.{ActionPayload, validate_action_payload}
use werewolf_agent.Prelude.{
  Bool, DecimalTable, List, Option, String, [], elem, eqb, false, if◌then◌else◌, is_empty, none,
  not, some, string_eq, true, ℕ, ◌&&◌, ◌==◌, ◌∷◌,
}
use werewolf_agent.Runtime.Registry.{allowed_actions}

-- What is taken from Python's library: `str.strip` and the table of decimal digits.
pub record PyText : Type 0 where
  pub strip : String → String
  pub decimal : DecimalTable

-- ACTION_WINDOW_STATUSES
pub data WindowStatus : Type 0 where
  open_status accepted_status timed_out_status cancelled_status superseded_status : WindowStatus

abbrev pub is_open : WindowStatus → Bool
is_open open_status = true
is_open _ = false

pub record ActionWindow : Type 0 where
  pub action_window_id : String
  pub run_id : String
  pub seat_id : String
  pub phase : String
  pub round : ℕ
  pub game_revision : ℕ
  pub opened_at_event_id : String
  pub deadline_at : String
  pub allowed_actions : List String
  pub required : Bool
  pub default_on_timeout : String
  pub status : WindowStatus
  pub reconnect_cursor : String
  pub skippable : Bool
  pub ai_takeover_allowed : Bool

unfoldable pub validate_timeout_policy :
    (policy : String) → (skippable ai_takeover_allowed : Bool) → Checked String
validate_timeout_policy policy skippable ai_takeover_allowed = do
  require (elem policy ("skip" ∷ "pass" ∷ "ai_takeover" ∷ [])) invalid_payload
  require (not (policy == "skip" && not skippable)) invalid_payload
  require (not (policy == "ai_takeover" && not ai_takeover_allowed)) invalid_payload
  valid policy

-- `_validate_phase`
unfoldable pub validate_phase : PyText → String → Checked String
validate_phase py phase = do
  let p = py.strip phase
  require (not (p == "")) invalid_payload
  valid p

-- ActionWindow.__post_init__, on fields of the declared types
unfoldable pub post_init : PyText → ActionWindow → Checked ActionWindow
unfolding validate_protocol_text validate_run_id validate_seat_id validate_action_type
    validate_timeout_policy validate_reconnect_cursor validate_phase
post_init py w = do
  action_window_id ← validate_protocol_text w.action_window_id
  run_id ← validate_run_id w.run_id
  seat_id ← validate_seat_id w.seat_id
  phase ← validate_phase py w.phase
  opened_at_event_id ← validate_protocol_text w.opened_at_event_id
  allowed_actions ← check_all validate_action_type w.allowed_actions
  require (not (is_empty allowed_actions)) invalid_payload
  default_on_timeout ←
      validate_timeout_policy w.default_on_timeout w.skippable w.ai_takeover_allowed
  reconnect_cursor ← validate_reconnect_cursor py.decimal w.reconnect_cursor
  valid (record w {
    action_window_id = action_window_id;
    run_id = run_id;
    seat_id = seat_id;
    phase = phase;
    opened_at_event_id = opened_at_event_id;
    allowed_actions = allowed_actions;
    default_on_timeout = default_on_timeout;
    reconnect_cursor = reconnect_cursor;
  })

-- ParticipantActionSubmission
pub record Submission : Type 0 where
  pub action_window_id : String
  pub game_revision : ℕ
  pub idempotency_key : String
  pub action_type : String
  pub payload : ActionPayload
  pub client_observed_event_id : Option String
  pub client_sent_at : Option String

-- the value if it is a text
text_or_none : Value → Option String
text_or_none (text s) = some s
text_or_none _ = none

check_observed : Option String → Checked (Option String)
unfolding validate_protocol_text
check_observed none = valid none
check_observed (some s) = do checked ← validate_protocol_text s; valid (some checked)

-- the submission that submit_action builds from the request, with its __post_init__
unfoldable pub new_submission : Fields → Checked Submission
unfolding validate_protocol_id validate_game_revision validate_action_type validate_action_payload
    value_of text_or_none check_observed
new_submission request = do
  action_window_id ← validate_protocol_id (value_of "action_window_id" request)
  game_revision ← validate_game_revision (value_of "game_revision" request)
  idempotency_key ← validate_protocol_id (value_of "idempotency_key" request)
  action_text ← text_of (value_of "action_type" request)
  action_type ← validate_action_type action_text
  payload ← validate_action_payload action_type (value_of "payload" request)
  observed ← check_observed (text_or_none (value_of "client_observed_event_id" request))
  valid (record {
    action_window_id = action_window_id;
    game_revision = game_revision;
    idempotency_key = idempotency_key;
    action_type = action_type;
    payload = payload;
    client_observed_event_id = observed;
    client_sent_at = text_or_none (value_of "client_sent_at" request);
  })

-- the context of an error about a window
unfoldable pub about_window : ErrorCode → ActionWindow → ProtocolError
about_window code w = record (bare code) {
  run_id = some w.run_id;
  seat_id = some w.seat_id;
  action_window_id = some w.action_window_id;
  current_game_revision = some w.game_revision;
  reconnect_cursor = some w.reconnect_cursor;
}

abbrev pub require_or : Bool → ProtocolError → Checked (Unit {0})
require_or b fault = if b then valid tt else refused fault

unfoldable pub validate_submission_for_window : Submission → ActionWindow → Checked (Unit {0})
unfolding about_window
validate_submission_for_window s w = do
  require_or (s.action_window_id == w.action_window_id)
      (record (about_window action_window_not_found w) {
        action_window_id = some s.action_window_id;
        current_game_revision = none;
      })
  require_or (is_open w.status) (about_window action_window_closed w)
  require_or (eqb s.game_revision w.game_revision) (about_window stale_game_revision w)
  require_or (elem s.action_type w.allowed_actions) (about_window illegal_action w)

-- the answer to a submission; `duplicate` is its status
pub record SubmitResult : Type 0 where
  pub duplicate : Bool
  pub action_window_id : String
  pub game_revision : ℕ
  pub accepted_event_id : String
  pub reconnect_cursor : String
