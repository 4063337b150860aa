-- ===== src/Tests/Participant.antt =====
-- The theorems on the human seat at concrete inputs.
use werewolf_agent.Participant.Controller.{
  Controller, OpenRequest, new_controller, seat_pair, window_id,
}
use werewolf_agent.Participant.Errors.{ProtocolError, refused, stale_game_revision, valid}
use werewolf_agent.Participant.Finality.{IsFinal, Turn, wait_for_action, wait_for_action-IsFinal}
use werewolf_agent.Participant.Names.{
  Fields, field, fields, format_reconnect_cursor, item, items, natural, no_fields, no_items,
  parse_reconnect_cursor, text, validate_action_type, validate_run_id, validate_seat_id, value_of,
}
use werewolf_agent.Participant.Names.Cursor.{parse_reconnect_cursor-format_reconnect_cursor}
use werewolf_agent.Participant.Names.Newline.{validate_run_id-newline}
use werewolf_agent.Participant.Overview.{ensure_single_open_action_window, latest_reconnect_cursor}
use werewolf_agent.Participant.Overview.Laws.{
  IsLatest, cursors_of, ensure_single_open_action_window-distinct, latest_reconnect_cursor-IsLatest,
  owners,
}
use werewolf_agent.Participant.Payload.{ActionPayload, validate_action_payload, words}
use werewolf_agent.Participant.Payload.Bounds.{
  is_bounded, suits, validate_action_payload-is_bounded,
}
use werewolf_agent.Participant.Refusals.{submit_action_refused}
use werewolf_agent.Participant.Resubmit.{submit_action_again}
use werewolf_agent.Participant.Steps.{IsConsistent, IsSound, after, opens, polls, submits}
use werewolf_agent.Participant.Submissions.{after-IsSound, new_controller-IsConsistent}
use werewolf_agent.Participant.Submit.{submit_action}
use werewolf_agent.Participant.Window.{ActionWindow, PyText, SubmitResult, open_status, post_init}
use werewolf_agent.Participant.Window.Stored.{IsPython}
use werewolf_agent.Prelude.{
  DecimalTable, List, String, [], arith, distinct, false, get, if◌then◌else◌, leb, none, pair_eq,
  refl, show_padded_four, some, string_eq, true, ◌&&◌, ◌-◌, ◌↔◌, ◌∷◌, ◌≡◌,
}

-- a Python whose texts have no spaces to strip, and no digits but the ASCII ones
abbrev ascii_decimal : DecimalTable
ascii_decimal c = if leb 48 c && leb c 57 then some (c - 48) else none

abbrev python : PyText
python = record { strip = λ s. s; decimal = ascii_decimal }

python-IsPython : IsPython python
python-IsPython = record { strip_again = λ s. refl; ascii = λ d h. ground arith }

abbrev vote_request : OpenRequest
vote_request = record {
  phase = "day";
  round = 1;
  game_revision = 4;
  opened_at_event_id = "g1_e010";
  allowed_actions = "vote" ∷ "pass" ∷ [];
  required = true;
  default_on_timeout = "pass";
  reconnect_cursor = "event:7";
  deadline_at = "2026-06-11T00:00:00Z";
  skippable = false;
  ai_takeover_allowed = false;
}

abbrev vote : Fields
vote = field "action_window_id" (text "aw_r1_p3_0001") (
    field "game_revision" (natural 4) (
      field "idempotency_key" (text "k1") (
        field "action_type" (text "vote")
          (field "payload" (fields (field "target" (text "p1") no_fields)) no_fields))))

opened : Controller
opened = after python (opens "r1" "p3" vote_request ∷ []) new_controller

opened-IsConsistent : IsConsistent python opened
unfolding opened
opened-IsConsistent =
    (after-IsSound python python-IsPython (opens "r1" "p3" vote_request ∷ []) new_controller
      (new_controller-IsConsistent python)).consistent

after-IsSound_example :
    IsSound python new_controller
      (after python (opens "r1" "p3" vote_request ∷ submits "r1" "p3" vote ∷ []) new_controller)
after-IsSound_example =
    after-IsSound python python-IsPython
      (opens "r1" "p3" vote_request ∷ submits "r1" "p3" vote ∷ []) new_controller
      (new_controller-IsConsistent python)

abbrev first_answer : SubmitResult
first_answer = record {
  duplicate = false;
  action_window_id = "aw_r1_p3_0001";
  game_revision = 5;
  accepted_event_id = "evt_participant_action_0001";
  reconnect_cursor = "event:8";
}

voted : Controller
voted = (submit_action python "r1" "p3" vote opened).1

vote-first_answer : submit_action python "r1" "p3" vote opened ≡ (valid first_answer, voted)
unfolding opened voted after submit_action validate_run_id validate_seat_id post_init window_id
    show_padded_four
vote-first_answer = refl

submit_action_again_example :
    submit_action python "r1" "p3" vote (after python (polls "aw_r1_p3_0001" true ∷ []) voted) ≡ (
      valid (record first_answer { duplicate = true }),
      after python (polls "aw_r1_p3_0001" true ∷ []) voted,
    )
submit_action_again_example =
    submit_action_again python python-IsPython "r1" "p3" vote opened first_answer voted
      (polls "aw_r1_p3_0001" true ∷ []) opened-IsConsistent vote-first_answer refl

-- a vote on a revision that is past
abbrev stale_vote : Fields
stale_vote = field "action_window_id" (text "aw_r1_p3_0001") (
    field "game_revision" (natural 3) (
      field "idempotency_key" (text "k2") (
        field "action_type" (text "vote")
          (field "payload" (fields (field "target" (text "p1") no_fields)) no_fields))))

abbrev stale_fault : ProtocolError
stale_fault = record {
  error_code = stale_game_revision;
  run_id = some "r1";
  seat_id = some "p3";
  action_window_id = some "aw_r1_p3_0001";
  current_game_revision = some 4;
  reconnect_cursor = some "event:7";
  text_cap = none;
}

after_refusal : Controller
after_refusal = (submit_action python "r1" "p3" stale_vote opened).1

stale_vote-refused :
    submit_action python "r1" "p3" stale_vote opened ≡ (refused stale_fault, after_refusal)
unfolding opened after_refusal after submit_action validate_run_id validate_seat_id post_init
    window_id show_padded_four
stale_vote-refused = refl

submit_action_refused_example : after_refusal ≡ opened
submit_action_refused_example =
    submit_action_refused python python-IsPython "r1" "p3" stale_vote opened after_refusal
      stale_fault opened-IsConsistent stale_vote-refused

abbrev vote_window : ActionWindow
vote_window = record {
  action_window_id = "aw_r1_p3_0001";
  run_id = "r1";
  seat_id = "p3";
  phase = "day";
  round = 1;
  game_revision = 4;
  opened_at_event_id = "g1_e010";
  deadline_at = "2026-06-11T00:00:00Z";
  allowed_actions = "vote" ∷ "pass" ∷ [];
  required = true;
  default_on_timeout = "pass";
  status = open_status;
  reconnect_cursor = "event:7";
  skippable = false;
  ai_takeover_allowed = false;
}

vote_window-there : get opened.windows "aw_r1_p3_0001" ≡ some vote_window
unfolding opened after validate_run_id validate_seat_id post_init window_id show_padded_four
vote_window-there = refl

abbrev turns : List Turn
turns = ([], false) ∷ (submits "r1" "p3" stale_vote ∷ [], false) ∷ ([], true) ∷ []

wait_for_action-IsFinal_example :
    IsFinal python "aw_r1_p3_0001" (wait_for_action python "aw_r1_p3_0001" turns opened)
wait_for_action-IsFinal_example =
    wait_for_action-IsFinal python python-IsPython "aw_r1_p3_0001" turns opened vote_window
      opened-IsConsistent vote_window-there refl

parse_reconnect_cursor-format_reconnect_cursor_example :
    parse_reconnect_cursor ascii_decimal (format_reconnect_cursor 1207) ≡ valid 1207
parse_reconnect_cursor-format_reconnect_cursor_example =
    parse_reconnect_cursor-format_reconnect_cursor ascii_decimal python-IsPython.ascii 1207

validate_run_id-newline_example : validate_run_id "run-1\n" ≡ valid "run-1\n"
unfolding validate_run_id
validate_run_id-newline_example = validate_run_id-newline "run-1" refl refl

-- a speech that answers p2 by name
abbrev speech : Fields
speech =
    field "text" (text "hello")
      (field "addressed_seats" (items (item (text "p2") no_items)) no_fields)

abbrev said_to_p2 : ActionPayload
said_to_p2 = words "hello" none (some ("p2" ∷ []))

speech-said_to_p2 : validate_action_payload "speech" (fields speech) ≡ valid said_to_p2
unfolding validate_action_payload validate_action_type value_of validate_seat_id
speech-said_to_p2 = refl

validate_action_payload-is_bounded_example :
    (is_bounded said_to_p2 && suits "speech" said_to_p2) ≡ true
validate_action_payload-is_bounded_example =
    validate_action_payload-is_bounded "speech" (fields speech) said_to_p2 speech-said_to_p2

ensure_single_open_action_window-distinct_example :
    (ensure_single_open_action_window (vote_window ∷ vote_window ∷ []) ≡ valid tt)
    ↔ (distinct (owners (vote_window ∷ vote_window ∷ [])) ≡ true)
ensure_single_open_action_window-distinct_example =
    ensure_single_open_action_window-distinct (vote_window ∷ vote_window ∷ [])

-- the acceptance has moved the cursor of the window on
latest-voted : latest_reconnect_cursor python voted "r1" "p3" ≡ valid (some "event:8")
unfolding opened voted after submit_action validate_run_id validate_seat_id post_init window_id
    show_padded_four latest_reconnect_cursor
latest-voted = refl

latest_reconnect_cursor-IsLatest_example :
    (pair : String × String) × (seat_pair "r1" "p3" ≡ valid pair)
    × IsLatest ascii_decimal "event:8" (cursors_of voted pair)
latest_reconnect_cursor-IsLatest_example =
    latest_reconnect_cursor-IsLatest python voted "r1" "p3" "event:8" latest-voted
