-- ===== src/Participant/Window/Stored.antt =====
-- What ActionWindow.__post_init__ leaves in a window, and that it accepts it again.
use mathlib.Core.Path.{subst}
use werewolf_agent.Participant.Errors.{
  >>=-eq-valid, check_all, invalid_payload, require, valid, valid_inj,
}
use werewolf_agent.Participant.Names.{
  format_reconnect_cursor, parse_reconnect_cursor, validate_action_type, validate_protocol_text,
  validate_reconnect_cursor, validate_run_id, validate_seat_id,
}
use werewolf_agent.Participant.Names.Cursor.{validate_reconnect_cursor-format_reconnect_cursor}
use werewolf_agent.Participant.Window.{
  ActionWindow, PyText, WindowStatus, post_init, validate_phase, validate_timeout_policy,
}
use werewolf_agent.Prelude.{
  Bool, HasAscii, List, String, [], arith, false, is_empty, not, refl, sym, ℕ, ◌∷◌, ◌≡◌,
}

-- every field is as its validator gives it back
pub record IsStored (py : PyText) (w : ActionWindow) : Type 0 where
  pub id_kept : validate_protocol_text w.action_window_id ≡ valid w.action_window_id
  pub run_kept : validate_run_id w.run_id ≡ valid w.run_id
  pub seat_kept : validate_seat_id w.seat_id ≡ valid w.seat_id
  pub phase_kept : validate_phase py w.phase ≡ valid w.phase
  pub event_kept : validate_protocol_text w.opened_at_event_id ≡ valid w.opened_at_event_id
  pub actions_kept : check_all validate_action_type w.allowed_actions ≡ valid w.allowed_actions
  pub actions_there : is_empty w.allowed_actions ≡ false
  pub policy_kept :
      validate_timeout_policy w.default_on_timeout w.skippable w.ai_takeover_allowed
      ≡ valid w.default_on_timeout
  pub cursor_kept :
      validate_reconnect_cursor py.decimal w.reconnect_cursor ≡ valid w.reconnect_cursor

pub post_init-IsStored : (py : PyText) (w : ActionWindow) → IsStored py w → post_init py w ≡ valid w
unfolding post_init
post_init-IsStored py w h =
    rw
      (
        h.id_kept, h.run_kept, h.seat_kept, h.phase_kept, h.event_kept, h.actions_kept,
        h.actions_there, h.policy_kept, h.cursor_kept,
      )
      refl

run_id_same : (s t : String) → validate_run_id s ≡ valid t → s ≡ t
unfolding validate_run_id
run_id_same s t h = ground (arith, h)

protocol_text_same : (s t : String) → validate_protocol_text s ≡ valid t → s ≡ t
unfolding validate_protocol_text
protocol_text_same s t h = ground (arith, h)

seat_id_same : (s t : String) → validate_seat_id s ≡ valid t → s ≡ t
unfolding validate_seat_id
seat_id_same s t h = ground (arith, h)

action_type_same : (s t : String) → validate_action_type s ≡ valid t → s ≡ t
unfolding validate_action_type
action_type_same s t h = ground (arith, h)

policy_same : (s t : String) (k a : Bool) → validate_timeout_policy s k a ≡ valid t → s ≡ t
unfolding validate_timeout_policy
policy_same s t k a h = ground (arith, h)

actions_same : (xs ys : List String) → check_all validate_action_type xs ≡ valid ys → xs ≡ ys
actions_same [] ys h = cc h
actions_same (x ∷ xs) ys h =
    let (y, head, rest) = >>=-eq-valid (validate_action_type x) _ h in
    let (zs, tail, last) = >>=-eq-valid (check_all validate_action_type xs) _ rest in
    cc (action_type_same x y head, actions_same xs zs tail, last)

-- What is relied on of Python's library: `strip` has nothing left to strip, and the ASCII digits are
-- decimal digits.
pub record IsPython (py : PyText) : Type 0 where
  pub strip_again : (s : String) → py.strip (py.strip s) ≡ py.strip s
  pub ascii : HasAscii py.decimal

-- A window that the constructor lets through is stored as its validators give the fields back, and
-- its names and its status are those that it was given.
pub record IsChecked (py : PyText) (v w : ActionWindow) : Type 0 where
  pub stored : IsStored py w
  pub same_id : w.action_window_id ≡ v.action_window_id
  pub same_run : w.run_id ≡ v.run_id
  pub same_seat : w.seat_id ≡ v.seat_id
  pub same_status : w.status ≡ v.status

module _ (py : PyText) (python : IsPython py) where
  phase_again : (s p : String) → validate_phase py s ≡ valid p → validate_phase py p ≡ valid p
  unfolding validate_phase
  phase_again s p h = ground (arith, h, python.strip_again s)

  cursor_again :
      (s d : String)
      → validate_reconnect_cursor py.decimal s ≡ valid d
      → validate_reconnect_cursor py.decimal d ≡ valid d
  unfolding validate_reconnect_cursor
  cursor_again s d h =
      let (n, parsed, written) = >>=-eq-valid (parse_reconnect_cursor py.decimal s) _ h in
      subst (λ e. validate_reconnect_cursor py.decimal e ≡ valid e) (valid_inj written)
        (validate_reconnect_cursor-format_reconnect_cursor py.decimal python.ascii n)

  pub post_init-IsChecked : (v w : ActionWindow) → post_init py v ≡ valid w → IsChecked py v w
  unfolding post_init
  post_init-IsChecked v w h =
      let (id, id_ok, h1) = >>=-eq-valid (validate_protocol_text v.action_window_id) _ h in
      let (run, run_ok, h2) = >>=-eq-valid (validate_run_id v.run_id) _ h1 in
      let (seat, seat_ok, h3) = >>=-eq-valid (validate_seat_id v.seat_id) _ h2 in
      let (phase, phase_ok, h4) = >>=-eq-valid (validate_phase py v.phase) _ h3 in
      let (event, event_ok, h5) = >>=-eq-valid (validate_protocol_text v.opened_at_event_id) _ h4 in
      let (actions, actions_ok, h6) =
        >>=-eq-valid (check_all validate_action_type v.allowed_actions) _ h5 in
      let (_, there, h7) = >>=-eq-valid (require (not (is_empty actions)) invalid_payload) _ h6 in
      let (policy, policy_ok, h8) =
        >>=-eq-valid
          (validate_timeout_policy v.default_on_timeout v.skippable v.ai_takeover_allowed) _ h7 in
      let (cursor, cursor_ok, h9) =
        >>=-eq-valid (validate_reconnect_cursor py.decimal v.reconnect_cursor) _ h8 in
      subst (IsChecked py v) (valid_inj h9) (record {
        same_id = sym (protocol_text_same v.action_window_id id id_ok);
        same_run = sym (run_id_same v.run_id run run_ok);
        same_seat = sym (seat_id_same v.seat_id seat seat_ok);
        same_status = refl;
        stored = record {
          id_kept =
              subst (λ s. validate_protocol_text s ≡ valid id)
                (protocol_text_same v.action_window_id id id_ok) id_ok;
          run_kept =
              subst (λ s. validate_run_id s ≡ valid run) (run_id_same v.run_id run run_ok) run_ok;
          seat_kept =
              subst (λ s. validate_seat_id s ≡ valid seat) (seat_id_same v.seat_id seat seat_ok)
                seat_ok;
          phase_kept = phase_again v.phase phase phase_ok;
          event_kept =
              subst (λ s. validate_protocol_text s ≡ valid event)
                (protocol_text_same v.opened_at_event_id event event_ok) event_ok;
          actions_kept =
              subst (λ xs. check_all validate_action_type xs ≡ valid actions)
                (actions_same v.allowed_actions actions actions_ok) actions_ok;
          actions_there = ground (arith, there);
          policy_kept =
              subst
                (λ s. validate_timeout_policy s v.skippable v.ai_takeover_allowed ≡ valid policy)
                (policy_same v.default_on_timeout policy v.skippable v.ai_takeover_allowed
                  policy_ok)
                policy_ok;
          cursor_kept = cursor_again v.reconnect_cursor cursor cursor_ok;
        };
      })

  -- The constructor lets a stored window through again, with another status, revision and cursor.
  pub post_init_again :
      (w : ActionWindow) (status : WindowStatus) (revision n : ℕ)
      → IsStored py w
      → let v : ActionWindow = record w {
        status = status;
        game_revision = revision;
        reconnect_cursor = format_reconnect_cursor n;
      } in
        (post_init py v ≡ valid v) × IsStored py v
  post_init_again w status revision n h =
      let v : ActionWindow = record w {
        status = status;
        game_revision = revision;
        reconnect_cursor = format_reconnect_cursor n;
      } in
      let again : IsStored py v = record {
        id_kept = h.id_kept;
        run_kept = h.run_kept;
        seat_kept = h.seat_kept;
        phase_kept = h.phase_kept;
        event_kept = h.event_kept;
        actions_kept = h.actions_kept;
        actions_there = h.actions_there;
        policy_kept = h.policy_kept;
        cursor_kept = validate_reconnect_cursor-format_reconnect_cursor py.decimal python.ascii n;
      } in
      (post_init-IsStored py v again, again)

-- The index of a stored cursor.
pub stored_index :
    (py : PyText) (w : ActionWindow)
    → IsStored py w
    → (n : ℕ) × (parse_reconnect_cursor py.decimal w.reconnect_cursor ≡ valid n)
unfolding validate_reconnect_cursor
stored_index py w h =
    let (n, parsed, _) =
      >>=-eq-valid (parse_reconnect_cursor py.decimal w.reconnect_cursor) _ h.cursor_kept in
    (n, parsed)
