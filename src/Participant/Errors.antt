-- ===== src/Participant/Errors.antt =====
-- ParticipantProtocolError, without the text of its message, and the results that raise it.
use werewolf_agent.Prelude.{
  Bool, List, Option, String, [], if◌then◌else◌, none, refl, some, ℕ, ◌∷◌, ◌≡◌,
}

pub data ErrorCode : Type 0 where
  invalid_payload missing_or_invalid_session seat_not_controlled_by_session : ErrorCode
  visibility_forbidden run_not_found action_window_not_found stale_game_revision : ErrorCode
  idempotency_conflict action_window_closed illegal_action run_not_accepting_actions : ErrorCode

-- PARTICIPANT_ERROR_HTTP_STATUS
unfoldable pub http_status : ErrorCode → ℕ
http_status invalid_payload = 400
http_status missing_or_invalid_session = 401
http_status seat_not_controlled_by_session = 403
http_status visibility_forbidden = 403
http_status run_not_found = 404
http_status action_window_not_found = 404
http_status stale_game_revision = 409
http_status idempotency_conflict = 409
http_status action_window_closed = 409
http_status illegal_action = 422
http_status run_not_accepting_actions = 423

pub record ProtocolError : Type 0 where
  pub error_code : ErrorCode
  pub run_id : Option String
  pub seat_id : Option String
  pub action_window_id : Option String
  pub current_game_revision : Option ℕ
  pub reconnect_cursor : Option String
  pub text_cap : Option ℕ

-- an error without context
abbrev pub bare : ErrorCode → ProtocolError
bare code = record {
  error_code = code;
  run_id = none;
  seat_id = none;
  action_window_id = none;
  current_game_revision = none;
  reconnect_cursor = none;
  text_cap = none;
}

pub data Checked {ℓ} (A : Type ℓ) : Type ℓ where
  refused : ProtocolError → Checked A
  valid : A → Checked A

module _ {ℓ κ} {A : Type ℓ} {B : Type κ} where
  infixl 5 ◌>>=◌ ◌>>◌
  abbrev pub ◌>>=◌ : Checked A → (A → Checked B) → Checked B
  refused fault >>= next = refused fault
  valid checked >>= next = next checked

  abbrev pub ◌>>◌ : Checked A → Checked B → Checked B
  earlier >> later = earlier >>= λ checked. later

module _ {ℓ κ} {A : Type ℓ} {B : Type κ} where
  -- a list comprehension whose body may raise
  abbrev pub check_all : (A → Checked B) → List A → Checked (List B)
  check_all f [] = valid []
  check_all f (x ∷ xs) = f x >>= λ y. check_all f xs >>= λ ys. valid (y ∷ ys)

abbrev pub require : Bool → ErrorCode → Checked (Unit {0})
require b code = if b then valid tt else refused (bare code)

abbrev pub or_refuse {ℓ} : {A : Type ℓ} → Option A → ErrorCode → Checked A
or_refuse none code = refused (bare code)
or_refuse (some a) code = valid a

module _ {ℓ κ} {A : Type ℓ} {B : Type κ} where
  -- a block that is valid to its end
  pub >>=-eq-valid :
      (m : Checked A) (f : A → Checked B) {b : B}
      → (m >>= f) ≡ valid b
      → (a : A) × (m ≡ valid a) × (f a ≡ valid b)
  >>=-eq-valid (valid a) f h = (a, refl, h)
  >>=-eq-valid (refused fault) f h = cc

pub valid_inj {ℓ} : {A : Type ℓ} {a b : A} → valid a ≡ valid b → a ≡ b
valid_inj h = cc h
