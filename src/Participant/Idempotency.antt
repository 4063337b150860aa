-- ===== src/Participant/Idempotency.antt =====
-- ActionIdempotencyTracker. A fingerprint is a JSON text with sorted keys, which two submissions share
-- exactly if its parts agree; here it is the parts.
use werewolf_agent.Participant.Errors.{Checked, bare, idempotency_conflict, refused, valid, ◌>>=◌}
use werewolf_agent.Participant.Payload.{ActionPayload, aimed, last_words, nothing, words}
use werewolf_agent.Participant.Window.{Submission, SubmitResult}
use werewolf_agent.Prelude.{
  Bool, Dict, List, Option, String, [], eqb, false, get, get_default, if◌then◌else◌, none, put,
  some, string_eq, true, ℕ, ◌&&◌, ◌==◌, ◌∷◌,
}

-- idempotency_fingerprint
pub record Fingerprint : Type 0 where
  pub game_revision : ℕ
  pub action_type : String
  pub payload : ActionPayload

abbrev pub fingerprint_of : Submission → Fingerprint
fingerprint_of s = record {
  game_revision = s.game_revision;
  action_type = s.action_type;
  payload = s.payload;
}

unfoldable pub same_texts : List String → List String → Bool
same_texts [] [] = true
same_texts (x ∷ xs) (y ∷ ys) = x == y && same_texts xs ys
same_texts _ _ = false

unfoldable pub same_entry : Option (List String) → Option (List String) → Bool
unfolding same_texts
same_entry none none = true
same_entry (some xs) (some ys) = same_texts xs ys
same_entry _ _ = false

unfoldable pub same_payload : ActionPayload → ActionPayload → Bool
unfolding same_entry
same_payload (words s r a) (words t q b) = s == t && same_entry r q && same_entry a b
same_payload (last_words s) (last_words t) = s == t
same_payload (aimed s) (aimed t) = s == t
same_payload nothing nothing = true
same_payload _ _ = false

unfoldable pub same_fingerprint : Fingerprint → Fingerprint → Bool
unfolding same_payload
same_fingerprint f g =
    eqb f.game_revision g.game_revision
    && f.action_type == g.action_type
    && same_payload f.payload g.payload

pub record IdempotencyRecord : Type 0 where
  pub fingerprint : Fingerprint
  pub result : SubmitResult

-- action_window_id -> idempotency_key -> record
abbrev pub Ledger : Type 0
Ledger = Dict String (Dict String IdempotencyRecord)

abbrev pub recorded : Ledger → Submission → Option IdempotencyRecord
recorded ledger s = get (get_default ledger s.action_window_id []) s.idempotency_key

-- the original result for a repeated key, or an error for another payload
unfoldable pub answer_recorded :
    Submission → Option IdempotencyRecord → Checked (Option SubmitResult)
answer_recorded s none = valid none
answer_recorded s (some r) =
    if same_fingerprint r.fingerprint (fingerprint_of s)
    then valid (some r.result)
    else refused (record (bare idempotency_conflict) { action_window_id = some s.action_window_id })

unfoldable pub duplicate_for : Ledger → Submission → Checked (Option SubmitResult)
unfolding answer_recorded
duplicate_for ledger s = answer_recorded s (recorded ledger s)

abbrev pub store : Ledger → Submission → SubmitResult → Ledger
store ledger s result = put ledger s.action_window_id (
    put (get_default ledger s.action_window_id []) s.idempotency_key
      (record { fingerprint = fingerprint_of s; result = result }))

-- the ledger after `record_or_duplicate`, whose outcome its caller does not read
unfoldable pub record_or_duplicate : Ledger → Submission → SubmitResult → Checked Ledger
unfolding duplicate_for
record_or_duplicate ledger s result = do
  duplicate ← duplicate_for ledger s
  elim duplicate [ none ↦ valid (store ledger s result) | some r ↦ valid ledger ]
