-- ===== src/Participant/Payload.antt =====
-- validate_action_payload. A payload from a JSON document can be written as JSON again, so that check
-- of the source never fails here.
pub mod Bounds
use werewolf_agent.Participant.Errors.{
  Checked, bare, check_all, invalid_payload, or_refuse, refused, require, valid, ◌>>=◌, ◌>>◌,
}
use werewolf_agent.Participant.Names.{
  Fields, Items, Value, field, field_of, fields, item, items, no_fields, no_items, none_value,
  text_of, validate_action_type, validate_seat_id, value_of,
}
use werewolf_agent.Prelude.{
  Bool, List, Option, String, [], codes, elem, false, if◌then◌else◌, leb, length, none, not, some,
  string_eq, ℕ, ◌==◌, ◌||◌, ◌∷◌,
}

-- the normalized payload, by the kind of the action; a key that was not there is `none`
pub data ActionPayload : Type 0 where
  words :
      (said : String) (reply_to_event_ids addressed_seats : Option (List String)) → ActionPayload
  last_words aimed : String → ActionPayload
  nothing : ActionPayload

abbrev pub text_action_cap : ℕ
text_action_cap = 2000

-- set(payload) - allowed
unfoldable pub extra_keys : List String → Fields → Bool
extra_keys allowed no_fields = false
extra_keys allowed (field k v fs) = not (elem k allowed) || extra_keys allowed fs

-- `_validate_text`
unfoldable pub validate_text : Value → Checked String
validate_text value = do
  s ← text_of value
  if leb (length (codes s)) text_action_cap
      then valid s
      else refused (record (bare invalid_payload) { text_cap = some text_action_cap })

unfoldable pub nonempty_texts : Items → Checked (List String)
nonempty_texts no_items = valid []
nonempty_texts (item value rest) = do
  s ← text_of value
  require (not (s == "")) invalid_payload
  ss ← nonempty_texts rest
  valid (s ∷ ss)

-- `_validate_optional_string_list`
unfoldable pub validate_optional_string_list : Value → Checked (List String)
unfolding nonempty_texts
validate_optional_string_list none_value = valid []
validate_optional_string_list (items xs) = nonempty_texts xs
validate_optional_string_list _ = refused (bare invalid_payload)

-- the entry of a key that is there
unfoldable pub kept : String → Fields → List String → Option (List String)
kept key payload checked = elim (field_of key payload) [ none ↦ none | some v ↦ some checked ]

unfoldable pub validate_words : Fields → Checked ActionPayload
unfolding extra_keys validate_text validate_optional_string_list kept
validate_words payload = do
  require (not (extra_keys ("text" ∷ "reply_to_event_ids" ∷ "addressed_seats" ∷ []) payload))
      invalid_payload
  said ← or_refuse (field_of "text" payload) invalid_payload
  s ← validate_text said
  replies ← validate_optional_string_list (value_of "reply_to_event_ids" payload)
  seats ← validate_optional_string_list (value_of "addressed_seats" payload)
  addressed ← check_all validate_seat_id seats
  valid (
      words s (kept "reply_to_event_ids" payload replies)
        (kept "addressed_seats" payload addressed))

unfoldable pub validate_last_words : Fields → Checked ActionPayload
unfolding extra_keys validate_text
validate_last_words payload = do
  require (not (extra_keys ("text" ∷ []) payload)) invalid_payload
  said ← or_refuse (field_of "text" payload) invalid_payload
  s ← validate_text said
  valid (last_words s)

unfoldable pub validate_aimed : Fields → Checked ActionPayload
unfolding extra_keys
validate_aimed payload = do
  require (not (extra_keys ("target" ∷ []) payload)) invalid_payload
  aim ← or_refuse (field_of "target" payload) invalid_payload
  t ← text_of aim
  seat ← validate_seat_id t
  valid (aimed seat)

unfoldable pub validate_nothing : Fields → Checked ActionPayload
validate_nothing no_fields = valid nothing
validate_nothing (field k v fs) = refused (bare invalid_payload)

-- isinstance(payload, Mapping)
abbrev pub fields_of : Value → Checked Fields
fields_of (fields fs) = valid fs
fields_of _ = refused (bare invalid_payload)

unfoldable pub validate_action_payload : (action_type : String) → Value → Checked ActionPayload
unfolding validate_words validate_last_words validate_aimed validate_nothing
validate_action_payload action_type value = do
  validate_action_type action_type
  payload ← fields_of value
  if elem action_type ("speech" ∷ "response" ∷ [])
      then validate_words payload
      else if action_type == "final_words"
      then validate_last_words payload
      else if action_type == "pass"
      then validate_nothing payload
      else validate_aimed payload
