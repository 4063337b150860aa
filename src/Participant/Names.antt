-- ===== src/Participant/Names.antt =====
-- The ids, the reconnect cursor and the other scalars of the protocol.
pub mod Cursor
pub mod Newline
use werewolf_agent.Participant.Errors.{
  Checked, bare, invalid_payload, or_refuse, refused, require, valid, ◌>>=◌, ◌>>◌,
}
use werewolf_agent.Prelude.{
  Bool, DecimalTable, List, Option, String, [], any, codes, concat, elem, eqb, false, if◌then◌else◌,
  is_empty, leb, none, not, read_number, show, some, string_eq, strip_prefix, suc, true, zero, ℕ,
  ◌&&◌, ◌==◌, ◌||◌, ◌∷◌,
}

-- Values of a JSON document. A text is a sequence of Unicode scalar values.
mutual
  pub data Value : Type 0 where
    none_value : Value
    boolean : Bool → Value
    natural negative : ℕ → Value
    fraction text : String → Value
    items : Items → Value
    fields : Fields → Value

  pub data Items : Type 0 where
    no_items : Items
    item : Value → Items → Items

  pub data Fields : Type 0 where
    no_fields : Fields
    field : String → Value → Fields → Fields

-- `payload.get(key)`
abbrev pub field_of : String → Fields → Option Value
field_of key no_fields = none
field_of key (field k v fs) = let rest = field_of key fs in if k == key then some v else rest

-- `payload.get(key)`, where a missing key is `None`
unfoldable pub value_of : String → Fields → Value
value_of key fs = elim (field_of key fs) [ none ↦ none_value | some v ↦ v ]

-- `isinstance(value, str)`
abbrev pub text_of : Value → Checked String
text_of (text s) = valid s
text_of _ = refused (bare invalid_payload)

-- the class [a-zA-Z0-9]
abbrev pub is_alphanumeric : ℕ → Bool
is_alphanumeric c = (leb 48 c && leb c 57) || (leb 65 c && leb c 90) || (leb 97 c && leb c 122)

-- `_`, `.` and `-`
abbrev pub is_name_code : ℕ → Bool
is_name_code c = is_alphanumeric c || eqb c 95 || eqb c 46 || eqb c 45

-- and `:`
abbrev is_protocol_code : ℕ → Bool
is_protocol_code c = is_name_code c || eqb c 58

-- At most so many codes of the class, and the end; `$` also matches before a last newline.
unfoldable pub match_rest : (ℕ → Bool) → ℕ → List ℕ → Bool
match_rest class limit [] = true
match_rest class zero (c ∷ cs) = eqb c 10 && is_empty cs
match_rest class (suc limit) (c ∷ cs) =
    let rest = match_rest class limit cs in (eqb c 10 && is_empty cs) || (class c && rest)

-- `re.match` of ^[a-zA-Z0-9][…]{0,limit}$
unfoldable pub match_name : (ℕ → Bool) → ℕ → List ℕ → Bool
unfolding match_rest
match_name class limit [] = false
match_name class limit (c ∷ cs) = is_alphanumeric c && match_rest class limit cs

-- ".." in value
unfoldable pub has_dots : List ℕ → Bool
has_dots [] = false
has_dots (c ∷ []) = false
has_dots (c ∷ d ∷ cs) = eqb c 46 && eqb d 46 || has_dots (d ∷ cs)

-- `.`, `.`, `/`, `\`, `?` and `%`: path and URL characters
unfoldable pub is_forbidden : List ℕ → Bool
unfolding has_dots
is_forbidden cs =
    has_dots cs || any (eqb 47) cs || any (eqb 92) cs || any (eqb 63) cs || any (eqb 37) cs

-- validate_run_id of observer_protocol.py, whose error becomes `invalid_payload`; its test of a leading
-- slash comes after the test for any slash
unfoldable pub validate_run_id : String → Checked String
unfolding is_forbidden match_name
validate_run_id run_id = do
  let cs = codes run_id
  require (not (is_empty cs)) invalid_payload
  require (not (is_forbidden cs)) invalid_payload
  require (match_name is_name_code 127 cs) invalid_payload
  valid run_id

unfoldable pub validate_protocol_text : String → Checked String
unfolding is_forbidden match_name
validate_protocol_text value = do
  let cs = codes value
  require (not (is_empty cs)) invalid_payload
  require (not (is_forbidden cs)) invalid_payload
  require (match_name is_protocol_code 255 cs) invalid_payload
  valid value

-- validate_protocol_id
unfoldable pub validate_protocol_id : Value → Checked String
unfolding validate_protocol_text
validate_protocol_id value = do s ← text_of value; validate_protocol_text s

abbrev pub allowed_seat_ids : List String
allowed_seat_ids = "p1" ∷ "p2" ∷ "p3" ∷ "p4" ∷ "p5" ∷ "p6" ∷ []

unfoldable pub validate_seat_id : String → Checked String
validate_seat_id seat_id = do require (elem seat_id allowed_seat_ids) invalid_payload; valid seat_id

abbrev pub allowed_action_types : List String
allowed_action_types =
    "speech" ∷ "response" ∷ "vote" ∷ "final_words" ∷ "pass" ∷ "werewolf_kill" ∷ "seer_check"
    ∷ "witch_save" ∷ "witch_poison" ∷ "guard_protect" ∷ "hunter_shoot" ∷ []

unfoldable pub validate_action_type : String → Checked String
validate_action_type action_type = do
  require (elem action_type allowed_action_types) invalid_payload
  valid action_type

-- validate_game_revision
unfoldable pub validate_game_revision : Value → Checked ℕ
validate_game_revision (natural n) = valid n
validate_game_revision _ = refused (bare invalid_payload)

-- parse_reconnect_cursor; the interpreter's limit on the digits of `int` is not modelled
unfoldable pub parse_reconnect_cursor : DecimalTable → String → Checked ℕ
parse_reconnect_cursor decimal cursor = do
  raw_index ← or_refuse (strip_prefix "event:" cursor) invalid_payload
  or_refuse (read_number decimal raw_index) invalid_payload

unfoldable pub format_reconnect_cursor : ℕ → String
format_reconnect_cursor event_index = concat ("event:" ∷ show event_index ∷ [])

unfoldable pub validate_reconnect_cursor : DecimalTable → String → Checked String
unfolding parse_reconnect_cursor format_reconnect_cursor
validate_reconnect_cursor decimal cursor = do
  event_index ← parse_reconnect_cursor decimal cursor
  valid (format_reconnect_cursor event_index)
