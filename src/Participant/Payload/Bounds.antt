-- ===== src/Participant/Payload/Bounds.antt =====
-- What validate_action_payload lets through.
use mathlib.Core.Path.{subst}
use werewolf_agent.Participant.Errors.{
  >>=-eq-valid, ErrorCode, check_all, invalid_payload, or_refuse, require, valid, valid_inj,
}
use werewolf_agent.Participant.Names.{
  Fields, Items, Value, allowed_seat_ids, boolean, field, field_of, fields, fraction, item, items,
  natural, negative, no_fields, no_items, none_value, text, text_of, validate_action_type,
  validate_seat_id, value_of,
}
use werewolf_agent.Participant.Payload.{
  ActionPayload, aimed, extra_keys, fields_of, kept, last_words, nonempty_texts, nothing,
  text_action_cap, validate_action_payload, validate_aimed, validate_last_words, validate_nothing,
  validate_optional_string_list, validate_text, validate_words, words,
}
use werewolf_agent.Prelude.{
  Bool, Bool-cases, List, Option, String, [], all, arith, codes, elem, false, inl, inr, leb, length,
  none, not, refl, some, string_eq, true, ◌&&◌, ◌==◌, ◌∷◌, ◌≡◌,
}

abbrev is_seat : String → Bool
is_seat seat = elem seat allowed_seat_ids

abbrev is_short : String → Bool
is_short s = leb (length (codes s)) text_action_cap

abbrev all_of : (String → Bool) → Option (List String) → Bool
all_of p none = true
all_of p (some ss) = all p ss

-- texts within the cap, replies that are not empty, and seats of the game
abbrev pub is_bounded : ActionPayload → Bool
is_bounded (words said replies seats) =
    is_short said && all_of (λ s. not (s == "")) replies && all_of is_seat seats
is_bounded (last_words said) = is_short said
is_bounded (aimed seat) = is_seat seat
is_bounded nothing = true

-- the kind of payload that the action has
abbrev pub suits : (action_type : String) → ActionPayload → Bool
suits t (words said replies seats) = elem t ("speech" ∷ "response" ∷ [])
suits t (last_words said) = t == "final_words"
suits t (aimed seat) = not (elem t ("speech" ∷ "response" ∷ "final_words" ∷ "pass" ∷ []))
suits t nothing = t == "pass"

require-true : (b : Bool) (code : ErrorCode) {u : Unit {0}} → require b code ≡ valid u → b ≡ true
require-true true code h = refl
require-true false code h = cc h

validate_text-is_short : (v : Value) (s : String) → validate_text v ≡ valid s → is_short s ≡ true
unfolding validate_text
validate_text-is_short v s h =
    let (t, told, e) = >>=-eq-valid (text_of v) _ h in
    elim (Bool-cases (is_short t)) [
      | inl short ↦
          let q : t ≡ s = valid_inj (rw short at e) in subst (λ r. is_short r ≡ true) q short
      | inr long ↦ cc (rw long at e)
    ]

validate_seat_id-is_seat : (t s : String) → validate_seat_id t ≡ valid s → is_seat s ≡ true
unfolding validate_seat_id
validate_seat_id-is_seat t s h = elim (Bool-cases (is_seat t)) [
  | inl seat ↦ let q : t ≡ s = valid_inj (rw seat at h) in subst (λ r. is_seat r ≡ true) q seat
  | inr other ↦ cc (rw other at h)
]

check_all-is_seat :
    (ts ss : List String) → check_all validate_seat_id ts ≡ valid ss → all is_seat ss ≡ true
check_all-is_seat [] ss h = subst (λ r. all is_seat r ≡ true) (valid_inj h) refl
check_all-is_seat (t ∷ ts) ss h =
    let (s, here, k) = >>=-eq-valid (validate_seat_id t) _ h in
    let (rest, there, e) = >>=-eq-valid (check_all validate_seat_id ts) _ k in
    subst (λ r. all is_seat r ≡ true) (valid_inj e)
      (rw (validate_seat_id-is_seat t s here) (check_all-is_seat ts rest there))

nonempty_texts-all :
    (xs : Items) (ss : List String)
    → nonempty_texts xs ≡ valid ss
    → all (λ s. not (s == "")) ss ≡ true
unfolding nonempty_texts
nonempty_texts-all no_items ss h = subst (λ r. all (λ s. not (s == "")) r ≡ true) (valid_inj h) refl
nonempty_texts-all (item v xs) ss h =
    let (s, told, k) = >>=-eq-valid (text_of v) _ h in
    let (u, full, l) = >>=-eq-valid (require (not (s == "")) invalid_payload) _ k in
    let (rest, there, e) = >>=-eq-valid (nonempty_texts xs) _ l in
    let filled = require-true (not (s == "")) invalid_payload full in
    subst (λ r. all (λ s. not (s == "")) r ≡ true) (valid_inj e)
      (rw filled (nonempty_texts-all xs rest there))

all_of-kept :
    (p : String → Bool) (key : String) (payload : Fields) (ss : List String)
    → all p ss ≡ true
    → all_of p (kept key payload ss) ≡ true
unfolding kept
all_of-kept p key payload ss h = by_entry (field_of key payload)
  where
    by_entry : (o : Option Value) → all_of p (elim o [ none ↦ none | some v ↦ some ss ]) ≡ true
    by_entry none = refl
    by_entry (some v) = h

list-all :
    (v : Value) (ss : List String)
    → validate_optional_string_list v ≡ valid ss
    → all (λ s. not (s == "")) ss ≡ true
unfolding validate_optional_string_list
list-all none_value ss h = subst (λ r. all (λ s. not (s == "")) r ≡ true) (valid_inj h) refl
list-all (items xs) ss h = nonempty_texts-all xs ss h
list-all (text s) ss h = cc h
list-all (natural n) ss h = cc h
list-all (fields fs) ss h = cc h
list-all (negative n) ss h = cc h
list-all (fraction s) ss h = cc h
list-all (boolean b) ss h = cc h

validate_words-bounded :
    (payload : Fields) (t : String) (p : ActionPayload)
    → elem t ("speech" ∷ "response" ∷ []) ≡ true
    → validate_words payload ≡ valid p
    → (is_bounded p && suits t p) ≡ true
unfolding validate_words
validate_words-bounded payload t p k h =
    let (u, known, a) =
      >>=-eq-valid
        (require (not (extra_keys ("text" ∷ "reply_to_event_ids" ∷ "addressed_seats" ∷ []) payload))
          invalid_payload)
        _ h in
    let (said, there, b) = >>=-eq-valid (or_refuse (field_of "text" payload) invalid_payload) _ a in
    let (s, short, c) = >>=-eq-valid (validate_text said) _ b in
    let (replies, full, d) =
      >>=-eq-valid (validate_optional_string_list (value_of "reply_to_event_ids" payload)) _ c in
    let (seats, named, e) =
      >>=-eq-valid (validate_optional_string_list (value_of "addressed_seats" payload)) _ d in
    let (addressed, seated, f) = >>=-eq-valid (check_all validate_seat_id seats) _ e in
    let fine : (is_bounded (
            words s (kept "reply_to_event_ids" payload replies)
              (kept "addressed_seats" payload addressed))
          && suits t (
              words s (kept "reply_to_event_ids" payload replies)
                (kept "addressed_seats" payload addressed)))
        ≡ true =
      rw
        (
          validate_text-is_short said s short,
          all_of-kept (λ r. not (r == "")) "reply_to_event_ids" payload replies
              (list-all (value_of "reply_to_event_ids" payload) replies full),
          all_of-kept is_seat "addressed_seats" payload addressed
              (check_all-is_seat seats addressed seated),
        )
        k in
    subst (λ q. (is_bounded q && suits t q) ≡ true) (valid_inj f) fine

validate_last_words-bounded :
    (payload : Fields) (t : String) (p : ActionPayload)
    → (t == "final_words") ≡ true
    → validate_last_words payload ≡ valid p
    → (is_bounded p && suits t p) ≡ true
unfolding validate_last_words
validate_last_words-bounded payload t p k h =
    let (u, known, a) =
      >>=-eq-valid (require (not (extra_keys ("text" ∷ []) payload)) invalid_payload) _ h in
    let (said, there, b) = >>=-eq-valid (or_refuse (field_of "text" payload) invalid_payload) _ a in
    let (s, short, c) = >>=-eq-valid (validate_text said) _ b in
    let fine : (is_bounded (last_words s) && suits t (last_words s)) ≡ true =
      rw (validate_text-is_short said s short) k in
    subst (λ q. (is_bounded q && suits t q) ≡ true) (valid_inj c) fine

validate_aimed-bounded :
    (payload : Fields) (t : String) (p : ActionPayload)
    → not (elem t ("speech" ∷ "response" ∷ "final_words" ∷ "pass" ∷ [])) ≡ true
    → validate_aimed payload ≡ valid p
    → (is_bounded p && suits t p) ≡ true
unfolding validate_aimed
validate_aimed-bounded payload t p k h =
    let (u, known, a) =
      >>=-eq-valid (require (not (extra_keys ("target" ∷ []) payload)) invalid_payload) _ h in
    let (aim, there, b) =
      >>=-eq-valid (or_refuse (field_of "target" payload) invalid_payload) _ a in
    let (told, said, c) = >>=-eq-valid (text_of aim) _ b in
    let (seat, seated, d) = >>=-eq-valid (validate_seat_id told) _ c in
    let fine : (is_bounded (aimed seat) && suits t (aimed seat)) ≡ true =
      rw (validate_seat_id-is_seat told seat seated) k in
    subst (λ q. (is_bounded q && suits t q) ≡ true) (valid_inj d) fine

validate_nothing-bounded :
    (payload : Fields) (t : String) (p : ActionPayload)
    → (t == "pass") ≡ true
    → validate_nothing payload ≡ valid p
    → (is_bounded p && suits t p) ≡ true
unfolding validate_nothing
validate_nothing-bounded no_fields t p k h =
    subst (λ q. (is_bounded q && suits t q) ≡ true) (valid_inj h) k
validate_nothing-bounded (field name v fs) t p k h = cc h

-- A payload that the validator lets through has the kind that its action has, a text of at most as
-- many characters as the cap, replies that are no empty texts, and only seats of the game.
pub validate_action_payload-is_bounded :
    (t : String) (v : Value) (p : ActionPayload)
    → validate_action_payload t v ≡ valid p
    → (is_bounded p && suits t p) ≡ true
unfolding validate_action_payload
validate_action_payload-is_bounded t v p h =
    let (known, allowed, a) = >>=-eq-valid (validate_action_type t) _ h in
    let (payload, there, b) = >>=-eq-valid (fields_of v) _ a in
    elim (Bool-cases (elem t ("speech" ∷ "response" ∷ []))) [
      | inl k ↦ validate_words-bounded payload t p k (rw k at b)
      | inr k ↦ elim (Bool-cases (t == "final_words")) [
        | inl l ↦ validate_last_words-bounded payload t p l (rw (k, l) at b)
        | inr l ↦ elim (Bool-cases (t == "pass")) [
          | inl m ↦ validate_nothing-bounded payload t p m (rw (k, l, m) at b)
          | inr m ↦ validate_aimed-bounded payload t p (ground (arith, k, l, m)) (rw (k, l, m) at b)
        ]
      ]
    ]
