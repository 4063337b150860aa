-- ===== src/Participant/Names/Cursor.antt =====
-- parse_reconnect_cursor beside format_reconnect_cursor.
use text.Mathlib.TextLemmas.{append-nil}
use werewolf_agent.Participant.Errors.{valid}
use werewolf_agent.Participant.Names.{
  format_reconnect_cursor, parse_reconnect_cursor, validate_reconnect_cursor,
}
use werewolf_agent.Prelude.{
  DecimalTable, HasAscii, String, [], concat, read_number-show, refl, show, some, strip_prefix,
  strip_prefix-append, ℕ, ◌∷◌, ◌≡◌,
}

strip-event : (s : String) → strip_prefix "event:" (concat ("event:" ∷ s ∷ [])) ≡ some s
strip-event s = rw (append-nil s) (strip_prefix-append "event:" s)

module _ (decimal : DecimalTable) (ascii : HasAscii decimal) where
  -- Where the ASCII digits have their values, the cursor that is written for an event index is parsed
  -- back to that index.
  pub parse_reconnect_cursor-format_reconnect_cursor :
      (n : ℕ) → parse_reconnect_cursor decimal (format_reconnect_cursor n) ≡ valid n
  unfolding parse_reconnect_cursor format_reconnect_cursor
  parse_reconnect_cursor-format_reconnect_cursor n =
      rw (strip-event (show n), read_number-show decimal ascii n) refl

  -- A cursor that the server writes is accepted as it is.
  pub validate_reconnect_cursor-format_reconnect_cursor :
      (n : ℕ)
      → validate_reconnect_cursor decimal (format_reconnect_cursor n)
        ≡ valid (format_reconnect_cursor n)
  unfolding validate_reconnect_cursor
  validate_reconnect_cursor-format_reconnect_cursor n =
      rw (parse_reconnect_cursor-format_reconnect_cursor n) refl
