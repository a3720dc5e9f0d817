-- ===== src/Script/Literals.antt =====
-- parseStringLiteral (p44script.cpp). `scan_hex` is sscanf with "%02x" on the text at the cursor.
use p44utils.Prelude.{
  ℕ, zero, suc, ◌%◌, not, ◌&&◌, Option, none, some, List, [], ◌∷◌, ◌++◌, length, ◌==◌,
  if◌then◌else◌,
}
use p44utils.Script.Cursor.{Cursor, char_at, next, advance}

-- A string value, or one of the three syntax errors.
pub data Literal : Type 0 where
  text : List ℕ → Literal
  invalid unterminated incomplete : Literal

module _ (scan_hex : List ℕ → Option ℕ) where
  -- The number behind \x, with the cursor on its first digit.
  abbrev pub hex_escape : Option ℕ → Cursor → ℕ × Cursor
  hex_escape none cur = (0, cur)
  hex_escape (some h) cur = (h % 256, (next cur).1)

  -- What an escape stands for, with the cursor behind the backslash.
  unfoldable pub escape : Cursor → ℕ × Cursor
  unfolding next
  escape cur =
      let sc = char_at 0 cur in
      let digits = (next cur).1 in
      if sc == b'n'
      then (b'\n', cur)
      else if sc == b'r'
      then (b'\r', cur)
      else if sc == b't'
      then (b'\t', cur)
      else if sc == b'x'
      then hex_escape (scan_hex digits.rest) digits
      else (sc, cur)

  -- What a round of the loop adds to the string, with the cursor behind it.
  unfoldable pub string_char : ℕ → Cursor → ℕ × Cursor
  unfolding escape advance next
  string_char delimiter cur =
      let sc = char_at 0 cur in
      let (e, at) = escape (next cur).1 in
      if sc == delimiter
      then (delimiter, (advance 2 cur).1)
      else if not (delimiter == b'\'') && sc == b'\\'
      then (e, (next at).1)
      else (sc, (next cur).1)

  -- The loop; `none` means that the fuel ran out.
  unfoldable pub string_loop : ℕ → ℕ → List ℕ → Cursor → Option (Literal × Cursor)
  unfolding string_char next
  string_loop zero delimiter str cur = none
  string_loop (suc f) delimiter str cur =
      let sc = char_at 0 cur in
      let doubled = delimiter == b'\'' && char_at 1 cur == delimiter in
      let escaped = not (delimiter == b'\'') && sc == b'\\' in
      let behind_escape = (next cur).1 in
      let (c, at) = string_char delimiter cur in
      let further = string_loop f delimiter (str ++ c ∷ []) at in
      if sc == delimiter
      then (if doubled then further else some (text str, (next cur).1))
      else if sc == 0
      then some (unterminated, cur)
      else if escaped && char_at 0 behind_escape == 0
      then some (incomplete, behind_escape)
      else further

  unfoldable pub parse_string_literal : Cursor → Option (Literal × Cursor)
  unfolding string_loop next
  parse_string_literal cur =
      let delimiter = char_at 0 cur in
      if not (delimiter == b'"') && not (delimiter == b'\'')
      then some (invalid, cur)
      else string_loop (suc (length cur.rest)) delimiter [] (next cur).1
