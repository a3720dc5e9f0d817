-- ===== src/Text/Quote.antt =====
-- Quoting for the shell and for C string literals (utils.cpp).
use p44utils.Prelude.{
  ℕ, ◌+◌, ◌/◌, ◌%◌, Bool, ◌&&◌, ◌||◌, List, [], ◌∷◌, ◌++◌, leb, ltb, ◌==◌, if◌then◌else◌,
}

abbrev pub quote_out : List ℕ
quote_out = b'\'' ∷ b'"' ∷ b'\'' ∷ b'"' ∷ []

-- The loop of shellQuote.
unfoldable pub shell_quoted : List ℕ → List ℕ
shell_quoted [] = []
shell_quoted (c ∷ s) =
    let rest = c ∷ shell_quoted s in if c == b'\'' then quote_out ++ rest else rest

unfoldable pub shell_quote : List ℕ → List ℕ
unfolding shell_quoted
shell_quote s = b'\'' ∷ (shell_quoted s ++ b'\'' ∷ [])

-- A digit of "%02x" and one of "%02X".
abbrev pub hex_lower : ℕ → ℕ
hex_lower d = if ltb d 10 then d + 48 else d + 87

abbrev pub hex_upper : ℕ → ℕ
hex_upper d = if ltb d 10 then d + 48 else d + 55

module _ (char_is_signed : Bool) where
  -- c < 0x20, where a char may be signed.
  abbrev pub is_control : ℕ → Bool
  is_control c = ltb c 0x20 || (char_is_signed && leb 0x80 c)

  -- What cstringQuote puts out for one character.
  unfoldable pub cstring_char : ℕ → List ℕ
  cstring_char c =
      if c == b'"' || c == b'\\'
      then b'\\' ∷ c ∷ []
      else if c == b'\n'
      then b'\\' ∷ b'n' ∷ []
      else if c == b'\r'
      then b'\\' ∷ b'r' ∷ []
      else if c == b'\t'
      then b'\\' ∷ b't' ∷ []
      else if is_control c
      then b'\\' ∷ b'x' ∷ hex_lower (c / 16) ∷ hex_lower (c % 16) ∷ []
      else c ∷ []

  unfoldable pub cstring_quoted : List ℕ → List ℕ
  unfolding cstring_char
  cstring_quoted [] = []
  cstring_quoted (c ∷ s) = cstring_char c ++ cstring_quoted s

  unfoldable pub cstring_quote : List ℕ → List ℕ
  unfolding cstring_quoted
  cstring_quote s = b'"' ∷ (cstring_quoted s ++ b'"' ∷ [])
