-- ===== src/Script/Runs.antt =====
-- The source cursor at concrete inputs (p44script.cpp).
use p44utils.Prelude.{
  All, ◌<◌, ◌==◌, ℕ, ◌+◌, ◌*◌, ◌-◌, ◌≡◌, refl, false, Option, none, some, List, [], ◌∷◌, ◌++◌, ltb,
  if◌then◌else◌, arith,
}
use p44utils.Text.Quote.{cstring_quote, hex_lower}
use p44utils.Script.Cursor.{Cursor, start_of, skip_non_code}
use p44utils.Script.Operators.{mode_flexible, operator_of}
use p44utils.Script.Literals.{text, parse_string_literal}
use p44utils.Script.Walk.{Walked}
use p44utils.Script.Ends.{Ends, parse_string_literal-Ends}
use p44utils.Script.AtCode.{AtCode}
use p44utils.Script.StringChars.{ReadsDigits}
use p44utils.Script.StringRoundTrip.{parse_string_literal-cstring_quote}
use p44utils.Script.Comments.{Passes}
use p44utils.Script.NonCode.{NonCode, skip_non_code-Passes}
use p44utils.Script.Spellings.{spellings, first_of, operator_of-spellings}

-- Two digits in lower case.
abbrev digit : ℕ → ℕ
digit c = if ltb c 58 then c - 48 else c - 87

abbrev pub scan_two : List ℕ → Option ℕ
scan_two [] = none
scan_two (c ∷ []) = none
scan_two (c ∷ d ∷ t) = some (digit c * 16 + digit d)

digit-hex_lower : (d : ℕ) → digit (hex_lower d) ≡ d
digit-hex_lower d = ground arith

pub scan_two-ReadsDigits : ReadsDigits scan_two
scan_two-ReadsDigits d e t h i = rw (digit-hex_lower d, digit-hex_lower e) refl

-- A line, a comment, and `+= 1`.
abbrev program : List ℕ
program = 10 ∷ 32 ∷ b'/' ∷ b'*' ∷ 10 ∷ b'*' ∷ b'/' ∷ b'+' ∷ b'=' ∷ 32 ∷ b'1' ∷ []

skip_non_code-Passes_example :
    Walked (start_of program) (skip_non_code (start_of program))
    × Passes NonCode (start_of program) (skip_non_code (start_of program))
    × AtCode (skip_non_code (start_of program))
skip_non_code-Passes_example = skip_non_code-Passes (start_of program)

operator_of-spellings_example :
    operator_of mode_flexible b'&' b'&' b'='
    ≡ first_of (spellings mode_flexible) (b'&' ∷ b'&' ∷ b'=' ∷ [])
operator_of-spellings_example = operator_of-spellings mode_flexible b'&' b'&' b'='

-- "a, a quote, a line feed and an escape character
abbrev value : List ℕ
value = b'a' ∷ b'"' ∷ 10 ∷ 27 ∷ []

value_bytes : All (λ (c : ℕ). (c < 256) × ((c == 0) ≡ false)) value
value_bytes =
    ((omega arith, refl), ((omega arith, refl), ((omega arith, refl), ((omega arith, refl), tt))))

abbrev source : List ℕ
source = cstring_quote false value ++ b';' ∷ []

parse_string_literal-Ends_example :
    Ends (start_of source) (parse_string_literal scan_two (start_of source))
parse_string_literal-Ends_example = parse_string_literal-Ends scan_two (start_of source)

parse_string_literal-cstring_quote_example :
    (at : Cursor) × (parse_string_literal scan_two (start_of source) ≡ some (text value, at))
    × (at.rest ≡ b';' ∷ [])
unfolding cstring_quote start_of
parse_string_literal-cstring_quote_example =
    parse_string_literal-cstring_quote scan_two false scan_two-ReadsDigits value (b';' ∷ [])
      (start_of source) value_bytes refl
