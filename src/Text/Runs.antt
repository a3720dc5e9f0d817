-- ===== src/Text/Runs.antt =====
-- The text functions at concrete inputs (utils.cpp).
use p44utils.Prelude.{
  ℕ, ◌≡◌, ◌+◌, ◌-◌, ◌↔◌, refl, inl, inr, false, some, List, [], ◌∷◌, ◌++◌, length, ◌≤◌, arith,
}
use p44utils.Text.Quote.{shell_quote}
use p44utils.Text.Csv.{next_csv_field}
use p44utils.Text.Hex.{hex_to_binary_string, data_to_hex_string, gtin_checks}
use p44utils.Text.Lines.{next_line}
use p44utils.Text.Chars.{is_eol}
use p44utils.Text.LineSplit.{LineEnd, end_text, MayEnd, Without, next_line_lem}
use p44utils.Text.Shell.{shell_word, unquoted, shell_word-shell_quote}
use p44utils.Text.CsvRoundTrip.{
  quoted_field, separated, ending_text, behind_ending, next_csv_field-quoted_field,
}
use p44utils.Text.HexRoundTrip.{hex_to_binary_string-data_to_hex_string}
use p44utils.Text.Gtin.{IsGtin, gtin_checks-IsGtin}

-- it's
abbrev word : List ℕ
word = b'i' ∷ b't' ∷ b'\'' ∷ b's' ∷ []

shell_word-shell_quote_example :
    shell_word unquoted (shell_quote word ++ 32 ∷ b'x' ∷ []) ≡ some (word, 32 ∷ b'x' ∷ [])
shell_word-shell_quote_example = shell_word-shell_quote word (32 ∷ b'x' ∷ []) refl

-- a "b", then a semicolon
abbrev field : List ℕ
field = b'a' ∷ 32 ∷ b'"' ∷ b'b' ∷ b'"' ∷ []

next_csv_field-quoted_field_example :
    next_csv_field b';' false [] (quoted_field field ++ ending_text (separated b';' (b'c' ∷ [])))
    ≡ some (field, some (behind_ending (separated b';' (b'c' ∷ []))))
next_csv_field-quoted_field_example =
    next_csv_field-quoted_field b';' [] field (separated b';' (b'c' ∷ []))
      (refl, omega arith, omega arith)

abbrev long_text : List ℕ
long_text = 65 ∷ 66 ∷ 10 ∷ 13 ∷ 67 ∷ 68 ∷ 69 ∷ 70 ∷ 71 ∷ 72 ∷ 73 ∷ []

next_line_lem_example :
    (line : List ℕ) × (e : LineEnd) × (rest : List ℕ) × (next_line long_text ≡ some (line, rest))
    × (long_text ≡ line ++ (end_text e ++ rest))
    × Without is_eol line
    × MayEnd e rest
    × (length rest ≤ 10)
next_line_lem_example = next_line_lem 65 (66 ∷ 10 ∷ 13 ∷ 67 ∷ 68 ∷ 69 ∷ 70 ∷ 71 ∷ 72 ∷ 73 ∷ [])

hex_to_binary_string-data_to_hex_string_example :
    hex_to_binary_string (data_to_hex_string b':' (0 ∷ 171 ∷ 255 ∷ [])) false 0 ≡ 0 ∷ 171 ∷ 255 ∷ []
hex_to_binary_string-data_to_hex_string_example =
    hex_to_binary_string-data_to_hex_string false 0 b':' (0 ∷ 171 ∷ 255 ∷ []) (inr refl)
      (omega arith, (omega arith, (omega arith, tt))) (inl refl)

gtin_checks-IsGtin_example :
    let (newcheck, oldcheck) = gtin_checks 7612345678900 in
    IsGtin (7612345678900 - oldcheck + newcheck) × (IsGtin 7612345678900 ↔ (newcheck ≡ oldcheck))
gtin_checks-IsGtin_example = gtin_checks-IsGtin 7612345678900
