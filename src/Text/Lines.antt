-- ===== src/Text/Lines.antt =====
-- Lines, parts and key-value pairs of a text (utils.cpp). A cursor is the text from it on; the
-- answer is what is read and the cursor after it, or none where the function returns false.
use p44utils.Prelude.{
  ℕ, Bool, true, false, ◌&&◌, ◌||◌, Option, none, some, List, [], ◌∷◌, length, leb, ◌==◌,
  if◌then◌else◌,
}
use p44utils.Text.Chars.{is_eol, break_at}
use p44utils.Text.Shape.{trim_white_space}

-- A line end: CR, LF, or CR LF.
unfoldable pub skip_eol : List ℕ → List ℕ
skip_eol [] = []
skip_eol (c ∷ []) = []
skip_eol (c ∷ d ∷ s) = if c == b'\r' && d == b'\n' then s else d ∷ s

unfoldable pub next_line : List ℕ → Option (List ℕ × List ℕ)
unfolding skip_eol break_at
next_line [] = none
next_line (c ∷ s) = let (line, rest) = break_at is_eol (c ∷ s) in some (line, skip_eol rest)

unfoldable pub skip_separator : ℕ → List ℕ → List ℕ
skip_separator sep [] = []
skip_separator sep (c ∷ s) = if c == sep then s else c ∷ s

-- The separator is not 0.
unfoldable pub next_part : ℕ → Bool → List ℕ → Option (List ℕ × List ℕ)
unfolding skip_separator break_at
next_part sep stop_at_eol [] = none
next_part sep stop_at_eol (c ∷ s) =
    let (part, rest) = break_at (λ (d : ℕ). d == sep || (stop_at_eol && is_eol d)) (c ∷ s) in
    some (part, skip_separator sep rest)

-- keyAndValue: whether it is a key and a value, with both as they are then; none where there is no
-- separator, and both stay untouched.
unfoldable pub key_and_value : List ℕ → ℕ → Option (Bool × List ℕ × List ℕ)
unfolding break_at
key_and_value input sep =
    let (before, rest) = break_at (λ (d : ℕ). d == sep) input in
    elim rest [
      | [] ↦ none
      | c ∷ value ↦
          let key = trim_white_space true true before in
          some (leb 1 (length key), key, trim_white_space true false value)
    ]
