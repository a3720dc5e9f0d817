-- ===== src/Text/Csv.antt =====
-- nextCSVField (utils.cpp).
use p44utils.Prelude.{
  ℕ, Bool, true, false, ◌&&◌, ◌||◌, Option, none, some, List, [], ◌∷◌, ◌++◌, ◌==◌, if◌then◌else◌,
}
use p44utils.Text.Chars.{is_eol}

-- The loop in a quoted field: whether the field is closed, the field, and the text behind.
unfoldable pub csv_quoted : List ℕ → List ℕ → Bool × List ℕ × List ℕ
csv_quoted field [] = (false, field, [])
csv_quoted field (c ∷ []) = if c == b'"' then (true, field, []) else (false, field ++ c ∷ [], [])
csv_quoted field (c ∷ d ∷ s) =
    let doubled = csv_quoted (field ++ c ∷ []) s in
    let plain = csv_quoted (field ++ c ∷ []) (d ∷ s) in
    if c == b'"' then (if d == b'"' then doubled else (true, field, d ∷ s)) else plain

-- A separator of 0 stands for semicolon, comma and tabulator.
abbrev pub is_separator : ℕ → ℕ → Bool
is_separator sep c = if sep == 0 then c == b';' || (c == b',' || c == b'\t') else c == sep

-- LF behind a CR that has ended the field.
unfoldable pub after_end : ℕ → List ℕ → List ℕ
after_end c [] = []
after_end c (d ∷ s) = if c == b'\r' && d == b'\n' then s else d ∷ s

-- The loop up to the separator or the end of the line; what is skipped is no part of the field.
unfoldable pub csv_plain : ℕ → Bool → List ℕ → List ℕ → List ℕ × List ℕ
unfolding after_end
csv_plain sep skip field [] = (field, [])
csv_plain sep skip field (c ∷ s) =
    let further = csv_plain sep skip (if skip then field else field ++ c ∷ []) s in
    if is_separator sep c || is_eol c then (field, after_end c s) else further

-- A field that was not closed leaves the cursor NULL: `none`.
unfoldable pub csv_end : ℕ → Bool × List ℕ × List ℕ → List ℕ × Option (List ℕ)
unfolding csv_plain
csv_end sep (false, field, rest) = (field, none)
csv_end sep (true, field, rest) =
    let (field', rest') = csv_plain sep true field rest in (field', some rest')

abbrev pub plain_end : List ℕ × List ℕ → List ℕ × Option (List ℕ)
plain_end (field, rest) = (field, some rest)

-- The field and the cursor; `field` is what aField holds when a quoted field is continued.
unfoldable pub next_csv_field : ℕ → Bool → List ℕ → List ℕ → Option (List ℕ × Option (List ℕ))
unfolding csv_quoted csv_plain csv_end
next_csv_field sep continue_quoted field [] = none
next_csv_field sep continue_quoted field (c ∷ s) =
    if continue_quoted
    then some (csv_end sep (csv_quoted field (c ∷ s)))
    else if c == b'"'
    then some (csv_end sep (csv_quoted [] s))
    else some (plain_end (csv_plain sep false [] (c ∷ s)))
