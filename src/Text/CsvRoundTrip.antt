-- ===== src/Text/CsvRoundTrip.antt =====
-- Fields of a CSV line, as RFC 4180 writes them, read by nextCSVField (utils.cpp).
use p44utils.Prelude.{
  All, some, Bool-cases, ==_iff, inl, inr, sym, ap, ◌∙◌, append_assoc, ◌||◌, ℕ, ◌≡◌, ◌≢◌, refl,
  Bool, true, false, List, [], ◌∷◌, ◌++◌, ◌==◌, if◌then◌else◌, arith, append-nil,
}
use p44utils.Text.Chars.{is_eol}
use p44utils.Text.Csv.{
  next_csv_field, csv_end, plain_end, csv_quoted, csv_plain, is_separator, after_end,
}

-- A field with its quotes doubled.
abbrev pub doubled : List ℕ → List ℕ
doubled [] = []
doubled (c ∷ f) = if c == b'"' then b'"' ∷ b'"' ∷ doubled f else c ∷ doubled f

-- The field in quotes.
abbrev pub quoted_field : List ℕ → List ℕ
quoted_field f = b'"' ∷ (doubled f ++ b'"' ∷ [])

-- What ends a field: the end of the text, a separator, or a line end, with what comes behind it.
pub data Ending : Type 0 where
  at_end : Ending
  separated : ℕ → List ℕ → Ending
  lf cr_lf : List ℕ → Ending

abbrev pub ending_text : Ending → List ℕ
ending_text at_end = []
ending_text (separated c rest) = c ∷ rest
ending_text (lf rest) = b'\n' ∷ rest
ending_text (cr_lf rest) = b'\r' ∷ b'\n' ∷ rest

abbrev pub behind_ending : Ending → List ℕ
behind_ending at_end = []
behind_ending (separated c rest) = rest
behind_ending (lf rest) = rest
behind_ending (cr_lf rest) = rest

-- The separator of the call, which is no quote and no line end.
abbrev pub IsEnding : ℕ → Ending → Type 0
IsEnding sep at_end = Unit {0}
IsEnding sep (separated c rest) = (is_separator sep c ≡ true) × (c ≢ b'"') × (c ≢ b'\r')
IsEnding sep (lf rest) = Unit {0}
IsEnding sep (cr_lf rest) = Unit {0}

csv_quoted_plain :
    (field : List ℕ) (c : ℕ) (s : List ℕ)
    → (c == b'"') ≡ false
    → csv_quoted field (c ∷ s) ≡ csv_quoted (field ++ c ∷ []) s
unfolding csv_quoted
csv_quoted_plain field c [] h = rw h refl
csv_quoted_plain field c (d ∷ s) h = rw h refl

csv_quoted_close :
    (sep : ℕ) (field : List ℕ) (e : Ending)
    → IsEnding sep e
    → csv_quoted field (b'"' ∷ ending_text e) ≡ (true, field, ending_text e)
unfolding csv_quoted
csv_quoted_close sep field at_end h = refl
csv_quoted_close sep field (separated c rest) h = ground arith
csv_quoted_close sep field (lf rest) h = refl
csv_quoted_close sep field (cr_lf rest) h = refl

csv_quoted-doubled :
    (sep : ℕ) (f field : List ℕ) (e : Ending)
    → IsEnding sep e
    → csv_quoted field (doubled f ++ b'"' ∷ ending_text e) ≡ (true, field ++ f, ending_text e)
unfolding csv_quoted
csv_quoted-doubled sep [] field e h = rw (append-nil field) (csv_quoted_close sep field e h)
csv_quoted-doubled sep (c ∷ f) field e h = elim (Bool-cases (c == b'"')) [
  | inl q ↦
      let same : b'"' ≡ c = sym ((==_iff c b'"').0 q) in
      rw q (
        csv_quoted-doubled sep f (field ++ b'"' ∷ []) e h
        ∙ ap (λ (l : List ℕ). (true, l, ending_text e)) (append_assoc field (b'"' ∷ []) f)
        ∙ ap (λ (x : ℕ). (true, field ++ x ∷ f, ending_text e)) same)
  | inr n ↦ rw n (
      csv_quoted_plain field c (doubled f ++ b'"' ∷ ending_text e) n
      ∙ csv_quoted-doubled sep f (field ++ c ∷ []) e h
      ∙ ap (λ (l : List ℕ). (true, l, ending_text e)) (append_assoc field (c ∷ []) f))
]

or_true : (b : Bool) → (b || true) ≡ true
or_true true = refl
or_true false = refl

csv_plain_end :
    (sep : ℕ) (skip : Bool) (field : List ℕ) (e : Ending)
    → IsEnding sep e
    → csv_plain sep skip field (ending_text e) ≡ (field, behind_ending e)
unfolding csv_plain after_end
csv_plain_end sep skip field at_end h = refl
csv_plain_end sep skip field (separated c []) h = ground arith
csv_plain_end sep skip field (separated c (d ∷ rest)) h = ground arith
csv_plain_end sep skip field (lf []) h = rw (or_true (is_separator sep b'\n')) refl
csv_plain_end sep skip field (lf (d ∷ rest)) h = rw (or_true (is_separator sep b'\n')) refl
csv_plain_end sep skip field (cr_lf rest) h = rw (or_true (is_separator sep b'\r')) refl

-- A character of a field that needs no quotes.
abbrev pub IsPlain : ℕ → ℕ → Type 0
IsPlain sep c = (is_separator sep c ≡ false) × (is_eol c ≡ false) × (c ≢ b'"')

csv_plain-append :
    (sep : ℕ) (f field : List ℕ) (e : Ending)
    → All (IsPlain sep) f
    → IsEnding sep e
    → csv_plain sep false field (f ++ ending_text e) ≡ (field ++ f, behind_ending e)
unfolding csv_plain
csv_plain-append sep [] field e p h =
    csv_plain_end sep false field e h
    ∙ ap (λ (l : List ℕ). (l, behind_ending e)) (sym (append-nil field))
csv_plain-append sep (c ∷ f) field e p h =
    rw (p.0.0, p.0.1)
      (csv_plain-append sep f (field ++ c ∷ []) e p.1 h
        ∙ ap (λ (l : List ℕ). (l, behind_ending e)) (append_assoc field (c ∷ []) f))

-- nextCSVField reads back any text that was put in double quotes with its own ones doubled,
-- whatever the field held before, and goes on behind the end of the field: the end of the text, a
-- separator of the call that is no quote and no CR, or a line end.
pub next_csv_field-quoted_field :
    (sep : ℕ) (before f : List ℕ) (e : Ending)
    → IsEnding sep e
    → next_csv_field sep false before (quoted_field f ++ ending_text e)
      ≡ some (f, some (behind_ending e))
unfolding next_csv_field csv_end
next_csv_field-quoted_field sep before f e h =
    ap (λ (l : List ℕ). some (csv_end sep (csv_quoted [] l)))
      (append_assoc (doubled f) (b'"' ∷ []) (ending_text e))
    ∙ ap (λ (x : Bool × List ℕ × List ℕ). some (csv_end sep x)) (csv_quoted-doubled sep f [] e h)
    ∙ ap (λ (x : List ℕ × List ℕ). some (x.0, some x.1)) (csv_plain_end sep true f e h)

-- nextCSVField reads a field that is not quoted as it stands, and goes on behind its end: for a
-- field that is not empty, starts with no quote and has no character that ends a field in it.
pub next_csv_field_plain :
    (sep c : ℕ) (before f : List ℕ) (e : Ending)
    → All (IsPlain sep) (c ∷ f)
    → IsEnding sep e
    → next_csv_field sep false before (c ∷ (f ++ ending_text e))
      ≡ some (c ∷ f, some (behind_ending e))
unfolding next_csv_field
next_csv_field_plain sep c before f e p h =
    let no_quote : (c == b'"') ≡ false = ground (arith, p.0.2) in
    rw no_quote
      (ap (λ (x : List ℕ × List ℕ). some (plain_end x)) (csv_plain-append sep (c ∷ f) [] e p h))
