-- ===== src/Script/StringRoundTrip.antt =====
-- A text that cstringQuote quotes (utils.cpp) and parseStringLiteral reads (p44script.cpp).
use p44utils.Text.Quote.{cstring_char, cstring_quoted, cstring_quote, is_control}
use p44utils.Prelude.{
  append-nil, Bool, false, some, arith, get_or, if◌then◌else◌, ◌==◌, not, ◌<◌, ◌∙◌, ap, if_both,
  All, length, append_assoc, length-append, ◌≤◌, ◌&&◌, ◌||◌, suc, zero, ℕ, ◌≡◌, refl, List, [], ◌∷◌,
  ◌++◌, Option,
}
use p44utils.Script.Cursor.{char_at, next, Cursor}
use p44utils.Script.Literals.{invalid, text, parse_string_literal, string_loop}
use p44utils.Script.StringChars.{ReadsDigits, cstring_char-ReadsChar, next-rest}

module _ (scan_hex : List ℕ → Option ℕ) where
  opening :
      (cur : Cursor)
      → char_at 0 cur ≡ b'"'
      → parse_string_literal scan_hex cur
        ≡ string_loop scan_hex (suc (length cur.rest)) b'"' [] (next cur).1
  unfolding parse_string_literal
  opening cur e =
      ap
        (λ (d : ℕ).
          if not (d == b'"') && not (d == b'\'')
          then some (invalid, cur)
          else string_loop scan_hex (suc (length cur.rest)) d [] (next cur).1)
        e

  module _ (char_is_signed : Bool) where
    string_loop-cstring_quoted :
        ReadsDigits scan_hex
        → (s rest str : List ℕ) (f : ℕ) (a : Cursor)
        → All (λ (c : ℕ). (c < 256) × ((c == 0) ≡ false)) s
        → length s < f
        → a.rest ≡ cstring_quoted char_is_signed s ++ b'"' ∷ rest
        → (at : Cursor) × (string_loop scan_hex f b'"' str a ≡ some (text (str ++ s), at))
          × (at.rest ≡ rest)
    unfolding cstring_quoted string_loop
    string_loop-cstring_quoted reads s rest str zero a bytes h e = absurd (omega arith)
    string_loop-cstring_quoted reads [] rest str (suc f) a bytes h e =
        ((next a).1, rw (e, append-nil str) refl, next-rest b'"' rest a e refl)
    string_loop-cstring_quoted reads (c ∷ s) rest str (suc f) a bytes h e =
        let left = cstring_quoted char_is_signed s ++ b'"' ∷ rest in
        let r =
          cstring_char-ReadsChar scan_hex char_is_signed reads f str c left a bytes.0.0 bytes.0.1 (
            e
            ∙ append_assoc (cstring_char char_is_signed c) (cstring_quoted char_is_signed s)
                (b'"' ∷ rest)) in
        let (at, g, l) =
          string_loop-cstring_quoted reads s rest (str ++ c ∷ []) f r.at bytes.1 (omega (arith, h))
            r.left in
        (
          at,
          r.goes_on ∙ g ∙ ap (λ (w : List ℕ). some (text w, at)) (append_assoc str (c ∷ []) s),
          l,
        )

    length-cstring_char : (c : ℕ) → 1 ≤ length (cstring_char char_is_signed c)
    unfolding cstring_char
    length-cstring_char c =
        let P = λ (l : List ℕ). 1 ≤ length l in
        if_both P (c == b'"' || c == b'\\') (omega arith) (
          if_both P (c == b'\n') (omega arith) (
            if_both P (c == b'\r') (omega arith) (
              if_both P (c == b'\t') (omega arith)
                (if_both P (is_control char_is_signed c) (omega arith) (omega arith)))))

    length-cstring_quoted : (s : List ℕ) → length s ≤ length (cstring_quoted char_is_signed s)
    unfolding cstring_quoted
    length-cstring_quoted [] = omega arith
    length-cstring_quoted (c ∷ s) = omega (
      arith,
      length-cstring_char c,
      length-cstring_quoted s,
      length-append (cstring_char char_is_signed c) (cstring_quoted char_is_signed s),
    )

    -- A text that cstringQuote quotes is read back by parseStringLiteral, control characters and
    -- quotes included, and the cursor ends behind the closing quote, whatever follows: for texts
    -- of bytes from 1 to 255, a char that is signed or not, and an sscanf that reads two lower
    -- case digits.
    pub parse_string_literal-cstring_quote :
        ReadsDigits scan_hex
        → (s rest : List ℕ) (cur : Cursor) → All (λ (c : ℕ). (c < 256) × ((c == 0) ≡ false)) s
        → cur.rest ≡ cstring_quote char_is_signed s ++ rest
        → (at : Cursor) × (parse_string_literal scan_hex cur ≡ some (text s, at)) × (at.rest ≡ rest)
    unfolding cstring_quote
    parse_string_literal-cstring_quote reads s rest cur bytes e =
        let delimiter = ap (λ (l : List ℕ). get_or l 0 0) e in
        let quoted = cstring_quoted char_is_signed s in
        let behind_quote = append_assoc quoted (b'"' ∷ []) rest in
        let (at, g, l) =
          string_loop-cstring_quoted reads s rest [] (suc (length cur.rest)) (next cur).1 bytes
            (omega (
              arith,
              ap (λ (l : List ℕ). length l) e,
              length-cstring_quoted s,
              length-append (quoted ++ b'"' ∷ []) rest,
              length-append quoted (b'"' ∷ []),
            ))
            (next-rest b'"' ((quoted ++ b'"' ∷ []) ++ rest) cur e refl ∙ behind_quote) in
        (at, opening cur delimiter ∙ g, l)
