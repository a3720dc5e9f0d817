-- ===== src/Script/Ends.antt =====
-- Parsing a string literal: that it ends, and where the cursor is then (p44script.cpp).
use p44utils.Script.Literals.{
  string_char, Literal, text, invalid, unterminated, incomplete, hex_escape, escape, string_loop,
  parse_string_literal,
}
use p44utils.Prelude.{
  Bool, if_split, suc, ◌≤◌, ◌<◌, ◌≡◌, refl, ap, false, List, [], ◌∷◌, length, get_or, length-append,
  ◌==◌, arith, if_both, Option, none, some, not, ◌&&◌, zero, ◌++◌, ℕ,
}
use p44utils.Script.Cursor.{next, advance, Cursor, char_at, is_eot, over}
use p44utils.Script.Walk.{next-Walked, Walked-here, Walked, walk_on, advance-Walked}

pub Walked-shorter : {a b : Cursor} → Walked a b → length b.rest ≤ length a.rest
Walked-shorter {a} {b} w =
    omega (arith, ap (λ (l : List ℕ). length l) w.splits, length-append w.passed b.rest)

over-shorter :
    (l : List ℕ) (a : Cursor)
    → a.rest ≡ l
    → ((char_at 0 a == 0) ≡ false)
    → length (over l a).rest < length l
unfolding over
over-shorter [] a e n = ground (arith, ap (λ (m : List ℕ). get_or m 0 0) e)
over-shorter (c ∷ s) a e n =
    if_both (λ (b : Cursor). length b.rest < length (c ∷ s)) (c == b'\n') (omega arith)
      (omega arith)

pub next-shorter :
    (a : Cursor) → ((char_at 0 a == 0) ≡ false) → length (next a).1.rest < length a.rest
unfolding next is_eot
next-shorter a n = rw n (over-shorter a.rest a refl n)

-- A literal or a syntax error, and where the cursor is then.
pub record Ends (cur : Cursor) (r : Option (Literal × Cursor)) : Type 0 where
  pub literal : Literal
  pub at : Cursor
  pub result : r ≡ some (literal, at)
  pub walked : Walked cur at

abbrev ends_later :
    {a b : Cursor} {r : Option (Literal × Cursor)} → Walked a b → Ends b r → Ends a r
ends_later w e = record {
  literal = e.literal;
  at = e.at;
  result = e.result;
  walked = walk_on w e.walked;
}

abbrev ends_here : (l : Literal) {a b : Cursor} → Walked a b → Ends a (some (l, b))
ends_here l {a} {b} w = record { literal = l; at = b; result = refl; walked = w }

pub advance_shorter :
    (n : ℕ) (a : Cursor)
    → ((char_at 0 a == 0) ≡ false)
    → length (advance (suc n) a).1.rest < length a.rest
unfolding advance
advance_shorter n a z =
    if_both (λ (r : Bool × Cursor). length r.1.rest < length a.rest) (next a).0
      (omega (arith, next-shorter a z, Walked-shorter (advance-Walked n (next a).1)))
      (next-shorter a z)

module _ (scan_hex : List ℕ → Option ℕ) where
  hex_escape-Walked : (h : Option ℕ) (cur : Cursor) → Walked cur (hex_escape scan_hex h cur).1
  hex_escape-Walked none cur = Walked-here cur
  hex_escape-Walked (some h) cur = next-Walked cur

  escape-Walked : (cur : Cursor) → Walked cur (escape scan_hex cur).1
  unfolding escape
  escape-Walked cur =
      let sc = char_at 0 cur in
      let P = λ (r : ℕ × Cursor). Walked cur r.1 in
      if_both P (sc == b'n') (Walked-here cur) (
        if_both P (sc == b'r') (Walked-here cur) (
          if_both P (sc == b't') (Walked-here cur) (
            if_both P (sc == b'x')
              (walk_on (next-Walked cur)
                (hex_escape-Walked (scan_hex (next cur).1.rest) (next cur).1))
              (Walked-here cur))))

  string_char-Walked :
      (delimiter : ℕ) (cur : Cursor) → Walked cur (string_char scan_hex delimiter cur).1
  unfolding string_char
  string_char-Walked delimiter cur =
      let sc = char_at 0 cur in
      let at = (escape scan_hex (next cur).1).1 in
      let P = λ (r : ℕ × Cursor). Walked cur r.1 in
      if_both P (sc == delimiter) (advance-Walked 2 cur) (
        if_both P (not (delimiter == b'\'') && sc == b'\\')
          (walk_on (next-Walked cur) (walk_on (escape-Walked (next cur).1) (next-Walked at)))
          (next-Walked cur))

  -- What comes behind a character is shorter.
  on-shorter :
      (cur at : Cursor)
      → ((char_at 0 cur == 0) ≡ false)
      → Walked (next cur).1 at
      → length at.rest < length cur.rest
  on-shorter cur at n w = omega (arith, next-shorter cur n, Walked-shorter w)

  string_char-shorter :
      (delimiter : ℕ) (cur : Cursor)
      → ((char_at 0 cur == 0) ≡ false)
      → length (string_char scan_hex delimiter cur).1.rest < length cur.rest
  unfolding string_char
  string_char-shorter delimiter cur n =
      let sc = char_at 0 cur in
      let at = (escape scan_hex (next cur).1).1 in
      let P = λ (r : ℕ × Cursor). length r.1.rest < length cur.rest in
      if_both P (sc == delimiter) (advance_shorter 1 cur n) (
        if_both P (not (delimiter == b'\'') && sc == b'\\')
          (on-shorter cur (next at).1 n (walk_on (escape-Walked (next cur).1) (next-Walked at)))
          (next-shorter cur n))

  string_loop-Ends :
      (f delimiter : ℕ) (str : List ℕ) (cur : Cursor)
      → length cur.rest < f
      → ((delimiter == 0) ≡ false)
      → Ends cur (string_loop scan_hex f delimiter str cur)
  unfolding string_loop
  string_loop-Ends zero delimiter str cur h d = absurd (omega arith)
  string_loop-Ends (suc f) delimiter str cur h d =
      let sc = char_at 0 cur in
      let on = string_char scan_hex delimiter cur in
      let further = λ (n : (char_at 0 cur == 0) ≡ false).
        ends_later (string_char-Walked delimiter cur) (
          string_loop-Ends f delimiter (str ++ on.0 ∷ []) on.1
            (omega (arith, string_char-shorter delimiter cur n, h)) d) in
      if_split (Ends cur) (sc == delimiter)
        (λ closes.
          if_both (Ends cur) (delimiter == b'\'' && char_at 1 cur == delimiter)
            (further (ground arith)) (ends_here (text str) (next-Walked cur)))
        (λ closes.
          if_split (Ends cur) (sc == 0) (λ z. ends_here unterminated (Walked-here cur))
            (λ n.
              if_both (Ends cur)
                ((not (delimiter == b'\'') && sc == b'\\') && char_at 0 (next cur).1 == 0)
                (ends_here incomplete (next-Walked cur)) (further n)))

  -- parseStringLiteral ends on every text, with a string or one of its syntax errors; the cursor
  -- only moves forward, and its line, column and offset count the text that it passed.
  pub parse_string_literal-Ends : (cur : Cursor) → Ends cur (parse_string_literal scan_hex cur)
  unfolding parse_string_literal
  parse_string_literal-Ends cur =
      let delimiter = char_at 0 cur in
      if_split (Ends cur) (not (delimiter == b'"') && not (delimiter == b'\''))
        (λ wrong. ends_here invalid (Walked-here cur))
        (λ right. ends_later (next-Walked cur) (
          string_loop-Ends (suc (length cur.rest)) delimiter [] (next cur).1
            (omega (arith, Walked-shorter (next-Walked cur))) (ground arith)))
