-- ===== src/Script/StringChars.antt =====
-- A character that cstringQuote puts out (utils.cpp), in the loop of parseStringLiteral
-- (p44script.cpp).
use p44utils.Text.Quote.{hex_lower, cstring_char, is_control}
use p44utils.Prelude.{
  true, Bool, false, some, arith, ◌+◌, get_or, ◌==◌, ◌<◌, ◌∙◌, ◌/◌, ◌%◌, ◌*◌, ap, if_both, if_split,
  ◌||◌, suc, ℕ, ◌≡◌, refl, List, [], ◌∷◌, ◌++◌, Option,
}
use p44utils.Script.Cursor.{char_at, next, Cursor, over, is_eot}
use p44utils.Script.Literals.{escape, string_char, string_loop}

-- What is left behind a character.
pub next-rest :
    (x : ℕ) (t : List ℕ) (a : Cursor) → a.rest ≡ x ∷ t → (x == 0) ≡ false → (next a).1.rest ≡ t
unfolding next is_eot over
next-rest x t a e n = rw (e, n) (if_both (λ (b : Cursor). b.rest ≡ t) (x == b'\n') refl refl)

differs :
    (c d : ℕ)
    → (c == b'"' || c == b'\\') ≡ true
    → (d == b'"' || d == b'\\') ≡ false
    → (c == d) ≡ false
differs c d q r = ground arith

hex_lower-nonzero : (d : ℕ) → (hex_lower d == 0) ≡ false
hex_lower-nonzero d = ground arith

module _ (scan_hex : List ℕ → Option ℕ) where
  plain_step :
      (f : ℕ) (str : List ℕ) (c : ℕ) (t : List ℕ) (a : Cursor)
      → a.rest ≡ c ∷ t
      → (c == 0) ≡ false
      → (c == b'"') ≡ false
      → (c == b'\\') ≡ false
      → string_loop scan_hex (suc f) b'"' str a
        ≡ string_loop scan_hex f b'"' (str ++ c ∷ []) (next a).1
  unfolding string_loop string_char
  plain_step f str c t a e n q s = rw (e, n, q, s) refl

  escaped_step :
      (f : ℕ) (str : List ℕ) (c : ℕ) (t : List ℕ) (a : Cursor)
      → a.rest ≡ b'\\' ∷ c ∷ t
      → (c == 0) ≡ false
      → string_loop scan_hex (suc f) b'"' str a
        ≡ string_loop scan_hex f b'"'
            (str ++ (escape scan_hex (next a).1).0 ∷ [])
            (next (escape scan_hex (next a).1).1).1
  unfolding string_loop string_char
  escaped_step f str c t a e n = rw (e, n) refl

  -- sscanf with "%02x" reads two digits.
  abbrev pub ReadsDigits : Type 0
  ReadsDigits =
      (d e : ℕ) (t : List ℕ)
      → d < 16
      → e < 16
      → scan_hex (hex_lower d ∷ hex_lower e ∷ t) ≡ some (d * 16 + e)

  digits_escape :
      ReadsDigits
      → (c : ℕ) (t : List ℕ) (a : Cursor) → c < 256
      → a.rest ≡ b'x' ∷ hex_lower (c / 16) ∷ hex_lower (c % 16) ∷ t
      → ((escape scan_hex a).0 ≡ c) × ((escape scan_hex a).1.rest ≡ hex_lower (c % 16) ∷ t)
  unfolding escape
  digits_escape reads c t a b e =
      rw (e, reads (c / 16) (c % 16) t (omega arith) (omega arith))
        (
          omega arith,
          next-rest (hex_lower (c / 16)) (hex_lower (c % 16) ∷ t) _ refl
              (hex_lower-nonzero (c / 16)),
        )

  -- What one round does where `c` is written at the cursor `a`, and `t` behind it.
  pub record ReadsChar (f : ℕ) (str : List ℕ) (c : ℕ) (t : List ℕ) (a : Cursor) : Type 0 where
    pub at : Cursor
    pub goes_on :
        string_loop scan_hex (suc f) b'"' str a ≡ string_loop scan_hex f b'"' (str ++ c ∷ []) at
    pub left : at.rest ≡ t

  escaped_char :
      (f : ℕ) (str : List ℕ) (c e : ℕ) (t u : List ℕ) (a : Cursor)
      → a.rest ≡ b'\\' ∷ e ∷ u
      → (e == 0) ≡ false
      → (escape scan_hex (next a).1).0 ≡ c
      → (next (escape scan_hex (next a).1).1).1.rest ≡ t
      → ReadsChar f str c t a
  escaped_char f str c e t u a h n v r = record {
    at = (next (escape scan_hex (next a).1).1).1;
    goes_on =
        escaped_step f str e u a h n
        ∙ ap
            (λ (w : ℕ).
              string_loop scan_hex f b'"' (str ++ w ∷ []) (next (escape scan_hex (next a).1).1).1)
            v;
    left = r;
  }

  -- A letter behind a backslash.
  letter_char :
      (f : ℕ) (str : List ℕ) (c e : ℕ) (t : List ℕ) (a : Cursor)
      → a.rest ≡ b'\\' ∷ e ∷ t
      → (e == 0) ≡ false
      → ((b : Cursor) → char_at 0 b ≡ e → escape scan_hex b ≡ (c, b))
      → ReadsChar f str c t a
  letter_char f str c e t a h n v =
      let b = (next a).1 in
      let left = next-rest b'\\' (e ∷ t) a h refl in
      let w = v b (ap (λ (l : List ℕ). get_or l 0 0) left) in
      escaped_char f str c e t t a h n (ap (λ (r : ℕ × Cursor). r.0) w)
        (ap (λ (r : ℕ × Cursor). (next r.1).1.rest) w ∙ next-rest e t b left n)

  control_char :
      ReadsDigits
      → (f : ℕ) (str : List ℕ) (c : ℕ) (t : List ℕ) (a : Cursor) → c < 256
      → a.rest ≡ b'\\' ∷ b'x' ∷ hex_lower (c / 16) ∷ hex_lower (c % 16) ∷ t
      → ReadsChar f str c t a
  control_char reads f str c t a b h =
      let u = hex_lower (c / 16) ∷ hex_lower (c % 16) ∷ t in
      let (v, r) = digits_escape reads c t (next a).1 b (next-rest b'\\' (b'x' ∷ u) a h refl) in
      escaped_char f str c b'x' t u a h refl v (
        next-rest (hex_lower (c % 16)) t (escape scan_hex (next a).1).1 r
          (hex_lower-nonzero (c % 16)))

  plain_char :
      (f : ℕ) (str : List ℕ) (c : ℕ) (t : List ℕ) (a : Cursor)
      → a.rest ≡ c ∷ t
      → (c == 0) ≡ false
      → ((c == b'"') || (c == b'\\')) ≡ false
      → ReadsChar f str c t a
  plain_char f str c t a h n q = record {
    at = (next a).1;
    goes_on = plain_step f str c t a h n (ground arith) (ground arith);
    left = next-rest c t a h n;
  }

  itself :
      (c : ℕ) (b : Cursor)
      → (c == b'"' || c == b'\\') ≡ true
      → char_at 0 b ≡ c
      → escape scan_hex b ≡ (c, b)
  unfolding escape
  itself c b q e =
      rw
        (
          e,
          differs c b'n' q refl,
          differs c b'r' q refl,
          differs c b't' q refl,
          differs c b'x' q refl,
        )
        refl

  escape_n : (b : Cursor) → char_at 0 b ≡ b'n' → escape scan_hex b ≡ (b'\n', b)
  unfolding escape
  escape_n b e = rw e refl

  escape_r : (b : Cursor) → char_at 0 b ≡ b'r' → escape scan_hex b ≡ (b'\r', b)
  unfolding escape
  escape_r b e = rw e refl

  escape_t : (b : Cursor) → char_at 0 b ≡ b't' → escape scan_hex b ≡ (b'\t', b)
  unfolding escape
  escape_t b e = rw e refl

  -- A letter that stands for a control character.
  named_char :
      (f : ℕ) (str : List ℕ) (c k e : ℕ) (t : List ℕ) (a : Cursor)
      → a.rest ≡ b'\\' ∷ e ∷ t
      → (e == 0) ≡ false
      → (c == k) ≡ true
      → ((b : Cursor) → char_at 0 b ≡ e → escape scan_hex b ≡ (k, b))
      → ReadsChar f str c t a
  named_char f str c k e t a h n m v =
      letter_char f str c e t a h n (λ b i. v b i ∙ ap (λ (w : ℕ). (w, b)) (ground arith))

  module _ (char_is_signed : Bool) where
    pub cstring_char-ReadsChar :
        ReadsDigits
        → (f : ℕ) (str : List ℕ) (c : ℕ) (t : List ℕ) (a : Cursor) → c < 256
        → (c == 0) ≡ false
        → a.rest ≡ cstring_char char_is_signed c ++ t
        → ReadsChar f str c t a
    unfolding cstring_char
    cstring_char-ReadsChar reads f str c t a b n =
        let P = λ (l : List ℕ). a.rest ≡ l ++ t → ReadsChar f str c t a in
        if_split P (c == b'"' || c == b'\\')
          (λ q h. letter_char f str c c t a h n (λ b e. itself c b q e))
          (λ q.
            if_split P (c == b'\n') (λ e h. named_char f str c b'\n' b'n' t a h refl e escape_n)
              (λ m.
                if_split P (c == b'\r') (λ e h. named_char f str c b'\r' b'r' t a h refl e escape_r)
                  (λ m.
                    if_split P (c == b'\t')
                      (λ e h. named_char f str c b'\t' b't' t a h refl e escape_t)
                      (λ m.
                        if_both P (is_control char_is_signed c)
                          (λ h. control_char reads f str c t a b h)
                          (λ h. plain_char f str c t a h n q)))))
