-- ===== src/Script/Walk.antt =====
-- How the source cursor moves: over the text, counting lines and columns (p44script.cpp).
use p44utils.Prelude.{
  ◌||◌, ℕ, zero, suc, ◌+◌, ◌≡◌, refl, sym, ap, ◌∙◌, Bool, List, [], ◌∷◌, ◌++◌, length,
  length-append, append_assoc, ◌==◌, if◌then◌else◌, arith, if_both, Bool-cases, inl, inr,
}
use p44utils.Script.Cursor.{
  is_eot, over, block_comment, before_star, skip_white_space, is_white_space, skip_rounds,
  in_line_comment, starts_line_comment, starts_block_comment, skip_non_code, Cursor, char_at,
  behind, next, advance, next_while,
}

abbrev pub newlines : List ℕ → ℕ
newlines [] = 0
newlines (c ∷ s) = (if c == b'\n' then 1 else 0) + newlines s

-- The column behind a text that starts at column `k`.
abbrev pub column_behind : ℕ → List ℕ → ℕ
column_behind k [] = k
column_behind k (c ∷ s) = column_behind (if c == b'\n' then 0 else k + 1) s

-- From one position to another that is further on: the text between, and the counts that follow it.
pub record Walked (a b : Cursor) : Type 0 where
  pub passed : List ℕ
  pub splits : a.rest ≡ passed ++ b.rest
  pub offset : b.offset ≡ a.offset + length passed
  pub line : b.line ≡ a.line + newlines passed
  pub column : b.column ≡ column_behind a.column passed

newlines-append : (s t : List ℕ) → newlines (s ++ t) ≡ newlines s + newlines t
newlines-append [] t = omega arith
newlines-append (c ∷ s) t = omega (arith, newlines-append s t)

column_behind-append :
    (k : ℕ) (s t : List ℕ) → column_behind k (s ++ t) ≡ column_behind (column_behind k s) t
column_behind-append k [] t = refl
column_behind-append k (c ∷ s) t = column_behind-append (if c == b'\n' then 0 else k + 1) s t

pub Walked-here : (a : Cursor) → Walked a a
Walked-here a = record {
  passed = [];
  splits = refl;
  offset = omega arith;
  line = omega arith;
  column = refl;
}

pub walk_on : {a b c : Cursor} → Walked a b → Walked b c → Walked a c
walk_on {a} {b} {c} v w = record {
  passed = v.passed ++ w.passed;
  splits =
      v.splits
      ∙ ap (λ (l : List ℕ). v.passed ++ l) w.splits
      ∙ sym (append_assoc v.passed w.passed c.rest);
  offset = omega (arith, v.offset, w.offset, length-append v.passed w.passed);
  line = omega (arith, v.line, w.line, newlines-append v.passed w.passed);
  column =
      w.column
      ∙ ap (λ (k : ℕ). column_behind k w.passed) v.column
      ∙ sym (column_behind-append a.column v.passed w.passed);
}

behind-Walked :
    (c : ℕ) (rest : List ℕ) (a : Cursor) → a.rest ≡ c ∷ rest → Walked a (behind c rest a)
behind-Walked c rest a e = elim (Bool-cases (c == b'\n')) [
  | inl n ↦ rw n (record {
    passed = c ∷ [];
    splits = e;
    offset = refl;
    line = ground arith;
    column = ground arith;
  })
  | inr n ↦ rw n (record {
    passed = c ∷ [];
    splits = e;
    offset = refl;
    line = ground arith;
    column = ground arith;
  })
]

over-Walked : (l : List ℕ) (a : Cursor) → a.rest ≡ l → Walked a (over l a)
unfolding over
over-Walked [] a e = Walked-here a
over-Walked (c ∷ rest) a e = behind-Walked c rest a e

pub next-Walked : (a : Cursor) → Walked a (next a).1
unfolding next
next-Walked a =
    if_both (λ (r : Bool × Cursor). Walked a r.1) (is_eot a) (Walked-here a)
      (over-Walked a.rest a refl)

pub advance-Walked : (n : ℕ) (a : Cursor) → Walked a (advance n a).1
unfolding advance
advance-Walked zero a = Walked-here a
advance-Walked (suc n) a =
    if_both (λ (r : Bool × Cursor). Walked a r.1) (next a).0
      (walk_on (next-Walked a) (advance-Walked n (next a).1)) (next-Walked a)

pub next_while-Walked : (f : ℕ) (test : ℕ → Bool) (a : Cursor) → Walked a (next_while f test a)
unfolding next_while
next_while-Walked zero test a = Walked-here a
next_while-Walked (suc f) test a =
    if_both (Walked a) (test (char_at 0 a))
      (walk_on (next-Walked a) (next_while-Walked f test (next a).1)) (Walked-here a)

pub block_comment-Walked : (f : ℕ) (a : Cursor) → Walked a (block_comment f a)
unfolding block_comment
block_comment-Walked zero a = Walked-here a
block_comment-Walked (suc f) a =
    let star = next_while (length a.rest) before_star a in
    let to_star = next_while-Walked (length a.rest) before_star a in
    if_both (Walked a) (char_at 0 a == 0) (Walked-here a) (
      if_both (Walked a) (char_at 1 star == b'/') (walk_on to_star (advance-Walked 2 star))
        (walk_on to_star (walk_on (next-Walked star) (block_comment-Walked f (next star).1))))

skip_rounds-Walked : (f : ℕ) (a : Cursor) → Walked a (skip_rounds f a)
unfolding skip_rounds skip_white_space
skip_rounds-Walked zero a = Walked-here a
skip_rounds-Walked (suc f) a =
    let at = skip_white_space a in
    let inside = (advance 2 at).1 in
    let comment =
      if_both (Walked inside) (starts_line_comment at)
        (next_while-Walked (length inside.rest) in_line_comment inside)
        (block_comment-Walked (length inside.rest) inside) in
    let to_code = next_while-Walked (length a.rest) is_white_space a in
    if_both (Walked a) (starts_line_comment at || starts_block_comment at)
      (walk_on to_code (walk_on (advance-Walked 2 at) (walk_on comment (skip_rounds-Walked f _))))
      to_code

pub skip_non_code-Walked : (a : Cursor) → Walked a (skip_non_code a)
unfolding skip_non_code
skip_non_code-Walked a = skip_rounds-Walked (suc (length a.rest)) a
