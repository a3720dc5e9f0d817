-- ===== src/Script/AtCode.antt =====
-- Where skipNonCode and its loops stop (p44script.cpp).
use p44utils.Prelude.{
  ℕ, zero, suc, ◌≤◌, ◌<◌, ◌≡◌, refl, ap, ◌∙◌, Bool, true, false, ◌||◌, List, [], ◌∷◌, length,
  get_or, ◌==◌, arith, if_both, if_split,
}
use p44utils.Script.Cursor.{
  skip_rounds, skip_non_code, in_line_comment, skip_white_space, advance, Cursor, char_at, next,
  next_while, is_white_space, starts_line_comment, starts_block_comment,
}
use p44utils.Script.Walk.{skip_non_code-Walked, block_comment-Walked, Walked, next_while-Walked}
use p44utils.Script.Ends.{Walked-shorter, next-shorter, advance_shorter}

pub nothing_left : (l : List ℕ) → length l ≤ 0 → get_or l 0 0 ≡ 0
nothing_left [] h = refl
nothing_left (c ∷ s) h = absurd (omega arith)

passes-nonzero : (test : ℕ → Bool) (c : ℕ) → test 0 ≡ false → test c ≡ true → (c == 0) ≡ false
passes-nonzero test zero z t = cc
passes-nonzero test (suc c) z t = ground arith

pub next_while_stops :
    (f : ℕ) (test : ℕ → Bool) (a : Cursor)
    → length a.rest ≤ f
    → test 0 ≡ false
    → test (char_at 0 (next_while f test a)) ≡ false
unfolding next_while
next_while_stops zero test a h z = ap test (nothing_left a.rest h) ∙ z
next_while_stops (suc f) test a h z =
    if_split (λ (b : Cursor). test (char_at 0 b) ≡ false) (test (char_at 0 a))
      (λ t.
        next_while_stops f test (next a).1
          (omega (arith, next-shorter a (passes-nonzero test (char_at 0 a) z t))) z)
      (λ t. t)

-- Neither white space nor the start of a comment.
pub record AtCode (a : Cursor) : Type 0 where
  pub no_white_space : is_white_space (char_at 0 a) ≡ false
  pub no_comment : (starts_line_comment a || starts_block_comment a) ≡ false

skip_rounds-AtCode : (f : ℕ) (a : Cursor) → length a.rest < f → AtCode (skip_rounds f a)
unfolding skip_rounds skip_white_space
skip_rounds-AtCode zero a h = absurd (omega arith)
skip_rounds-AtCode (suc f) a h =
    let at = skip_white_space a in
    let inside = (advance 2 at).1 in
    let comment =
      if_both (Walked inside) (starts_line_comment at)
        (next_while-Walked (length inside.rest) in_line_comment inside)
        (block_comment-Walked (length inside.rest) inside) in
    let to_code = next_while-Walked (length a.rest) is_white_space a in
    if_split AtCode (starts_line_comment at || starts_block_comment at)
      (λ c. skip_rounds-AtCode f _ (
        omega (
          arith,
          h,
          Walked-shorter to_code,
          advance_shorter 1 at (ground arith),
          Walked-shorter comment,
        )))
      (λ c. record {
        no_white_space = next_while_stops (length a.rest) is_white_space a (omega arith) refl;
        no_comment = c;
      })

pub skip_non_code-AtCode : (a : Cursor) → Walked a (skip_non_code a) × AtCode (skip_non_code a)
unfolding skip_non_code
skip_non_code-AtCode a =
    (skip_non_code-Walked a, skip_rounds-AtCode (suc (length a.rest)) a (omega arith))
