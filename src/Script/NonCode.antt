-- ===== src/Script/NonCode.antt =====
-- What skipNonCode passes (p44script.cpp).
use mathlib.Core.Path.{subst}
use p44utils.Prelude.{
  false, get_or, ℕ, zero, suc, ◌≡◌, refl, sym, ap, ◌∙◌, true, ◌||◌, List, [], ◌∷◌, ◌++◌, length,
  append_assoc, arith, if_split, All,
}
use p44utils.Script.AtCode.{next_while_stops, AtCode, skip_non_code-AtCode}
use p44utils.Script.Cursor.{
  skip_non_code, Cursor, advance, next_while, is_white_space, skip_white_space, in_line_comment,
  block_comment, starts_line_comment, starts_block_comment, skip_rounds,
}
use p44utils.Script.Comments.{
  Inside, Passes, next_while-Passes, advance-Passes, block_comment-Passes,
}
use p44utils.Script.Walk.{Walked}

-- White space and comments, by the text that follows: a line comment reaches to the end of its line
-- or of the text, a block comment to its first end or to the end of the text.
pub data NonCode : List ℕ → List ℕ → Type 0 where
  nothing : {l : List ℕ} → NonCode [] l
  white : (c : ℕ) {s l : List ℕ} → is_white_space c ≡ true → NonCode s l → NonCode (c ∷ s) l
  line_comment :
      (body : List ℕ) {s l : List ℕ}
      → All (λ (c : ℕ). in_line_comment c ≡ true) body
      → in_line_comment (get_or (s ++ l) 0 0) ≡ false
      → NonCode s l
      → NonCode (b'/' ∷ b'/' ∷ (body ++ s)) l
  comment :
      (body : List ℕ) {s l : List ℕ}
      → Inside body (s ++ l)
      → NonCode s l
      → NonCode (b'/' ∷ b'*' ∷ (body ++ s)) l

white_first :
    (w : List ℕ) {s l : List ℕ}
    → All (λ (c : ℕ). is_white_space c ≡ true) w
    → NonCode s l
    → NonCode (w ++ s) l
white_first [] a n = n
white_first (c ∷ w) a n = white c a.0 (white_first w a.1 n)

white-Passes :
    {a at b : Cursor} (p : Passes (λ s l. All (λ (c : ℕ). is_white_space c ≡ true) s) a at)
    → Passes NonCode at b
    → Passes NonCode a b
white-Passes {a} {at} {b} p q = record {
  passed = p.passed ++ q.passed;
  splits =
      p.splits
      ∙ ap (λ (l : List ℕ). p.passed ++ l) q.splits
      ∙ sym (append_assoc p.passed q.passed b.rest);
  holds = white_first p.passed p.holds q.holds;
}

-- Behind the two characters that start a comment.
behind_start :
    (c d : ℕ) {P : List ℕ → List ℕ → Type 0} {inside end b : Cursor} (l : List ℕ)
    (p : Passes P inside end) (q : Passes NonCode end b)
    → l ≡ c ∷ d ∷ inside.rest
    → l ≡ c ∷ d ∷ ((p.passed ++ q.passed) ++ b.rest)
behind_start c d {P} {inside} {end} {b} l p q e =
    e
    ∙ ap (λ (m : List ℕ). c ∷ d ∷ m)
        (p.splits
          ∙ ap (λ (m : List ℕ). p.passed ++ m) q.splits
          ∙ sym (append_assoc p.passed q.passed b.rest))

line_comment-Passes :
    (at b : Cursor)
    → starts_line_comment at ≡ true
    → let inside = (advance 2 at).1 in
      Passes NonCode (next_while (length inside.rest) in_line_comment inside) b
      → Passes NonCode at b
line_comment-Passes at b h q =
    let inside = (advance 2 at).1 in
    let p = next_while-Passes (length inside.rest) in_line_comment inside in
    let stops = next_while_stops (length inside.rest) in_line_comment inside (omega arith) refl in
    let starts =
      advance-Passes b'/' b'/' at (ground (arith, h)) (ground (arith, h)) refl refl refl refl in
    record {
      passed = b'/' ∷ b'/' ∷ (p.passed ++ q.passed);
      splits = behind_start b'/' b'/' at.rest p q starts;
      holds =
          line_comment p.passed p.holds
            (ap (λ (l : List ℕ). in_line_comment (get_or l 0 0)) (sym q.splits) ∙ stops) q.holds;
    }

comment-Passes :
    (at b : Cursor)
    → starts_block_comment at ≡ true
    → let inside = (advance 2 at).1 in
      Passes NonCode (block_comment (length inside.rest) inside) b → Passes NonCode at b
comment-Passes at b h q =
    let inside = (advance 2 at).1 in
    let p = block_comment-Passes (length inside.rest) inside (omega arith) in
    let starts =
      advance-Passes b'/' b'*' at (ground (arith, h)) (ground (arith, h)) refl refl refl refl in
    record {
      passed = b'/' ∷ b'*' ∷ (p.passed ++ q.passed);
      splits = behind_start b'/' b'*' at.rest p q starts;
      holds = comment p.passed (subst (Inside p.passed) q.splits p.holds) q.holds;
    }

skip_rounds-Passes : (f : ℕ) (a : Cursor) → Passes NonCode a (skip_rounds f a)
unfolding skip_rounds skip_white_space
skip_rounds-Passes zero a = record { passed = []; splits = refl; holds = nothing }
skip_rounds-Passes (suc f) a =
    let at = skip_white_space a in
    let p = next_while-Passes (length a.rest) is_white_space a in
    if_split (Passes NonCode a) (starts_line_comment at || starts_block_comment at)
      (λ c. white-Passes p (
        if_split (λ (x : Cursor). Passes NonCode at (skip_rounds f x)) (starts_line_comment at)
          (λ line. line_comment-Passes at _ line (skip_rounds-Passes f _))
          (λ block. comment-Passes at _ (ground (arith, c, block)) (skip_rounds-Passes f _))))
      (λ c. white-Passes p (record { passed = []; splits = refl; holds = nothing }))

-- skipNonCode ends on every text; all that it passes is white space and comments, line comments up
-- to the end of the line or of the text, block comments up to their first end or the end of the
-- text, and where it stops there is neither white space nor the start of a comment; the line,
-- column and offset of the cursor count the text that it passed.
pub skip_non_code-Passes :
    (a : Cursor)
    → Walked a (skip_non_code a) × Passes NonCode a (skip_non_code a) × AtCode (skip_non_code a)
unfolding skip_non_code
skip_non_code-Passes a =
    let (w, c) = skip_non_code-AtCode a in (w, skip_rounds-Passes (suc (length a.rest)) a, c)
