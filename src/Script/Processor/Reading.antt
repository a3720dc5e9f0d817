-- ===== src/Script/Processor/Reading.antt =====
-- How the cursor reads the operators of a written expression (p44script.cpp).
use p44utils.Prelude.{
  ℕ, zero, suc, ◌≡◌, refl, sym, ap, ◌∙◌, Bool, true, false, not, ◌&&◌, ◌||◌, List, ◌∷◌, length,
  get_or, ◌==◌, arith,
}
use mathlib.Core.Path.{subst}
use p44utils.Script.Cursor.{
  is_eot, Cursor, char_at, next, advance, next_while, is_white_space, skip_white_space, skip_rounds,
  skip_non_code,
}
use p44utils.Script.StringChars.{next-rest}

-- Neither white space nor the start of a comment.
abbrev pub solid : ℕ → ℕ → Bool
solid c d = not (is_white_space c) && not (c == b'/' && (d == b'/' || d == b'*'))

abbrev pub Solid : List ℕ → Type 0
Solid l = solid (get_or l 0 0) (get_or l 1 0) ≡ true

next_while_still :
    (f : ℕ) (test : ℕ → Bool) (a : Cursor) → test (char_at 0 a) ≡ false → next_while f test a ≡ a
unfolding next_while
next_while_still zero test a e = refl
next_while_still (suc f) test a e = rw e refl

solid-parts :
    (c d : ℕ)
    → solid c d ≡ true
    → (is_white_space c ≡ false) × ((c == b'/' && d == b'/') || (c == b'/' && d == b'*')) ≡ false
solid-parts c d s = ground (arith, s)

skip_white_space-Solid : (a : Cursor) → Solid a.rest → skip_white_space a ≡ a
unfolding skip_white_space
skip_white_space-Solid a s =
    next_while_still (length a.rest) is_white_space a (solid-parts (char_at 0 a) (char_at 1 a) s).0

skip_rounds-Solid :
    (f : ℕ) (a : Cursor)
    → Solid (skip_white_space a).rest
    → skip_rounds (suc f) a ≡ skip_white_space a
unfolding skip_rounds
skip_rounds-Solid f a s =
    let at = skip_white_space a in rw (solid-parts (char_at 0 at) (char_at 1 at) s).1 refl

pub skip_non_code-Solid : (a : Cursor) → Solid a.rest → skip_non_code a ≡ a
unfolding skip_non_code
skip_non_code-Solid a s =
    let still = skip_white_space-Solid a s in
    skip_rounds-Solid (length a.rest) a (subst (λ (b : Cursor). Solid b.rest) (sym still) s) ∙ still

next_while_step :
    (f : ℕ) (test : ℕ → Bool) (a : Cursor)
    → test (char_at 0 a) ≡ true
    → next_while (suc f) test a ≡ next_while f test (next a).1
unfolding next_while
next_while_step f test a e = rw e refl

-- A space in front of a solid text.
skip_white_space-space :
    (l : List ℕ) (a : Cursor) → a.rest ≡ 32 ∷ l → Solid l → (skip_white_space a).rest ≡ l
unfolding skip_white_space
skip_white_space-space l a e s =
    let behind = next-rest 32 l a e refl in
    let at = (next a).1 in
    let solid_at = subst (λ t. Solid t) (sym behind) s in
    let still =
      next_while_still (length l) is_white_space at
        (solid-parts (char_at 0 at) (char_at 1 at) solid_at).0 in
    let first = ap (λ t. is_white_space (get_or t 0 0)) e in
    ap (λ (b : Cursor). b.rest)
      (ap (λ t. next_while (length t) is_white_space a) e
        ∙ (next_while_step (length l) is_white_space a first ∙ still))
    ∙ behind

pub skip_non_code-space :
    (l : List ℕ) (a : Cursor) → a.rest ≡ 32 ∷ l → Solid l → (skip_non_code a).rest ≡ l
unfolding skip_non_code
skip_non_code-space l a e s =
    let at = skip_white_space-space l a e s in
    ap (λ (b : Cursor). b.rest)
      (skip_rounds-Solid (length a.rest) a (subst (λ t. Solid t) (sym at) s))
    ∙ at

-- A round of `advance`.
pub advance-rest :
    (n x : ℕ) (t : List ℕ) (a : Cursor)
    → a.rest ≡ x ∷ t
    → (x == 0) ≡ false
    → (advance (suc n) a).1 ≡ (advance n (next a).1).1
unfolding advance next is_eot
advance-rest n x t a e z = rw (e, z) refl
