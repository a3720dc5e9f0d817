-- ===== src/Script/Comments.antt =====
-- What the loops over comments pass (p44script.cpp).
use p44utils.Prelude.{
  ◌≤◌, length-append, ℕ, zero, suc, ◌≡◌, refl, sym, ap, ◌∙◌, ◌⊎◌, inl, inr, Bool, true, false, List,
  [], ◌∷◌, ◌++◌, length, get_or, append_assoc, ◌==◌, arith, if_both, if_split, Bool-cases, All,
}
use mathlib.Core.Path.{subst}
use p44utils.Script.AtCode.{next_while_stops, nothing_left}
use p44utils.Script.Cursor.{
  Cursor, char_at, is_eot, over, next, advance, next_while, before_star, block_comment,
}

-- The inside of a block comment, with its end, by the text that follows: to the first end, or to
-- where the text ends, at a 0 or behind the last character.
pub data Inside : List ℕ → List ℕ → Type 0 where
  closed : {l : List ℕ} → Inside (b'*' ∷ b'/' ∷ []) l
  unclosed : {l : List ℕ} → (get_or l 0 0 == 0) ≡ true → Inside [] l
  other : (c : ℕ) {s l : List ℕ} → before_star c ≡ true → Inside s l → Inside (c ∷ s) l
  star : {s l : List ℕ} → (get_or (s ++ l) 0 0 == b'/') ≡ false → Inside s l → Inside (b'*' ∷ s) l

-- From one position to another, over a text with a property, by the text that follows.
pub record Passes (P : List ℕ → List ℕ → Type 0) (a b : Cursor) : Type 0 where
  pub passed : List ℕ
  pub splits : a.rest ≡ passed ++ b.rest
  pub holds : P passed b.rest

over_step :
    (l : List ℕ) (a : Cursor)
    → a.rest ≡ l
    → (over l a ≡ a) ⊎ (a.rest ≡ char_at 0 a ∷ (over l a).rest)
unfolding over
over_step [] a e = inl refl
over_step (c ∷ s) a e =
    let here : a.rest ≡ char_at 0 a ∷ s =
      e ∙ ap (λ (h : ℕ). h ∷ s) (sym (ap (λ (l : List ℕ). get_or l 0 0) e)) in
    inr (if_both (λ (b : Cursor). a.rest ≡ char_at 0 a ∷ b.rest) (c == b'\n') here here)

next_step : (a : Cursor) → ((next a).1 ≡ a) ⊎ (a.rest ≡ char_at 0 a ∷ (next a).1.rest)
unfolding next
next_step a =
    if_both (λ (r : Bool × Cursor). (r.1 ≡ a) ⊎ (a.rest ≡ char_at 0 a ∷ r.1.rest)) (is_eot a)
      (inl refl) (over_step a.rest a refl)

pub next_while-Passes :
    (f : ℕ) (test : ℕ → Bool) (a : Cursor)
    → Passes (λ s l. All (λ (c : ℕ). test c ≡ true) s) a (next_while f test a)
unfolding next_while
next_while-Passes zero test a = record { passed = []; splits = refl; holds = tt }
next_while-Passes (suc f) test a =
    let p = next_while-Passes f test (next a).1 in
    if_split (Passes (λ s l. All (λ (c : ℕ). test c ≡ true) s) a) (test (char_at 0 a))
      (λ t. elim (next_step a) [
        | inl same ↦ record {
          passed = p.passed;
          splits = ap (λ (b : Cursor). b.rest) (sym same) ∙ p.splits;
          holds = p.holds;
        }
        | inr moved ↦ record {
          passed = char_at 0 a ∷ p.passed;
          splits = moved ∙ ap (λ (l : List ℕ). char_at 0 a ∷ l) p.splits;
          holds = (t, p.holds);
        }
      ])
      (λ t. record { passed = []; splits = refl; holds = tt })

two_chars :
    (c d : ℕ) (l : List ℕ)
    → get_or l 0 0 ≡ c
    → get_or l 1 0 ≡ d
    → (d == 0) ≡ false
    → (t : List ℕ) × (l ≡ c ∷ d ∷ t)
two_chars c d [] e f n = absurd (ground (arith, f, n))
two_chars c d (x ∷ []) e f n = absurd (ground (arith, f, n))
two_chars c d (x ∷ y ∷ t) e f n = (t, ap (λ (h : ℕ). h ∷ y ∷ t) e ∙ ap (λ (h : ℕ). c ∷ h ∷ t) f)

-- Over two characters that are neither 0 nor line ends.
advance_two :
    (c d : ℕ) (t : List ℕ) (a : Cursor)
    → a.rest ≡ c ∷ d ∷ t
    → (c == 0) ≡ false
    → (c == b'\n') ≡ false
    → (d == 0) ≡ false
    → (d == b'\n') ≡ false
    → (advance 2 a).1.rest ≡ t
unfolding advance next is_eot over
advance_two c d t a e n m o p = rw (e, n, m, o, p) refl

pub advance-Passes :
    (c d : ℕ) (a : Cursor)
    → char_at 0 a ≡ c
    → char_at 1 a ≡ d
    → (c == 0) ≡ false
    → (c == b'\n') ≡ false
    → (d == 0) ≡ false
    → (d == b'\n') ≡ false
    → a.rest ≡ c ∷ d ∷ (advance 2 a).1.rest
advance-Passes c d a e f n m o p =
    let (t, q) = two_chars c d a.rest e f o in
    q ∙ ap (λ (l : List ℕ). c ∷ d ∷ l) (sym (advance_two c d t a q n m o p))

-- Characters before a star, and what comes then.
Inside_after :
    (l s rest : List ℕ)
    → All (λ (c : ℕ). before_star c ≡ true) l
    → Inside s rest
    → Inside (l ++ s) rest
Inside_after [] s rest a i = i
Inside_after (c ∷ l) s rest a i = other c a.0 (Inside_after l s rest a.1 i)

-- Further on, over what comes before a star and what comes then.
go_on :
    {a at b : Cursor} (p : Passes (λ s l. All (λ (c : ℕ). before_star c ≡ true) s) a at)
    → Passes Inside at b
    → Passes Inside a b
go_on {a} {at} {b} p q = record {
  passed = p.passed ++ q.passed;
  splits =
      p.splits
      ∙ ap (λ (l : List ℕ). p.passed ++ l) q.splits
      ∙ sym (append_assoc p.passed q.passed b.rest);
  holds = Inside_after p.passed q.passed b.rest p.holds q.holds;
}

-- At the end of the text.
ends_there : (a : Cursor) → (char_at 0 a == 0) ≡ true → Passes Inside a a
ends_there a e = record { passed = []; splits = refl; holds = unclosed e }

star_closes :
    (at : Cursor)
    → char_at 0 at ≡ b'*'
    → (char_at 1 at == b'/') ≡ true
    → Passes Inside at (advance 2 at).1
star_closes at s e = record {
  passed = b'*' ∷ b'/' ∷ [];
  splits = advance-Passes b'*' b'/' at s (ground (arith, e)) refl refl refl refl;
  holds = closed;
}

one_char : (c : ℕ) (l : List ℕ) → get_or l 0 0 ≡ c → (c == 0) ≡ false → (t : List ℕ) × (l ≡ c ∷ t)
one_char c [] e n = absurd (ground (arith, e, n))
one_char c (x ∷ t) e n = (t, ap (λ (h : ℕ). h ∷ t) e)

next_over_star : (t : List ℕ) (a : Cursor) → a.rest ≡ b'*' ∷ t → (next a).1.rest ≡ t
unfolding next is_eot over
next_over_star t a e = rw e refl

over_star : (at : Cursor) → char_at 0 at ≡ b'*' → at.rest ≡ b'*' ∷ (next at).1.rest
over_star at s =
    let (t, e) = one_char b'*' at.rest s refl in
    e ∙ ap (λ (l : List ℕ). b'*' ∷ l) (sym (next_over_star t at e))

star_inside :
    (at b : Cursor)
    → char_at 0 at ≡ b'*'
    → (char_at 1 at == b'/') ≡ false
    → Passes Inside (next at).1 b
    → Passes Inside at b
star_inside at b s e q =
    let splits = over_star at s ∙ ap (λ (l : List ℕ). b'*' ∷ l) q.splits in
    record {
      passed = b'*' ∷ q.passed;
      splits = splits;
      holds = star (ap (λ (l : List ℕ). get_or l 1 0 == b'/') (sym splits) ∙ e) q.holds;
    }

-- Nothing moves at the end of the text.
next_at_end : (a : Cursor) → (char_at 0 a == 0) ≡ true → (next a).1 ≡ a
unfolding next is_eot
next_at_end a e = rw e refl

comment_at_end : (f : ℕ) (a : Cursor) → (char_at 0 a == 0) ≡ true → block_comment f a ≡ a
unfolding block_comment
comment_at_end zero a e = refl
comment_at_end (suc f) a e = rw e refl

stays_at_end :
    (f : ℕ) (a : Cursor)
    → (char_at 0 a == 0) ≡ true
    → ((advance 2 a).1 ≡ a) × (block_comment f (next a).1 ≡ a)
unfolding advance next is_eot
stays_at_end f a e =
    (rw e refl, ap (λ (b : Cursor). block_comment f b) (next_at_end a e) ∙ comment_at_end f a e)

pub block_comment-Passes :
    (f : ℕ) (a : Cursor) → length a.rest ≤ f → Passes Inside a (block_comment f a)
unfolding block_comment
block_comment-Passes zero a h = ends_there a (ground (arith, nothing_left a.rest h))
block_comment-Passes (suc f) a h =
    let at = next_while (length a.rest) before_star a in
    let p = next_while-Passes (length a.rest) before_star a in
    let stops = next_while_stops (length a.rest) before_star a (omega arith) refl in
    let P : Cursor → Type 0 = λ b. Passes Inside a b in
    if_split P (char_at 0 a == 0) (λ z. ends_there a z)
      λ n. elim (Bool-cases (char_at 0 at == 0)) [
        | inl z ↦
            let (stay, same) = stays_at_end f at z in
            let here = go_on p (ends_there at z) in
            if_both P (char_at 1 at == b'/') (subst P (sym stay) here) (subst P (sym same) here)
        | inr m ↦
            let starred : char_at 0 at ≡ b'*' = ground (arith, stops, m) in
            if_split P (char_at 1 at == b'/') (λ ends. go_on p (star_closes at starred ends))
              λ on. go_on p (
                star_inside at _ starred on (
                  block_comment-Passes f (next at).1 (
                    omega (
                      arith,
                      h,
                      ap length p.splits,
                      length-append p.passed at.rest,
                      ap length (over_star at starred),
                    ))))
      ]
