-- ===== src/Script/Processor/OperatorText.antt =====
-- How parseOperator (p44script.cpp) reads the operators and signs of a written expression.
use p44utils.Prelude.{
  ℕ, ◌≡◌, refl, sym, ap, ◌∙◌, Bool, true, false, not, ◌&&◌, ◌||◌, Option, none, some, List, [], ◌∷◌,
  ◌++◌, length, get_or, ◌==◌, arith, All,
}
use mathlib.Core.Path.{subst}
use p44utils.Script.Cursor.{Cursor, char_at, next, advance, skip_non_code, is_white_space}
use p44utils.Script.Operators.{OperatorMode, operator_of, parse_operator, op_none}
use p44utils.Script.StringChars.{next-rest}
use p44utils.Script.Processor.Reading.{
  Solid, solid, skip_non_code-Solid, skip_non_code-space, advance-rest,
}
use p44utils.Script.Processor.Tree.{
  BinaryOperator, times, over, modulo, plus, minus, same, unequal, less, greater, at_most, at_least,
  both, either, Sign, negative, positive, inverse, code, spelling, sign_code, sign_text,
}

-- Neither white space nor the first character of an operator.
abbrev pub plain : ℕ → Bool
plain c =
    not (is_white_space c)
    && (not (c == b':' || (c == b'=' || (c == b'*' || c == b'/')))
        && (not (c == b'%' || (c == b'&' || (c == b'|' || c == b'+')))
            && not (c == b'-' || (c == b'<' || (c == b'>' || c == b'!')))))

pub plain-solid : (c d : ℕ) → plain c ≡ true → solid c d ≡ true
plain-solid c d p = ground (arith, p)

pub spelling-Solid : (op : BinaryOperator) (l : List ℕ) → Solid (spelling op ++ 32 ∷ l)
spelling-Solid times l = refl
spelling-Solid over l = refl
spelling-Solid modulo l = refl
spelling-Solid plus l = refl
spelling-Solid minus l = refl
spelling-Solid same l = refl
spelling-Solid unequal l = refl
spelling-Solid less l = refl
spelling-Solid greater l = refl
spelling-Solid at_most l = refl
spelling-Solid at_least l = refl
spelling-Solid both l = refl
spelling-Solid either l = refl

advance_over :
    (w t : List ℕ) (a : Cursor)
    → All (λ c. (c == 0) ≡ false) w
    → a.rest ≡ w ++ t
    → (advance (length w) a).1.rest ≡ t
unfolding advance
advance_over [] t a h e = e
advance_over (c ∷ w) t a h e =
    ap (λ (b : Cursor). b.rest) (advance-rest (length w) c (w ++ t) a e h.0)
    ∙ advance_over w t (next a).1 h.1 (next-rest c (w ++ t) a e h.0)

spelling-All : (op : BinaryOperator) → All (λ c. (c == 0) ≡ false) (spelling op)
spelling-All times = (refl, tt)
spelling-All over = (refl, tt)
spelling-All modulo = (refl, tt)
spelling-All plus = (refl, tt)
spelling-All minus = (refl, tt)
spelling-All same = (refl, (refl, tt))
spelling-All unequal = (refl, (refl, tt))
spelling-All less = (refl, tt)
spelling-All greater = (refl, tt)
spelling-All at_most = (refl, (refl, tt))
spelling-All at_least = (refl, (refl, tt))
spelling-All both = (refl, (refl, tt))
spelling-All either = (refl, (refl, tt))

pub code-some : (op : BinaryOperator) → (code op == op_none) ≡ false
code-some times = refl
code-some over = refl
code-some modulo = refl
code-some plus = refl
code-some minus = refl
code-some same = refl
code-some unequal = refl
code-some less = refl
code-some greater = refl
code-some at_most = refl
code-some at_least = refl
code-some both = refl
code-some either = refl

module _ (mode : OperatorMode) where
  operator_of-plain : (c d e : ℕ) → plain c ≡ true → operator_of mode c d e ≡ (op_none, 0)
  unfolding operator_of
  operator_of-plain c d e p = ground (arith, p)

  operator_of-spelling :
      (op : BinaryOperator) (l : List ℕ)
      → operator_of mode
          (get_or (spelling op ++ 32 ∷ l) 0 0)
          (get_or (spelling op ++ 32 ∷ l) 1 0)
          (get_or (spelling op ++ 32 ∷ l) 2 0)
        ≡ (code op, length (spelling op))
  unfolding operator_of
  operator_of-spelling times l = refl
  operator_of-spelling over l = refl
  operator_of-spelling modulo l = refl
  operator_of-spelling plus l = refl
  operator_of-spelling minus l = refl
  operator_of-spelling same l = refl
  operator_of-spelling unequal l = refl
  operator_of-spelling less l = refl
  operator_of-spelling greater l = refl
  operator_of-spelling at_most l = refl
  operator_of-spelling at_least l = refl
  operator_of-spelling both l = refl
  operator_of-spelling either l = refl

  operator_of-sign :
      (s : Sign) (c d : ℕ)
      → plain c ≡ true
      → operator_of mode (get_or (sign_text (some s)) 0 0) c d ≡ (sign_code (some s), 1)
  unfolding operator_of
  operator_of-sign negative c d p = ground (arith, p)
  operator_of-sign positive c d p = ground (arith, p)
  operator_of-sign inverse c d p = ground (arith, p)

  -- The operator is `op` and what is left is `l`.
  abbrev pub Reads : Cursor → ℕ → List ℕ → Type 0
  Reads a op l = (b : Cursor) × ((parse_operator mode a ≡ (op, b)) × (b.rest ≡ l))

  -- The operator that stands behind what is no code.
  operator_found :
      (a : Cursor) (op o : ℕ)
      → Solid a.rest
      → operator_of mode (char_at 0 a) (char_at 1 a) (char_at 2 a) ≡ (op, o)
      → (op == op_none) ≡ false
      → parse_operator mode a ≡ (op, skip_non_code (advance o a).1)
  unfolding parse_operator
  operator_found a op o s e n = rw (skip_non_code-Solid a s, e, n) refl

  no_operator :
      (a : Cursor)
      → Solid a.rest
      → operator_of mode (char_at 0 a) (char_at 1 a) (char_at 2 a) ≡ (op_none, 0)
      → parse_operator mode a ≡ (op_none, a)
  unfolding parse_operator
  no_operator a s e = rw (skip_non_code-Solid a s, e) refl

  pub plain-Reads :
      (l : List ℕ) (a : Cursor) → plain (get_or l 0 0) ≡ true → a.rest ≡ l → Reads a op_none l
  plain-Reads l a p e =
      let here = subst (λ t. plain (get_or t 0 0) ≡ true) (sym e) p in
      (
        a,
        (
          no_operator a (plain-solid (char_at 0 a) (char_at 1 a) here)
              (operator_of-plain (char_at 0 a) (char_at 1 a) (char_at 2 a) here),
          e,
        ),
      )

  pub operator-Reads :
      (op : BinaryOperator) (l : List ℕ) (a : Cursor)
      → Solid l
      → a.rest ≡ spelling op ++ 32 ∷ l
      → Reads a (code op) l
  operator-Reads op l a s e =
      let at = advance (length (spelling op)) a in
      (
        skip_non_code at.1,
        (
          operator_found a (code op) (length (spelling op))
              (subst (λ t. Solid t) (sym e) (spelling-Solid op l))
              (ap (λ t. operator_of mode (get_or t 0 0) (get_or t 1 0) (get_or t 2 0)) e
                ∙ operator_of-spelling op l)
              (code-some op),
          skip_non_code-space l at.1 (advance_over (spelling op) (32 ∷ l) a (spelling-All op) e) s,
        ),
      )

  signed :
      (c op : ℕ) (l : List ℕ) (a : Cursor)
      → (solid c (get_or l 0 0) ≡ true) × (((op == op_none) ≡ false) × ((c == 0) ≡ false))
      → ((d e : ℕ) → plain d ≡ true → operator_of mode c d e ≡ (op, 1))
      → plain (get_or l 0 0) ≡ true
      → a.rest ≡ c ∷ l
      → Reads a op l
  unfolding advance
  signed c op l a (s, (n, z)) found p e =
      let behind = next-rest c l a e z in
      let at = (next a).1 in
      let operator =
        ap (λ t. operator_of mode (get_or t 0 0) (get_or t 1 0) (get_or t 2 0)) e
        ∙ found (get_or l 0 0) (get_or l 1 0) p in
      let one = ap (λ (b : Cursor). b.rest) (advance-rest 0 c l a e z) ∙ behind in
      let at_plain = subst (λ t. plain (get_or t 0 0) ≡ true) (sym one) p in
      (
        skip_non_code (advance 1 a).1,
        (
          operator_found a op 1 (subst (λ t. Solid t) (sym e) s) operator n,
          ap (λ (b : Cursor). b.rest)
                (skip_non_code-Solid (advance 1 a).1
                  (plain-solid (char_at 0 (advance 1 a).1) (char_at 1 (advance 1 a).1) at_plain))
              ∙ one,
        ),
      )

  pub sign-Reads :
      (s : Option Sign) (l : List ℕ) (a : Cursor)
      → plain (get_or l 0 0) ≡ true
      → a.rest ≡ sign_text s ++ l
      → Reads a (sign_code s) l
  sign-Reads none l a p e = plain-Reads l a p e
  sign-Reads (some negative) l a p e =
      signed b'-' (sign_code (some negative)) l a (refl, (refl, refl)) (operator_of-sign negative) p
        e
  sign-Reads (some positive) l a p e =
      signed b'+' (sign_code (some positive)) l a (refl, (refl, refl)) (operator_of-sign positive) p
        e
  sign-Reads (some inverse) l a p e =
      signed b'!' (sign_code (some inverse)) l a (refl, (refl, refl)) (operator_of-sign inverse) p e
