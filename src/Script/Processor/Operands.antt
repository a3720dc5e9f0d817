-- ===== src/Script/Processor/Operands.antt =====
-- The left side of an operator: what follows an operand decides whether the expression goes on
-- (s_exprLeftSide, p44script.cpp).
use p44utils.Prelude.{
  ℕ, ◌≤◌, ◌<◌, ◌≡◌, refl, sym, ap, ◌∙◌, Bool, true, false, ◌||◌, List, [], ◌∷◌, ◌++◌, get_or, ◌==◌,
  leb, arith,
}
use mathlib.Core.Path.{subst}
use p44utils.Script.Cursor.{Cursor, skip_non_code}
use p44utils.Script.Operators.{OperatorMode, parse_operator, op_none}
use p44utils.Script.Processor.Expression.{precedence_of}
use p44utils.Script.Processor.Reading.{Solid, skip_non_code-Solid, skip_non_code-space}
use p44utils.Script.Processor.OperatorText.{
  plain, plain-Reads, operator-Reads, spelling-Solid, Reads, code-some,
}
use p44utils.Script.Processor.Tree.{
  BinaryOperator, times, over, modulo, plus, minus, same, unequal, less, greater, at_most, at_least,
  both, either, code, strength, spelling, operator_text,
}

-- What may follow an operand of an operator that binds with strength `q`: nothing, a closing
-- parenthesis, or an operator that binds no stronger.
pub data Follows : ℕ → List ℕ → Type 0 where
  at_end : {q : ℕ} → Follows q []
  at_paren : {q : ℕ} (l : List ℕ) → Follows q (b')' ∷ l)
  at_operator :
      {q : ℕ} (op : BinaryOperator) (l : List ℕ)
      → Solid l
      → strength op ≤ q
      → Follows q (operator_text op l)

pub Follows-weaker : {q r : ℕ} {l : List ℕ} → q ≤ r → Follows q l → Follows r l
Follows-weaker le at_end = at_end
Follows-weaker le (at_paren l) = at_paren l
Follows-weaker le (at_operator op l s b) = at_operator op l s (omega (arith, b, le))

pub precedence_of-code : (op : BinaryOperator) → precedence_of (code op) ≡ strength op
precedence_of-code times = refl
precedence_of-code over = refl
precedence_of-code modulo = refl
precedence_of-code plus = refl
precedence_of-code minus = refl
precedence_of-code same = refl
precedence_of-code unequal = refl
precedence_of-code less = refl
precedence_of-code greater = refl
precedence_of-code at_most = refl
precedence_of-code at_least = refl
precedence_of-code both = refl
precedence_of-code either = refl

pub le→leb : (a b : ℕ) → a ≤ b → leb a b ≡ true
le→leb a b le = ground (arith, le)

pub lt→leb : (a b : ℕ) → a < b → leb b a ≡ false
lt→leb a b lt = ground (arith, lt)

module _ (mode : OperatorMode) where
  abbrev pub stops : ℕ → Cursor → Bool
  stops q a =
      let op = (parse_operator mode (skip_non_code a)).0 in
      op == op_none || leb (precedence_of op) q

  stops-plain :
      (q : ℕ) (l : List ℕ) (a : Cursor)
      → plain (get_or l 0 0) ≡ true
      → Solid l
      → a.rest ≡ l
      → stops q a ≡ true
  stops-plain q l a p s e =
      let still = skip_non_code-Solid a (subst (λ t. Solid t) (sym e) s) in
      let (b, (r, w)) = plain-Reads mode l a p e in
      let found = ap (parse_operator mode) still ∙ r in rw (found) refl

  -- An operator behind a space.
  pub spaced-Reads :
      (op : BinaryOperator) (l : List ℕ) (a : Cursor)
      → Solid l
      → a.rest ≡ operator_text op l
      → Reads mode (skip_non_code a) (code op) l
  spaced-Reads op l a s e =
      operator-Reads mode op l (skip_non_code a) s
        (skip_non_code-space (spelling op ++ 32 ∷ l) a e (spelling-Solid op l))

  pub stops-operator :
      (q : ℕ) (op : BinaryOperator) (a : Cursor) (b : Cursor)
      → parse_operator mode (skip_non_code a) ≡ (code op, b)
      → stops q a ≡ leb (strength op) q
  stops-operator q op a b e = rw (e, code-some op, precedence_of-code op) refl

  pub stops-Follows :
      {q : ℕ} {l : List ℕ} (a : Cursor) → Follows q l → a.rest ≡ l → stops q a ≡ true
  stops-Follows a at_end e = stops-plain _ [] a refl refl e
  stops-Follows a (at_paren l) e = stops-plain _ (b')' ∷ l) a refl refl e
  stops-Follows {q} a (at_operator op l s le) e =
      let (b, (r, w)) = spaced-Reads op l a s e in
      stops-operator q op a b r ∙ le→leb (strength op) q le
