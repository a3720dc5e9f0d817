-- ===== src/Script/Spellings.antt =====
-- The operators by the way they are written, against the switch of parseOperator (p44script.cpp).
use Prim.Native.Nat.{bit_or}
use p44utils.Prelude.{
  ℕ, ◌≡◌, Bool, true, false, ◌&&◌, List, [], ◌∷◌, length, ◌==◌, if◌then◌else◌, arith,
}
use p44utils.Script.Operators.{
  op_none, op_not, op_multiply, op_divide, op_modulo, op_add, op_subtract, op_equal, op_notequal,
  op_less, op_greater, op_leq, op_geq, op_and, op_or, op_assign, op_incdec, op_self, OperatorMode,
  single_equal, operator_of,
}

pub record Spelling : Type 0 where
  pub written : List ℕ
  pub stands_for : ℕ

infix 40 ◌⇒◌
abbrev ◌⇒◌ : List ℕ → ℕ → Spelling
s ⇒ op = record { written = s; stands_for = op }

-- All operators, each in front of those that it starts with.
abbrev pub spellings : OperatorMode → List Spelling
spellings mode =
    (b'&' ∷ b'&' ∷ b'=' ∷ [] ⇒ bit_or op_and op_self)
    ∷ (b'|' ∷ b'|' ∷ b'=' ∷ [] ⇒ bit_or op_or op_self)
    ∷ (b'&' ∷ b'&' ∷ [] ⇒ op_and)
    ∷ (b'|' ∷ b'|' ∷ [] ⇒ op_or)
    ∷ (b'&' ∷ b'=' ∷ [] ⇒ bit_or op_and op_self)
    ∷ (b'|' ∷ b'=' ∷ [] ⇒ bit_or op_or op_self)
    ∷ (b'*' ∷ b'=' ∷ [] ⇒ bit_or op_multiply op_self)
    ∷ (b'/' ∷ b'=' ∷ [] ⇒ bit_or op_divide op_self)
    ∷ (b'%' ∷ b'=' ∷ [] ⇒ bit_or op_modulo op_self)
    ∷ (b'+' ∷ b'=' ∷ [] ⇒ bit_or op_add op_self)
    ∷ (b'-' ∷ b'=' ∷ [] ⇒ bit_or op_subtract op_self)
    ∷ (b'+' ∷ b'+' ∷ [] ⇒ bit_or op_add op_incdec)
    ∷ (b'-' ∷ b'-' ∷ [] ⇒ bit_or op_subtract op_incdec)
    ∷ (b':' ∷ b'=' ∷ [] ⇒ op_assign)
    ∷ (b'=' ∷ b'=' ∷ [] ⇒ op_equal)
    ∷ (b'<' ∷ b'=' ∷ [] ⇒ op_leq)
    ∷ (b'>' ∷ b'=' ∷ [] ⇒ op_geq)
    ∷ (b'<' ∷ b'>' ∷ [] ⇒ op_notequal)
    ∷ (b'!' ∷ b'=' ∷ [] ⇒ op_notequal)
    ∷ (b'=' ∷ [] ⇒ single_equal mode)
    ∷ (b'*' ∷ [] ⇒ op_multiply)
    ∷ (b'/' ∷ [] ⇒ op_divide)
    ∷ (b'%' ∷ [] ⇒ op_modulo)
    ∷ (b'&' ∷ [] ⇒ op_and)
    ∷ (b'|' ∷ [] ⇒ op_or)
    ∷ (b'+' ∷ [] ⇒ op_add)
    ∷ (b'-' ∷ [] ⇒ op_subtract)
    ∷ (b'<' ∷ [] ⇒ op_less)
    ∷ (b'>' ∷ [] ⇒ op_greater)
    ∷ (b'!' ∷ [] ⇒ op_not)
    ∷ []

abbrev pub starts_with : List ℕ → List ℕ → Bool
starts_with [] s = true
starts_with (c ∷ t) [] = false
starts_with (c ∷ t) (d ∷ s) = d == c && starts_with t s

-- The first operator that a text starts with, and its length.
abbrev pub first_of : List Spelling → List ℕ → ℕ × ℕ
first_of [] s = (op_none, 0)
first_of (w ∷ ws) s =
    if starts_with w.written s then (w.stands_for, length w.written) else first_of ws s

-- The switch of parseOperator finds the operator that a list of all ways to write one gives, by
-- the first of the list that the text starts with, where each stands in front of those that it
-- starts with; in each operator mode, and op_none of length 0 where there is no such operator.
pub operator_of-spellings :
    (mode : OperatorMode) (c0 c1 c2 : ℕ)
    → operator_of mode c0 c1 c2 ≡ first_of (spellings mode) (c0 ∷ c1 ∷ c2 ∷ [])
unfolding operator_of
operator_of-spellings dialect c0 c1 c2 = ground arith
