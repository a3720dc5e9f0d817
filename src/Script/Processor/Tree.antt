-- ===== src/Script/Processor/Tree.antt =====
-- Expressions as trees, the text of a tree, and its value.
use p44utils.Prelude.{ℕ, ◌-◌, ◌<◌, Option, none, some, List, [], ◌∷◌, ◌++◌}
use p44utils.Script.Operators.{
  OperatorMode, op_none, op_not, op_multiply, op_divide, op_modulo, op_add, op_subtract, op_equal,
  op_notequal, op_less, op_greater, op_leq, op_geq, op_and, op_or,
}
use p44utils.Script.Processor.State.{Hooks}
use p44utils.Script.Processor.Expression.{apply_unary, operate}

pub data BinaryOperator : Type 0 where
  times over modulo plus minus same unequal less greater at_most at_least both either :
      BinaryOperator

pub data Sign : Type 0 where
  negative positive inverse : Sign

-- A term with its sign, if any, is a leaf of a text and a value, or a group in parentheses.
pub data Tree (V : Type 0) : Type 0 where
  leaf : Option Sign → List ℕ → V → Tree V
  group : Option Sign → Tree V → Tree V
  binary : BinaryOperator → Tree V → Tree V → Tree V

abbrev pub code : BinaryOperator → ℕ
code times = op_multiply
code over = op_divide
code modulo = op_modulo
code plus = op_add
code minus = op_subtract
code same = op_equal
code unequal = op_notequal
code less = op_less
code greater = op_greater
code at_most = op_leq
code at_least = op_geq
code both = op_and
code either = op_or

-- From the weakest operator, 2, to the strongest.
abbrev pub strength : BinaryOperator → ℕ
strength times = 6
strength over = 6
strength modulo = 6
strength plus = 5
strength minus = 5
strength same = 4
strength unequal = 4
strength less = 4
strength greater = 4
strength at_most = 4
strength at_least = 4
strength both = 3
strength either = 2

abbrev pub spelling : BinaryOperator → List ℕ
spelling times = b'*' ∷ []
spelling over = b'/' ∷ []
spelling modulo = b'%' ∷ []
spelling plus = b'+' ∷ []
spelling minus = b'-' ∷ []
spelling same = b'=' ∷ b'=' ∷ []
spelling unequal = b'!' ∷ b'=' ∷ []
spelling less = b'<' ∷ []
spelling greater = b'>' ∷ []
spelling at_most = b'<' ∷ b'=' ∷ []
spelling at_least = b'>' ∷ b'=' ∷ []
spelling both = b'&' ∷ b'&' ∷ []
spelling either = b'|' ∷ b'|' ∷ []

abbrev pub sign_code : Option Sign → ℕ
sign_code none = op_none
sign_code (some negative) = op_subtract
sign_code (some positive) = op_add
sign_code (some inverse) = op_not

abbrev pub sign_text : Option Sign → List ℕ
sign_text none = []
sign_text (some negative) = b'-' ∷ []
sign_text (some positive) = b'+' ∷ []
sign_text (some inverse) = b'!' ∷ []

-- An operator stands between two spaces.
abbrev pub operator_text : BinaryOperator → List ℕ → List ℕ
operator_text op l = 32 ∷ (spelling op ++ 32 ∷ l)

-- The text of a tree, in front of another text.
abbrev pub written : {V : Type 0} → Tree V → List ℕ → List ℕ
written (leaf s t v) l = sign_text s ++ (t ++ l)
written (group s e) l = sign_text s ++ b'(' ∷ written e (b')' ∷ l)
written (binary op a b) l = written a (operator_text op (written b l))

module _ {V W : Type 0} (mode : OperatorMode) (h : Hooks V W) where
  abbrev pub value_of : Tree V → V
  value_of (leaf s t v) = apply_unary mode h (sign_code s) v
  value_of (group s e) = apply_unary mode h (sign_code s) (value_of e)
  value_of (binary op a b) = operate mode h (code op) (value_of a) (value_of b)

  -- The leaves are good, and no operand binds weaker than its operator without parentheses: the
  -- left one as strong as it, the right one stronger.
  abbrev pub Fits : (List ℕ → V → Type 0) → ℕ → Tree V → Type 0
  Fits Good q (leaf s t v) = Good t v
  Fits Good q (group s e) = Fits Good 1 e
  Fits Good q (binary op a b) =
      (q < strength op) × (Fits Good (strength op - 1) a × Fits Good (strength op) b)

  -- The values of all parts have a property.
  abbrev pub Throughout : (V → Type 0) → Tree V → Type 0
  Throughout P (leaf s t v) = P (value_of (leaf s t v))
  Throughout P (group s e) = P (value_of (group s e)) × Throughout P e
  Throughout P (binary op a b) = P (value_of (binary op a b)) × (Throughout P a × Throughout P b)
