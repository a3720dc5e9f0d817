-- ===== src/Script/Operators.antt =====
-- parseOperator (p44script.cpp): operators are the codes of ScriptOperator (p44script.hpp).
use Prim.Native.Nat.{bit_or}
use p44utils.Prelude.{ℕ, ◌+◌, ◌*◌, ◌==◌, if◌then◌else◌}
use p44utils.Script.Cursor.{Cursor, char_at, skip_non_code, advance}

abbrev pub op_none : ℕ
op_none = 7

abbrev pub op_not : ℕ
op_not = 1 * 8 + 7

abbrev pub op_multiply : ℕ
op_multiply = 2 * 8 + 6

abbrev pub op_divide : ℕ
op_divide = 3 * 8 + 6

abbrev pub op_modulo : ℕ
op_modulo = 4 * 8 + 6

abbrev pub op_add : ℕ
op_add = 5 * 8 + 5

abbrev pub op_subtract : ℕ
op_subtract = 6 * 8 + 5

abbrev pub op_equal : ℕ
op_equal = 7 * 8 + 4

abbrev pub op_assign_or_eq : ℕ
op_assign_or_eq = 8 * 8 + 4

abbrev pub op_notequal : ℕ
op_notequal = 9 * 8 + 4

abbrev pub op_less : ℕ
op_less = 10 * 8 + 4

abbrev pub op_greater : ℕ
op_greater = 11 * 8 + 4

abbrev pub op_leq : ℕ
op_leq = 12 * 8 + 4

abbrev pub op_geq : ℕ
op_geq = 13 * 8 + 4

abbrev pub op_and : ℕ
op_and = 14 * 8 + 3

abbrev pub op_or : ℕ
op_or = 15 * 8 + 2

abbrev pub op_assign : ℕ
op_assign = 16 * 8

abbrev pub op_incdec : ℕ
op_incdec = 256

abbrev pub op_self : ℕ
op_self = 512

-- SCRIPT_OPERATOR_MODE
pub data OperatorMode : Type 0 where
  mode_c mode_pascal mode_flexible : OperatorMode

-- What a single equal sign means.
abbrev pub single_equal : OperatorMode → ℕ
single_equal mode_c = op_assign
single_equal mode_pascal = op_equal
single_equal mode_flexible = op_assign_or_eq

-- From the label checkself on: the character behind the operator, the operator and its length.
abbrev pub check_self : ℕ → ℕ → ℕ → ℕ × ℕ
check_self behind op o = if behind == b'=' then (bit_or op op_self, o + 1) else (op, o)

-- The switch over the first character, `c1` and `c2` the two behind it: operator and length.
unfoldable pub operator_of : OperatorMode → ℕ → ℕ → ℕ → ℕ × ℕ
operator_of mode c0 c1 c2 =
    if c0 == b':'
    then (if c1 == b'=' then (op_assign, 2) else (op_none, 0))
    else if c0 == b'='
    then (if c1 == b'=' then (op_equal, 2) else (single_equal mode, 1))
    else if c0 == b'*'
    then check_self c1 op_multiply 1
    else if c0 == b'/'
    then check_self c1 op_divide 1
    else if c0 == b'%'
    then check_self c1 op_modulo 1
    else if c0 == b'&'
    then (if c1 == b'&' then check_self c2 op_and 2 else check_self c1 op_and 1)
    else if c0 == b'|'
    then (if c1 == b'|' then check_self c2 op_or 2 else check_self c1 op_or 1)
    else if c0 == b'+'
    then (if c1 == b'+' then (bit_or op_add op_incdec, 2) else check_self c1 op_add 1)
    else if c0 == b'-'
    then (if c1 == b'-' then (bit_or op_subtract op_incdec, 2) else check_self c1 op_subtract 1)
    else if c0 == b'<'
    then (if c1 == b'=' then (op_leq, 2) else if c1 == b'>' then (op_notequal, 2) else (op_less, 1))
    else if c0 == b'>'
    then (if c1 == b'=' then (op_geq, 2) else (op_greater, 1))
    else if c0 == b'!'
    then (if c1 == b'=' then (op_notequal, 2) else (op_not, 1))
    else (op_none, 0)

unfoldable pub parse_operator : OperatorMode → Cursor → ℕ × Cursor
unfolding operator_of
parse_operator mode cur =
    let at = skip_non_code cur in
    let (op, o) = operator_of mode (char_at 0 at) (char_at 1 at) (char_at 2 at) in
    if op == op_none then (op_none, at) else (op, skip_non_code (advance o at).1)
