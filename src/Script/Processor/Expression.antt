-- ===== src/Script/Processor/Expression.antt =====
-- Expressions: unary and binary operators and their precedence (p44script.cpp).
use Prim.Native.Nat.{bit_and}
use p44utils.Prelude.{ℕ, Bool, false, not, ◌&&◌, ◌||◌, Option, none, some, leb, ◌==◌, if◌then◌else◌}
use p44utils.Script.Cursor.{next_if, skip_non_code}
use p44utils.Script.Operators.{
  OperatorMode, parse_operator, op_none, op_not, op_multiply, op_divide, op_modulo, op_add,
  op_subtract, op_equal, op_assign_or_eq, op_notequal, op_less, op_greater, op_leq, op_geq, op_and,
  op_or, op_assign,
}
use p44utils.Script.Processor.State.{
  Processor, Hooks, invalid_unary, missing_parenthesis, nested_assignment, misplaced_not,
  s_expression, s_sub_expression, s_grouped_expression, s_simple_term, s_member, s_expr_first_term,
  s_expr_left_side, s_expr_right_side,
}
use p44utils.Script.Processor.Stack.{push, exit_with_syntax_error, pop_with_result}

abbrev pub is_unary : ℕ → Bool
is_unary op = op == op_subtract || (op == op_add || op == op_not)

-- The bits of opmask_precedence.
abbrev pub precedence_of : ℕ → ℕ
precedence_of op = bit_and op 7

module _ {V W : Type 0} (mode : OperatorMode) (h : Hooks V W) where
  unfoldable pub process_expression : Processor V W → Processor V W
  unfolding parse_operator exit_with_syntax_error next_if push
  process_expression p =
      let (op, at) = parse_operator mode p.src in
      let (group, inside) = next_if b'(' at in
      let q = record p { pending_operation = op; src = at } in
      let r = record q {
        precedence = if not (op == op_none) && p.precedence == 0 then 1 else p.precedence;
      } in
      if not (op == op_none) && not (is_unary op)
      then exit_with_syntax_error h invalid_unary q
      else if group
      then record (push h s_grouped_expression (record r { src = inside })) {
        current_state = some s_expression;
      }
      else record (push h s_expr_first_term r) { current_state = some s_simple_term }

  unfoldable pub assignment_expression : Processor V W → Processor V W
  unfolding process_expression
  assignment_expression p = process_expression (record p { precedence = 0 })

  unfoldable pub expression : Processor V W → Processor V W
  unfolding process_expression
  expression p = process_expression (record p { precedence = 1 })

  unfoldable pub grouped_expression : Processor V W → Processor V W
  unfolding next_if exit_with_syntax_error push
  grouped_expression p =
      let (closed, behind) = next_if b')' p.src in
      if closed
      then record (push h s_expr_first_term (record p { src = behind })) {
        current_state = some s_member;
      }
      else exit_with_syntax_error h missing_parenthesis p

  -- A unary operator on a value that is defined.
  abbrev pub apply_unary : ℕ → V → V
  apply_unary op v =
      if h.values.defined v
      then (if op == op_not
          then h.values.bool_value (not (h.values.truth v))
          else if op == op_subtract
          then h.values.negated v
          else v)
      else v

  abbrev pub unary_result : ℕ → Option V → Option V
  unary_result op none = none
  unary_result op (some v) = some (apply_unary op v)

  unfoldable pub expr_first_term : Processor V W → Processor V W
  expr_first_term p = record p {
    result = if p.skipping then p.result else unary_result p.pending_operation p.result;
    current_state = some s_expr_left_side;
  }

  unfoldable pub expr_left_side : Processor V W → Processor V W
  unfolding skip_non_code parse_operator pop_with_result push
  expr_left_side p =
      let (op, at) = parse_operator mode (skip_non_code p.src) in
      if op == op_none || leb (precedence_of op) p.precedence
      then pop_with_result h false p
      else record (push h s_expr_right_side (record p { src = at; pending_operation = op })) {
        precedence = precedence_of op;
        current_state = some s_sub_expression;
      }

  -- The switch over the operators on values that are defined; other operators leave `right0`.
  abbrev pub calculate : ℕ → V → V → V → V
  calculate op left right right0 =
      let v = h.values in
      if op == op_divide
      then v.divide left right
      else if op == op_modulo
      then v.modulo left right
      else if op == op_multiply
      then v.multiply left right
      else if op == op_add
      then v.add left right
      else if op == op_subtract
      then v.subtract left right
      else if op == op_less
      then v.bool_value (v.less left right)
      else if op == op_greater
      then v.bool_value (v.greater left right)
      else if op == op_leq
      then v.bool_value (v.at_most left right)
      else if op == op_geq
      then v.bool_value (v.at_least left right)
      else if op == op_and
      then v.bool_value (v.both left right)
      else if op == op_or
      then v.bool_value (v.either left right)
      else right0

  -- The value of an operation that is no syntax error.
  abbrev pub operate : ℕ → V → V → V
  operate op left0 right0 =
      let v = h.values in
      let left = v.calculation_value left0 in
      let right = v.calculation_value right0 in
      if op == op_equal || op == op_assign_or_eq
      then v.bool_value (v.equal left right)
      else if op == op_notequal
      then v.bool_value (v.not_equal left right)
      else if v.defined left && v.defined right
      then calculate op left right right0
      else if v.is_err left
      then left
      else if not (v.is_err right)
      then v.null_value
      else right0

  -- An operator that is a syntax error between two values that are defined.
  abbrev pub misplaced : V → V → Bool
  misplaced left right =
      h.values.defined (h.values.calculation_value left)
      && h.values.defined (h.values.calculation_value right)

  abbrev pub operation : Option V → Option V → Processor V W → Processor V W
  operation none r p = p
  operation (some left) none p = p
  operation (some left) (some right) p =
      let op = p.pending_operation in
      if op == op_assign && misplaced left right
      then exit_with_syntax_error h nested_assignment p
      else if op == op_not && misplaced left right
      then exit_with_syntax_error h misplaced_not p
      else record p { result = some (operate op left right); current_state = some s_expr_left_side }

  -- The operands of a result that is null are not read.
  unfoldable pub expr_right_side : Processor V W → Processor V W
  unfolding exit_with_syntax_error
  expr_right_side p =
      if p.skipping
      then record p { current_state = some s_expr_left_side }
      else operation p.older_result p.result p
