-- ===== src/Script/Processor/Assignment.antt =====
-- Assignments (p44script.cpp).
use p44utils.Prelude.{◌-◌, ◌+◌, Bool, true, false, not, Option, none, some, if◌then◌else◌}
use p44utils.Script.Operators.{op_self, op_incdec}
use p44utils.Script.Processor.State.{
  Processor, Hooks, invalid_compound, s_check_and_assign_lvalue, s_compound_assignment,
  s_expression, s_sub_expression, s_expr_right_side, s_assign_lvalue, s_result,
}
use p44utils.Script.Processor.Stack.{
  push, exit_with_syntax_error, check_and_resume, pop_with_result, make_valid, resume_with,
}
use p44utils.Script.Processor.Terms.{has_flag}

module _ {V W : Type 0} (h : Hooks V W) where
  unfoldable pub compound_assignment : Processor V W → Processor V W
  unfolding push exit_with_syntax_error
  compound_assignment p =
      let op = p.pending_operation in
      if has_flag op op_self
      then record (push h s_expr_right_side (record p { pending_operation = op - op_self })) {
        precedence = 0;
        current_state = some s_sub_expression;
      }
      else if has_flag op op_incdec
      then record p {
        pending_operation = op - op_incdec;
        precedence = 0;
        older_result = p.result;
        result = some (h.values.integer_value 1);
        current_state = some s_expr_right_side;
      }
      else exit_with_syntax_error h invalid_compound p

  unfoldable pub assign_expression : Processor V W → Processor V W
  unfolding push compound_assignment
  assign_expression p =
      let q = push h s_check_and_assign_lvalue p in
      if has_flag p.pending_operation (op_self + op_incdec)
      then (if not p.skipping
          then make_valid h q.result (record q { current_state = some s_compound_assignment })
          else compound_assignment q)
      else record q { current_state = some s_expression }

  unfoldable pub check_and_assign_lvalue : Processor V W → Processor V W
  unfolding check_and_resume
  check_and_assign_lvalue p = check_and_resume h (record p { current_state = some s_assign_lvalue })

  abbrev pub copied : Option V → Option V
  copied none = none
  copied (some v) = some (h.values.assignment_value v)

  -- assignLValue on the older result.
  abbrev pub assigned : Option V → Option V → Processor V W → Processor V W
  assigned none value p = p
  assigned (some target) value p =
      let (r, w) = h.assign_lvalue target value p.world in
      resume_with h r (record p { result = value; world = w })

  unfoldable pub assign_lvalue : Processor V W → Processor V W
  assign_lvalue p =
      let q = record p { current_state = some s_result } in
      if not p.skipping
      then assigned q.older_result (copied q.result) q
      else record q { result = none }

  abbrev pub is_target : Option V → Bool
  is_target none = false
  is_target (some v) = h.values.is_lvalue v

  unfoldable pub unset_member : Processor V W → Processor V W
  unfolding assign_lvalue pop_with_result
  unset_member p =
      let q = record p { older_result = p.result; result = none } in
      if not p.skipping
      then (if is_target q.older_result
          then assign_lvalue q
          else pop_with_result h true (record q { result = some h.values.null_value }))
      else assign_lvalue p

  abbrev pub has_other_type : Option V → Bool
  has_other_type none = false
  has_other_type (some v) = not (h.values.is_lvalue v)

  unfoldable pub assign_older : Processor V W → Processor V W
  unfolding assign_lvalue
  assign_older p =
      if not p.skipping
      then (if has_other_type p.result
          then record p { current_state = some s_result }
          else assign_lvalue (record p { result = p.older_result; older_result = p.result }))
      else assign_lvalue p

  unfoldable pub assign_default : Processor V W → Processor V W
  unfolding assign_expression
  assign_default p =
      if is_target p.result
      then assign_expression p
      else record p { skipping = true; current_state = some s_expression }
