-- ===== src/Script/Processor/Step.antt =====
-- start, step and stepLoop of class SourceProcessor (p44script.cpp). The loop stands on fuel; a call
-- that resumes later goes on at once.
use p44utils.Prelude.{Bool, ℕ, zero, suc, true, false, none, some, []}
use p44utils.Script.Operators.{OperatorMode}
use p44utils.Script.Processor.State.{
  State, Processor, Hooks, s_assignment_expression, s_expression, s_sub_expression,
  s_grouped_expression, s_simple_term, s_member, s_expr_first_term, s_expr_left_side,
  s_expr_right_side, s_assign_expression, s_compound_assignment, s_check_and_assign_lvalue,
  s_assign_lvalue, s_unset_member, s_assign_older, s_assign_default, s_result, s_nothrow_result,
  s_valid_result, s_valid_result_check, s_unchecked_result, s_try_statement, s_func_arg,
  s_subscript_arg, s_next_subscript, s_func_context, s_func_exec, s_complete, s_other,
  s_no_statement, s_one_statement, s_block, s_body, s_included, s_declarations, s_if_condition,
  s_if_true_statement, s_foreach_target, s_foreach_loop_var1, s_foreach_loop_vars,
  s_foreach_loop_start, s_foreach_loop_iteration, s_foreach_key_needed, s_foreach_body,
  s_foreach_statement, s_loop_init, s_loop_condition, s_loop_next, s_loop_body, s_loop_body_done,
  s_loop_recheck, s_loop_end,
}
use p44utils.Script.Processor.Stack.{complete, push, pop, pop_with_result, pop_with_valid_result}
use p44utils.Script.Processor.Terms.{simple_term}
use p44utils.Script.Processor.Members.{
  member, subscript_arg, next_subscript, func_context, func_arg, func_exec,
}
use p44utils.Script.Processor.Assignment.{
  assign_expression, compound_assignment, check_and_assign_lvalue, assign_lvalue, unset_member,
  assign_older, assign_default,
}
use p44utils.Script.Processor.Statements.Conditions.{if_condition, if_true_statement, try_statement}
use p44utils.Script.Processor.Statements.Loops.{
  loop_init, loop_condition, loop_next, loop_body, loop_body_done, loop_recheck, loop_end,
}
use p44utils.Script.Processor.Statements.Foreach.{
  foreach_target, foreach_loop_var1, foreach_loop_vars, foreach_loop_start, foreach_loop_iteration,
  foreach_key_needed, foreach_body, foreach_statement,
}
use p44utils.Script.Processor.Statements.Process.{no_statement, process_statement, declarations}
use p44utils.Script.Processor.Expression.{
  assignment_expression, expression, process_expression, grouped_expression, expr_first_term,
  expr_left_side, expr_right_side,
}

module _ {V W : Type 0} (mode : OperatorMode) (h : Hooks V W) where
  unfoldable pub handle : State → Processor V W → Processor V W
  unfolding no_statement process_statement declarations if_condition if_true_statement try_statement
      foreach_target foreach_loop_var1 foreach_loop_vars foreach_loop_start foreach_loop_iteration
      foreach_key_needed foreach_body foreach_statement loop_init loop_condition loop_next loop_body
      loop_body_done loop_recheck loop_end simple_term member subscript_arg next_subscript
      func_context func_arg func_exec assign_expression compound_assignment check_and_assign_lvalue
      assign_lvalue unset_member assign_older assign_default assignment_expression expression
      process_expression grouped_expression expr_first_term expr_left_side expr_right_side
      pop_with_result pop_with_valid_result pop complete
  handle s_assignment_expression p = assignment_expression mode h p
  handle s_expression p = expression mode h p
  handle s_sub_expression p = process_expression mode h p
  handle s_grouped_expression p = grouped_expression mode h p
  handle s_simple_term p = simple_term mode h p
  handle s_member p = member mode h p
  handle s_expr_first_term p = expr_first_term mode h p
  handle s_expr_left_side p = expr_left_side mode h p
  handle s_expr_right_side p = expr_right_side mode h p
  handle s_assign_expression p = assign_expression h p
  handle s_compound_assignment p = compound_assignment h p
  handle s_check_and_assign_lvalue p = check_and_assign_lvalue h p
  handle s_assign_lvalue p = assign_lvalue h p
  handle s_unset_member p = unset_member h p
  handle s_assign_older p = assign_older h p
  handle s_assign_default p = assign_default h p
  handle s_result p = pop_with_result h true p
  handle s_nothrow_result p = pop_with_result h false p
  handle s_valid_result p = pop_with_valid_result h false p
  handle s_valid_result_check p = pop_with_valid_result h true p
  handle s_unchecked_result p = pop h p
  handle s_no_statement p = no_statement mode h p
  handle s_one_statement p = process_statement mode h s_one_statement p
  handle s_block p = process_statement mode h s_block p
  handle s_body p = process_statement mode h s_body p
  handle s_included p = process_statement mode h s_included p
  handle s_declarations p = declarations mode h p
  handle s_if_condition p = if_condition h p
  handle s_if_true_statement p = if_true_statement h p
  handle s_try_statement p = try_statement h p
  handle s_foreach_target p = foreach_target h p
  handle s_foreach_loop_var1 p = foreach_loop_var1 h p
  handle s_foreach_loop_vars p = foreach_loop_vars h p
  handle s_foreach_loop_start p = foreach_loop_start h p
  handle s_foreach_loop_iteration p = foreach_loop_iteration h p
  handle s_foreach_key_needed p = foreach_key_needed h p
  handle s_foreach_body p = foreach_body h p
  handle s_foreach_statement p = foreach_statement h p
  handle s_loop_init p = loop_init h p
  handle s_loop_condition p = loop_condition h p
  handle s_loop_next p = loop_next h p
  handle s_loop_body p = loop_body h p
  handle s_loop_body_done p = loop_body_done h p
  handle s_loop_recheck p = loop_recheck h p
  handle s_loop_end p = loop_end h p
  handle s_subscript_arg p = subscript_arg mode h p
  handle s_next_subscript p = next_subscript mode h p
  handle s_func_context p = func_context mode h p
  handle s_func_arg p = func_arg mode h p
  handle s_func_exec p = func_exec mode h p
  handle s_complete p = complete h p.result p
  handle (s_other n) p = h.other n p

  unfoldable pub step : Processor V W → Processor V W
  unfolding handle complete
  step p = elim p.current_state [ none ↦ complete h p.result p | some s ↦ handle s p ]

  -- The loop ends when the processor has completed.
  unfoldable pub step_loop : ℕ → Processor V W → Processor V W
  unfolding step
  step_loop zero p = p
  step_loop (suc f) p =
      let further = step_loop f (step p) in elim p.current_state [ none ↦ p | some s ↦ further ]

  -- start, on a processor whose cursor is set, with the state of the scope to start in; the error for
  -- an evaluation without a scope is left out.
  unfoldable pub start_in : State → Bool → Processor V W → Processor V W
  unfolding push
  start_in state scanning p =
      record (push h s_complete
        (record p { stack = []; current_state = some state; skipping = scanning })) {
          result = none;
          older_result = none;
        }

  -- The states of the scopes.
  abbrev pub start_expression : Bool → Processor V W → Processor V W
  start_expression scanning p = start_in s_expression scanning p

  abbrev pub start_script : Bool → Processor V W → Processor V W
  start_script scanning p = start_in s_body scanning p

  abbrev pub start_source : Bool → Processor V W → Processor V W
  start_source scanning p = start_in s_declarations scanning p

  abbrev pub start_block : Bool → Processor V W → Processor V W
  start_block scanning p = start_in s_block scanning p
