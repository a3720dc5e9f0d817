-- ===== src/Script/Processor/State.antt =====
-- The members of class SourceProcessor, and what it uses of values and of its subclasses
-- (p44script.cpp, p44script.hpp). The contexts of function calls are left out.
use p44utils.Prelude.{◌==◌, ◌+◌, ℕ, Bool, Option, List}
use p44utils.Script.Cursor.{Cursor}
use p44utils.Script.Literals.{Literal}

-- The handlers of the states; `s_other` stands for those of object and array
-- literals, threads, function and event handler definitions and includes, by number.
pub data State : Type 0 where
  s_assignment_expression s_expression s_sub_expression s_grouped_expression : State
  s_simple_term s_member s_expr_first_term s_expr_left_side s_expr_right_side : State
  s_assign_expression s_compound_assignment s_check_and_assign_lvalue s_assign_lvalue : State
  s_unset_member s_assign_older s_assign_default : State
  s_result s_nothrow_result s_valid_result s_valid_result_check s_unchecked_result : State
  s_subscript_arg s_next_subscript s_func_context s_func_arg s_func_exec : State
  s_no_statement s_one_statement s_block s_body s_included s_declarations : State
  s_if_condition s_if_true_statement s_try_statement : State
  s_foreach_target s_foreach_loop_var1 s_foreach_loop_vars s_foreach_loop_start : State
  s_foreach_loop_iteration s_foreach_key_needed s_foreach_body s_foreach_statement : State
  s_loop_init s_loop_condition s_loop_next s_loop_body s_loop_body_done : State
  s_loop_recheck s_loop_end : State
  s_complete : State
  s_other : ℕ → State

pub record ForWhileController : Type 0 where
  pub loop_condition : Cursor
  pub loop_next : Cursor
  pub loop_body : Cursor
  pub is_for : Bool

-- The iterator is a value.
pub record ForEachController (V : Type 0) : Type 0 where
  pub iterator : V
  pub loop_value : Option V
  pub loop_key : Option V

-- The object that mStatementHelper points to. It is changed only through the processor's pointer, and
-- the frames that hold the pointer too are pushed behind the change.
pub data Helper (V : Type 0) : Type 0 where
  no_helper : Helper V
  for_while : ForWhileController → Helper V
  for_each : ForEachController V → Helper V

pub record StackFrame (V : Type 0) : Type 0 where
  pub src : Cursor
  pub skipping : Bool
  pub return_to_state : State
  pub result : Option V
  pub helper : Helper V
  pub precedence : ℕ
  pub pending_operation : ℕ

-- The top of the stack is the first frame. `expression_flag` and
-- `implicit_return` are bits of mEvaluationFlags, and the world is what evaluation can change outside.
pub record Processor (V W : Type 0) : Type 0 where
  pub src : Cursor
  pub popped_src : Cursor
  pub current_state : Option State
  pub result : Option V
  pub older_result : Option V
  pub precedence : ℕ
  pub pending_operation : ℕ
  pub skipping : Bool
  pub stack : List (StackFrame V)
  pub helper : Helper V
  pub identifier : List ℕ
  pub expression_flag : Bool
  pub implicit_return : Bool
  pub world : W

-- What an error value is made for.
pub data Fault : Type 0 where
  stack_empty trailing_garbage invalid_unary missing_parenthesis nested_assignment : Fault
  misplaced_not invalid_compound missing_identifier : Fault
  missing_bracket missing_argument_end unexpected_end unexpected_brace : Fault
  missing_keyword_parenthesis outside_loop misplaced_catch misplaced_else : Fault
  missing_variable_name no_initializer_allowed statement_end_expected : Fault
  missing_function_keyword missing_condition_end missing_as missing_catch : Fault
  missing_separator : Fault
  bad_string : Literal → Fault

-- Class ScriptObj and its subclasses, as the processor uses them.
pub record Values (V : Type 0) : Type 0 where
  pub error_value : Fault → Cursor → V
  pub is_err : V → Bool
  pub is_fatal : V → Bool
  pub is_caught : V → Bool
  pub caught : V → V
  pub has_cursor : V → Bool
  pub at_position : Cursor → V → V
  pub actual_value : V → Option V
  pub made_valid : V → Option V
  pub calculation_value : V → V
  pub assignment_value : V → V
  pub is_lvalue : V → Bool
  pub keeps_original : V → Bool
  pub defined : V → Bool
  pub null_value : V
  pub bool_value : Bool → V
  pub text_value : List ℕ → V
  pub integer_value : ℕ → V
  pub truth : V → Bool
  pub is_numeric : V → Bool
  pub index_of : V → ℕ
  pub string_of : V → List ℕ
  pub indexed_members : V → ℕ
  pub negated : V → V
  pub equal : V → V → Bool
  pub not_equal : V → V → Bool
  pub divide : V → V → V
  pub modulo : V → V → V
  pub multiply : V → V → V
  pub add : V → V → V
  pub subtract : V → V → V
  pub less : V → V → Bool
  pub greater : V → V → Bool
  pub at_most : V → V → Bool
  pub at_least : V → V → Bool
  pub both : V → V → Bool
  pub either : V → V → Bool

-- The virtual functions of the class, parseNumericLiteral, and the handlers that are left out: a
-- handler that goes on there does so at once.
pub record Hooks (V W : Type 0) : Type 0 where
  pub values : Values V
  pub runs_thread : Bool
  pub numeric_literal : Cursor → V × Cursor
  pub scan_hex : List ℕ → Option ℕ
  pub member_by_identifier : ℕ → Processor V W → Processor V W
  pub member_if_found : ℕ → Processor V W → Processor V W
  pub compiling : Bool
  pub start_of_body_code : Processor V W → Processor V W
  pub uninitialized : Bool → V
  pub new_iterator : V → V
  pub iterator_reset : V → V
  pub iterator_next : V → V
  pub obtain_value : V → Option V
  pub obtain_key : V → Option V
  pub member_by_index : ℕ → ℕ → Processor V W → Processor V W
  pub new_function_call_context : Processor V W → Processor V W
  pub push_function_argument : Option V → Processor V W → Processor V W
  pub execute_result : Processor V W → Processor V W
  pub member_event_check : Processor V W → Processor V W
  pub assign_lvalue : V → Option V → W → Option V × W
  pub other : ℕ → Processor V W → Processor V W

-- Handlers are compared as pointers.
abbrev pub number_of : State → ℕ
number_of s_assignment_expression = 0
number_of s_expression = 1
number_of s_sub_expression = 2
number_of s_grouped_expression = 3
number_of s_simple_term = 4
number_of s_member = 5
number_of s_expr_first_term = 6
number_of s_expr_left_side = 7
number_of s_expr_right_side = 8
number_of s_assign_expression = 9
number_of s_compound_assignment = 10
number_of s_check_and_assign_lvalue = 11
number_of s_assign_lvalue = 12
number_of s_unset_member = 13
number_of s_assign_older = 14
number_of s_assign_default = 15
number_of s_result = 16
number_of s_nothrow_result = 17
number_of s_valid_result = 18
number_of s_valid_result_check = 19
number_of s_unchecked_result = 20
number_of s_subscript_arg = 21
number_of s_next_subscript = 22
number_of s_func_context = 23
number_of s_func_arg = 24
number_of s_func_exec = 25
number_of s_no_statement = 26
number_of s_one_statement = 27
number_of s_block = 28
number_of s_body = 29
number_of s_included = 30
number_of s_declarations = 31
number_of s_if_condition = 32
number_of s_if_true_statement = 33
number_of s_try_statement = 34
number_of s_foreach_target = 35
number_of s_foreach_loop_var1 = 36
number_of s_foreach_loop_vars = 37
number_of s_foreach_loop_start = 38
number_of s_foreach_loop_iteration = 39
number_of s_foreach_key_needed = 40
number_of s_foreach_body = 41
number_of s_foreach_statement = 42
number_of s_loop_init = 43
number_of s_loop_condition = 44
number_of s_loop_next = 45
number_of s_loop_body = 46
number_of s_loop_body_done = 47
number_of s_loop_recheck = 48
number_of s_loop_end = 49
number_of s_complete = 50
number_of (s_other n) = 51 + n

abbrev pub same_state : State → State → Bool
same_state a b = number_of a == number_of b
