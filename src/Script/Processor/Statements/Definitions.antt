-- ===== src/Script/Processor/Statements/Definitions.antt =====
-- Definitions of variables, and unset (p44script.cpp).
use Prim.Native.Nat.{bit_or}
use p44utils.Prelude.{ℕ, Bool, false, not, ◌||◌, Option, none, some, List, ◌==◌, if◌then◌else◌}
use p44utils.Script.Cursor.{Cursor, skip_non_code, check_for_identifier, parse_identifier}
use p44utils.Script.Operators.{OperatorMode, parse_operator, op_none, op_assign, op_assign_or_eq}
use p44utils.Script.Processor.State.{
  State, Processor, Hooks, s_assign_expression, s_assign_default, s_assign_older, s_nothrow_result,
  missing_variable_name, no_initializer_allowed, statement_end_expected,
}
use p44utils.Script.Processor.Stack.{push, exit_with_syntax_error}
use p44utils.Script.Processor.Terms.{op_delete, has_flag, assign_or_access}
use p44utils.Script.Processor.Statements.Keywords.{
  word_default, unset_member_flag, only_create, global,
}

module _ {V W : Type 0} (mode : OperatorMode) (h : Hooks V W) where
  -- Behind the name, without an initializer.
  unfoldable pub uninitialized_variable : ℕ → Processor V W → Processor V W
  unfolding check_for_identifier push
  uninitialized_variable flags p =
      let (has_default, behind) = check_for_identifier word_default p.src in
      if has_default
      then h.member_if_found (bit_or flags only_create) (record p {
        src = behind;
        skipping = if h.compiling then false else p.skipping;
        pending_operation = op_assign;
        current_state = some s_assign_default;
      })
      else h.member_by_identifier flags
          (record (push h s_assign_older
            (record p { result = some (h.uninitialized (has_flag flags global)) })) {
              current_state = some s_nothrow_result;
              result = none;
            })

  -- Behind the name, in the state that goes on.
  unfoldable pub defined_variable : State → ℕ → Bool → Processor V W → Processor V W
  unfolding push assign_or_access skip_non_code parse_operator uninitialized_variable
      exit_with_syntax_error
  defined_variable s flags assignable p =
      let q = push h s p in
      let (op, behind) = parse_operator mode (skip_non_code q.src) in
      let r = record q { src = behind } in
      if has_flag flags unset_member_flag
      then assign_or_access mode h 0 (record q { pending_operation = op_delete })
      else if op == op_assign || op == op_assign_or_eq
      then (if not assignable
          then exit_with_syntax_error h no_initializer_allowed r
          else h.member_by_identifier flags
              (record r { pending_operation = op; current_state = some s_assign_expression }))
      else if op == op_none
      then uninitialized_variable flags r
      else exit_with_syntax_error h statement_end_expected r

  unfoldable pub named_variable :
      State → ℕ → Bool → Option (List ℕ × Cursor) → Processor V W → Processor V W
  unfolding defined_variable exit_with_syntax_error
  named_variable s flags assignable none p = exit_with_syntax_error h missing_variable_name p
  named_variable s flags assignable (some found) p =
      defined_variable s flags assignable (record p { identifier = found.0; src = found.1 })

  unfoldable pub process_var_defs : State → ℕ → Bool → Processor V W → Processor V W
  unfolding skip_non_code parse_identifier named_variable
  process_var_defs s flags assignable p =
      let at = skip_non_code p.src in
      named_variable s flags assignable (parse_identifier at) (record p { src = at })
