-- ===== src/Script/Processor/Members.antt =====
-- Members of a value: names, subscripts and function calls (p44script.cpp). What the functions of the
-- values do with a member, an argument or a call goes on at once.
use Prim.Native.Nat.{bit_or}
use p44utils.Prelude.{false, ℕ, not, ◌&&◌, Option, none, some, ◌==◌, if◌then◌else◌}
use p44utils.Script.Cursor.{char_at, next_if, next_code_if, skip_non_code}
use p44utils.Script.Operators.{OperatorMode, parse_operator}
use p44utils.Script.Processor.State.{
  Processor, Hooks, missing_bracket, missing_argument_end, s_member, s_expression, s_unset_member,
  s_assign_expression, s_valid_result, s_subscript_arg, s_next_subscript, s_func_context,
  s_func_arg, s_func_exec,
}
use p44utils.Script.Processor.Stack.{
  push, exit_with_syntax_error, check_and_resume, pop_with_valid_result,
}
use p44utils.Script.Processor.Terms.{op_delete, lvalue, create, is_assignment, sub_member}

module _ {V W : Type 0} (mode : OperatorMode) (h : Hooks V W) where
  abbrev pub next_index : Option V → ℕ
  next_index none = 0
  next_index (some v) = h.values.indexed_members v

  -- The member that a subscript names, or a new one behind the last.
  abbrev pub access_member : Option V → ℕ → Processor V W → Processor V W
  access_member none flags p = h.member_by_index (next_index p.result) flags p
  access_member (some v) flags p =
      if h.values.is_numeric v
      then h.member_by_index (h.values.index_of v) flags p
      else h.member_by_identifier flags (record p { identifier = h.values.string_of v })

  unfoldable pub process_subscript : ℕ → Processor V W → Processor V W
  unfolding check_and_resume skip_non_code parse_operator push
  process_subscript flags p =
      let subscript = p.result in
      let object = record p { result = p.older_result } in
      let at = record object { src = skip_non_code p.src } in
      let c = char_at 0 at.src in
      let (op, behind) = parse_operator mode p.src in
      if p.skipping
      then check_and_resume h p
      else if p.pending_operation == op_delete
      then (if not (c == b'.') && not (c == b'[')
          then access_member subscript (bit_or flags lvalue)
              (record at { current_state = some s_unset_member })
          else access_member subscript flags at)
      else if p.precedence == 0 && is_assignment op
      then access_member subscript (bit_or flags lvalue)
          (record (push h s_assign_expression
            (record object { src = behind; pending_operation = op })) {
              current_state = some s_valid_result;
            })
      else access_member subscript flags object

  unfoldable pub subscript_arg : Processor V W → Processor V W
  unfolding process_subscript next_code_if next_if skip_non_code exit_with_syntax_error
  subscript_arg p =
      let (closed, behind) = next_code_if b']' p.src in
      let (comma, further) = next_if b',' behind in
      if closed
      then process_subscript create (record p { src = behind; current_state = some s_member })
      else if comma
      then process_subscript 0
          (record p { src = skip_non_code further; current_state = some s_next_subscript })
      else exit_with_syntax_error h missing_bracket (record p { src = behind })

  unfoldable pub next_subscript : Processor V W → Processor V W
  unfolding push check_and_resume
  next_subscript p =
      check_and_resume h (record (push h s_subscript_arg p) { current_state = some s_expression })

  -- Behind an opening bracket.
  unfoldable pub subscript : Processor V W → Processor V W
  unfolding process_subscript next_if skip_non_code push
  subscript p =
      let at = record p { src = skip_non_code p.src } in
      let (closed, behind) = next_if b']' at.src in
      if closed
      then process_subscript create
          (record at { src = behind; older_result = p.result; result = none })
      else record (push h s_subscript_arg at) { current_state = some s_expression }

  -- Behind the opening parenthesis of a call.
  unfoldable pub function_call : Processor V W → Processor V W
  unfolding skip_non_code
  function_call p =
      let q = record p { src = skip_non_code p.src; current_state = some s_func_context } in
      if not p.skipping then h.new_function_call_context q else q

  unfoldable pub func_context : Processor V W → Processor V W
  unfolding next_if push
  func_context p =
      let (closed, behind) = next_if b')' p.src in
      if closed
      then record p { src = behind; current_state = some s_func_exec }
      else record (push h s_func_arg p) { current_state = some s_expression }

  unfoldable pub apply_argument : Option V → Processor V W → Processor V W
  unfolding check_and_resume
  apply_argument arg p = if p.skipping then check_and_resume h p else h.push_function_argument arg p

  unfoldable pub func_arg : Processor V W → Processor V W
  unfolding apply_argument next_code_if next_if skip_non_code push exit_with_syntax_error
  func_arg p =
      let q = record p { result = p.older_result } in
      let (closed, behind) = next_code_if b')' p.src in
      let (comma, further) = next_if b',' behind in
      if closed
      then apply_argument p.result (record q { src = behind; current_state = some s_func_exec })
      else if comma
      then apply_argument p.result
          (record (push h s_func_arg (record q { src = skip_non_code further })) {
            current_state = some s_expression;
          })
      else exit_with_syntax_error h missing_argument_end (record q { src = behind })

  unfoldable pub func_exec : Processor V W → Processor V W
  unfolding check_and_resume
  func_exec p =
      let q = record p { current_state = some s_member } in
      if p.skipping then check_and_resume h q else h.execute_result q

  unfoldable pub member : Processor V W → Processor V W
  unfolding next_if sub_member subscript function_call pop_with_valid_result
  member p =
      let (dot, behind_dot) = next_if b'.' p.src in
      let (bracket, behind_bracket) = next_if b'[' p.src in
      let (call, behind_call) = next_if b'(' p.src in
      if dot
      then sub_member mode h (record p { src = behind_dot })
      else if bracket
      then subscript (record p { src = behind_bracket })
      else if call
      then function_call (record p { src = behind_call })
      else pop_with_valid_result h false (h.member_event_check p)
