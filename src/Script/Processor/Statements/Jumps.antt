-- ===== src/Script/Processor/Statements/Jumps.antt =====
-- What statements have in common, break, continue and return (processStatement, p44script.cpp).
use p44utils.Prelude.{ℕ, Bool, true, false, not, ◌&&◌, none, some, List, ◌==◌, if◌then◌else◌}
use p44utils.Script.Cursor.{char_at, is_eot, same_upper}
use p44utils.Script.Processor.State.{
  State, Processor, Hooks, Helper, same_state, for_each, for_while, no_helper, s_no_statement,
  s_one_statement, s_foreach_statement, s_loop_body_done, s_expression, s_assignment_expression,
  s_result, s_complete, outside_loop,
}
use p44utils.Script.Processor.Stack.{
  complete, push, pop, skip_frames, unwound_to, exit_with_syntax_error, check_and_resume,
}

abbrev pub is_each : {V : Type 0} → Helper V → Bool
is_each no_helper = false
is_each (for_while c) = false
is_each (for_each c) = true

-- Where a loop goes on behind its body.
abbrev pub loop_state : {V : Type 0} → Helper V → State
loop_state k = if is_each k then s_foreach_statement else s_loop_body_done

-- The state behind a statement.
abbrev pub after_statement : State → State
after_statement s = if same_state s s_one_statement then s_no_statement else s

abbrev pub is_word : {V W : Type 0} → List ℕ → Processor V W → Bool
is_word word p = same_upper p.identifier word

module _ {V W : Type 0} (h : Hooks V W) where
  -- On to a state, with another to return to on the stack.
  unfoldable pub nested : State → State → Processor V W → Processor V W
  unfolding push
  nested inner state p = record (push h inner p) { current_state = some state }

  unfoldable pub expression_statement : State → Processor V W → Processor V W
  unfolding nested push
  expression_statement s p = nested s_result s_assignment_expression (push h s p)

  -- skipUntilReaching without a value to throw.
  unfoldable pub break_statement : Processor V W → Processor V W
  unfolding skip_frames check_and_resume exit_with_syntax_error
  break_statement p = elim (skip_frames h (loop_state p.helper) none p.stack) [
    | none ↦ exit_with_syntax_error h outside_loop p
    | some frames ↦ check_and_resume h (record p { stack = frames; skipping = true })
  ]

  -- unWindStackTo
  unfoldable pub continue_statement : Processor V W → Processor V W
  unfolding unwound_to pop check_and_resume exit_with_syntax_error
  continue_statement p = elim (unwound_to h (loop_state p.helper) p.stack) [
    | none ↦ exit_with_syntax_error h outside_loop p
    | some frames ↦ check_and_resume h (pop h (record p { stack = frames }))
  ]

  -- With the line that the statement starts in.
  unfoldable pub return_statement : State → ℕ → Processor V W → Processor V W
  unfolding is_eot push check_and_resume complete
  return_statement s line p =
      let value = record p { current_state = some s_expression } in
      if not (is_eot p.src) && (not (char_at 0 p.src == b';') && p.src.line == line)
      then (if p.skipping
          then check_and_resume h (push h s_result (push h s value))
          else check_and_resume h (push h s_complete value))
      else if not p.skipping
      then complete h (some h.values.null_value) (record p { result = some h.values.null_value })
      else check_and_resume h p
