-- ===== src/Script/Processor/Stack.antt =====
-- Completion, errors and the stack of class SourceProcessor (p44script.cpp).
use p44utils.Prelude.{
  Bool, true, false, not, ◌&&◌, ◌||◌, Option, none, some, List, [], ◌∷◌, if◌then◌else◌,
}
use p44utils.Script.Cursor.{Cursor, is_eot, skip_non_code}
use p44utils.Script.Processor.State.{
  State, StackFrame, Processor, Fault, Hooks, stack_empty, trailing_garbage, s_try_statement,
  s_expr_first_term, s_func_arg, s_assign_expression, s_valid_result, s_valid_result_check,
  same_state,
}

module _ {V W : Type 0} (h : Hooks V W) where
  unfoldable pub complete : Option V → Processor V W → Processor V W
  unfolding skip_non_code is_eot
  complete none p = record p { result = some h.values.null_value; stack = []; current_state = none }
  complete (some v) p =
      let at = skip_non_code p.src in
      let checks = not (h.values.is_err v) && p.expression_flag in
      record p {
        src = if checks then at else p.src;
        result =
            some
              (if checks && not (is_eot at) then h.values.error_value trailing_garbage at else v);
        stack = [];
        current_state = none;
      }

  unfoldable pub push : State → Processor V W → Processor V W
  push return_to p = record p {
    stack =
        record {
          src = p.src;
          skipping = p.skipping;
          return_to_state = return_to;
          result = p.result;
          helper = p.helper;
          precedence = p.precedence;
          pending_operation = p.pending_operation;
        }
        ∷ p.stack;
  }

  -- The frame that is popped, and the stack below it.
  abbrev pub pop_frame : StackFrame V → List (StackFrame V) → Processor V W → Processor V W
  pop_frame s below p = record p {
    skipping = s.skipping;
    helper = s.helper;
    precedence = s.precedence;
    pending_operation = s.pending_operation;
    popped_src = s.src;
    older_result = s.result;
    current_state = some s.return_to_state;
    stack = below;
  }

  unfoldable pub pop : Processor V W → Processor V W
  unfolding complete
  pop p = elim p.stack [
    | [] ↦ complete (some (h.values.error_value stack_empty p.src)) p
    | s ∷ below ↦ pop_frame s below p
  ]

  abbrev pub thrown_or : Option V → Option V → Option V
  thrown_or none o = o
  thrown_or (some v) o = some v

  -- The frames down to the one that returns to `state`, made skipping, with the value thrown in it.
  unfoldable pub skip_frames : State → Option V → List (StackFrame V) → Option (List (StackFrame V))
  skip_frames state thrown [] = none
  skip_frames state thrown (s ∷ below) =
      let further = skip_frames state thrown below in
      if same_state s.return_to_state state
      then some (record s { skipping = true; result = thrown_or thrown s.result } ∷ below)
      else elim further [ none ↦ none | some frames ↦ some (record s { skipping = true } ∷ frames) ]

  -- The stack from the topmost frame that returns to `state` on.
  unfoldable pub unwound_to : State → List (StackFrame V) → Option (List (StackFrame V))
  unwound_to state [] = none
  unwound_to state (s ∷ below) =
      let further = unwound_to state below in
      if same_state s.return_to_state state then some (s ∷ below) else further

  unfoldable pub throw_or_complete : V → Processor V W → Processor V W
  unfolding complete skip_frames
  throw_or_complete e p =
      let thrown = record p { result = some e } in
      let passed = record p { result = some (h.values.caught e) } in
      if h.values.is_fatal e
      then complete (some e) thrown
      else if p.skipping
      then passed
      else elim (skip_frames s_try_statement (some (h.values.caught e)) p.stack) [
        | none ↦ complete (some e) thrown
        | some frames ↦ record passed { stack = frames; skipping = true }
      ]

  unfoldable pub exit_with_syntax_error : Fault → Processor V W → Processor V W
  unfolding throw_or_complete
  exit_with_syntax_error fault p = throw_or_complete (h.values.error_value fault p.src) p

  -- checkAndResume, of the class and of ScriptCodeThread.
  unfoldable pub check_and_resume : Processor V W → Processor V W
  unfolding complete throw_or_complete
  check_and_resume p = elim p.result [
    | none ↦ p
    | some v ↦
        if not (h.values.is_err v)
        then p
        else if not h.runs_thread
        then complete (some v) p
        else if not (h.values.is_caught v)
        then throw_or_complete v p
        else p
  ]

  -- Whether the state that was popped wants an original that the value keeps.
  abbrev pub wants_original : Option State → Bool
  wants_original none = false
  wants_original (some s) =
      same_state s s_expr_first_term
      || (same_state s s_func_arg || same_state s s_assign_expression)

  abbrev pub replaced : Bool → V → Option V → V
  replaced keeps v none = v
  replaced keeps v (some actual) = if keeps then v else actual

  -- The value behind a result, with a position where it is an error.
  abbrev pub valid_value : Option State → Cursor → V → V
  valid_value state src v =
      let u =
        replaced (h.values.keeps_original v && wants_original state) v (h.values.actual_value v) in
      if h.values.is_err u && not (h.values.has_cursor u) then h.values.at_position src u else u

  abbrev pub valid_result : Option State → Cursor → Option V → Option V
  valid_result state src none = none
  valid_result state src (some v) = some (valid_value state src v)

  unfoldable pub pop_with_valid_result : Bool → Processor V W → Processor V W
  unfolding pop check_and_resume
  pop_with_valid_result throws p =
      let q = pop p in
      let r = record q { result = valid_result q.current_state q.src q.result } in
      if throws then check_and_resume r else r

  abbrev pub is_valid : Option V → Bool
  is_valid none = true
  is_valid (some v) = elim (h.values.actual_value v) [ none ↦ h.values.is_lvalue v | some u ↦ true ]

  -- resume with a result.
  abbrev pub resume_with : Option V → Processor V W → Processor V W
  resume_with none p = p
  resume_with (some v) p = record p { result = some v }

  abbrev pub make_valid : Option V → Processor V W → Processor V W
  make_valid none p = p
  make_valid (some v) p = resume_with (h.values.made_valid v) p

  unfoldable pub pop_with_result : Bool → Processor V W → Processor V W
  unfolding pop_with_valid_result
  pop_with_result throws p =
      if p.skipping || is_valid p.result
      then pop_with_valid_result throws p
      else make_valid p.result (record p {
        current_state = some (if throws then s_valid_result_check else s_valid_result);
      })
