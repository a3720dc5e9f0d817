-- ===== src/Script/Processor/Statements/Process.antt =====
-- Statements by their keywords (processStatement, p44script.cpp). Threads, function and event handler
-- definitions and includes go on in the handlers that are left out: `other` 2 to 7.
use p44utils.Prelude.{
  ℕ, zero, suc, ◌+◌, true, false, not, ◌&&◌, Option, none, some, List, length, if◌then◌else◌,
}
use p44utils.Script.Cursor.{
  Cursor, is_eot, next_if, next_code_if, skip_non_code, parse_identifier, check_for_identifier,
}
use p44utils.Script.Operators.{OperatorMode}
use p44utils.Script.Processor.State.{
  State, Processor, Hooks, same_state, for_while, s_other, s_one_statement, s_block, s_body,
  s_included, s_if_condition, s_try_statement, s_foreach_target, s_loop_init, s_loop_condition,
  s_expression, unexpected_end, unexpected_brace, missing_keyword_parenthesis, misplaced_catch,
  misplaced_else, missing_function_keyword,
}
use p44utils.Script.Processor.Stack.{complete, push, pop, exit_with_syntax_error, check_and_resume}
use p44utils.Script.Processor.Terms.{lvalue, create}
use p44utils.Script.Processor.Statements.Keywords.{
  word_if, word_else, word_foreach, word_for, word_while, word_break, word_continue, word_return,
  word_try, word_catch, word_concurrent, word_var, word_threadvar, word_global, word_function,
  word_on, word_glob, word_let, word_unset, word_local, word_include, thread_local, global,
  unset_member_flag,
}
use p44utils.Script.Processor.Statements.Jumps.{
  after_statement, is_word, nested, expression_statement, break_statement, continue_statement,
  return_statement,
}
use p44utils.Script.Processor.Statements.Loops.{new_controller}
use p44utils.Script.Processor.Statements.Definitions.{process_var_defs}

module _ {V W : Type 0} (mode : OperatorMode) (h : Hooks V W) where
  -- global, with its keyword read.
  unfoldable pub global_statement : State → Processor V W → Processor V W
  unfolding skip_non_code check_for_identifier process_var_defs
  global_statement s p =
      let at = skip_non_code p.src in
      let (is_function, code) = check_for_identifier word_function at in
      let (is_handler, trigger) = check_for_identifier word_on at in
      if is_function
      then h.other 3 (record p { src = code })
      else if is_handler
      then h.other 5 (record p { src = trigger })
      else process_var_defs mode h s (lvalue + create + global) false (record p { src = at })

  unfoldable pub local_statement : Processor V W → Processor V W
  unfolding skip_non_code check_for_identifier exit_with_syntax_error
  local_statement p =
      let at = skip_non_code p.src in
      let (is_function, code) = check_for_identifier word_function at in
      if is_function
      then h.other 4 (record p { src = code })
      else exit_with_syntax_error h missing_function_keyword (record p { src = at })

  -- Definitions, and what is no keyword, which starts at `start`.
  unfoldable pub definition_statement : State → Cursor → Processor V W → Processor V W
  unfolding process_var_defs global_statement local_statement skip_non_code expression_statement
      nested push exit_with_syntax_error
  definition_statement s start p =
      if is_word word_var p
      then process_var_defs mode h s (lvalue + create) true p
      else if is_word word_threadvar p
      then process_var_defs mode h s (lvalue + create + thread_local) true p
      else if is_word word_global p
      then global_statement s p
      else if is_word word_glob p
      then process_var_defs mode h s (lvalue + create + global) false p
      else if is_word word_let p
      then expression_statement h s (record p { src = skip_non_code p.src })
      else if is_word word_unset p
      then process_var_defs mode h s unset_member_flag false p
      else if is_word word_local p
      then local_statement p
      else if is_word word_on p
      then h.other 6 p
      else if is_word word_else p
      then exit_with_syntax_error h misplaced_else p
      else if is_word word_function p
      then h.other 3 p
      else if is_word word_include p
      then nested h (s_other 7) s_expression (push h s (record p { src = skip_non_code p.src }))
      else expression_statement h s (record p { src = start })

  -- From break on.
  unfoldable pub jump_statement : State → Cursor → Processor V W → Processor V W
  unfolding break_statement continue_statement return_statement nested push definition_statement
      exit_with_syntax_error
  jump_statement s start p =
      if is_word word_break p && not p.skipping
      then break_statement h p
      else if is_word word_continue p && not p.skipping
      then continue_statement h p
      else if is_word word_return p
      then return_statement h s start.line p
      else if is_word word_try p
      then nested h s_try_statement s_one_statement (push h s p)
      else if is_word word_catch p
      then exit_with_syntax_error h misplaced_catch p
      else if is_word word_concurrent p
      then h.other 2 p
      else definition_statement s start p

  unfoldable pub keyword_statement : State → Cursor → Processor V W → Processor V W
  unfolding next_if nested push skip_non_code exit_with_syntax_error jump_statement
  keyword_statement s start p =
      let (opened, inside) = next_if b'(' p.src in
      let q = push h s (record p { src = inside }) in
      let first = skip_non_code inside in
      if is_word word_if p
      then (if opened
          then nested h s_if_condition s_expression q
          else exit_with_syntax_error h missing_keyword_parenthesis p)
      else if is_word word_foreach p
      then nested h s_foreach_target s_expression (push h s p)
      else if is_word word_for p
      then (if opened
          then nested h s_loop_init s_one_statement (record q {
            src = first;
            helper = for_while (record (new_controller first) { is_for = true });
          })
          else exit_with_syntax_error h missing_keyword_parenthesis p)
      else if is_word word_while p
      then (if opened
          then nested h s_loop_condition s_expression
              (record q { helper = for_while (new_controller inside) })
          else exit_with_syntax_error h missing_keyword_parenthesis p)
      else jump_statement s start p

  -- At the beginning of a statement.
  unfoldable pub statement : State → Option (List ℕ × Cursor) → Processor V W → Processor V W
  unfolding keyword_statement expression_statement skip_non_code
  statement s none p = expression_statement h s p
  statement s (some found) p =
      keyword_statement s p.src (record p { identifier = found.0; src = skip_non_code found.1 })

  unfoldable pub end_of_code : State → Processor V W → Processor V W
  unfolding pop complete exit_with_syntax_error
  end_of_code s p =
      let q = pop h p in
      if same_state s s_included
      then record q { src = q.popped_src }
      else if not (same_state s s_body)
      then exit_with_syntax_error h unexpected_end p
      else complete h (if p.implicit_return then p.result else none) p

  unfoldable pub process_statement : State → Processor V W → Processor V W
  unfolding skip_non_code is_eot next_if end_of_code nested pop check_and_resume
      exit_with_syntax_error parse_identifier statement
  process_statement s p =
      let at = record p { src = skip_non_code p.src } in
      let (opened, inside) = next_if b'{' at.src in
      let (closed, behind) = next_if b'}' at.src in
      let (separated, further) = next_if b';' at.src in
      let start = record at {
        src = if separated then skip_non_code further else at.src;
        result = none;
        current_state = some (after_statement s);
      } in
      if is_eot at.src
      then end_of_code s at
      else if opened
      then nested h (after_statement s) s_block (record at { src = inside })
      else if closed
      then (if same_state s s_block
          then check_and_resume h (pop h (record at { src = behind }))
          else exit_with_syntax_error h unexpected_brace (record at { src = behind }))
      else if separated && same_state s s_one_statement
      then check_and_resume h (record at { src = further })
      else statement (after_statement s) (parse_identifier start.src) start

  unfoldable pub no_statement : Processor V W → Processor V W
  unfolding next_code_if pop check_and_resume
  no_statement p =
      let (separated, behind) = next_code_if b';' p.src in
      check_and_resume h (pop h (record p { src = if separated then behind else p.src }))

  -- Empty statements in front of declarations; as many rounds as characters are left are enough.
  unfoldable pub skip_separators : ℕ → Cursor → Cursor
  unfolding skip_non_code next_if
  skip_separators zero a = a
  skip_separators (suc f) a =
      let at = skip_non_code a in
      let (separated, behind) = next_if b';' at in
      let further = skip_separators f behind in if separated then further else at

  unfoldable pub declarations : Processor V W → Processor V W
  unfolding skip_separators
  declarations p = h.start_of_body_code (record p {
    src = skip_separators (suc (length p.src.rest)) p.src;
    current_state = some s_body;
  })
