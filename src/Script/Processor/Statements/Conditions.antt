-- ===== src/Script/Processor/Statements/Conditions.antt =====
-- if, else, try and catch (p44script.cpp).
use p44utils.Prelude.{ℕ, ◌+◌, not, Option, none, some, List, if◌then◌else◌, is_some}
use p44utils.Script.Cursor.{
  Cursor, next_code_if, skip_non_code, check_for_identifier, parse_identifier,
}
use p44utils.Script.Processor.State.{
  Processor, Hooks, s_if_condition, s_if_true_statement, s_one_statement, s_expression,
  s_assign_older, s_nothrow_result, missing_condition_end, missing_keyword_parenthesis,
  missing_catch, missing_variable_name,
}
use p44utils.Script.Processor.Stack.{push, pop, exit_with_syntax_error, check_and_resume}
use p44utils.Script.Processor.Terms.{lvalue, create}
use p44utils.Script.Processor.Statements.Keywords.{
  word_else, word_if, word_catch, word_as, thread_local, truth_of, error_of,
}

module _ {V W : Type 0} (h : Hooks V W) where
  -- Skipping, and the result that lets an else follow.
  abbrev pub decided : Processor V W → Processor V W
  decided p =
      if not p.skipping
      then record p {
        skipping = not (truth_of h p.result);
        result = if truth_of h p.result then none else p.result;
      }
      else record p { result = none }

  unfoldable pub if_condition : Processor V W → Processor V W
  unfolding next_code_if push exit_with_syntax_error
  if_condition p =
      let (closed, behind) = next_code_if b')' p.src in
      let q = record p { src = behind } in
      if closed
      then record (push h s_if_true_statement (decided q)) { current_state = some s_one_statement }
      else exit_with_syntax_error h missing_condition_end q

  unfoldable pub if_true_statement : Processor V W → Processor V W
  unfolding skip_non_code check_for_identifier next_code_if push pop exit_with_syntax_error
  if_true_statement p =
      let at = skip_non_code p.src in
      let (has_else, behind) = check_for_identifier word_else at in
      let q = record p { src = skip_non_code behind; skipping = not (is_some p.older_result) } in
      let (has_if, condition) = check_for_identifier word_if q.src in
      let (opened, inside) = next_code_if b'(' condition in
      let chained = record q { src = inside } in
      if has_else
      then (if has_if
          then (if opened
              then record (push h s_if_condition (record chained { result = p.older_result })) {
                current_state = some s_expression;
              }
              else exit_with_syntax_error h missing_keyword_parenthesis chained)
          else record q { current_state = some s_one_statement })
      else pop h (record p { src = at })

  -- Behind `as`: the variable for the error.
  unfoldable pub catch_variable : Option (List ℕ × Cursor) → Processor V W → Processor V W
  unfolding push exit_with_syntax_error check_and_resume
  catch_variable none p = exit_with_syntax_error h missing_variable_name p
  catch_variable (some found) p =
      let q = record p { identifier = found.0; src = found.1 } in
      if not q.skipping
      then h.member_by_identifier (lvalue + create + thread_local)
          (record (push h s_assign_older
            (push h s_one_statement (record q { result = q.older_result }))) {
              current_state = some s_nothrow_result;
              result = none;
            })
      else check_and_resume h q

  unfoldable pub try_statement : Processor V W → Processor V W
  unfolding skip_non_code check_for_identifier parse_identifier catch_variable check_and_resume
      exit_with_syntax_error
  try_statement p =
      let at = skip_non_code p.src in
      let (has_catch, behind) = check_for_identifier word_catch at in
      let q = record p {
        src = skip_non_code behind;
        skipping = not (error_of h p.older_result);
        current_state = some s_one_statement;
      } in
      let (has_as, further) = check_for_identifier word_as q.src in
      let name = skip_non_code further in
      if has_catch
      then (if has_as
          then catch_variable (parse_identifier name) (record q { src = name })
          else check_and_resume h q)
      else exit_with_syntax_error h missing_catch (record p { src = at })
