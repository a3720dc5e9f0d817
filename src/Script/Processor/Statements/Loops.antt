-- ===== src/Script/Processor/Statements/Loops.antt =====
-- for and while (p44script.cpp).
use p44utils.Prelude.{true, false, not, ◌&&◌, ◌||◌, some, if◌then◌else◌}
use p44utils.Script.Cursor.{Cursor, next_if, next_code_if, skip_non_code}
use p44utils.Script.Processor.State.{
  Processor, Hooks, Helper, ForWhileController, no_helper, for_while, for_each, s_one_statement,
  s_expression, s_loop_condition, s_loop_next, s_loop_body_done, s_loop_recheck, s_loop_end,
  missing_condition_end, missing_separator,
}
use p44utils.Script.Processor.Stack.{push, pop, exit_with_syntax_error, check_and_resume}
use p44utils.Script.Processor.Statements.Keywords.{truth_of}

-- A new controller, with positions that are not set.
abbrev pub new_controller : Cursor → ForWhileController
new_controller a = record { loop_condition = a; loop_next = a; loop_body = a; is_for = false }

abbrev pub while_controller : {V : Type 0} → Cursor → Helper V → ForWhileController
while_controller a no_helper = new_controller a
while_controller a (for_while c) = c
while_controller a (for_each c) = new_controller a

module _ {V W : Type 0} (h : Hooks V W) where
  abbrev pub controller : Processor V W → ForWhileController
  controller p = while_controller p.src p.helper

  unfoldable pub loop_init : Processor V W → Processor V W
  unfolding push
  loop_init p =
      record (push h s_loop_condition
        (record p { helper = for_while (record (controller p) { loop_condition = p.src }) })) {
          current_state = some s_expression;
        }

  unfoldable pub loop_body : Processor V W → Processor V W
  unfolding push check_and_resume
  loop_body p =
      check_and_resume h
        (record (push h s_loop_body_done (record p {
          skipping = p.skipping || not (truth_of h p.older_result);
          helper = for_while (record (controller p) { loop_body = p.src });
        })) { current_state = some s_one_statement })

  unfoldable pub loop_condition : Processor V W → Processor V W
  unfolding skip_non_code next_if next_code_if push loop_body exit_with_syntax_error
  loop_condition p =
      let at = record p { src = skip_non_code p.src } in
      let c = controller p in
      let (separated, behind) = next_if b';' at.src in
      let last = skip_non_code behind in
      let (closed, further) = next_code_if b')' at.src in
      if c.is_for
      then (if separated
          then record (push h s_loop_next
              (record at { src = last; helper = for_while (record c { loop_next = last }) })) {
                skipping = true;
                current_state = some s_one_statement;
              }
          else exit_with_syntax_error h missing_separator at)
      else if closed
      then loop_body (record at { src = further; older_result = p.result })
      else exit_with_syntax_error h missing_condition_end (record at { src = further })

  unfoldable pub loop_next : Processor V W → Processor V W
  unfolding next_code_if loop_body exit_with_syntax_error
  loop_next p =
      let (closed, behind) = next_code_if b')' p.src in
      let q = record p { src = behind } in
      if closed then loop_body q else exit_with_syntax_error h missing_condition_end q

  unfoldable pub loop_end : Processor V W → Processor V W
  unfolding push pop check_and_resume
  loop_end p =
      if not p.skipping && truth_of h p.result
      then check_and_resume h
          (record (push h s_loop_body_done (record p { src = (controller p).loop_body })) {
            current_state = some s_one_statement;
          })
      else check_and_resume h (pop h (record p { src = p.popped_src }))

  -- The position that was popped is pushed.
  unfoldable pub loop_recheck : Processor V W → Processor V W
  unfolding push loop_end
  loop_recheck p =
      if not p.skipping
      then record (push h s_loop_end (record p { src = p.popped_src })) {
        src = (controller p).loop_condition;
        current_state = some s_expression;
      }
      else loop_end (record p { popped_src = p.src })

  unfoldable pub loop_body_done : Processor V W → Processor V W
  unfolding push loop_recheck check_and_resume
  loop_body_done p =
      if not p.skipping && (controller p).is_for
      then check_and_resume h (record (push h s_loop_recheck p) {
        src = (controller p).loop_next;
        current_state = some s_one_statement;
      })
      else loop_recheck (record p { popped_src = p.src })
