-- ===== src/Script/Processor/StatementRuns.antt =====
-- The state machine at concrete statements (p44script.cpp).
use p44utils.Script.Processor.Statements.Keywords.{word_while, word_continue, word_else}
use p44utils.Script.Processor.State.{
  unexpected_brace, s_complete, s_body, Processor, Hooks, outside_loop, for_while, s_no_statement,
  s_loop_body_done,
}
use p44utils.Script.Processor.Catching.{Misses}
use p44utils.Prelude.{
  ◌⊎◌, ℕ, ◌+◌, ◌-◌, ◌≡◌, refl, true, false, some, List, [], ◌∷◌, ◌++◌, if◌then◌else◌,
}
use p44utils.Script.Cursor.{check_for_identifier, skip_non_code, next_code_if, Cursor, start_of}
use p44utils.Script.Operators.{mode_c}
use p44utils.Script.Processor.Step.{start_in, step_loop}
use p44utils.Script.Processor.Runs.{Sample, numeral, wrong, hooks, processor_at, frame_to, product}
use p44utils.Script.Processor.Leaving.{Found, left_by_break, jumps-Found}
use p44utils.Script.Processor.Branches.{if_true_statement-if_condition}
use p44utils.Script.Processor.Statements.Jumps.{loop_state, break_statement, continue_statement}
use p44utils.Script.Processor.Statements.Conditions.{if_condition, if_true_statement}
use p44utils.Script.Processor.Statements.Loops.{new_controller}
use p44utils.Script.Processor.Stack.{pop, pop_frame, exit_with_syntax_error}

-- In a block that is the body of a while loop.
abbrev in_loop : Processor Sample ℕ
in_loop = record (processor_at product) {
  helper = for_while (new_controller (start_of product));
  stack = frame_to s_no_statement ∷ frame_to s_loop_body_done ∷ frame_to s_complete ∷ [];
}

jumps-Found_example :
    (Misses (loop_state in_loop.helper) in_loop.stack
      × ((break_statement hooks in_loop ≡ exit_with_syntax_error hooks outside_loop in_loop)
          × (continue_statement hooks in_loop ≡ exit_with_syntax_error hooks outside_loop in_loop)))
    ⊎ ((f : Found (loop_state in_loop.helper) in_loop.stack) × ((break_statement hooks in_loop
            ≡ record in_loop { stack = left_by_break hooks f; skipping = true })
          × (continue_statement hooks in_loop ≡ pop_frame hooks f.found f.below in_loop)))
jumps-Found_example = jumps-Found hooks in_loop refl

-- Behind a condition, and behind the statement that follows it.
abbrev at_condition : Processor Sample ℕ
at_condition = record (processor_at (b')' ∷ b'2' ∷ [])) { result = some (numeral 1) }

abbrev at_else : Processor Sample ℕ
unfolding if_condition
at_else = record (processor_at (32 ∷ word_else ++ (32 ∷ b'3' ∷ []))) {
  stack = (if_condition hooks at_condition).stack;
}

if_true_statement-if_condition_example :
    ((if_condition hooks at_condition).skipping ≡ false)
    × ((if_true_statement hooks (pop hooks at_else)).skipping ≡ true)
unfolding start_of check_for_identifier skip_non_code next_code_if if_condition at_else
if_true_statement-if_condition_example =
    if_true_statement-if_condition hooks at_condition at_else (numeral 1) refl refl refl refl refl

-- Where a name that is not skipped is a number that is taken down at each reading.
abbrev pub counting : Hooks Sample ℕ
counting = record hooks {
  member_by_identifier = λ flags p.
      if p.skipping
      then p
      else record p { result = some (numeral (1 - p.world)); world = p.world + 1 };
}

-- while(a){continue;3}
abbrev continuing : List ℕ
continuing = word_while ++ (b'(' ∷ b'a' ∷ b')' ∷ b'{' ∷ word_continue) ++ (b';' ∷ b'3' ∷ b'}' ∷ [])

rest_of_body :
    (a : Cursor) × ((step_loop mode_c counting 40
        (start_in mode_c counting s_body false (processor_at continuing))).result
      ≡ some (wrong unexpected_brace a))
unfolding step_loop start_in start_of
rest_of_body = (_, refl)

-- if(0);a
empty_statement :
    (step_loop mode_c counting 40 (
      start_in mode_c counting s_body false
        (processor_at (b'i' ∷ b'f' ∷ b'(' ∷ b'0' ∷ b')' ∷ b';' ∷ b'a' ∷ [])))).world
    ≡ 0
unfolding step_loop start_in start_of
empty_statement = refl

-- if(0)1;a
full_statement :
    (step_loop mode_c counting 40 (
      start_in mode_c counting s_body false
        (processor_at (b'i' ∷ b'f' ∷ b'(' ∷ b'0' ∷ b')' ∷ b'1' ∷ b';' ∷ b'a' ∷ [])))).world
    ≡ 1
unfolding step_loop start_in start_of
full_statement = refl
