-- ===== src/Script/Processor/LoopRuns.antt =====
-- A while loop at a concrete script (p44script.cpp).
use p44utils.Prelude.{Bool, true, false, not, ◌-◌, ◌==◌, some, ℕ, ◌+◌, refl, [], ◌∷◌}
use p44utils.Script.Cursor.{next_code_if, Cursor, start_of, next}
use p44utils.Script.Operators.{mode_c}
use p44utils.Script.Processor.State.{s_body, Processor, s_expression, s_one_statement}
use p44utils.Script.Processor.Runs.{Sample, processor_at}
use p44utils.Script.Processor.Step.{step_loop}
use p44utils.Script.Processor.Steps.{Steps-step_loop, Reaches}
use p44utils.Script.Processor.Statements.Keywords.{word_while}
use p44utils.Script.Processor.Statements.Process.{keyword_statement}
use p44utils.Script.Processor.StatementRuns.{counting}
use p44utils.Script.Processor.WhileRounds.{while_result, Tests, RunsAs}
use p44utils.Script.Processor.WhileLoops.{Behind, keyword_statement-while_result}

-- (a)a
abbrev opening : Cursor
unfolding start_of
opening = start_of (b'(' ∷ b'a' ∷ b')' ∷ b'a' ∷ [])

abbrev condition : Cursor
condition = (next opening).1

abbrev closing : Cursor
closing = (next condition).1

abbrev body : Cursor
body = (next closing).1

abbrev behind : Cursor
behind = (next body).1

abbrev goes_on : ℕ → Bool
goes_on w = not (1 - w == 0)

condition-Tests : Tests mode_c counting condition closing goes_on (λ w. w + 1)
unfolding start_of step_loop
condition-Tests frame below w q =
    let p = record q {
      current_state = some s_expression;
      skipping = false;
      src = condition;
      stack = frame ∷ below;
      world = w;
    } in
    (step_loop mode_c counting 5 p, (Steps-step_loop mode_c counting 5 p, ((refl, refl), refl)))

body-RunsAs : RunsAs mode_c counting s_one_statement false body behind (λ w. w + 1)
unfolding start_of step_loop
body-RunsAs frame below w q =
    let p = record q {
      current_state = some s_one_statement;
      skipping = false;
      src = body;
      stack = frame ∷ below;
      world = w;
    } in
    (step_loop mode_c counting 8 p, (Steps-step_loop mode_c counting 8 p, (refl, refl)))

body-RunsAs_skipped : RunsAs mode_c counting s_one_statement true body behind (λ w. w)
unfolding start_of step_loop
body-RunsAs_skipped frame below w q =
    let p = record q {
      current_state = some s_one_statement;
      skipping = true;
      src = body;
      stack = frame ∷ below;
      world = w;
    } in
    (step_loop mode_c counting 8 p, (Steps-step_loop mode_c counting 8 p, (refl, refl)))

abbrev at_while : Processor Sample ℕ
at_while = record (processor_at []) { src = opening; identifier = word_while }

keyword_statement-while_result_example :
    Reaches mode_c counting
      (keyword_statement mode_c counting s_body opening at_while)
      (Behind mode_c counting s_body behind at_while 3)
unfolding start_of next_code_if while_result
keyword_statement-while_result_example =
    keyword_statement-while_result mode_c counting condition closing body behind goes_on
      (λ w. w + 1) (λ w. w + 1) condition-Tests refl body-RunsAs body-RunsAs_skipped s_body opening
      at_while 3 3 refl refl refl refl
