-- ===== src/Script/Processor/WhileLoops.antt =====
-- A while loop from its keyword on (processStatement, s_loopCondition, p44script.cpp).
use p44utils.Prelude.{
  not, ℕ, zero, suc, ◌≡◌, refl, sym, ap, ◌∙◌, Bool, true, false, some, List, ◌∷◌, Bool-cases, inl,
  inr,
}
use mathlib.Core.Path.{subst}
use p44utils.Script.Cursor.{next_if, Cursor, next_code_if, skip_non_code}
use p44utils.Script.Operators.{OperatorMode}
use p44utils.Script.Processor.State.{
  s_loop_condition, State, StackFrame, Processor, Hooks, for_while, s_expression, s_one_statement,
  s_loop_body_done,
}
use p44utils.Script.Processor.Stack.{push, pop_frame}
use p44utils.Script.Processor.Step.{handle}
use p44utils.Script.Processor.Steps.{Reaches, arrived, handled, and_then}
use p44utils.Script.Processor.Leaving.{nothing_thrown}
use p44utils.Script.Processor.Statements.Keywords.{word_while, truth_of, error_of}
use p44utils.Script.Processor.Statements.Process.{keyword_statement}
use p44utils.Script.Processor.Statements.Loops.{
  new_controller, loop_condition, loop_body, loop_body_done, loop_recheck, loop_end,
}
use p44utils.Script.Processor.WhileRounds.{
  while_result, Leaves, RunsAs, Tests, in_body, left, further_round, last_round, body-Rounds,
}

module _ {V W : Type 0} (mode : OperatorMode) (h : Hooks V W) where
  -- At the cursor, in the state behind the statement, with all that the statement found restored.
  abbrev pub Behind : State → Cursor → Processor V W → W → Processor V W → Type 0
  Behind s e p w r =
      (r.current_state ≡ some s)
      × (r.src ≡ e)
      × (r.stack ≡ p.stack)
      × (r.skipping ≡ p.skipping)
      × (r.helper ≡ p.helper)
      × (r.world ≡ w)

  module _ (c d b e : Cursor) (test : W → Bool) (tested act : W → W)
      (tests : Tests mode h c d test tested)
      (closes : next_code_if b')' (skip_non_code d) ≡ (true, b))
      (runs : RunsAs mode h s_one_statement false b e act)
      (skips : RunsAs mode h s_one_statement true b e (λ w. w)) where
    -- What the keyword pushes: the state behind the statement, and the test of the condition.
    abbrev behind_frame : State → Processor V W → StackFrame V
    behind_frame s p = record {
      src = c;
      skipping = false;
      return_to_state = s;
      result = p.result;
      helper = p.helper;
      precedence = p.precedence;
      pending_operation = p.pending_operation;
    }

    abbrev test_frame : State → Processor V W → StackFrame V
    test_frame s p = record (behind_frame s p) {
      return_to_state = s_loop_condition;
      helper = for_while (new_controller c);
    }

    keyword_step :
        (s : State) (a : Cursor) (p : Processor V W)
        → p.identifier ≡ word_while
        → next_if b'(' p.src ≡ (true, c)
        → p.skipping ≡ false
        → keyword_statement mode h s a p ≡ record p {
          current_state = some s_expression;
          skipping = false;
          src = c;
          stack = test_frame s p ∷ behind_frame s p ∷ p.stack;
          helper = for_while (new_controller c);
        }
    unfolding keyword_statement
    keyword_step s a p i o k = rw (i, o, k, keyword_statement) refl

    condition_step :
        (s : State) (p : Processor V W) (below : List (StackFrame V)) (w : W) (t : Bool)
        (r : Processor V W)
        → error_of h r.result ≡ false
        → truth_of h r.result ≡ t
        → let q = record (pop_frame h (test_frame s p) below r) { src = d; world = w } in
          loop_condition h q
          ≡ record (push h s_loop_body_done (record q {
            src = b;
            older_result = q.result;
            skipping = not t;
            helper = for_while (record (new_controller c) { loop_body = b });
          })) { current_state = some s_one_statement }
    unfolding loop_condition loop_body push
    condition_step s p below w t r calm answer =
        let q = record (pop_frame h (test_frame s p) below r) { src = d; world = w } in
        rw (closes, answer, loop_condition, loop_body)
          (nothing_thrown h
            (record (push h s_loop_body_done (record q {
              src = b;
              older_result = q.result;
              skipping = not t;
              helper = for_while (record (new_controller c) { loop_body = b });
            })) { current_state = some s_one_statement })
            calm)

    abbrev skipped_body : State → Processor V W → Processor V W → StackFrame V
    skipped_body s p r = record (in_body c b c (test_frame s p)) {
      src = b;
      skipping = true;
      result = r.result;
    }

    -- The body where the condition is false at once.
    skipped_round :
        (s : State) (p r : Processor V W) (out : StackFrame V) (below : List (StackFrame V))
        (w w' : W)
        → w ≡ w'
        → Reaches mode h
            (record r {
              current_state = some s_one_statement;
              skipping = true;
              src = b;
              stack = skipped_body s p r ∷ out ∷ below;
              world = w;
            })
            (Leaves mode h out below e w')
    unfolding handle loop_body_done loop_recheck loop_end
    skipped_round s p r out below w w' e' =
        let frame = skipped_body s p r in
        and_then mode h (Leaves mode h frame (out ∷ below) e w) (Leaves mode h out below e w') _
          (skips frame (out ∷ below) w r)
          λ z x.
            subst (λ y. Reaches mode h y (Leaves mode h out below e w')) (sym x.0)
              (handled mode h (Leaves mode h out below e w') s_loop_body_done _ refl
                (left mode h e frame out below w w' z e' x.1))

    first_test :
        (n : ℕ) (s : State) (p r : Processor V W) (w w' : W)
        → while_result test tested act (suc n) w ≡ some w'
        → error_of h r.result ≡ false
        → truth_of h r.result ≡ test w
        → Reaches mode h
            (handle mode h s_loop_condition
              (record (pop_frame h (test_frame s p) (behind_frame s p ∷ p.stack) r) {
                src = d;
                world = tested w;
              }))
            (Leaves mode h (behind_frame s p) p.stack e w')
    unfolding handle push
    first_test n s p r w w' m calm answer =
        let out = behind_frame s p in
        let after = pop_frame h (test_frame s p) (out ∷ p.stack) r in
        let body = record after {
          older_result = r.result;
          helper = for_while (record (new_controller c) { loop_body = b });
        } in
        let inner = record (test_frame s p) { src = b; result = r.result } in
        let step = λ (t : Bool) (k : test w ≡ t).
          condition_step s p (out ∷ p.stack) (tested w) t r calm (answer ∙ k) in
        elim (Bool-cases (test w)) [
          | inl t ↦
              subst (λ y. Reaches mode h y (Leaves mode h out p.stack e w')) (sym (step true t))
                (body-Rounds mode h c d b e test tested act tests runs n c inner out p.stack
                  (tested w) w' body (sym (further_round test tested act n w t) ∙ m))
          | inr t ↦
              subst (λ y. Reaches mode h y (Leaves mode h out p.stack e w')) (sym (step false t))
                (skipped_round s p body out p.stack (tested w) w'
                  (last_round test tested act n w w' t m))
        ]

    -- A while statement does what while_result says of what is outside: where, from every
    -- processor and whatever is outside, the condition is read as an expression from c to d, has
    -- the value `test` and does `tested`; a closing parenthesis leads from d to b; the body is
    -- read as a statement from b to e, does `act` where it runs and nothing where it is skipped;
    -- neither leaves an error, and both go on as the topmost frame says; and while_result gives w
    -- within some bound on the tests. Then a processor that does not skip and has read the
    -- keyword, in front of the opening parenthesis that leads to c, comes to the state behind the
    -- statement, at e, with the stack, the statement helper and the flag for skipping as they
    -- were, and w outside.
    pub keyword_statement-while_result :
        (s : State) (a : Cursor) (p : Processor V W) (n : ℕ) (w : W)
        → p.identifier ≡ word_while
        → next_if b'(' p.src ≡ (true, c)
        → p.skipping ≡ false
        → while_result test tested act n p.world ≡ some w
        → Reaches mode h (keyword_statement mode h s a p) (Behind s e p w)
    unfolding while_result
    keyword_statement-while_result s a p zero w i o k m = cc
    keyword_statement-while_result s a p (suc n) w i o k m =
        let out = behind_frame s p in
        let frame = test_frame s p in
        subst (λ y. Reaches mode h y (Behind s e p w)) (sym (keyword_step s a p i o k))
          (and_then mode h
            (λ z.
              Leaves mode h frame (out ∷ p.stack) d (tested p.world) z
              × (truth_of h z.result ≡ test p.world))
            (Behind s e p w) _
            (tests frame (out ∷ p.stack) p.world
              (record p { helper = for_while (new_controller c) }))
            λ z x.
              and_then mode h (Leaves mode h out p.stack e w) (Behind s e p w) _
                (subst (λ y. Reaches mode h y (Leaves mode h out p.stack e w)) (sym x.0.0)
                  (handled mode h (Leaves mode h out p.stack e w) s_loop_condition _ refl
                    (first_test n s p z p.world w m x.0.1 x.1)))
                λ r y. arrived mode h (Behind s e p w) r (
                  ap (λ (v : Processor V W). v.current_state) y.0,
                  ap (λ (v : Processor V W). v.src) y.0,
                  ap (λ (v : Processor V W). v.stack) y.0,
                  ap (λ (v : Processor V W). v.skipping) y.0 ∙ sym k,
                  ap (λ (v : Processor V W). v.helper) y.0,
                  ap (λ (v : Processor V W). v.world) y.0,
                ))
