-- ===== src/Script/Processor/WhileRounds.antt =====
-- The rounds of a while loop (s_loopBodyDone, s_loopRecheck, s_loopEnd, p44script.cpp).
use p44utils.Prelude.{
  ℕ, zero, suc, ◌≡◌, refl, sym, ap, ◌∙◌, Bool, true, false, Option, none, some, List, ◌∷◌,
  if◌then◌else◌, Bool-cases, inl, inr,
}
use mathlib.Core.Path.{subst}
use p44utils.Script.Cursor.{Cursor}
use p44utils.Script.Operators.{OperatorMode}
use p44utils.Script.Processor.State.{
  State, StackFrame, Processor, Hooks, for_while, s_expression, s_one_statement, s_loop_body_done,
  s_loop_end,
}
use p44utils.Script.Processor.Stack.{push, pop, pop_frame, check_and_resume}
use p44utils.Script.Processor.Step.{handle}
use p44utils.Script.Processor.Steps.{Reaches, arrived, handled, and_then}
use p44utils.Script.Processor.Leaving.{nothing_thrown}
use p44utils.Script.Processor.Statements.Keywords.{truth_of, error_of}
use p44utils.Script.Processor.Statements.Loops.{loop_body_done, loop_recheck, loop_end}

-- What a while loop does to what is outside: with a condition that has the value `test` and leaves
-- `tested` behind, and a body that does `act`. The bound is on the tests.
unfoldable pub while_result : {W : Type 0} → (W → Bool) → (W → W) → (W → W) → ℕ → W → Option W
while_result test tested act zero w = none
while_result test tested act (suc n) w =
    let further = while_result test tested act n (act (tested w)) in
    if test w then further else some (tested w)

module _ {W : Type 0} (test : W → Bool) (tested act : W → W) where
  pub further_round :
      (n : ℕ) (w : W)
      → test w ≡ true
      → while_result test tested act (suc n) w ≡ while_result test tested act n (act (tested w))
  unfolding while_result
  further_round n w t = rw t refl

  pub last_round :
      (n : ℕ) (w w' : W)
      → test w ≡ false
      → while_result test tested act (suc n) w ≡ some w'
      → tested w ≡ w'
  unfolding while_result
  last_round n w w' t m = cc

-- The frame under the body of a loop.
abbrev pub in_body : {V : Type 0} → Cursor → Cursor → Cursor → StackFrame V → StackFrame V
in_body c b a f = record f {
  return_to_state = s_loop_body_done;
  skipping = false;
  helper = for_while (record { loop_condition = c; loop_next = a; loop_body = b; is_for = false });
}

module _ {V W : Type 0} (mode : OperatorMode) (h : Hooks V W) where
  -- Popped, at the cursor, with no error.
  abbrev pub Leaves : StackFrame V → List (StackFrame V) → Cursor → W → Processor V W → Type 0
  Leaves frame below to w r =
      (r ≡ record (pop_frame h frame below r) { src = to; world = w })
      × (error_of h r.result ≡ false)

  -- What is read from one cursor to another does `act` and goes on as the topmost frame says.
  abbrev pub RunsAs : State → Bool → Cursor → Cursor → (W → W) → Type 0
  RunsAs state skips from to act =
      (frame : StackFrame V) (below : List (StackFrame V)) (w : W) (q : Processor V W)
      → Reaches mode h
          (record q {
            current_state = some state;
            skipping = skips;
            src = from;
            stack = frame ∷ below;
            world = w;
          })
          (Leaves frame below to (act w))

  -- The same for an expression, whose value is `test`.
  abbrev pub Tests : Cursor → Cursor → (W → Bool) → (W → W) → Type 0
  Tests from to test tested =
      (frame : StackFrame V) (below : List (StackFrame V)) (w : W) (q : Processor V W)
      → Reaches mode h
          (record q {
            current_state = some s_expression;
            skipping = false;
            src = from;
            stack = frame ∷ below;
            world = w;
          })
          (λ r. Leaves frame below to (tested w) r × (truth_of h r.result ≡ test w))

  -- Where the loop has come to its end, and the frame below it is popped.
  pub left :
      (e : Cursor) (frame out : StackFrame V) (below : List (StackFrame V)) (w w' : W)
      (r : Processor V W)
      → w ≡ w'
      → error_of h r.result ≡ false
      → Reaches mode h
          (check_and_resume h
            (pop h (record (pop_frame h frame (out ∷ below) r) { src = e; world = w })))
          (Leaves out below e w')
  unfolding pop
  left e frame out below w w' r p calm =
      let q =
        record (pop_frame h out below (record (pop_frame h frame (out ∷ below) r) { src = e })) {
          world = w;
        } in
      subst (λ z. Reaches mode h z (Leaves out below e w')) (sym (nothing_thrown h q calm))
        (arrived mode h (Leaves out below e w') q (ap (λ (v : W). record q { world = v }) p, calm))

  module _ (c d b e : Cursor) (test : W → Bool) (tested act : W → W) (tests : Tests c d test tested)
      (runs : RunsAs s_one_statement false b e act) where
    -- The frame for the end of the loop, with what f holds and a result.
    abbrev to_end : Cursor → StackFrame V → Option V → StackFrame V
    to_end a f o = record (in_body c b a f) { src = e; return_to_state = s_loop_end; result = o }

    abbrev at_body : StackFrame V → List (StackFrame V) → W → Processor V W → Processor V W
    at_body frame below w q = record q {
      current_state = some s_one_statement;
      skipping = false;
      src = b;
      stack = frame ∷ below;
      world = w;
    }

    -- From the body on, with a bound on the tests.
    abbrev Rounds : ℕ → Type 0
    Rounds n =
        (a : Cursor) (f out : StackFrame V) (below : List (StackFrame V)) (w w' : W)
        (q : Processor V W)
        → while_result test tested act n (act w) ≡ some w'
        → Reaches mode h (at_body (in_body c b a f) (out ∷ below) w q) (Leaves out below e w')

    -- At the end of the loop, tested.
    at_end :
        (n : ℕ) (a : Cursor) (f out : StackFrame V) (below : List (StackFrame V)) (w w' : W)
        (o : Option V) (r : Processor V W)
        → Rounds n
        → while_result test tested act (suc n) w ≡ some w'
        → error_of h r.result ≡ false
        → truth_of h r.result ≡ test w
        → Reaches mode h
            (loop_end h
              (record (pop_frame h (to_end a f o) (out ∷ below) r) { src = d; world = tested w }))
            (Leaves out below e w')
    unfolding while_result loop_end pop push
    at_end n a f out below w w' o r again m calm answer =
        let popped = pop_frame h (to_end a f o) (out ∷ below) r in
        let inner = record f { src = b; result = r.result } in
        elim (Bool-cases (test w)) [
          | inl t ↦
              rw (loop_end, answer, t)
                (subst (λ z. Reaches mode h z (Leaves out below e w'))
                  (sym (
                    nothing_thrown h (at_body (in_body c b a inner) (out ∷ below) (tested w) popped)
                      calm))
                  (again a inner out below (tested w) w' popped
                    (sym (further_round test tested act n w t) ∙ m)))
          | inr t ↦
              rw (loop_end, answer, t)
                (left e (to_end a f o) out below (tested w) w' r
                  (last_round test tested act n w w' t m) calm)
        ]

    recheck :
        (n : ℕ) (a : Cursor) (f out : StackFrame V) (below : List (StackFrame V)) (w w' : W)
        (r : Processor V W)
        → Rounds n
        → while_result test tested act (suc n) w ≡ some w'
        → Reaches mode h
            (handle mode h s_loop_body_done
              (record (pop_frame h (in_body c b a f) (out ∷ below) r) { src = e; world = w }))
            (Leaves out below e w')
    unfolding handle loop_body_done loop_recheck push
    recheck n a f out below w w' r again m =
        let frame = to_end a f r.result in
        and_then mode h
          (λ z. Leaves frame (out ∷ below) d (tested w) z × (truth_of h z.result ≡ test w))
          (Leaves out below e w') _
          (tests frame (out ∷ below) w
            (record (pop_frame h (in_body c b a f) (out ∷ below) r) { popped_src = e }))
          λ z x.
            subst (λ y. Reaches mode h y (Leaves out below e w')) (sym x.0.0)
              (handled mode h (Leaves out below e w') s_loop_end _ refl
                (at_end n a f out below w w' r.result z again m x.0.1 x.1))

    pub body-Rounds : (n : ℕ) → Rounds n
    unfolding while_result
    body-Rounds zero a f out below w w' q m = cc
    body-Rounds (suc n) a f out below w w' q m =
        and_then mode h (Leaves (in_body c b a f) (out ∷ below) e (act w)) (Leaves out below e w') _
          (runs (in_body c b a f) (out ∷ below) w q)
          λ r x.
            subst (λ z. Reaches mode h z (Leaves out below e w')) (sym x.0)
              (handled mode h (Leaves out below e w') s_loop_body_done _ refl
                (recheck n a f out below (act w) w' r (body-Rounds n) m))
