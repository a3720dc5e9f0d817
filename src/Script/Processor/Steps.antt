-- ===== src/Script/Processor/Steps.antt =====
-- Runs of the state machine, and what is known of the processor on the way (p44script.cpp).
use p44utils.Prelude.{
  ℕ, zero, suc, ◌≤◌, ◌≡◌, refl, sym, ap, ◌∙◌, Bool, true, false, not, ◌&&◌, ◌||◌, Option, none,
  some, List, ◌∷◌, if◌then◌else◌, arith, if_both,
}
use mathlib.Core.Path.{subst}
use p44utils.Script.Cursor.{Cursor}
use p44utils.Script.Operators.{OperatorMode}
use p44utils.Script.Processor.State.{s_valid_result, State, StackFrame, Processor, Hooks}
use p44utils.Script.Processor.Stack.{
  replaced, wants_original, pop_frame, make_valid, pop, pop_with_result, pop_with_valid_result,
  valid_value, valid_result, is_valid,
}
use p44utils.Script.Processor.Step.{handle, step, step_loop}

or_true : (b : Bool) → (b || true) ≡ true
or_true true = refl
or_true false = refl

module _ {V W : Type 0} (mode : OperatorMode) (h : Hooks V W) where
  -- The states handled one after the other.
  pub data Steps : Processor V W → Processor V W → Type 0 where
    here : {p : Processor V W} → Steps p p
    more :
        {p q : Processor V W} (s : State)
        → p.current_state ≡ some s
        → Steps (handle mode h s p) q
        → Steps p q

  Steps-trans : {p q r : Processor V W} → Steps p q → Steps q r → Steps p r
  Steps-trans here b = b
  Steps-trans (more s e a) b = more s e (Steps-trans a b)

  -- The processor comes to a state with a property.
  abbrev pub Reaches : Processor V W → (Processor V W → Type 0) → Type 0
  Reaches p Q = (q : Processor V W) × (Steps p q × Q q)

  pub arrived : (Q : Processor V W → Type 0) (p : Processor V W) → Q p → Reaches p Q
  arrived Q p x = (p, (here, x))

  pub handled :
      (Q : Processor V W → Type 0) (s : State) (p : Processor V W)
      → p.current_state ≡ some s
      → Reaches (handle mode h s p) Q
      → Reaches p Q
  handled Q s p e (q, (r, x)) = (q, (more s e r, x))

  pub and_then :
      (Q R : Processor V W → Type 0) (p : Processor V W)
      → Reaches p Q
      → ((q : Processor V W) → Q q → Reaches q R)
      → Reaches p R
  and_then Q R p (q, (a, x)) g = let (r, (b, y)) = g q x in (r, (Steps-trans a b, y))

  completed : (f : ℕ) (p : Processor V W) → p.current_state ≡ none → step_loop mode h f p ≡ p
  unfolding step_loop
  completed zero p e = refl
  completed (suc f) p e = rw e refl

  round :
      (f : ℕ) (s : State) (p : Processor V W)
      → p.current_state ≡ some s
      → step_loop mode h (suc f) p ≡ step_loop mode h f (handle mode h s p)
  unfolding step_loop step
  round f s p e = rw e refl

  abbrev pub Within : ℕ → Processor V W → Processor V W → Type 0
  Within n p q = (f : ℕ) → n ≤ f → step_loop mode h f p ≡ q

  round_more :
      (n : ℕ) (s : State) (p q : Processor V W)
      → p.current_state ≡ some s
      → Within n (handle mode h s p) q
      → Within (suc n) p q
  round_more n s p q e w zero le = absurd (omega (arith, le))
  round_more n s p q e w (suc f) le = round f s p e ∙ w f (omega (arith, le))

  -- Enough fuel, and any more, leads to where the processor has completed.
  pub step_loop-Steps :
      {p q : Processor V W} → Steps p q → q.current_state ≡ none → (n : ℕ) × Within n p q
  step_loop-Steps here e = (0, λ f le. completed f _ e)
  step_loop-Steps (more s w r) e =
      let (n, g) = step_loop-Steps r e in (suc n, round_more n s _ _ w g)

  onward :
      (f : ℕ) (p : Processor V W) (o : Option State)
      → p.current_state ≡ o
      → ((s : State)
          → p.current_state ≡ some s
          → Steps (handle mode h s p) (step_loop mode h f (handle mode h s p)))
      → Steps p (step_loop mode h (suc f) p)
  unfolding step_loop
  onward f p none e g = rw e here
  onward f p (some s) e g = subst (λ q. Steps p q) (sym (round f s p e)) (more s e (g s e))

  -- The rounds of the loop are steps.
  pub Steps-step_loop : (f : ℕ) (p : Processor V W) → Steps p (step_loop mode h f p)
  unfolding step_loop
  Steps-step_loop zero p = here
  Steps-step_loop (suc f) p =
      onward f p p.current_state refl (λ s e. Steps-step_loop f (handle mode h s p))

  -- Where the processor stands: state, result, text left, stack and precedence.
  pub record Stands (state : State) (v : Option V) (left : List ℕ) (frames : List (StackFrame V))
      (precedence : ℕ) (flag : Bool) (q : Processor V W) : Type 0 where
    pub at : q.current_state ≡ some state
    pub holds : q.result ≡ v
    pub leaves : q.src.rest ≡ left
    pub keeps : q.stack ≡ frames
    pub binds : q.precedence ≡ precedence
    pub runs : q.skipping ≡ false
    pub ends : q.expression_flag ≡ flag

  -- A frame popped with a value.
  pub record Returned (frame : StackFrame V) (below : List (StackFrame V)) (v : V) (left : List ℕ)
      (flag : Bool) (q : Processor V W) : Type 0 where
    pub stands : Stands frame.return_to_state (some v) left below frame.precedence flag q
    pub pending : q.pending_operation ≡ frame.pending_operation
    pub older : q.older_result ≡ frame.result

  -- Its own actual value, and no error that lacks a position.
  abbrev pub IsPlain : V → Type 0
  IsPlain v =
      (h.values.actual_value v ≡ some v)
      × ((h.values.is_err v && not (h.values.has_cursor v)) ≡ false)

  valid_value-IsPlain :
      (state : Option State) (src : Cursor) (v : V) → IsPlain v → valid_value h state src v ≡ v
  valid_value-IsPlain state src v (a, n) =
      let keeps = h.values.keeps_original v && wants_original h state in
      let same : replaced h keeps v (h.values.actual_value v) ≡ v =
        ap (replaced h keeps v) a ∙ if_both (λ (u : V). u ≡ v) keeps refl refl in
      subst
        (λ (u : V).
          (if h.values.is_err u && not (h.values.has_cursor u)
            then h.values.at_position src u
            else u)
          ≡ v)
        (sym same) (rw n refl)

  popped :
      (frame : StackFrame V) (below : List (StackFrame V)) (q : Processor V W)
      → q.stack ≡ frame ∷ below
      → pop h q ≡ pop_frame h frame below q
  unfolding pop
  popped frame below q keeps = rw keeps refl

  pub pop_with_valid_result-Returned :
      (frame : StackFrame V) (below : List (StackFrame V)) (v : V) (q : Processor V W)
      → IsPlain v
      → frame.skipping ≡ false
      → q.stack ≡ frame ∷ below
      → q.result ≡ some v
      → Returned frame below v q.src.rest q.expression_flag (pop_with_valid_result h false q)
  unfolding pop_with_valid_result
  pop_with_valid_result-Returned frame below v q plain runs keeps holds =
      let valid : valid_result h (some frame.return_to_state) q.src q.result ≡ some v =
        ap (valid_result h (some frame.return_to_state) q.src) holds
        ∙ ap some (valid_value-IsPlain (some frame.return_to_state) q.src v plain) in
      subst
        (λ (r : Processor V W).
          Returned frame below v q.src.rest q.expression_flag
            (record r { result = valid_result h r.current_state r.src r.result }))
        (sym (popped frame below q keeps))
        (record {
          stands = record {
            at = refl;
            holds = valid;
            leaves = refl;
            keeps = refl;
            binds = refl;
            runs = runs;
            ends = refl;
          };
          pending = refl;
          older = refl;
        })

  -- The same where the result may first be made valid.
  pub pop_with_result-Returned :
      (frame : StackFrame V) (below : List (StackFrame V)) (v : V) (q : Processor V W)
      → IsPlain v
      → frame.skipping ≡ false
      → q.stack ≡ frame ∷ below
      → q.result ≡ some v
      → Returned frame below v q.src.rest q.expression_flag (pop_with_result h false q)
  unfolding pop_with_result
  pop_with_result-Returned frame below v q plain runs keeps holds =
      let valid : is_valid h q.result ≡ true =
        subst (λ (o : Option V). is_valid h o ≡ true) (sym holds)
          (subst (λ (o : Option V). elim o [ none ↦ h.values.is_lvalue v | some u ↦ true ] ≡ true)
            (sym plain.0) refl) in
      subst
        (λ b. Returned frame below v q.src.rest q.expression_flag (
          if b
          then pop_with_valid_result h false q
          else make_valid h q.result (record q { current_state = some s_valid_result })))
        (sym (ap (λ b. q.skipping || b) valid ∙ or_true q.skipping))
        (pop_with_valid_result-Returned frame below v q plain runs keeps holds)

  -- With the text and the flag under other names.
  pub Returned-at :
      {left left' : List ℕ} {flag flag' : Bool} (frame : StackFrame V) (below : List (StackFrame V))
      (v : V) (q : Processor V W)
      → left ≡ left'
      → flag ≡ flag'
      → Returned frame below v left flag q
      → Returned frame below v left' flag' q
  Returned-at {left} {left'} {flag} {flag'} frame below v q e f r =
      subst (λ l. Returned frame below v l flag' q) e
        (subst (λ g. Returned frame below v left g q) f r)
