-- ===== src/Script/Processor/LeftSide.antt =====
-- The handlers on both sides of an operator: s_exprLeftSide and s_exprRightSide (p44script.cpp).
use p44utils.Prelude.{ℕ, ◌<◌, ◌≡◌, refl, sym, ap, ◌∙◌, Bool, true, false, some, List, ◌∷◌, ◌==◌}
use mathlib.Core.Path.{subst}
use p44utils.Script.Cursor.{Cursor, skip_non_code}
use p44utils.Script.Operators.{OperatorMode, parse_operator, op_assign, op_not}
use p44utils.Script.Processor.State.{
  StackFrame, Processor, Hooks, s_expr_left_side, s_expr_right_side, s_sub_expression,
}
use p44utils.Script.Processor.Stack.{push, pop_with_result}
use p44utils.Script.Processor.Expression.{expr_left_side, expr_right_side, precedence_of, operate}
use p44utils.Script.Processor.Reading.{Solid}
use p44utils.Script.Processor.Steps.{
  Returned-at, Stands, Returned, IsPlain, pop_with_result-Returned,
}
use p44utils.Script.Processor.Frames.{frame_of, Enters, Back}
use p44utils.Script.Processor.Operands.{
  Follows, stops, stops-Follows, stops-operator, spaced-Reads, lt→leb, precedence_of-code,
}
use p44utils.Script.Processor.Tree.{
  BinaryOperator, times, over, modulo, plus, minus, same, unequal, less, greater, at_most, at_least,
  both, either, code, strength, operator_text,
}

never_misplaced :
    (op : BinaryOperator) → ((code op == op_assign) ≡ false) × ((code op == op_not) ≡ false)
never_misplaced times = (refl, refl)
never_misplaced over = (refl, refl)
never_misplaced modulo = (refl, refl)
never_misplaced plus = (refl, refl)
never_misplaced minus = (refl, refl)
never_misplaced same = (refl, refl)
never_misplaced unequal = (refl, refl)
never_misplaced less = (refl, refl)
never_misplaced greater = (refl, refl)
never_misplaced at_most = (refl, refl)
never_misplaced at_least = (refl, refl)
never_misplaced both = (refl, refl)
never_misplaced either = (refl, refl)

module _ {V W : Type 0} (mode : OperatorMode) (h : Hooks V W) where
  stopped :
      (q : Processor V W)
      → stops mode q.precedence q.src ≡ true
      → expr_left_side mode h q ≡ pop_with_result h false q
  unfolding expr_left_side
  stopped q e = rw e refl

  -- An operand that nothing stronger follows is given to the state below.
  pub left_side-Returned :
      {v : V} {left : List ℕ} {precedence : ℕ} {flag : Bool} (frame : StackFrame V)
      (below : List (StackFrame V)) (q : Processor V W)
      → IsPlain mode h v
      → frame.skipping ≡ false
      → Follows precedence left
      → Stands mode h s_expr_left_side (some v) left (frame ∷ below) precedence flag q
      → Returned mode h frame below v left flag (expr_left_side mode h q)
  left_side-Returned {v} {left} {precedence} {flag} frame below q plain runs follows s =
      let stop : stops mode q.precedence q.src ≡ true =
        ap (λ n. stops mode n q.src) s.binds ∙ stops-Follows mode q.src follows s.leaves in
      let popped = pop_with_result-Returned mode h frame below v q plain runs s.keeps s.holds in
      subst (λ (z : Processor V W). Returned mode h frame below v left flag z)
        (sym (stopped q stop))
        (Returned-at mode h frame below v (pop_with_result h false q) s.leaves s.ends popped)

  goes_on :
      (q : Processor V W)
      → stops mode q.precedence q.src ≡ false
      → expr_left_side mode h q ≡ (
          let (op, at) = parse_operator mode (skip_non_code q.src) in
          record (push h s_expr_right_side (record q { src = at; pending_operation = op })) {
            precedence = precedence_of op;
            current_state = some s_sub_expression;
          })
  unfolding expr_left_side
  goes_on q e = rw e refl

  -- In front of a stronger operator, its right side is evaluated first.
  pub left_side-Enters :
      {v : V} {left : List ℕ} {below : List (StackFrame V)} {precedence : ℕ} {flag : Bool}
      (op : BinaryOperator) (q : Processor V W)
      → Solid left
      → precedence < strength op
      → Stands mode h s_expr_left_side (some v) (operator_text op left) below precedence flag q
      → Enters mode h s_sub_expression s_expr_right_side
          (some v)
          (code op)
          precedence
          left
          below
          (strength op)
          flag
          (expr_left_side mode h q)
  unfolding push
  left_side-Enters {v} {left} {below} {precedence} {flag} op q solid stronger s =
      let (at, (reads, rest)) = spaced-Reads mode op left q.src solid s.leaves in
      let stop : stops mode q.precedence q.src ≡ false =
        ap (λ n. stops mode n q.src) s.binds
        ∙ (stops-operator mode precedence op q.src at reads
            ∙ lt→leb precedence (strength op) stronger) in
      let frame = frame_of s_expr_right_side (record q {
        src = (parse_operator mode (skip_non_code q.src)).1;
        pending_operation = (parse_operator mode (skip_non_code q.src)).0;
      }) in
      subst
        (λ (z : Processor V W).
          Enters mode h s_sub_expression s_expr_right_side (some v) (code op) precedence left below
            (strength op) flag z)
        (sym (goes_on q stop))
        (record {
          frame = frame;
          at = refl;
          holds = s.holds;
          leaves = ap (λ (r : ℕ × Cursor). r.1.rest) reads ∙ rest;
          keeps = ap (λ fs. frame ∷ fs) s.keeps;
          binds = ap (λ (r : ℕ × Cursor). precedence_of r.0) reads ∙ precedence_of-code op;
          runs = s.runs;
          ends = s.ends;
          returns = refl;
          saves = s.holds;
          waits = ap (λ (r : ℕ × Cursor). r.0) reads;
          restores = s.binds;
          resumes = s.runs;
        })

  operated :
      {a v : V} (op : BinaryOperator) (q : Processor V W)
      → q.skipping ≡ false
      → q.older_result ≡ some a
      → q.result ≡ some v
      → q.pending_operation ≡ code op
      → expr_right_side mode h q ≡ record q {
        result = some (operate mode h (code op) a v);
        current_state = some s_expr_left_side;
      }
  unfolding expr_right_side
  operated op q runs older holds waiting =
      rw (runs, older, holds, waiting, (never_misplaced op).0, (never_misplaced op).1) refl

  -- The operation between the two sides.
  pub right_side-Stands :
      {a v : V} {left : List ℕ} {below : List (StackFrame V)} {precedence : ℕ} {flag : Bool}
      (op : BinaryOperator) (q : Processor V W)
      → Back mode h s_expr_right_side (some a) (code op) precedence v left below flag q
      → Stands mode h s_expr_left_side
          (some (operate mode h (code op) a v))
          left
          below
          precedence
          flag
          (expr_right_side mode h q)
  right_side-Stands {a} {v} {left} {below} {precedence} {flag} op q b =
      let s = b.stands in
      subst
        (λ (z : Processor V W).
          Stands mode h s_expr_left_side (some (operate mode h (code op) a v)) left below precedence
            flag z)
        (sym (operated op q s.runs b.older_holds s.holds b.waiting))
        (record {
          at = refl;
          holds = refl;
          leaves = s.leaves;
          keeps = s.keeps;
          binds = s.binds;
          runs = s.runs;
          ends = s.ends;
        })
