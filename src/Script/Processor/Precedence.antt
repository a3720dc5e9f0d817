-- ===== src/Script/Processor/Precedence.antt =====
-- The state machine on a written expression: the operators bind by their precedence, and to the left
-- (processExpression to s_exprRightSide, p44script.cpp).
use p44utils.Prelude.{false, refl, ◌≤◌, ◌-◌, suc, arith, ◌++◌, ℕ, ◌≡◌, some, List, ◌∷◌}
use p44utils.Script.Operators.{OperatorMode}
use p44utils.Script.Processor.State.{
  Processor, Hooks, s_expression, s_expr_left_side, s_sub_expression, s_simple_term,
}
use p44utils.Script.Processor.Expression.{expr_left_side, process_expression, expression}
use p44utils.Script.Processor.Step.{handle}
use p44utils.Script.Processor.Steps.{Returned-at, Stands, IsPlain, Reaches, handled, and_then}
use p44utils.Script.Processor.Frames.{Returned-Back}
use p44utils.Script.Processor.Operands.{Follows, at_paren, Follows-weaker, at_operator}
use p44utils.Script.Processor.Tree.{
  strength, Tree, leaf, group, binary, written, Fits, Throughout, value_of, operator_text,
}
use p44utils.Script.Processor.Evaluation.{IsLeaf, Follows-edge, term_start, written-Solid}
use p44utils.Script.Processor.Composition.{signed_term, closed_group, right_operand}
use p44utils.Script.Processor.Terms.{simple_term}
use p44utils.Script.Processor.FirstTerm.{process_expression-Enters, process_expression-group}
use p44utils.Script.Processor.LeftSide.{left_side-Enters}

module _ {V W : Type 0} (mode : OperatorMode) (h : Hooks V W) where
  -- The value of the tree, in front of what follows it.
  abbrev Evaluated : Tree V → List ℕ → Processor V W → Processor V W → Type 0
  Evaluated e left p =
      Stands mode h s_expr_left_side (some (value_of mode h e)) left p.stack p.precedence
        p.expression_flag

  -- The values of a tree's root and of its parts.
  pub throughout_root :
      (P : V → Type 0) (e : Tree V) → Throughout mode h P e → P (value_of mode h e)
  throughout_root P (leaf s t v) x = x
  throughout_root P (group s e) x = x.0
  throughout_root P (binary op a b) x = x.0

  module _ (no_event : (p : Processor V W) → h.member_event_check p ≡ p) where
    pub evaluated :
        (e : Tree V) (q : ℕ) (left : List ℕ) (p : Processor V W)
        → Fits mode h (IsLeaf mode h) q e
        → Throughout mode h (IsPlain mode h) e
        → 1 ≤ p.precedence
        → p.precedence ≤ q
        → Follows (suc q) left
        → p.src.rest ≡ written e left
        → p.skipping ≡ false
        → Reaches mode h (process_expression mode h p) (Evaluated e left p)
    unfolding handle expression
    evaluated (leaf s t v) q left p (starts, reads) settled lo hi follows text runs =
        let (first, other) = term_start t left starts in
        let r = process_expression mode h p in
        let e = process_expression-Enters mode h s (t ++ left) p text first other lo runs in
        let b = Returned-Back mode h r (simple_term mode h r) e (
          Returned-at mode h e.frame p.stack v (simple_term mode h r) refl e.ends (
            reads left e.frame p.stack r (Follows-edge follows) e.leaves e.keeps e.resumes
              e.runs)) in
        handled mode h (Evaluated (leaf s t v) left p) s_simple_term r e.at
          (signed_term mode h s (simple_term mode h r) b)
    evaluated (group s e) q left p fits settled lo hi follows text runs =
        let r = process_expression mode h p in
        let inside = record r { precedence = 1 } in
        let g = process_expression-group mode h s (written e (b')' ∷ left)) p text lo runs in
        handled mode h (Evaluated (group s e) left p) s_expression r g.at (
          and_then mode h (Evaluated e (b')' ∷ left) inside) (Evaluated (group s e) left p)
            (process_expression mode h inside)
            (evaluated e 1 (b')' ∷ left) inside fits settled.1 (omega arith) (omega arith)
              (at_paren left) g.leaves g.runs)
            (λ z t.
              closed_group mode h s r z no_event (throughout_root (IsPlain mode h) e settled.1)
                (Follows-edge follows) g t))
    evaluated (binary op a b) q left p (stronger, (fits_a, fits_b))
          (settled, (settled_a, settled_b)) lo hi follows text runs =
        let Q = Evaluated (binary op a b) left p in
        let behind = operator_text op (written b left) in
        let solid = written-Solid mode h (strength op) b left fits_b in
        and_then mode h (Evaluated a behind p) Q (process_expression mode h p)
          (evaluated a (strength op - 1) behind p fits_a settled_a lo (omega (arith, stronger, hi))
            (at_operator op (written b left) solid (omega (arith, stronger))) text runs)
          (λ z t.
            let r = expr_left_side mode h z in
            let e = left_side-Enters mode h op z solid (omega (arith, stronger, hi)) t in
            let near = Follows-weaker (omega (arith, stronger)) follows in
            let far = Follows-weaker (omega (arith, stronger)) follows in
            handled mode h Q s_expr_left_side z t.at (
              handled mode h Q s_sub_expression r e.at (
                and_then mode h (Evaluated b left r) Q (process_expression mode h r)
                  (evaluated b (strength op) left r fits_b settled_b
                    (omega (arith, e.binds, stronger)) (omega (arith, e.binds)) far e.leaves e.runs)
                  (λ y u.
                    right_operand mode h op r y (throughout_root (IsPlain mode h) b settled_b) near
                      e u))))
