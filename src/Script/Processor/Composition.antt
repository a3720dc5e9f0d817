-- ===== src/Script/Processor/Composition.antt =====
-- Runs from a value to where the state machine looks for an operator behind it (p44script.cpp).
use p44utils.Prelude.{ℕ, ◌≡◌, refl, Bool, true, Option, some, List, ◌∷◌}
use p44utils.Script.Operators.{OperatorMode}
use p44utils.Script.Processor.State.{
  StackFrame, Processor, Hooks, s_expression, s_grouped_expression, s_expr_first_term, s_member,
  s_expr_left_side, s_sub_expression, s_expr_right_side,
}
use p44utils.Script.Processor.Members.{member}
use p44utils.Script.Processor.Expression.{
  expr_first_term, apply_unary, expr_left_side, grouped_expression, expr_right_side, operate,
}
use p44utils.Script.Processor.Step.{handle}
use p44utils.Script.Processor.Steps.{Stands, IsPlain, Reaches, arrived, handled}
use p44utils.Script.Processor.Frames.{Enters, Back, Returned-Back, Stands-at}
use p44utils.Script.Processor.Operands.{Follows, at_paren}
use p44utils.Script.Processor.LeftSide.{left_side-Returned, right_side-Stands}
use p44utils.Script.Processor.Group.{grouped_expression-Enters, member-Returned, signed_value}
use p44utils.Script.Processor.Tree.{BinaryOperator, strength, code, sign_code, Sign}
use p44utils.Script.Processor.Evaluation.{is_edge, is_edge-deeper}

module _ {V W : Type 0} (mode : OperatorMode) (h : Hooks V W) where
  -- Behind a term, its sign is applied.
  pub signed_term :
      {v : V} {left : List ℕ} {below : List (StackFrame V)} {held : ℕ} {older : Option V}
      {flag : Bool} (s : Option Sign) (q : Processor V W)
      → Back mode h s_expr_first_term older (sign_code s) held v left below flag q
      → Reaches mode h q (
          Stands mode h s_expr_left_side
            (some (apply_unary mode h (sign_code s) v))
            left
            below
            held
            flag)
  unfolding handle
  signed_term {v} {left} {below} {held} {older} {flag} s q b =
      let Q : Processor V W → Type 0 =
        Stands mode h s_expr_left_side (some (apply_unary mode h (sign_code s) v)) left below held
          flag in
      handled mode h Q s_expr_first_term q b.stands.at
        (arrived mode h Q (expr_first_term mode h q) (signed_value mode h s q b))

  -- Behind the value in a group, the parenthesis closes it.
  pub closed_group :
      {v : V} {left : List ℕ} {below : List (StackFrame V)} {held precedence : ℕ} {older : Option V}
      {flag : Bool} {inside : List ℕ} (s : Option Sign) (p q : Processor V W)
      → ((p : Processor V W) → h.member_event_check p ≡ p)
      → IsPlain mode h v
      → is_edge left ≡ true
      → Enters mode h s_expression s_grouped_expression older
          (sign_code s)
          held
          inside
          below
          precedence
          flag
          p
      → Stands mode h s_expr_left_side (some v) (b')' ∷ left) p.stack 1 p.expression_flag q
      → Reaches mode h q (
          Stands mode h s_expr_left_side
            (some (apply_unary mode h (sign_code s) v))
            left
            below
            held
            flag)
  unfolding handle
  closed_group {v} {left} {below} {held} {precedence} {older} {flag} s p q no_event settled edge e
        t =
      let Q : Processor V W → Type 0 =
        Stands mode h s_expr_left_side (some (apply_unary mode h (sign_code s) v)) left below held
          flag in
      let inner = expr_left_side mode h q in
      let outer = grouped_expression mode h inner in
      let b = Returned-Back mode h p inner e (
        left_side-Returned mode h e.frame below q settled e.resumes (at_paren left)
          (Stands-at mode h q e.keeps refl e.ends t)) in
      let m = grouped_expression-Enters mode h inner b in
      let r =
        Returned-Back mode h outer (member mode h outer) m
          (member-Returned mode h outer no_event settled (is_edge-deeper left edge) m) in
      handled mode h Q s_expr_left_side q t.at (
        handled mode h Q s_grouped_expression inner b.stands.at
          (handled mode h Q s_member outer m.at (signed_term s (member mode h outer) r)))

  -- Behind the right operand, the operation follows.
  pub right_operand :
      {a v : V} {left : List ℕ} {below : List (StackFrame V)} {held : ℕ} {flag : Bool}
      {inside : List ℕ} (op : BinaryOperator) (p q : Processor V W)
      → IsPlain mode h v
      → Follows (strength op) left
      → Enters mode h s_sub_expression s_expr_right_side
          (some a)
          (code op)
          held
          inside
          below
          (strength op)
          flag
          p
      → Stands mode h s_expr_left_side (some v) left p.stack p.precedence p.expression_flag q
      → Reaches mode h q (
          Stands mode h s_expr_left_side (some (operate mode h (code op) a v)) left below held flag)
  unfolding handle
  right_operand {a} {v} {left} {below} {held} {flag} op p q settled follows e t =
      let Q : Processor V W → Type 0 =
        Stands mode h s_expr_left_side (some (operate mode h (code op) a v)) left below held flag in
      let inner = expr_left_side mode h q in
      let b = Returned-Back mode h p inner e (
        left_side-Returned mode h e.frame below q settled e.resumes follows
          (Stands-at mode h q e.keeps e.binds e.ends t)) in
      handled mode h Q s_expr_left_side q t.at (
        handled mode h Q s_expr_right_side inner b.stands.at
          (arrived mode h Q (expr_right_side mode h inner) (right_side-Stands mode h op inner b)))
