-- ===== src/Script/Processor/Group.antt =====
-- The end of a group in parentheses, and the sign of a term (s_groupedExpression, s_member,
-- s_exprFirstTerm, p44script.cpp).
use p44utils.Prelude.{
  ℕ, ◌≡◌, refl, sym, ap, ◌∙◌, Bool, false, Option, some, List, ◌∷◌, ◌==◌, get_or, arith,
}
use mathlib.Core.Path.{subst}
use p44utils.Script.Cursor.{next, char_at}
use p44utils.Script.Operators.{OperatorMode}
use p44utils.Script.StringChars.{next-rest}
use p44utils.Script.Processor.State.{
  StackFrame, Processor, Hooks, s_grouped_expression, s_expr_first_term, s_member, s_expr_left_side,
}
use p44utils.Script.Processor.Stack.{push, pop_with_valid_result}
use p44utils.Script.Processor.Terms.{goes_deeper}
use p44utils.Script.Processor.Members.{member}
use p44utils.Script.Processor.Expression.{grouped_expression, expr_first_term, apply_unary}
use p44utils.Script.Processor.Steps.{
  Returned-at, Stands, Returned, IsPlain, pop_with_valid_result-Returned,
}
use p44utils.Script.Processor.Frames.{frame_of, Enters, Back}
use p44utils.Script.Processor.Tree.{Sign, sign_code}
use p44utils.Script.Processor.FirstTerm.{next_if-other, next_if-found}

no_deeper :
    (c : ℕ)
    → goes_deeper c ≡ false
    → ((c == b'.') ≡ false) × (((c == b'[') ≡ false) × ((c == b'(') ≡ false))
no_deeper c e = ground (arith, e)

module _ {V W : Type 0} (mode : OperatorMode) (h : Hooks V W) where
  closed :
      (q : Processor V W) (left : List ℕ)
      → q.src.rest ≡ b')' ∷ left
      → grouped_expression mode h q
        ≡ record (push h s_expr_first_term (record q { src = (next q.src).1 })) {
          current_state = some s_member;
        }
  unfolding grouped_expression
  closed q left e = rw (next_if-found b')' left q.src e refl) refl

  -- The end of a group, where no member follows.
  pub grouped_expression-Enters :
      {v : V} {left : List ℕ} {below : List (StackFrame V)} {held op : ℕ} {older : Option V}
      {flag : Bool} (q : Processor V W)
      → Back mode h s_grouped_expression older op held v (b')' ∷ left) below flag q
      → Enters mode h s_member s_expr_first_term
          (some v)
          op
          held
          left
          below
          held
          flag
          (grouped_expression mode h q)
  unfolding push
  grouped_expression-Enters {v} {left} {below} {held} {op} {older} {flag} q b =
      let s = b.stands in
      subst
        (λ (z : Processor V W).
          Enters mode h s_member s_expr_first_term (some v) op held left below held flag z)
        (sym (closed q left s.leaves))
        (record {
          frame = frame_of s_expr_first_term (record q { src = (next q.src).1 });
          at = refl;
          holds = s.holds;
          leaves = next-rest b')' left q.src s.leaves refl;
          keeps =
              ap (λ fs. frame_of s_expr_first_term (record q { src = (next q.src).1 }) ∷ fs)
                s.keeps;
          binds = s.binds;
          runs = s.runs;
          ends = s.ends;
          returns = refl;
          saves = s.holds;
          waits = b.waiting;
          restores = s.binds;
          resumes = s.runs;
        })

  leaf_value :
      (q : Processor V W)
      → ((p : Processor V W) → h.member_event_check p ≡ p)
      → goes_deeper (char_at 0 q.src) ≡ false
      → member mode h q ≡ pop_with_valid_result h false q
  unfolding member
  leaf_value q no_event edge =
      let c = char_at 0 q.src in
      let (dot, (bracket, call)) = no_deeper c edge in
      rw
        (
          next_if-other b'.' q.src dot,
          next_if-other b'[' q.src bracket,
          next_if-other b'(' q.src call,
          no_event q,
        )
        refl

  -- A value that no member follows.
  pub member-Returned :
      {v : V} {left : List ℕ} {below : List (StackFrame V)} {held op precedence : ℕ} {flag : Bool}
      (q : Processor V W)
      → ((p : Processor V W) → h.member_event_check p ≡ p)
      → IsPlain mode h v
      → goes_deeper (get_or left 0 0) ≡ false
      → (e : Enters mode h s_member s_expr_first_term (some v) op held left below precedence flag q)
      → Returned mode h e.frame below v left flag (member mode h q)
  member-Returned {v} {left} {below} {held} {op} {precedence} {flag} q no_event settled edge e =
      let popped =
        pop_with_valid_result-Returned mode h e.frame below v q settled e.resumes e.keeps e.holds in
      subst (λ (z : Processor V W). Returned mode h e.frame below v left flag z)
        (sym (leaf_value q no_event (ap (λ l. goes_deeper (get_or l 0 0)) e.leaves ∙ edge)))
        (Returned-at mode h e.frame below v (pop_with_valid_result h false q) e.leaves e.ends
          popped)

  signed_term :
      {v : V} (s : Option Sign) (q : Processor V W)
      → q.skipping ≡ false
      → q.result ≡ some v
      → q.pending_operation ≡ sign_code s
      → expr_first_term mode h q ≡ record q {
        result = some (apply_unary mode h (sign_code s) v);
        current_state = some s_expr_left_side;
      }
  unfolding expr_first_term
  signed_term s q runs holds waiting = rw (runs, holds, waiting) refl

  -- A term with its sign.
  pub signed_value :
      {v : V} {left : List ℕ} {below : List (StackFrame V)} {held : ℕ} {older : Option V}
      {flag : Bool} (s : Option Sign) (q : Processor V W)
      → Back mode h s_expr_first_term older (sign_code s) held v left below flag q
      → Stands mode h s_expr_left_side
          (some (apply_unary mode h (sign_code s) v))
          left
          below
          held
          flag
          (expr_first_term mode h q)
  signed_value {v} {left} {below} {held} {older} {flag} s q b =
      let t = b.stands in
      subst
        (λ (z : Processor V W).
          Stands mode h s_expr_left_side (some (apply_unary mode h (sign_code s) v)) left below held
            flag z)
        (sym (signed_term s q t.runs t.holds b.waiting))
        (record {
          at = refl;
          holds = refl;
          leaves = t.leaves;
          keeps = t.keeps;
          binds = t.binds;
          runs = t.runs;
          ends = t.ends;
        })
