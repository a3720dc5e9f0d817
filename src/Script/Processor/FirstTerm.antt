-- ===== src/Script/Processor/FirstTerm.antt =====
-- The start of an expression: its sign, and the term or the group behind it (processExpression,
-- p44script.cpp).
use p44utils.Prelude.{
  ℕ, ◌≤◌, ◌≡◌, refl, sym, ap, ◌∙◌, Bool, true, false, not, ◌&&◌, Option, none, some, List, ◌∷◌,
  ◌++◌, ◌==◌, if◌then◌else◌, get_or, arith,
}
use mathlib.Core.Path.{subst}
use p44utils.Script.Cursor.{Cursor, next_if, next, char_at}
use p44utils.Script.Operators.{OperatorMode, parse_operator, op_none}
use p44utils.Script.StringChars.{next-rest}
use p44utils.Script.Processor.State.{
  Processor, Hooks, s_expression, s_grouped_expression, s_expr_first_term, s_simple_term,
}
use p44utils.Script.Processor.Stack.{push}
use p44utils.Script.Processor.Expression.{process_expression, is_unary}
use p44utils.Script.Processor.OperatorText.{plain, sign-Reads}
use p44utils.Script.Processor.Frames.{frame_of, Enters}
use p44utils.Script.Processor.Tree.{Sign, negative, positive, inverse, sign_code, sign_text}

is_unary-sign_code :
    (s : Option Sign) → (not (sign_code s == op_none) && not (is_unary (sign_code s))) ≡ false
is_unary-sign_code none = refl
is_unary-sign_code (some negative) = refl
is_unary-sign_code (some positive) = refl
is_unary-sign_code (some inverse) = refl

keeps_precedence : (b : Bool) (n : ℕ) → 1 ≤ n → (if b && n == 0 then 1 else n) ≡ n
keeps_precedence b n le = ground (arith, le)

pub next_if-other : (c : ℕ) (at : Cursor) → (char_at 0 at == c) ≡ false → next_if c at ≡ (false, at)
unfolding next_if
next_if-other c at e = rw e refl

pub next_if-found :
    (c : ℕ) (l : List ℕ) (at : Cursor)
    → at.rest ≡ c ∷ l
    → (c == c) ≡ true
    → next_if c at ≡ (true, (next at).1)
unfolding next_if
next_if-found c l at e same = rw (e, same) refl

module _ {V W : Type 0} (mode : OperatorMode) (h : Hooks V W) where
  -- What processExpression does behind a sign.
  abbrev behind_sign : ℕ → Cursor → Bool × Cursor → Processor V W → Processor V W
  behind_sign op at (group, inside) p =
      let r = record p {
        pending_operation = op;
        src = at;
        precedence = if not (op == op_none) && p.precedence == 0 then 1 else p.precedence;
      } in
      if group
      then record (push h s_grouped_expression (record r { src = inside })) {
        current_state = some s_expression;
      }
      else record (push h s_expr_first_term r) { current_state = some s_simple_term }

  processed :
      (s : Option Sign) (at : Cursor) (g : Bool × Cursor) (p : Processor V W)
      → parse_operator mode p.src ≡ (sign_code s, at)
      → next_if b'(' at ≡ g
      → process_expression mode h p ≡ behind_sign (sign_code s) at g p
  unfolding process_expression
  processed s at g p reads e = rw (reads, e, is_unary-sign_code s) refl

  -- A simple term.
  pub process_expression-Enters :
      (s : Option Sign) (l : List ℕ) (p : Processor V W)
      → p.src.rest ≡ sign_text s ++ l
      → plain (get_or l 0 0) ≡ true
      → (get_or l 0 0 == b'(') ≡ false
      → 1 ≤ p.precedence
      → p.skipping ≡ false
      → Enters mode h s_simple_term s_expr_first_term p.result
          (sign_code s)
          p.precedence
          l
          p.stack
          p.precedence
          p.expression_flag
          (process_expression mode h p)
  unfolding push
  process_expression-Enters s l p e starts other le runs =
      let (at, (reads, rest)) = sign-Reads mode s l p.src starts e in
      let op = sign_code s in
      let same = keeps_precedence (not (op == op_none)) p.precedence le in
      let alone = next_if-other b'(' at (ap (λ t. get_or t 0 0 == b'(') rest ∙ other) in
      subst
        (λ (z : Processor V W).
          Enters mode h s_simple_term s_expr_first_term p.result op p.precedence l p.stack
            p.precedence p.expression_flag z)
        (sym (processed s at (false, at) p reads alone))
        (record {
          frame = frame_of s_expr_first_term (record p {
            src = at;
            pending_operation = op;
            precedence = if not (op == op_none) && p.precedence == 0 then 1 else p.precedence;
          });
          at = refl;
          holds = refl;
          leaves = rest;
          keeps = refl;
          binds = same;
          runs = runs;
          ends = refl;
          returns = refl;
          saves = refl;
          waits = refl;
          restores = same;
          resumes = runs;
        })

  -- A group in parentheses.
  pub process_expression-group :
      (s : Option Sign) (l : List ℕ) (p : Processor V W)
      → p.src.rest ≡ sign_text s ++ b'(' ∷ l
      → 1 ≤ p.precedence
      → p.skipping ≡ false
      → Enters mode h s_expression s_grouped_expression p.result
          (sign_code s)
          p.precedence
          l
          p.stack
          p.precedence
          p.expression_flag
          (process_expression mode h p)
  unfolding push
  process_expression-group s l p e le runs =
      let (at, (reads, rest)) = sign-Reads mode s (b'(' ∷ l) p.src refl e in
      let op = sign_code s in
      let same = keeps_precedence (not (op == op_none)) p.precedence le in
      let found = next_if-found b'(' l at rest refl in
      subst
        (λ (z : Processor V W).
          Enters mode h s_expression s_grouped_expression p.result op p.precedence l p.stack
            p.precedence p.expression_flag z)
        (sym (processed s at (true, (next at).1) p reads found))
        (record {
          frame = frame_of s_grouped_expression (record p {
            src = (next at).1;
            pending_operation = op;
            precedence = if not (op == op_none) && p.precedence == 0 then 1 else p.precedence;
          });
          at = refl;
          holds = refl;
          leaves = next-rest b'(' l at rest refl;
          keeps = refl;
          binds = same;
          runs = runs;
          ends = refl;
          returns = refl;
          saves = refl;
          waits = refl;
          restores = same;
          resumes = runs;
        })
