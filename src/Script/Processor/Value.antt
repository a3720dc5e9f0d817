-- ===== src/Script/Processor/Value.antt =====
-- An expression from start to complete (p44script.cpp).
use p44utils.Prelude.{
  ◌≤◌, arith, ℕ, ◌≡◌, refl, sym, ◌∙◌, Bool, true, false, not, ◌&&◌, none, some, Option, List, [],
  ◌∷◌,
}
use p44utils.Script.Processor.State.{
  s_expression, s_expr_left_side, Processor, Hooks, trailing_garbage, s_complete,
}
use p44utils.Script.Processor.Stack.{push, complete}
use p44utils.Script.Processor.Step.{start_in, step_loop, handle, start_expression}
use p44utils.Script.Processor.Steps.{
  Stands, and_then, step_loop-Steps, IsPlain, Reaches, arrived, handled,
}
use p44utils.Script.Processor.Operands.{Follows-weaker, at_end, at_paren, Follows}
use mathlib.Core.Path.{subst}
use p44utils.Script.Cursor.{Cursor, is_eot}
use p44utils.Script.Operators.{OperatorMode}
use p44utils.Script.Processor.Expression.{expression, process_expression, expr_left_side}
use p44utils.Script.Processor.Reading.{skip_non_code-Solid, Solid}
use p44utils.Script.Processor.Frames.{frame_of}
use p44utils.Script.Processor.LeftSide.{left_side-Returned}
use p44utils.Script.Processor.Evaluation.{IsLeaf}
use p44utils.Script.Processor.Precedence.{evaluated, throughout_root}
use p44utils.Script.Processor.Tree.{Tree, written, value_of, Fits, Throughout}

and_false : (b : Bool) → (b && false) ≡ false
and_false true = refl
and_false false = refl

module _ {V W : Type 0} (mode : OperatorMode) (h : Hooks V W) where
  complete-at_end :
      (v : V) (p : Processor V W) → p.src.rest ≡ [] → (complete h (some v) p).result ≡ some v
  unfolding complete is_eot
  complete-at_end v p e =
      let still = skip_non_code-Solid p.src (subst (λ t. Solid t) (sym e) refl) in
      rw (still, e, and_false (not (h.values.is_err v) && p.expression_flag)) refl

  complete-at_paren :
      (v : V) (l : List ℕ) (p : Processor V W)
      → p.src.rest ≡ b')' ∷ l
      → h.values.is_err v ≡ false
      → p.expression_flag ≡ true
      → (complete h (some v) p).result ≡ some (h.values.error_value trailing_garbage p.src)
  unfolding complete is_eot
  complete-at_paren v l p e good flag =
      let still = skip_non_code-Solid p.src (subst (λ t. Solid t) (sym e) refl) in
      rw (good, flag, still, e) refl

  -- At the end of the run: completed, with a result that has a property.
  abbrev pub Completes : (Option V → Type 0) → Processor V W → Type 0
  Completes P p = (p.current_state ≡ none) × P p.result

  completed_state : (v : V) (p : Processor V W) → (complete h (some v) p).current_state ≡ none
  unfolding complete
  completed_state v p = refl

  finish :
      (P : Option V → Type 0) (v : V) (q : Processor V W)
      → q.current_state ≡ some s_complete
      → q.result ≡ some v
      → P (complete h (some v) q).result
      → Reaches mode h q (Completes P)
  unfolding handle
  finish P v q e r x = handled mode h (Completes P) s_complete q e (
      subst (λ o. Reaches mode h (complete h o q) (Completes P)) (sym r)
        (arrived mode h (Completes P) (complete h (some v) q) (completed_state v q, x)))

  module _ (no_event : (p : Processor V W) → h.member_event_check p ≡ p) where
    -- A started expression comes to its end with the value of its tree.
    evaluated_start :
        (e : Tree V) (left : List ℕ) (p : Processor V W)
        → Fits mode h (IsLeaf mode h) 1 e
        → Throughout mode h (IsPlain mode h) e
        → Follows 1 left
        → p.src.rest ≡ written e left
        → Reaches mode h (start_expression mode h false p) (
            Stands mode h s_complete
              (some (value_of mode h e))
              left
              []
              p.precedence
              p.expression_flag)
    unfolding handle expression start_in push
    evaluated_start e left p fits settled follows text =
        let Q : Processor V W → Type 0 =
          Stands mode h s_complete (some (value_of mode h e)) left [] p.precedence
            p.expression_flag in
        let started = start_expression mode h false p in
        let q = record started { precedence = 1 } in
        let frame =
          frame_of s_complete
            (record p { stack = []; current_state = some s_expression; skipping = false }) in
        let at_left : Processor V W → Type 0 =
          Stands mode h s_expr_left_side (some (value_of mode h e)) left (frame ∷ []) 1
            p.expression_flag in
        handled mode h Q s_expression started refl (
          and_then mode h at_left Q (process_expression mode h q)
            (evaluated mode h no_event e 1 left q fits settled (omega arith) (omega arith)
              (Follows-weaker (omega arith) follows) text refl)
            (λ z t. handled mode h Q s_expr_left_side z t.at (
              arrived mode h Q (expr_left_side mode h z)
                (left_side-Returned mode h frame [] z
                  (throughout_root mode h (IsPlain mode h) e settled) refl follows t).stands)))

    runs_to :
        (P : Option V → Type 0) (p : Processor V W)
        → Reaches mode h p (Completes P)
        → (n : ℕ) × ((f : ℕ) → n ≤ f → Completes P (step_loop mode h f p))
    runs_to P p (q, (r, x)) =
        let (n, w) = step_loop-Steps mode h r x.0 in
        (n, λ f le. subst (Completes P) (sym (w f le)) x)

    -- At the end of the text: the value.
    pub evaluates :
        (e : Tree V) (p : Processor V W)
        → Fits mode h (IsLeaf mode h) 1 e
        → Throughout mode h (IsPlain mode h) e
        → p.src.rest ≡ written e []
        → (n : ℕ) × ((f : ℕ)
            → n ≤ f
            → Completes
                (λ r. r ≡ some (value_of mode h e))
                (step_loop mode h f (start_expression mode h false p)))
    evaluates e p fits settled text =
        let P : Option V → Type 0 = λ r. r ≡ some (value_of mode h e) in
        let started = start_expression mode h false p in
        runs_to P started (
          and_then mode h
            (Stands mode h s_complete (some (value_of mode h e)) [] [] p.precedence
              p.expression_flag)
            (Completes P) started (evaluated_start e [] p fits settled at_end text)
            (λ q t.
              finish P (value_of mode h e) q t.at t.holds
                (complete-at_end (value_of mode h e) q t.leaves)))

    -- In front of a closing parenthesis: an error at it.
    pub ends_in_garbage :
        (e : Tree V) (l : List ℕ) (p : Processor V W)
        → Fits mode h (IsLeaf mode h) 1 e
        → Throughout mode h (IsPlain mode h) e
        → p.src.rest ≡ written e (b')' ∷ l)
        → h.values.is_err (value_of mode h e) ≡ false
        → p.expression_flag ≡ true
        → (n : ℕ) × ((f : ℕ)
            → n ≤ f
            → Completes
                (λ r.
                  (a : Cursor) × ((a.rest ≡ b')' ∷ l)
                    × (r ≡ some (h.values.error_value trailing_garbage a))))
                (step_loop mode h f (start_expression mode h false p)))
    ends_in_garbage e l p fits settled text good flag =
        let P : Option V → Type 0 = λ r.
          (a : Cursor) × ((a.rest ≡ b')' ∷ l)
            × (r ≡ some (h.values.error_value trailing_garbage a))) in
        let started = start_expression mode h false p in
        runs_to P started (
          and_then mode h
            (Stands mode h s_complete (some (value_of mode h e)) (b')' ∷ l) [] p.precedence
              p.expression_flag)
            (Completes P) started (evaluated_start e (b')' ∷ l) p fits settled (at_paren l) text)
            (λ q t. finish P (value_of mode h e) q t.at t.holds (
              q.src,
              (t.leaves, complete-at_paren (value_of mode h e) l q t.leaves good (t.ends ∙ flag)),
            )))
