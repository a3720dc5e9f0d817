-- ===== src/Script/Processor/Branches.antt =====
-- Which branches of if and else run (s_ifCondition, s_ifTrueStatement, p44script.cpp).
use p44utils.Prelude.{
  ap, ◌∙◌, inl, inr, is_some, ◌≡◌, refl, Bool, true, false, not, ◌||◌, some, List, ◌∷◌, Bool-cases,
}
use p44utils.Script.Cursor.{Cursor, next_code_if, skip_non_code, check_for_identifier}
use p44utils.Script.Processor.State.{
  StackFrame, s_if_true_statement, s_one_statement, Processor, Hooks,
}
use p44utils.Script.Processor.Stack.{pop_frame, pop, push}
use p44utils.Script.Processor.Statements.Keywords.{word_else, word_if}
use p44utils.Script.Processor.Statements.Conditions.{decided, if_condition, if_true_statement}

-- Whether an else stands at the cursor, and the cursor behind it.
abbrev pub else_at : Cursor → Bool × Cursor
unfolding check_for_identifier skip_non_code
else_at a = check_for_identifier word_else (skip_non_code a)

-- Whether what follows an else is no `if` without a condition in parentheses.
abbrev pub is_complete_else : Cursor → Bool
unfolding check_for_identifier skip_non_code next_code_if
is_complete_else a =
    let (has_if, behind) = check_for_identifier word_if (skip_non_code a) in
    not has_if || (next_code_if b'(' behind).0

implied : (b c : Bool) → b ≡ true → (not b || c) ≡ true → c ≡ true
implied true c e i = i
implied false c e i = cc

module _ {V W : Type 0} (h : Hooks V W) where
  decided_lem :
      (p : Processor V W) (v : V)
      → p.result ≡ some v
      → ((decided h p).skipping ≡ (p.skipping || not (h.values.truth v)))
        × (not (is_some (decided h p).result) ≡ (p.skipping || h.values.truth v))
  decided_lem p v e = elim (Bool-cases p.skipping) [
    | inl s ↦ (rw s refl, rw s refl)
    | inr s ↦ elim (Bool-cases (h.values.truth v)) [
      | inl t ↦ (rw (s, e, t) refl, rw (s, e, t) refl)
      | inr t ↦ (rw (s, e, t) refl, rw (s, e, t) refl)
    ]
  ]

  condition_step :
      (p : Processor V W)
      → (next_code_if b')' p.src).0 ≡ true
      → if_condition h p
        ≡ record (push h s_if_true_statement
            (decided h (record p { src = (next_code_if b')' p.src).1 }))) {
              current_state = some s_one_statement;
            }
  unfolding if_condition push
  condition_step p c = rw (c, if_condition) refl

  else_step :
      (r : Processor V W)
      → (else_at r.src).0 ≡ true
      → is_complete_else (else_at r.src).1 ≡ true
      → (if_true_statement h r).skipping ≡ not (is_some r.older_result)
  unfolding if_true_statement push
  else_step r x y =
      elim (Bool-cases (check_for_identifier word_if (skip_non_code (else_at r.src).1)).0) [
        | inl i ↦
            rw
              (
                x,
                i,
                implied (check_for_identifier word_if (skip_non_code (else_at r.src).1)).0
                    (next_code_if b'('
                      (check_for_identifier word_if (skip_non_code (else_at r.src).1)).1).0
                    i y,
                if_true_statement,
              )
              refl
        | inr i ↦ rw (x, i, if_true_statement) refl
      ]

  popped :
      (s : Processor V W) {f : StackFrame V} {l : List (StackFrame V)}
      → s.stack ≡ f ∷ l
      → pop h s ≡ pop_frame h f l s
  unfolding pop
  popped s t = rw t refl

  -- What s_ifCondition leaves on the stack.
  abbrev decided_frame : Processor V W → StackFrame V
  decided_frame p =
      let q = decided h p in
      record {
        src = q.src;
        skipping = q.skipping;
        return_to_state = s_if_true_statement;
        result = q.result;
        helper = q.helper;
        precedence = q.precedence;
        pending_operation = q.pending_operation;
      }

  behind_statement :
      (q s : Processor V W) (v : V)
      → q.result ≡ some v
      → s.stack ≡ (push h s_if_true_statement (decided h q)).stack
      → (else_at s.src).0 ≡ true
      → is_complete_else (else_at s.src).1 ≡ true
      → (if_true_statement h (pop h s)).skipping ≡ (q.skipping || h.values.truth v)
  unfolding push
  behind_statement q s v e t x y =
      ap (λ (r : Processor V W). (if_true_statement h r).skipping)
        (popped s {f = decided_frame q} {l = (decided h q).stack} t)
      ∙ (else_step (pop_frame h (decided_frame q) (decided h q).stack s) x y
          ∙ (decided_lem q v e).1)

  -- Of a statement behind a condition and one behind its else exactly one runs, and neither where
  -- the `if` is skipped: where the condition has a result and a closing parenthesis, s_ifCondition
  -- skips the statement exactly where the result is false or the processor skips already; and when
  -- the processor comes back to that stack, in front of an else that stands alone or with an `if`
  -- and an opening parenthesis, s_ifTrueStatement skips what follows, a statement or a condition,
  -- exactly where the result was true or the processor skipped already.
  pub if_true_statement-if_condition :
      (p s : Processor V W) (v : V)
      → p.result ≡ some v
      → (next_code_if b')' p.src).0 ≡ true
      → s.stack ≡ (if_condition h p).stack
      → (else_at s.src).0 ≡ true
      → is_complete_else (else_at s.src).1 ≡ true
      → ((if_condition h p).skipping ≡ (p.skipping || not (h.values.truth v)))
        × ((if_true_statement h (pop h s)).skipping ≡ (p.skipping || h.values.truth v))
  unfolding if_condition if_true_statement pop push
  if_true_statement-if_condition p s v e c t x y =
      let q = record p { src = (next_code_if b')' p.src).1 } in
      let step = condition_step p c in
      (
        ap (λ (r : Processor V W). r.skipping) step ∙ (decided_lem q v e).0,
        behind_statement q s v e (t ∙ ap (λ (r : Processor V W). r.stack) step) x y,
      )
