-- ===== src/Operations/Counts.antt =====
-- Counting completion callbacks: those that wait in a list of operations, and the calls
-- (operationqueue.cpp).
use p44utils.Prelude.{
  ℕ, ◌+◌, ◌≤◌, ◌≡◌, Option, none, some, List, [], ◌∷◌, ◌++◌, arith, if◌then◌else◌, if_both, ◌==◌,
}
use p44utils.Operations.Defs.{Operation, Pending, Outcome}
use p44utils.Operations.Abort.{aborts_one, aborts_chain}

module _ (c : ℕ) where
  -- 1 where the operation waits with this callback.
  abbrev pub waits_one : Option ℕ → ℕ
  waits_one none = 0
  waits_one (some k) = if k == c then 1 else 0

  abbrev pub waits_chain : List Operation → ℕ
  waits_chain [] = 0
  waits_chain (op ∷ more) = waits_one op.completion + waits_chain more

  -- How many operations of the list, the chained ones with them, wait with this callback.
  abbrev pub waiting : List Pending → ℕ
  waiting [] = 0
  waiting (p ∷ rest) = waits_one p.operation.completion + waits_chain p.chained + waiting rest

  -- How often the callback was called.
  abbrev pub made : List (ℕ × Outcome) → ℕ
  made [] = 0
  made ((k, e) ∷ rest) = (if k == c then 1 else 0) + made rest

  pub waiting-append : (a b : List Pending) → waiting (a ++ b) ≡ waiting a + waiting b
  waiting-append [] b = omega arith
  waiting-append (p ∷ a) b = omega (arith, waiting-append a b)

  pub made-append : (a b : List (ℕ × Outcome)) → made (a ++ b) ≡ made a + made b
  made-append [] b = omega arith
  made-append ((k, e) ∷ a) b = omega (arith, made-append a b)

  made-aborts_one :
      (e : Outcome) (op : Operation) → made (aborts_one e op) ≤ waits_one op.completion
  made-aborts_one e op =
      elim op.completion
        as (λ o.
          made (elim o [ none ↦ [] | some k ↦ if op.aborted then [] else (k, e) ∷ [] ])
          ≤ waits_one o) [
            | none ↦ omega arith
            | some k ↦
                if_both (λ (l : List (ℕ × Outcome)). made l ≤ waits_one (some k)) op.aborted
                  (ground arith) (ground arith)
          ]

  pub made-aborts_chain :
      (e : Outcome) (op : Operation) (more : List Operation)
      → made (aborts_chain e op more) ≤ waits_one op.completion + waits_chain more
  made-aborts_chain e op [] = omega (arith, made-aborts_one e op)
  made-aborts_chain e op (next ∷ more) = omega (
    arith,
    made-aborts_one e op,
    made-aborts_chain e next more,
    made-append (aborts_one e op) (aborts_chain e next more),
  )
