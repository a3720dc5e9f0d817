-- ===== src/Operations/Abort.antt =====
-- abortOperation and abortOperations (operationqueue.cpp): whose completion callbacks are called.
use p44utils.Prelude.{
  ap, ◌∙◌, Bool-cases, inl, inr, zero, suc, ◌≤◌, length, arith, ℕ, ◌≡◌, refl, some, none, List, [],
  ◌∷◌, ◌++◌, append_assoc, append-nil, if◌then◌else◌,
}
use p44utils.Operations.Defs.{
  abort_chain, abort_operation, abort_loop, abort_operations, Operation, Pending, Queue,
  Surroundings, Outcome, abort_one, call_abort,
}

-- The calls that aborting an operation makes: its callback is called with the error, unless it was
-- aborted before.
abbrev pub aborts_one : Outcome → Operation → List (ℕ × Outcome)
aborts_one e op = elim op.completion [ none ↦ [] | some c ↦ if op.aborted then [] else (c, e) ∷ [] ]

abbrev pub aborts_chain : Outcome → Operation → List Operation → List (ℕ × Outcome)
aborts_chain e op [] = aborts_one e op
aborts_chain e op (next ∷ more) = aborts_one e op ++ aborts_chain e next more

abbrev pub aborts : Outcome → List Pending → List (ℕ × Outcome)
aborts e [] = []
aborts e (p ∷ rest) = aborts_chain e p.operation p.chained ++ aborts e rest

-- Callbacks that are called with this error queue nothing.
abbrev pub IsQuiet : Surroundings → Outcome → Type 0
IsQuiet env e = (c : ℕ) → env.on_abort c e ≡ []

module _ (env : Surroundings) (e : Outcome) (quiet : IsQuiet env e) where
  abbrev called : List (ℕ × Outcome) → Queue → Queue
  called calls q = record q { calls = q.calls ++ calls }

  call_abort-quiet : (c : ℕ) (q : Queue) → call_abort env c e q ≡ called ((c, e) ∷ []) q
  unfolding call_abort
  call_abort-quiet c q = rw (quiet c, append-nil q.operations) refl

  called_nothing : (q : Queue) → q ≡ called [] q
  called_nothing q = rw (append-nil q.calls) refl

  called-called : (a b : List (ℕ × Outcome)) (q : Queue) → called b (called a q) ≡ called (a ++ b) q
  called-called a b q = rw (append_assoc q.calls a b) refl

  abort_one-called :
      (op : Operation) (q : Queue) → abort_one env (some e) op q ≡ called (aborts_one e op) q
  unfolding abort_one
  abort_one-called op q =
      elim op.completion
        as (λ o.
          elim o [ none ↦ q | some c ↦ if op.aborted then q else call_abort env c e q ]
          ≡ called (elim o [ none ↦ [] | some c ↦ if op.aborted then [] else (c, e) ∷ [] ]) q) [
            | none ↦ called_nothing q
            | some c ↦ elim (Bool-cases op.aborted) [
              | inl h ↦ rw h (called_nothing q)
              | inr h ↦ rw h (call_abort-quiet c q)
            ]
          ]

  pub abort_chain-called :
      (op : Operation) (more : List Operation) (q : Queue)
      → abort_chain env (some e) op more q ≡ called (aborts_chain e op more) q
  unfolding abort_chain
  abort_chain-called op [] q = abort_one-called op q
  abort_chain-called op (next ∷ more) q = rw (abort_one-called op q) (
      abort_chain-called next more (called (aborts_one e op) q)
      ∙ called-called (aborts_one e op) (aborts_chain e next more) q)

  abort_loop-called :
      (fuel : ℕ) (ps : List Pending) (q : Queue)
      → length ps ≤ fuel
      → abort_loop env fuel (some e) ps q
        ≡ some (record (called (aborts e ps) q) { operations = [] })
  unfolding abort_loop abort_operation
  abort_loop-called fuel [] q h = rw (append-nil q.calls) refl
  abort_loop-called zero (p ∷ rest) q h = absurd (omega arith)
  abort_loop-called (suc f) (p ∷ rest) q h =
      let calls = aborts_chain e p.operation p.chained in
      let q1 = called calls (record q { operations = [] }) in
      ap (λ (x : Queue). abort_loop env f (some e) (rest ++ x.operations) x)
        (abort_chain-called p.operation p.chained (record q { operations = [] }))
      ∙ ap (λ (l : List Pending). abort_loop env f (some e) l q1) (append-nil rest)
      ∙ abort_loop-called f rest q1 (omega arith)
      ∙ ap (λ (l : List (ℕ × Outcome)). some (record q { operations = []; calls = l }))
          (append_assoc q.calls calls (aborts e rest))

  -- abortOperations with an error empties the queue and calls, in the order of the queue and of
  -- the chains, the callback of every operation that has one and was not aborted before, once and
  -- with the error; as many rounds as operations in the queue are enough. The callbacks queue
  -- nothing when they are called with this error.
  pub abort_operations_lem :
      (fuel : ℕ) (q : Queue)
      → length q.operations ≤ fuel
      → abort_operations env fuel (some e) q
        ≡ some (record q { operations = []; calls = q.calls ++ aborts e q.operations })
  unfolding abort_operations
  abort_operations_lem fuel q h = abort_loop-called fuel q.operations q h
