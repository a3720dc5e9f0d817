-- ===== src/Operations/Ends.antt =====
-- How many operations are left after one call of processOneOperation (operationqueue.cpp).
use p44utils.Prelude.{
  ◌&&◌, ◌==◌, not, ap, ◌∙◌, none, append-nil, refl, ◌≤◌, false, suc, some, ℕ, ◌+◌, ◌<◌, ◌≡◌, Bool,
  true, Option, List, [], ◌∷◌, ◌++◌, length, arith, if_both,
}
use p44utils.Operations.Defs.{
  Attempt, succeeds, refuses, aborts_with, attempt, attempt_with, can_initiate, Outcome, queue_now,
  initiate, finalize_operation, abort_operation, finalize_with, Operation, Pending, Queue,
  Surroundings, timed_out, has_timed_out_at,
}
use p44utils.Operations.Processing.{
  process_list, process_one_operation, put_next, insert_next, time_out, complete, try_initiate,
  scan,
}
use p44utils.Operations.Abort.{IsQuiet, abort_chain-called}

-- All operations in a list, the chained ones with them.
abbrev pub total : List Pending → ℕ
total [] = 0
total (p ∷ rest) = 1 + length p.chained + total rest

total-append : (a b : List Pending) → total (a ++ b) ≡ total a + total b
total-append [] b = omega arith
total-append (p ∷ a) b = omega (arith, total-append a b)

-- Callbacks that are called without an error, with OQError::TimedOut, or with an error with which an
-- operation aborts itself while it is initiated, queue and chain nothing.
pub record IsStill (env : Surroundings) : Type 0 where
  pub on_success : (c : ℕ) → env.on_success c ≡ ([], [])
  pub on_timeout : IsQuiet env timed_out
  pub on_initiation :
      (op : Operation) (reads : ℕ) (e : Outcome)
      → env.initiation op reads ≡ aborts_with e
      → IsQuiet env e

pub not-false : (b : Bool) → not b ≡ false → b ≡ true
not-false true h = refl
not-false false h = absurd (ground arith)

module _ (env : Surroundings) (still : IsStill env) where
  initiate-operations :
      (op : Operation) (q : Queue) → (initiate env op q).1.operations ≡ q.operations
  unfolding initiate queue_now
  initiate-operations op q =
      if_both (λ (s : Operation × Queue). s.1.operations ≡ q.operations) (op.timeout == 0) refl refl

  attempt_with-total :
      (a : Attempt) (p : Pending) (q : Queue)
      → ((e : Outcome) → a ≡ aborts_with e → IsQuiet env e)
      → q.operations ≡ []
      → let (done, p', q') = attempt_with env a p q in
        (length p'.chained ≤ length p.chained) × (q'.operations ≡ [])
  unfolding attempt_with abort_operation
  attempt_with-total succeeds p q quiet e = (omega arith, initiate-operations p.operation q ∙ e)
  attempt_with-total refuses p q quiet e = (omega arith, e)
  attempt_with-total (aborts_with o) p q quiet e = (
    omega arith,
    initiate-operations (record p.operation { aborted = true; completion = none })
          (abort_operation env (some o) p q)
        ∙ ap (λ (r : Queue). r.operations)
            (abort_chain-called env o (quiet o refl) p.operation p.chained q)
        ∙ e,
  )

  pub attempt-total :
      (p : Pending) (q : Queue)
      → q.operations ≡ []
      → let (done, p', q') = attempt env p q in
        (length p'.chained ≤ length p.chained) × (q'.operations ≡ [])
  unfolding attempt
  attempt-total p q e =
      attempt_with-total (env.initiation p.operation q.reads) p q
        (still.on_initiation p.operation q.reads) e

  pub try_initiate-total :
      (t : ℕ) (p : Pending) (q : Queue)
      → q.operations ≡ []
      → let (waits, p', q') = try_initiate env t p q in
        (length p'.chained ≤ length p.chained) × (q'.operations ≡ [])
  unfolding try_initiate can_initiate queue_now
  try_initiate-total t p q e =
      let (can, op1, q1) = can_initiate env p.operation q in
      let a = attempt-total (record p { operation = op1 }) q1 e in
      let (done, p2, q2) = attempt env (record p { operation = op1 }) q1 in
      let P : Bool × Pending × Queue → Type 0 =
        λ r. (length r.1.chained ≤ length p.chained) × (r.2.operations ≡ []) in
      if_both P p.operation.initiated (omega arith, e)
        (if_both P can (a.0, if_both (λ (r : Queue). r.operations ≡ []) done a.1 a.1)
          (omega arith, e))

  pub time_out-total :
      (acc rest : List Pending) (p : Pending) (q : Queue)
      → total (time_out env acc p rest q).operations ≡ total acc + total rest
  unfolding time_out abort_operation
  time_out-total acc rest p q =
      rw
        (
          abort_chain-called env timed_out still.on_timeout p.operation p.chained
              (record q { operations = [] }),
          append-nil (acc ++ rest),
        )
        (total-append acc rest)

  insert_next-total :
      (acc rest queued : List Pending) (next : Pending)
      → total (insert_next acc next rest queued)
        ≡ total acc + total rest + total queued + 1 + length next.chained
  unfolding insert_next
  insert_next-total acc [] queued next =
      omega (arith, total-append (acc ++ queued) (next ∷ []), total-append acc queued)
  insert_next-total acc (p ∷ rest) queued next =
      omega
        (arith, total-append (acc ++ next ∷ p ∷ rest) queued, total-append acc (next ∷ p ∷ rest))

  finalize_with-still :
      (completion : Option ℕ) (chained : List Operation) (q : Queue)
      → q.operations ≡ []
      → let (chained', q') = finalize_with env completion chained q in
        (length chained' ≤ length chained) × (q'.operations ≡ [])
  unfolding finalize_with
  finalize_with-still none chained q e = (omega arith, e)
  finalize_with-still (some c) [] q e =
      rw (still.on_success c) (omega arith, append-nil q.operations ∙ e)
  finalize_with-still (some c) (next ∷ more) q e = (omega arith, e)

  put_next-total :
      (acc rest : List Pending) (chained : List Operation) (q : Queue)
      → q.operations ≡ []
      → total (put_next env acc rest chained q).operations ≤ total acc + total rest + length chained
  unfolding put_next
  put_next-total acc rest [] q e =
      omega (arith, ap total e, total-append acc rest, total-append (acc ++ rest) q.operations)
  put_next-total acc rest (next ∷ more) q e =
      let given : Pending = record { operation = next; chained = more } in
      let a = attempt-total given (record q { operations = [] }) refl in
      let (done, p, q') = attempt env given (record q { operations = [] }) in
      omega (
        arith,
        a.0,
        ap total e,
        ap total a.1,
        total-append (insert_next acc p rest q.operations) q'.operations,
        insert_next-total acc rest q.operations p,
      )

  complete-total :
      (acc rest : List Pending) (p : Pending) (q : Queue)
      → total (complete env acc p rest q).operations ≤ total acc + total rest + length p.chained
  unfolding complete finalize_operation
  complete-total acc rest p q =
      let (chained, q1) = finalize_operation env p (record q { operations = [] }) in
      let f =
        finalize_with-still p.operation.completion p.chained (record q { operations = [] }) refl in
      omega (arith, put_next-total acc rest chained q1 f.1, f.0)

  scan-total :
      (t : ℕ) (acc ps : List Pending) (q : Queue)
      → let (again, q') = scan env t acc ps q in
        again ≡ true → total q'.operations < total acc + total ps
  unfolding scan
  scan-total t acc [] q = λ h. absurd (ground arith)
  scan-total t acc (p ∷ rest) q =
      let r = try_initiate-total t p (record q { operations = [] }) refl in
      let (waits, p1, q1) = try_initiate env t p (record q { operations = [] }) in
      let op = p1.operation in
      let P : Bool × Queue → Type 0 =
        λ s. s.0 ≡ true → total s.1.operations < total acc + (1 + length p.chained + total rest) in
      let further : P (scan env t (acc ++ p1 ∷ []) rest q1) = λ h.
        omega (arith, r.0, scan-total t (acc ++ p1 ∷ []) rest q1 h, total-append acc (p1 ∷ [])) in
      let stays : P (false, record q1 { operations = acc ++ p1 ∷ rest }) =
        λ h. absurd (ground arith) in
      let gone : P (true, record q1 { operations = acc ++ rest ++ q1.operations }) = λ h.
        omega
          (arith, ap total r.1, total-append acc rest, total-append (acc ++ rest) q1.operations) in
      if_both P (has_timed_out_at t p.operation) (λ h. omega (arith, time_out-total acc rest p q))
        (if_both P (waits && op.in_sequence) stays (
          if_both P op.aborted gone (
            if_both P (not op.initiated) further (
              if_both P (env.completed op q1.reads)
                (λ h. omega (arith, r.0, complete-total acc rest p1 q1))
                (if_both P op.in_sequence stays further)))))

  process_list-total :
      (ps : List Pending) (q : Queue)
      → let (completed, q') = process_list env ps q in
        completed ≡ false → total q'.operations < total ps
  unfolding process_list queue_now
  process_list-total [] q = λ h. absurd (ground arith)
  process_list-total (p ∷ rest) q = λ h.
      let q1 = record q { is_processing = true; reads = suc q.reads } in
      omega (arith, scan-total (env.now_at q.reads) [] (p ∷ rest) q1 (not-false _ h))

  pub process_one_operation-total :
      (q : Queue)
      → let (completed, q') = process_one_operation env q in
        completed ≡ false → total q'.operations < total q.operations
  unfolding process_one_operation
  process_one_operation-total q =
      if_both (λ (s : Bool × Queue). s.0 ≡ false → total s.1.operations < total q.operations)
        q.is_processing (λ h. absurd (ground arith)) (process_list-total q.operations q)
