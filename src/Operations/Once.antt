-- ===== src/Operations/Once.antt =====
-- How often completion callbacks are called (operationqueue.cpp).
use p44utils.Prelude.{
  not, ℕ, zero, suc, ◌+◌, ◌≤◌, ◌<◌, ◌≡◌, refl, ap, ◌∙◌, Bool, true, false, some, none, Option, List,
  [], ◌∷◌, ◌++◌, arith, append-nil, Bool-cases, inl, inr, if_both, ◌==◌, ltb, ◌&&◌,
}
use p44utils.Operations.Defs.{
  Attempt, succeeds, refuses, aborts_with, attempt, attempt_with, Outcome, Operation, Pending,
  Queue, Surroundings, timed_out, success, has_timed_out_at, initiate, queue_now,
  finalize_operation, finalize_with, abort_operation, can_initiate,
}
use p44utils.Operations.Processing.{
  try_initiate, scan, complete, time_out, insert_next, put_next, process_list,
  process_one_operation, process_operations,
}
use p44utils.Operations.Abort.{IsQuiet, abort_chain-called, aborts_chain}
use p44utils.Operations.Counts.{
  waits_one, waits_chain, waiting, made, waiting-append, made-append, made-aborts_chain,
}
use p44utils.Operations.Ends.{
  attempt-total, try_initiate-total, IsStill, total, process_one_operation-total,
}

module _ (c : ℕ) where
  -- The calls of a callback and the operations that wait with it.
  abbrev pub budget : Queue → ℕ
  budget q = made c q.calls + waiting c q.operations

  module _ (env : Surroundings) (still : IsStill env) where
    time_out-budget :
        (acc rest : List Pending) (p : Pending) (q : Queue)
        → budget (time_out env acc p rest q) ≤ made c q.calls + waiting c acc + waiting c (p ∷ rest)
    unfolding time_out abort_operation
    time_out-budget acc rest p q =
        let calls = aborts_chain timed_out p.operation p.chained in
        rw
          (
            abort_chain-called env timed_out still.on_timeout p.operation p.chained
                (record q { operations = [] }),
            append-nil (acc ++ rest),
          )
          (omega (
            arith,
            waiting-append c acc rest,
            made-append c q.calls calls,
            made-aborts_chain c timed_out p.operation p.chained,
          ))

    initiate-completion :
        (op : Operation) (q : Queue)
        → ((initiate env op q).0.completion ≡ op.completion)
          × ((initiate env op q).1.calls ≡ q.calls)
    unfolding initiate queue_now
    initiate-completion op q =
        if_both
          (λ (s : Operation × Queue). (s.0.completion ≡ op.completion) × (s.1.calls ≡ q.calls))
          (op.timeout == 0) (refl, refl) (refl, refl)

    can_initiate-completion :
        (op : Operation) (q : Queue)
        → ((can_initiate env op q).1.completion ≡ op.completion)
          × ((can_initiate env op q).2.calls ≡ q.calls)
    unfolding can_initiate queue_now
    can_initiate-completion op q = (
      if_both (λ (o : Operation). o.completion ≡ op.completion)
          (ltb 0 op.initiation_delay && op.initiates_not_before == 0) refl refl,
      refl,
    )

    -- The calls and what waits with an operation, before and after it is tried.
    abbrev Spends : Pending → Queue → Pending → Queue → Type 0
    Spends p q p' q' = made c q'.calls + waiting c (p' ∷ []) ≤ made c q.calls + waiting c (p ∷ [])

    attempt_with-Spends :
        (a : Attempt) (p : Pending) (q : Queue)
        → ((e : Outcome) → a ≡ aborts_with e → IsQuiet env e)
        → let (done, p', q') = attempt_with env a p q in Spends p q p' q'
    unfolding attempt_with abort_operation
    attempt_with-Spends succeeds p q quiet =
        let (o, s) = initiate-completion p.operation q in
        omega (arith, ap (waits_one c) o, ap (made c) s)
    attempt_with-Spends refuses p q quiet = omega arith
    attempt_with-Spends (aborts_with e) p q quiet =
        let aborted_op : Operation = record p.operation { aborted = true; completion = none } in
        let (o, s) = initiate-completion aborted_op (abort_operation env (some e) p q) in
        let calls = aborts_chain e p.operation p.chained in
        let called =
          ap (λ (r : Queue). made c r.calls)
            (abort_chain-called env e (quiet e refl) p.operation p.chained q) in
        omega (
          arith,
          ap (waits_one c) o,
          ap (made c) s,
          called,
          made-append c q.calls calls,
          made-aborts_chain c e p.operation p.chained,
        )

    attempt-Spends :
        (p : Pending) (q : Queue) → let (done, p', q') = attempt env p q in Spends p q p' q'
    unfolding attempt
    attempt-Spends p q =
        attempt_with-Spends (env.initiation p.operation q.reads) p q
          (still.on_initiation p.operation q.reads)

    try_initiate-Spends :
        (t : ℕ) (p : Pending) (q : Queue)
        → let (waits, p', q') = try_initiate env t p q in Spends p q p' q'
    unfolding try_initiate
    try_initiate-Spends t p q =
        let (can, op1, q1) = can_initiate env p.operation q in
        let p1 : Pending = record p { operation = op1 } in
        let (o, s) = can_initiate-completion p.operation q in
        let (done, p2, q2) = attempt env p1 q1 in
        let a = attempt-Spends p1 q1 in
        let waits = ap (waits_one c) o in
        let calls = ap (made c) s in
        let P : Bool × Pending × Queue → Type 0 = λ r. Spends p q r.1 r.2 in
        let tried : Spends p q p2 q2 = omega (arith, waits, calls, a) in
        if_both P p.operation.initiated (omega arith) (
          if_both P can (if_both (λ (r : Queue). Spends p q p2 r) done tried tried)
            (omega (arith, waits, calls)))

    insert_next-waiting :
        (acc rest queued : List Pending) (next : Pending)
        → waiting c (insert_next acc next rest queued)
          ≡ waiting c acc + waiting c rest + waiting c queued + waiting c (next ∷ [])
    unfolding insert_next
    insert_next-waiting acc [] queued next =
        omega (arith, waiting-append c (acc ++ queued) (next ∷ []), waiting-append c acc queued)
    insert_next-waiting acc (p ∷ rest) queued next = omega (
      arith,
      waiting-append c (acc ++ next ∷ p ∷ rest) queued,
      waiting-append c acc (next ∷ p ∷ rest),
    )

    finalize_with-budget :
        (completion : Option ℕ) (chained : List Operation) (q : Queue)
        → q.operations ≡ []
        → let (chained', q') = finalize_with env completion chained q in
          (made c q'.calls + waits_chain c chained'
            ≤ made c q.calls + waits_one c completion + waits_chain c chained)
          × (q'.operations ≡ [])
    unfolding finalize_with
    finalize_with-budget none chained q e = (omega arith, e)
    finalize_with-budget (some k) [] q e =
        rw (still.on_success k)
          (omega (arith, made-append c q.calls ((k, success) ∷ [])), append-nil q.operations ∙ e)
    finalize_with-budget (some k) (next ∷ more) q e = (omega arith, e)

    put_next-budget :
        (acc rest : List Pending) (chained : List Operation) (q : Queue)
        → q.operations ≡ []
        → budget (put_next env acc rest chained q)
          ≤ made c q.calls + waits_chain c chained + waiting c acc + waiting c rest
    unfolding put_next
    put_next-budget acc rest [] q e =
        let none_queued : waiting c q.operations ≡ 0 = ap (waiting c) e in
        omega (
          arith,
          none_queued,
          waiting-append c (acc ++ rest) q.operations,
          waiting-append c acc rest,
        )
    put_next-budget acc rest (next ∷ more) q e =
        let given : Pending = record { operation = next; chained = more } in
        let (done, p, q') = attempt env given (record q { operations = [] }) in
        omega (
          arith,
          ap (waiting c) e,
          ap (waiting c) (attempt-total env still given (record q { operations = [] }) refl).1,
          attempt-Spends given (record q { operations = [] }),
          waiting-append c (insert_next acc p rest q.operations) q'.operations,
          insert_next-waiting acc rest q.operations p,
        )

    complete-budget :
        (acc rest : List Pending) (p : Pending) (q : Queue)
        → budget (complete env acc p rest q) ≤ made c q.calls + waiting c acc + waiting c (p ∷ rest)
    unfolding complete finalize_operation
    complete-budget acc rest p q =
        let (chained, q1) = finalize_operation env p (record q { operations = [] }) in
        let f =
          finalize_with-budget p.operation.completion p.chained (record q { operations = [] })
            refl in
        omega (arith, put_next-budget acc rest chained q1 f.1, f.0)

    scan-budget :
        (t : ℕ) (acc ps : List Pending) (q : Queue)
        → budget (scan env t acc ps q).1 ≤ made c q.calls + waiting c acc + waiting c ps
    unfolding scan
    scan-budget t acc [] q = omega arith
    scan-budget t acc (p ∷ rest) q =
        let spends = try_initiate-Spends t p (record q { operations = [] }) in
        let none_queued =
          ap (waiting c) (try_initiate-total env still t p (record q { operations = [] }) refl).1 in
        let (waits, p1, q1) = try_initiate env t p (record q { operations = [] }) in
        let op = p1.operation in
        let P : Bool × Queue → Type 0 =
          λ r. budget r.1 ≤ made c q.calls + waiting c acc + waiting c (p ∷ rest) in
        let further : P (scan env t (acc ++ p1 ∷ []) rest q1) =
          omega (
            arith,
            spends,
            scan-budget t (acc ++ p1 ∷ []) rest q1,
            waiting-append c acc (p1 ∷ []),
          ) in
        let stays : P (false, record q1 { operations = acc ++ p1 ∷ rest }) =
          omega (arith, spends, waiting-append c acc (p1 ∷ rest)) in
        let gone : P (true, record q1 { operations = acc ++ rest ++ q1.operations }) = omega (
          arith,
          spends,
          none_queued,
          waiting-append c acc rest,
          waiting-append c (acc ++ rest) q1.operations,
        ) in
        if_both P (has_timed_out_at t p.operation) (time_out-budget acc rest p q) (
          if_both P (waits && op.in_sequence) stays (
            if_both P op.aborted gone (
              if_both P (not op.initiated) further (
                if_both P (env.completed op q1.reads)
                  (omega (arith, spends, complete-budget acc rest p1 q1))
                  (if_both P op.in_sequence stays further)))))

    process_list-budget :
        (ps : List Pending) (q : Queue)
        → q.operations ≡ ps
        → budget (process_list env ps q).1 ≤ budget q
    unfolding process_list queue_now
    process_list-budget [] q e = omega arith
    process_list-budget (p ∷ rest) q e =
        let same : waiting c q.operations ≡ waiting c (p ∷ rest) = ap (waiting c) e in
        omega (
          arith,
          same,
          scan-budget (env.now_at q.reads) [] (p ∷ rest)
              (record q { is_processing = true; reads = suc q.reads }),
        )

    process_one_operation-budget : (q : Queue) → budget (process_one_operation env q).1 ≤ budget q
    unfolding process_one_operation
    process_one_operation-budget q =
        if_both (λ (s : Bool × Queue). budget s.1 ≤ budget q) q.is_processing (omega arith)
          (process_list-budget q.operations q refl)

    -- processOperations ends, and no completion callback is called more often than operations wait
    -- with it: for each callback, its calls and the operations that wait with it, the chained ones
    -- included, are together not more than before. This holds where callbacks that are called
    -- without an error, with OQError::TimedOut, or with an error with which an operation aborts
    -- itself while it is initiated queue and chain nothing; one round more than there are
    -- operations, the chained ones included, is enough.
    pub process_operations_once :
        (fuel : ℕ) (q : Queue)
        → total q.operations < fuel
        → (q' : Queue) × (process_operations env fuel q ≡ some q')
          × (made c q'.calls + waiting c q'.operations ≤ made c q.calls + waiting c q.operations)
    unfolding process_operations
    process_operations_once zero q h = absurd (omega arith)
    process_operations_once (suc f) q h = elim (Bool-cases (process_one_operation env q).0) [
      | inl d ↦ ((process_one_operation env q).1, rw d refl, process_one_operation-budget q)
      | inr d ↦
          let (q', e, b) =
            process_operations_once f (process_one_operation env q).1
              (omega (arith, process_one_operation-total env still q d)) in
          (q', rw d e, omega (arith, b, process_one_operation-budget q))
    ]
