-- ===== src/Operations/Processing.antt =====
-- processOneOperation and processOperations (operationqueue.cpp).
use p44utils.Prelude.{
  ℕ, zero, suc, Bool, true, false, not, ◌&&◌, Option, none, some, List, [], ◌∷◌, ◌++◌,
  if◌then◌else◌,
}
use p44utils.Operations.Defs.{
  Operation, Pending, Queue, Surroundings, timed_out, has_timed_out_at, queue_now, can_initiate,
  attempt, abort_operation, finalize_operation,
}

-- Where the operation that has been finalized stood: between `front` and `rest`; `queued` has come
-- in at the end since. An insertion at the end of the list goes behind that too.
unfoldable pub insert_next : List Pending → Pending → List Pending → List Pending → List Pending
insert_next front next [] queued = front ++ queued ++ next ∷ []
insert_next front next (p ∷ rest) queued = front ++ next ∷ p ∷ rest ++ queued

module _ (env : Surroundings) where
  -- The step of the loop that tries to initiate an operation: whether it may not be, the operation
  -- with what is chained to it, and the queue, to which callbacks add.
  unfoldable pub try_initiate : ℕ → Pending → Queue → Bool × Pending × Queue
  unfolding can_initiate attempt
  try_initiate t p q =
      if p.operation.initiated
      then (false, p, q)
      else (let (can, op1, q1) = can_initiate env p.operation q in
          if can
          then (let (done, p2, q2) = attempt env (record p { operation = op1 }) q1 in
              (false, p2, if done then record q2 { last_initiation = t } else q2))
          else (true, record p { operation = op1 }, q1))

  -- What was chained to an operation takes its place; whether it could be initiated is not asked.
  unfoldable pub put_next : List Pending → List Pending → List Operation → Queue → Queue
  unfolding insert_next attempt
  put_next front rest [] q = record q { operations = front ++ rest ++ q.operations }
  put_next front rest (next ∷ more) q =
      let (done, p, q') =
        attempt env (record { operation = next; chained = more }) (record q { operations = [] }) in
      record q' { operations = insert_next front p rest q.operations ++ q'.operations }

  -- An operation that has completed and is out of the list: it is finalized.
  unfoldable pub complete : List Pending → Pending → List Pending → Queue → Queue
  unfolding finalize_operation put_next
  complete front p rest q =
      let (chained, q1) = finalize_operation env p (record q { operations = [] }) in
      put_next front rest chained q1

  -- A timed out operation, out of the list: it is aborted.
  unfoldable pub time_out : List Pending → Pending → List Pending → Queue → Queue
  unfolding abort_operation
  time_out front p rest q =
      let q1 = abort_operation env (some timed_out) p (record q { operations = [] }) in
      record q1 { operations = front ++ rest ++ q1.operations }

  -- The loop over the list, behind the operations of `front`: pleaseCallAgainSoon, and the queue.
  -- Trying to initiate an operation queues others only where it aborts itself, so where the loop goes
  -- on or leaves the operation there is none to put at the end.
  unfoldable pub scan : ℕ → List Pending → List Pending → Queue → Bool × Queue
  unfolding try_initiate complete time_out
  scan t front [] q = (false, record q { operations = front })
  scan t front (p ∷ rest) q =
      let (waits, p1, q1) = try_initiate t p (record q { operations = [] }) in
      let op = p1.operation in
      let further = scan t (front ++ p1 ∷ []) rest q1 in
      let stays : Bool × Queue = (false, record q1 { operations = front ++ p1 ∷ rest }) in
      if has_timed_out_at t p.operation
      then (true, time_out front p rest q)
      else if waits && op.in_sequence
      then stays
      else if op.aborted
      then (true, record q1 { operations = front ++ rest ++ q1.operations })
      else if not op.initiated
      then further
      else if env.completed op q1.reads
      then (true, complete front p1 rest q1)
      else if op.in_sequence
      then stays
      else further

  -- The processing of a list; the answer is the negation of pleaseCallAgainSoon.
  unfoldable pub process_list : List Pending → Queue → Bool × Queue
  unfolding scan queue_now
  process_list [] q = (true, q)
  process_list (p ∷ rest) q =
      let (t, q1) = queue_now env (record q { is_processing = true }) in
      let (again, q2) = scan t [] (p ∷ rest) q1 in (not again, record q2 { is_processing = false })

  unfoldable pub process_one_operation : Queue → Bool × Queue
  unfolding process_list
  process_one_operation q = if q.is_processing then (true, q) else process_list q.operations q

  -- The loop of processOperations; `none` means that the fuel ran out.
  unfoldable pub process_operations : ℕ → Queue → Option Queue
  unfolding process_one_operation
  process_operations zero q = none
  process_operations (suc f) q =
      let (completed, q1) = process_one_operation q in
      let rest = process_operations f q1 in if completed then some q1 else rest
