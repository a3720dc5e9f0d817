-- ===== src/Operations/Defs.antt =====
-- Class Operation and class OperationQueue (operationqueue.hpp, operationqueue.cpp).
-- An operation in the queue is a Pending: its own state, and the operations that are chained to it,
-- the nearest first. No operation is held at two places. Times are natural numbers, 0 is Never.
-- Parameters are the clock (`now_at`, by the number of the reading), the virtual hasCompleted and
-- initiate (`completed` and `initiation`, of the operation and the number of clock readings so far),
-- and the completion callbacks: what `on_success` queues and chains to its operation, and what `on_abort` queues.
-- Callbacks and operations act on the queue in no other way; processOneOperation, when a callback
-- calls it, finds mIsProcessingQueue set and does nothing.
use p44utils.Prelude.{
  ℕ, zero, suc, ◌+◌, Bool, true, false, ◌&&◌, ◌||◌, Option, none, some, List, [], ◌∷◌, ◌++◌, ltb,
  leb, ◌==◌, if◌then◌else◌,
}

-- What a completion callback is called with: no error, or OQError::TimedOut, or another one.
pub data Outcome : Type 0 where
  success timed_out : Outcome
  failed : ℕ → Outcome

-- What the virtual initiate does: what the class Operation does, or it returns false and does
-- nothing, or it aborts the operation with an error before it does what the class Operation does, as
-- that of SerialOperationSend.
pub data Attempt : Type 0 where
  succeeds refuses : Attempt
  aborts_with : Outcome → Attempt

-- `object` says which operation it is.
pub record Operation : Type 0 where
  pub object : ℕ
  pub initiated : Bool
  pub aborted : Bool
  pub timeout : ℕ
  pub times_out_at : ℕ
  pub initiation_delay : ℕ
  pub from_last_initiation : Bool
  pub initiates_not_before : ℕ
  pub completion : Option ℕ
  pub in_sequence : Bool

pub record Pending : Type 0 where
  pub operation : Operation
  pub chained : List Operation

pub record Queue : Type 0 where
  pub operations : List Pending
  pub is_processing : Bool
  pub last_initiation : ℕ
  pub reads : ℕ
  pub calls : List (ℕ × Outcome)

pub record Surroundings : Type 0 where
  pub now_at : ℕ → ℕ
  pub completed : Operation → ℕ → Bool
  pub initiation : Operation → ℕ → Attempt
  pub on_success : ℕ → List Pending × List Operation
  pub on_abort : ℕ → Outcome → List Pending

unfoldable pub has_timed_out_at : ℕ → Operation → Bool
has_timed_out_at t op = if op.times_out_at == 0 then false else leb op.times_out_at t

unfoldable pub queue_operation : Pending → Queue → Queue
queue_operation p q = record q { operations = q.operations ++ p ∷ [] }

module _ (env : Surroundings) where
  unfoldable pub queue_now : Queue → ℕ × Queue
  queue_now q = (env.now_at q.reads, record q { reads = suc q.reads })

  -- canInitiate, with the operation's own delay fields after it.
  unfoldable pub can_initiate : Operation → Queue → Bool × Operation × Queue
  unfolding queue_now
  can_initiate op q =
      let (t, q') = queue_now q in
      let op' =
        if ltb 0 op.initiation_delay && op.initiates_not_before == 0
        then record op {
          initiates_not_before =
              (if op.from_last_initiation then q.last_initiation else t) + op.initiation_delay;
          initiation_delay = 0;
        }
        else op in
      (op'.initiates_not_before == 0 || ltb op'.initiates_not_before t, op', q')

  unfoldable pub initiate : Operation → Queue → Operation × Queue
  unfolding queue_now
  initiate op q =
      if op.timeout == 0
      then (record op { initiated = true; times_out_at = 0 }, q)
      else (let (t, q') = queue_now q in
          (record op { initiated = true; times_out_at = t + op.timeout }, q'))

  -- Calls a callback that ends in an error: it may queue operations.
  unfoldable pub call_abort : ℕ → Outcome → Queue → Queue
  call_abort c e q = record q {
    calls = q.calls ++ (c, e) ∷ [];
    operations = q.operations ++ env.on_abort c e;
  }

  -- abortOperation on one operation, which is not held any longer; without an error the callback is
  -- not called.
  unfoldable pub abort_one : Option Outcome → Operation → Queue → Queue
  unfolding call_abort
  abort_one (some e) op q = elim op.completion [
    | none ↦ q
    | some c ↦ if op.aborted then q else call_abort c e q
  ]
  abort_one none op q = q

  -- abortOperation on an operation and on all that are chained to it.
  unfoldable pub abort_chain : Option Outcome → Operation → List Operation → Queue → Queue
  abort_chain e op [] q = abort_one e op q
  abort_chain e op (next ∷ more) q = abort_chain e next more (abort_one e op q)

  unfoldable pub abort_operation : Option Outcome → Pending → Queue → Queue
  abort_operation e p q = abort_chain e p.operation p.chained q

  -- The virtual initiate: its result, the operation with what is chained to it, and the queue.
  unfoldable pub attempt_with : Attempt → Pending → Queue → Bool × Pending × Queue
  unfolding initiate abort_operation
  attempt_with succeeds p q =
      let (op, q') = initiate p.operation q in (true, record p { operation = op }, q')
  attempt_with refuses p q = (false, p, q)
  attempt_with (aborts_with e) p q =
      let (op, q') =
        initiate (record p.operation { aborted = true; completion = none })
          (abort_operation (some e) p q) in
      (true, record { operation = op; chained = [] }, q')

  unfoldable pub attempt : Pending → Queue → Bool × Pending × Queue
  unfolding attempt_with
  attempt p q = attempt_with (env.initiation p.operation q.reads) p q

  -- The loop of abortOperations: callbacks can put more operations behind the last one, which it
  -- reaches too. It ends with the clear of the queue; `none` means that the fuel ran out.
  unfoldable pub abort_loop : ℕ → Option Outcome → List Pending → Queue → Option Queue
  abort_loop fuel e [] q = some (record q { operations = [] })
  abort_loop zero e (p ∷ rest) q = none
  abort_loop (suc f) e (p ∷ rest) q =
      let q' = abort_operation e p (record q { operations = [] }) in
      abort_loop f e (rest ++ q'.operations) q'

  unfoldable pub abort_operations : ℕ → Option Outcome → Queue → Option Queue
  abort_operations fuel e q = abort_loop fuel e q.operations q

  -- finalize, on an operation that is out of the queue, by its callback and what is chained to it:
  -- what is chained to it then, and the queue.
  unfoldable pub finalize_with : Option ℕ → List Operation → Queue → List Operation × Queue
  finalize_with none chained q = (chained, q)
  finalize_with (some c) [] q =
      let (queued, chained) = env.on_success c in
      (
        chained,
        record q { calls = q.calls ++ (c, success) ∷ []; operations = q.operations ++ queued },
      )
  finalize_with (some c) (next ∷ more) q = (next ∷ more, q)

  unfoldable pub finalize_operation : Pending → Queue → List Operation × Queue
  unfolding finalize_with
  finalize_operation p q = finalize_with p.operation.completion p.chained q
