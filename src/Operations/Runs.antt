-- ===== src/Operations/Runs.antt =====
-- The operation queue at a concrete input: an operation out of sequence, one in sequence that does
-- not complete, and a chain behind it (operationqueue.cpp).
use p44utils.Prelude.{
  if◌then◌else◌, ◌+◌, ◌≤◌, ℕ, ◌*◌, ◌≡◌, refl, Bool, true, false, some, List, [], ◌∷◌, ◌++◌, arith,
  ◌==◌, not,
}
use p44utils.Operations.Defs.{
  refuses, succeeds, aborts_with, Operation, Pending, Queue, Surroundings, failed, abort_operations,
}
use p44utils.Operations.Processing.{process_one_operation, process_operations}
use p44utils.Operations.Sequence.{IsReady, Keeps, process_one_operation-Keeps}
use p44utils.Operations.Abort.{aborts, abort_operations_lem}
use p44utils.Operations.Ends.{IsStill}
use p44utils.Operations.Counts.{made, waiting}
use p44utils.Operations.Once.{process_operations_once}

abbrev operation : ℕ → Bool → Operation
operation n in_sequence = record {
  object = n;
  initiated = false;
  aborted = false;
  timeout = 500;
  times_out_at = 0;
  initiation_delay = 0;
  from_last_initiation = false;
  initiates_not_before = 0;
  completion = some n;
  in_sequence = in_sequence;
}

abbrev alone : ℕ → Bool → Pending
alone n in_sequence = record { operation = operation n in_sequence; chained = [] }

abbrev behind : List Pending
behind = record { operation = operation 3 true; chained = operation 4 true ∷ [] } ∷ []

abbrev queue : Queue
queue = record {
  operations = alone 1 false ∷ alone 2 true ∷ behind;
  is_processing = false;
  last_initiation = 0;
  reads = 1;
  calls = [];
}

-- Operation 2 does not complete, operation 1 is not initiated yet, and operation 4 aborts itself.
abbrev calm : Surroundings
calm = record {
  now_at = λ i. 100 * i;
  completed = λ op reads. not (op.object == 2);
  initiation = λ op reads.
      if op.object == 1
      then refuses
      else if op.object == 4
      then aborts_with (failed 7)
      else succeeds;
  on_success = λ c. ([], []);
  on_abort = λ c e. [];
}

calm-IsStill : IsStill calm
calm-IsStill = record {
  on_success = λ c. refl;
  on_timeout = λ c. refl;
  on_initiation = λ op reads e h c. refl;
}

calm-IsReady : IsReady calm (operation 2 true)
calm-IsReady o reads h e =
    let succeeds_here : calm.initiation o reads ≡ succeeds = rw h refl in absurd (cc)

process_one_operation-Keeps_example : Keeps behind (process_one_operation calm queue).1.operations
process_one_operation-Keeps_example =
    process_one_operation-Keeps calm (alone 1 false ∷ []) behind (alone 2 true) queue refl
      calm-IsReady refl

abort_operations_lem_example :
    abort_operations calm 5 (some (failed 7)) queue
    ≡ some (record queue { operations = []; calls = [] ++ aborts (failed 7) queue.operations })
abort_operations_lem_example =
    abort_operations_lem calm (failed 7) (λ c. refl) 5 queue (omega arith)

process_operations_once_example :
    (q : Queue) × (process_operations calm 6 queue ≡ some q)
    × (made 3 q.calls + waiting 3 q.operations ≤ made 3 queue.calls + waiting 3 queue.operations)
process_operations_once_example = process_operations_once 3 calm calm-IsStill 6 queue (omega arith)
