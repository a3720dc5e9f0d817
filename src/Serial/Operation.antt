-- ===== src/Serial/Operation.antt =====
-- Classes SerialOperationSend and SerialOperationReceive (serialqueue.cpp). A buffer is the list of
-- its bytes; for what fresh memory holds the caller gives `fresh`.
use p44utils.Prelude.{
  ℕ, ◌+◌, ◌-◌, Bool, false, not, Option, none, some, List, [], ◌∷◌, ◌++◌, length, take, drop, ltb,
  ◌==◌, if◌then◌else◌,
}

pub record SerialOperationSend : Type 0 where
  pub buffer : Option (List ℕ)
  pub data_size : ℕ
  pub append_index : ℕ

unfoldable pub clear_send_data : SerialOperationSend → SerialOperationSend
clear_send_data op = record { buffer = none; data_size = 0; append_index = 0 }

unfoldable pub set_data_size : (ℕ → List ℕ) → ℕ → SerialOperationSend → SerialOperationSend
unfolding clear_send_data
set_data_size fresh size op =
    if ltb 0 size
    then record (clear_send_data op) { buffer = some (fresh size); data_size = size }
    else clear_send_data op

-- memcpy of `bytes` to the index `at` of a buffer.
abbrev pub copy_to : ℕ → List ℕ → List ℕ → List ℕ
copy_to at bytes old = take at old ++ (bytes ++ drop (at + length bytes) old)

abbrev pub copy_into : ℕ → List ℕ → Option (List ℕ) → Option (List ℕ)
copy_into at bytes none = none
copy_into at bytes (some old) = some (copy_to at bytes old)

unfoldable pub append_data : List ℕ → SerialOperationSend → SerialOperationSend
append_data bytes op =
    let n =
      if ltb op.data_size (op.append_index + length bytes)
      then op.data_size - op.append_index
      else length bytes in
    if ltb 0 n
    then record op {
      buffer = copy_into op.append_index (take n bytes) op.buffer;
      append_index = op.append_index + n;
    }
    else op

unfoldable pub append_byte : ℕ → SerialOperationSend → SerialOperationSend
unfolding append_data
append_byte byte op = append_data (byte ∷ []) op

-- What initiate hands to the transmitter, whether it then aborts, and the operation: `transmitter`
-- answers how many bytes it has sent, and is none where there is no transmitter.
unfoldable pub initiate_send :
    Option (List ℕ → ℕ) → SerialOperationSend → (Option (List ℕ) × Bool) × SerialOperationSend
unfolding clear_send_data
initiate_send transmitter op = elim transmitter [
  | none ↦ ((none, false), op)
  | some transmit ↦ elim op.buffer [
    | none ↦ ((none, false), op)
    | some bytes ↦ ((some bytes, not (transmit bytes == op.data_size)), clear_send_data op)
  ]
]

-- `received` is the part of the buffer up to mDataIndex.
pub record SerialOperationReceive : Type 0 where
  pub initiated : Bool
  pub expected_bytes : ℕ
  pub received : List ℕ

unfoldable pub set_expected_bytes : ℕ → SerialOperationReceive → SerialOperationReceive
set_expected_bytes n op = record op { expected_bytes = n; received = [] }

unfoldable pub clear_data : SerialOperationReceive → SerialOperationReceive
clear_data op = record op { expected_bytes = 0; received = [] }

unfoldable pub receive_bytes : List ℕ → SerialOperationReceive → ℕ × SerialOperationReceive
receive_bytes bytes op =
    let n = if ltb op.expected_bytes (length bytes) then op.expected_bytes else length bytes in
    if not op.initiated
    then (0, op)
    else if ltb 0 n
    then (
      n,
      record op { received = op.received ++ take n bytes; expected_bytes = op.expected_bytes - n },
    )
    else (n, op)

unfoldable pub has_completed : SerialOperationReceive → Bool
has_completed op = op.expected_bytes == 0
