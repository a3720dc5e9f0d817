-- ===== src/Serial/Delivery.antt =====
-- The bytes that the operations of a queue get from acceptBytes (serialqueue.cpp).
use p44utils.Prelude.{
  Bool, true, false, none, length-take, ℕ, zero, suc, ◌+◌, ◌-◌, ◌≤◌, ◌≡◌, refl, sym, ap, ◌∙◌, not,
  Option, some, List, [], ◌∷◌, ◌++◌, length, take, drop, append-nil, ltb, min, if◌then◌else◌, arith,
  if_split,
}
use mathlib.Core.Path.{subst}
use p44utils.Serial.Operation.{SerialOperationSend, SerialOperationReceive, receive_bytes}
use p44utils.Serial.Queue.{Answer, took, Offer}

-- An operation in the queue: one that sends, with the acceptBytes of class SerialOperation, one that
-- receives, or one that is no SerialOperation.
pub data QueuedOperation : Type 0 where
  sends : SerialOperationSend → QueuedOperation
  receives : SerialOperationReceive → QueuedOperation
  plain : ℕ → QueuedOperation

abbrev pub is_serial : QueuedOperation → Bool
is_serial (sends op) = true
is_serial (receives op) = true
is_serial (plain n) = false

-- acceptBytes, where there is one.
unfoldable pub serial_accept : List ℕ → QueuedOperation → Option (Answer × QueuedOperation)
unfolding receive_bytes
serial_accept bytes (sends op) = some (took 0, sends op)
serial_accept bytes (receives op) =
    some (took (receive_bytes bytes op).0, receives (receive_bytes bytes op).1)
serial_accept bytes (plain n) = none

-- What an operation still takes, and what all of a list take.
abbrev pub open_bytes : QueuedOperation → ℕ
open_bytes (sends op) = 0
open_bytes (receives op) = if op.initiated then op.expected_bytes else 0
open_bytes (plain n) = 0

abbrev pub all_open : List QueuedOperation → ℕ
all_open [] = 0
all_open (op ∷ ops) = open_bytes op + all_open ops

-- An operation that has received a piece more.
abbrev received_more : List ℕ → SerialOperationReceive → SerialOperationReceive
received_more piece op = record op {
  received = op.received ++ piece;
  expected_bytes = op.expected_bytes - length piece;
}

abbrev pub given : List ℕ → QueuedOperation → QueuedOperation
given piece (sends op) = sends op
given piece (receives op) = receives (received_more piece op)
given piece (plain n) = plain n

-- The bytes cut in pieces, one for each operation in their order, none longer than what it takes.
pub data Delivered : List QueuedOperation → List QueuedOperation → List ℕ → Type 0 where
  no_more : Delivered [] [] []
  piece_for :
      (op : QueuedOperation) (piece : List ℕ) {ops ops' : List QueuedOperation} {rest : List ℕ}
      → length piece ≤ open_bytes op
      → Delivered ops ops' rest
      → Delivered (op ∷ ops) (given piece op ∷ ops') (piece ++ rest)

pub drop_all : (n : ℕ) (s : List ℕ) → length s ≤ n → drop n s ≡ []
drop_all zero [] h = refl
drop_all zero (c ∷ s) h = absurd (omega arith)
drop_all (suc n) [] h = refl
drop_all (suc n) (c ∷ s) h = drop_all n s (omega arith)

take_nothing : (n : ℕ) → take {A = ℕ} n [] ≡ []
take_nothing zero = refl
take_nothing (suc n) = refl

-- What is taken in two steps.
pub take_twice : (n m : ℕ) (s : List ℕ) → take n s ++ take m (drop n s) ≡ take (n + m) s
take_twice zero m s = ap (λ (k : ℕ). take k s) (omega arith)
take_twice (suc n) m [] = take_nothing m ∙ sym (take_nothing (suc n + m))
take_twice (suc n) m (c ∷ s) =
    let more : suc (n + m) ≡ suc n + m = omega arith in
    ap (λ (l : List ℕ). c ∷ l) (take_twice n m s) ∙ ap (λ (k : ℕ). take k (c ∷ s)) more

received_nothing : (op : SerialOperationReceive) → received_more [] op ≡ op
received_nothing op =
    ap (λ (l : List ℕ). record op { received = l; expected_bytes = op.expected_bytes - 0 })
      (append-nil op.received)
    ∙ ap (λ (k : ℕ). record op { expected_bytes = k }) (omega arith)

nothing_given :
    (n : ℕ) (bytes : List ℕ) (op : SerialOperationReceive)
    → n ≡ 0
    → ◌≡◌ {A = ℕ × SerialOperationReceive} (n, op) (n, received_more (take n bytes) op)
nothing_given n bytes op h =
    ap (λ (k : ℕ). (k, op)) h
    ∙ sym (ap (λ (o : SerialOperationReceive). (0, o)) (received_nothing op))
    ∙ ap (λ (k : ℕ). (k, received_more (take k bytes) op)) (sym h)

received_same :
    (m n : ℕ) (bytes : List ℕ) (op : SerialOperationReceive)
    → m ≡ n
    → ◌≡◌ {A = ℕ × SerialOperationReceive}
        (m, received_more (take m bytes) op)
        (n, received_more (take n bytes) op)
received_same m n bytes op e = ap (λ (i : ℕ). (i, received_more (take i bytes) op)) e

pub receive_bytes_lem :
    (bytes : List ℕ) (op : SerialOperationReceive)
    → let n = min (length bytes) (if op.initiated then op.expected_bytes else 0) in
      receive_bytes bytes op ≡ (n, received_more (take n bytes) op)
unfolding receive_bytes
receive_bytes_lem bytes op =
    let n = min (length bytes) (if op.initiated then op.expected_bytes else 0) in
    let k = if ltb op.expected_bytes (length bytes) then op.expected_bytes else length bytes in
    let P = λ (r : ℕ × SerialOperationReceive). r ≡ (n, received_more (take n bytes) op) in
    if_split P (not op.initiated)
      (λ closed.
        nothing_given 0 bytes op refl ∙ received_same 0 n bytes op (ground (arith, closed)))
      (λ opened.
        let same : k ≡ n = ground (arith, opened) in
        if_split P (ltb 0 k)
          (λ some_left.
            ap
              (λ (i : ℕ). (
                k,
                record op {
                  received = op.received ++ take k bytes;
                  expected_bytes = op.expected_bytes - i;
                },
              ))
              (omega (arith, length-take k bytes, same))
            ∙ received_same k n bytes op same)
          (λ all_there.
            nothing_given k bytes op (ground (arith, all_there)) ∙ received_same k n bytes op same))

given_nothing : (op : QueuedOperation) → given [] op ≡ op
given_nothing (sends op) = refl
given_nothing (receives op) = ap receives (received_nothing op)
given_nothing (plain n) = refl

pub Delivered-same : (ops : List QueuedOperation) → Delivered ops ops []
Delivered-same [] = no_more
Delivered-same (op ∷ ops) =
    subst (λ (o : QueuedOperation). Delivered (op ∷ ops) (o ∷ ops) []) (given_nothing op)
      (piece_for op [] (omega arith) (Delivered-same ops))

-- What offering bytes to a list of operations leaves, `n` of them accepted.
pub record Offered (ops : List QueuedOperation) (bytes : List ℕ) (accepted : ℕ)
    (r : Option (Offer QueuedOperation)) : Type 0 where
  pub o : Offer QueuedOperation
  pub n : ℕ
  pub k : ℕ
  pub result : r ≡ some o
  pub consumed : o.consumed ≡ took k
  pub left : o.left ≡ drop n bytes
  pub counted : o.accepted ≡ accepted + n
  pub delivered : Delivered ops o.offered (take n bytes)
  pub as_many : n ≡ min (length bytes) (all_open ops)
