-- ===== src/Serial/Queue.antt =====
-- SerialOperationQueue::acceptBytes (serialqueue.cpp). `accept` is the virtual acceptBytes of an
-- operation, none for one that is no SerialOperation; `extra` is acceptExtraBytes, and `process` is
-- processOperations. The result is none where an operation's answer is more than the bytes it was
-- offered.
use p44utils.Prelude.{
  ℕ, zero, suc, ◌+◌, ◌-◌, Option, none, some, List, [], ◌∷◌, ◌++◌, length, take, drop, ltb, ◌==◌,
  if◌then◌else◌,
}

-- NOT_ENOUGH_BYTES, or a number of bytes.
pub data Answer : Type 0 where
  not_enough : Answer
  took : ℕ → Answer

pub record SerialQueue (S W : Type 0) : Type 0 where
  pub operations : List S
  pub accept_buffer_size : ℕ
  pub buffered : List ℕ
  pub world : W

-- What the loop over the operations leaves: the last answer, the bytes that are left, and how many
-- were accepted.
pub record Offer (S : Type 0) : Type 0 where
  pub consumed : Answer
  pub left : List ℕ
  pub accepted : ℕ
  pub offered : List S

abbrev pub ahead_of : {S : Type 0} → S → Option (Offer S) → Option (Offer S)
ahead_of op none = none
ahead_of op (some o) = some (record o { offered = op ∷ o.offered })

-- acceptExtraBytes, with the handler that is set or none.
unfoldable pub accept_extra_bytes :
    {W : Type 0} → Option (List ℕ → W → Answer × W) → List ℕ → W → Answer × W
accept_extra_bytes none bytes w = (took 0, w)
accept_extra_bytes (some handler) bytes w = handler bytes w

abbrev pub and_then : {A B : Type 0} → Option A → (A → Option B) → Option B
and_then none f = none
and_then (some a) f = f a

module _ {S W : Type 0} (accept : List ℕ → S → Option (Answer × S))
    (extra : List ℕ → W → Answer × W) (process : SerialQueue S W → SerialQueue S W) where
  -- The answer of the next operation; that of the one before stays where it is no SerialOperation.
  abbrev pub answer_of : Answer → S → Option (Answer × S) → Answer × S
  answer_of before op none = (before, op)
  answer_of before op (some (a, op')) = (a, op')

  unfoldable pub offer_bytes : Answer → List ℕ → ℕ → List S → Option (Offer S)
  offer_bytes consumed bytes accepted [] =
      some (record { consumed = consumed; left = bytes; accepted = accepted; offered = [] })
  offer_bytes consumed bytes accepted (op ∷ ops) =
      let (answer, op') = answer_of consumed op (accept bytes op) in
      elim answer [
        | not_enough ↦ some (record {
          consumed = not_enough;
          left = bytes;
          accepted = accepted;
          offered = op' ∷ ops;
        })
        | took n ↦
            let further = offer_bytes (took n) (drop n bytes) (accepted + n) ops in
            if ltb (length bytes) n
            then none
            else if length bytes - n == 0
            then some (record {
              consumed = took n;
              left = [];
              accepted = accepted + n;
              offered = op' ∷ ops;
            })
            else ahead_of op' further
      ]

  -- The loop over acceptExtraBytes: the bytes that are left, and how many were accepted.
  unfoldable pub offer_extra : ℕ → Answer → List ℕ → ℕ → W → Option ((List ℕ × ℕ) × W)
  offer_extra zero consumed bytes accepted w = some ((bytes, accepted), w)
  offer_extra (suc f) not_enough bytes accepted w = some ((bytes, accepted), w)
  offer_extra (suc f) (took k) [] accepted w = some (([], accepted), w)
  offer_extra (suc f) (took k) (b ∷ bytes) accepted w =
      let (answer, w') = extra (b ∷ bytes) w in
      elim answer [
        | not_enough ↦ some ((b ∷ bytes, accepted), w')
        | took n ↦
            let further = offer_extra f (took n) (drop n (b ∷ bytes)) (accepted + n) w' in
            if n == 0
            then some ((b ∷ bytes, accepted), w')
            else if ltb (length (b ∷ bytes)) n
            then none
            else further
      ]

  -- One round: the operations process the bytes, then acceptExtraBytes. The bytes that are left.
  unfoldable pub accept_round :
      List ℕ → ℕ → SerialQueue S W → Option ((List ℕ × ℕ) × SerialQueue S W)
  unfolding offer_bytes offer_extra
  accept_round bytes accepted q = and_then (offer_bytes (took 0) bytes accepted q.operations) λ o.
      and_then (offer_extra (suc (length o.left)) o.consumed o.left o.accepted q.world)
        λ r. some (r.0, record q { operations = o.offered; world = r.1 })

  -- The loop, `f` rounds of it at most: how many bytes were accepted.
  unfoldable pub accept_loop : ℕ → List ℕ → ℕ → SerialQueue S W → Option (ℕ × SerialQueue S W)
  unfolding accept_round
  accept_loop zero bytes accepted q = some (accepted, q)
  accept_loop (suc f) [] accepted q = some (accepted, q)
  accept_loop (suc f) (b ∷ bytes) accepted q =
      let room = q.accept_buffer_size - length q.buffered in
      let by = if ltb (length (b ∷ bytes)) room then length (b ∷ bytes) else room in
      let buffered_round =
        and_then (accept_round (q.buffered ++ take by (b ∷ bytes)) accepted q)
          λ r. accept_loop f (drop by (b ∷ bytes)) r.0.1 (record r.1 { buffered = r.0.0 }) in
      let direct_round = and_then (accept_round (b ∷ bytes) accepted q) λ r. some (r.0.1, r.1) in
      if ltb 0 q.accept_buffer_size
      then (if ltb 0 room then buffered_round else some (accepted, q))
      else direct_round

  unfoldable pub accept_bytes : List ℕ → SerialQueue S W → Option (ℕ × SerialQueue S W)
  unfolding accept_loop
  accept_bytes bytes q =
      and_then (accept_loop (length bytes) bytes 0 q) λ r. some (r.0, process r.1)

unfoldable pub set_accept_buffer : {S W : Type 0} → ℕ → SerialQueue S W → SerialQueue S W
set_accept_buffer size q = record q { accept_buffer_size = size; buffered = [] }
