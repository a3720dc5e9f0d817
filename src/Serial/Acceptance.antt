-- ===== src/Serial/Acceptance.antt =====
-- The bytes that the operations of a queue get from acceptBytes (serialqueue.cpp).
use p44utils.Prelude.{
  Option, if◌then◌else◌, All, true, length-take, length-drop, drop_add, ℕ, suc, ◌+◌, ◌-◌, ◌≤◌, ◌≡◌,
  refl, sym, ap, ◌∙◌, false, none, some, List, [], ◌∷◌, length, take, drop, append-nil, ltb, ◌==◌,
  min, arith, if_split,
}
use mathlib.Core.Path.{subst}
use p44utils.Serial.Queue.{
  accept_extra_bytes, offer_extra, accept_loop, accept_bytes, ahead_of, Answer, took, SerialQueue,
  offer_bytes, Offer,
}
use p44utils.Serial.Delivery.{
  QueuedOperation, is_serial, receive_bytes_lem, sends, receives, plain, open_bytes, all_open,
  given, Delivered, no_more, piece_for, serial_accept, drop_all, take_twice, Delivered-same,
  Offered,
}

module _ {W : Type 0} (extra : List ℕ → W → Answer × W)
    (process : SerialQueue QueuedOperation W → SerialQueue QueuedOperation W) where
  -- What follows an answer.
  after_piece :
      (a : ℕ) (bytes : List ℕ) (accepted : ℕ) (op : QueuedOperation) (ops : List QueuedOperation)
      (r : Option (Offer QueuedOperation))
      → a ≡ min (length bytes) (open_bytes op)
      → Offered ops (drop a bytes) (accepted + a) r
      → Offered (op ∷ ops) bytes accepted (
          if length bytes - a == 0
          then some (record {
            consumed = took a;
            left = [];
            accepted = accepted + a;
            offered = given (take a bytes) op ∷ ops;
          })
          else ahead_of (given (take a bytes) op) r)
  after_piece a bytes accepted op ops r e further =
      let op' = given (take a bytes) op in
      let size : length (take a bytes) ≡ a = omega (arith, e, length-take a bytes) in
      let fits : length (take a bytes) ≤ open_bytes op = omega (arith, e, size) in
      if_split (Offered (op ∷ ops) bytes accepted) (length bytes - a == 0)
        (λ all. record {
          o = record { consumed = took a; left = []; accepted = accepted + a; offered = op' ∷ ops };
          n = a;
          k = a;
          result = refl;
          consumed = refl;
          left = sym (drop_all a bytes (ground (arith, all)));
          counted = refl;
          delivered =
              subst (Delivered (op ∷ ops) (op' ∷ ops)) (append-nil (take a bytes))
                (piece_for op (take a bytes) fits (Delivered-same ops));
          as_many = ground (arith, all);
        })
        (λ more. record {
          o = record further.o { offered = op' ∷ further.o.offered };
          n = a + further.n;
          k = further.k;
          result = ap (ahead_of op') further.result;
          consumed = further.consumed;
          left = further.left ∙ sym (drop_add a further.n (a + further.n) bytes refl);
          counted = omega (arith, further.counted);
          delivered =
              subst (Delivered (op ∷ ops) (op' ∷ further.o.offered)) (take_twice a further.n bytes)
                (piece_for op (take a bytes) fits further.delivered);
          as_many = omega (arith, further.as_many, length-drop a bytes);
        })

  offer_bytes-Offered :
      (k : ℕ) (bytes : List ℕ) (accepted : ℕ) (ops : List QueuedOperation)
      → All (λ (op : QueuedOperation). is_serial op ≡ true) ops
      → Offered ops bytes accepted
          (offer_bytes serial_accept extra process (took k) bytes accepted ops)
  unfolding offer_bytes serial_accept
  offer_bytes-Offered k bytes accepted [] all = record {
    o = record { consumed = took k; left = bytes; accepted = accepted; offered = [] };
    n = 0;
    k = k;
    result = refl;
    consumed = refl;
    left = refl;
    counted = omega arith;
    delivered = no_more;
    as_many = omega arith;
  }
  offer_bytes-Offered k bytes accepted (sends op ∷ ops) s =
      let in_bytes : ltb (length bytes) 0 ≡ false = ground arith in
      rw in_bytes (
        after_piece 0 bytes accepted (sends op) ops _ (omega arith)
          (offer_bytes-Offered 0 (drop 0 bytes) (accepted + 0) ops s.1))
  offer_bytes-Offered k bytes accepted (receives op ∷ ops) s =
      let a = min (length bytes) (open_bytes (receives op)) in
      let in_bytes : ltb (length bytes) a ≡ false = ground arith in
      rw (receive_bytes_lem bytes op, in_bytes)
        (after_piece a bytes accepted (receives op) ops _ refl
          (offer_bytes-Offered a (drop a bytes) (accepted + a) ops s.1))
  offer_bytes-Offered k bytes accepted (plain n ∷ ops) s = absurd (ground (arith, s.0))

module _ {W : Type 0}
    (process : SerialQueue QueuedOperation W → SerialQueue QueuedOperation W) where
  -- Without a handler for extra bytes what is left is not touched.
  offer_extra_lem :
      (f k : ℕ) (bytes : List ℕ) (accepted : ℕ) (w : W)
      → offer_extra serial_accept
          (accept_extra_bytes none)
          process
          (suc f)
          (took k)
          bytes
          accepted
          w
        ≡ some ((bytes, accepted), w)
  unfolding offer_extra accept_extra_bytes
  offer_extra_lem f k [] accepted w = refl
  offer_extra_lem f k (b ∷ bytes) accepted w = refl

  -- In a queue of sending and receiving operations, without a buffer and an extra bytes handler,
  -- acceptBytes gives the bytes to the receiving operations in their order, to each at most what
  -- it expects and to one that is not initiated none, and leaves the sending ones as they are; it
  -- answers how many were given, which is as many as all take or as many as there are, and then
  -- lets the operations be processed.
  pub accept_bytes-Delivered :
      (bytes : List ℕ) (q : SerialQueue QueuedOperation W)
      → q.accept_buffer_size ≡ 0
      → All (λ (op : QueuedOperation). is_serial op ≡ true) q.operations
      → (n : ℕ) × (ops : List QueuedOperation) × (accept_bytes serial_accept
            (accept_extra_bytes none)
            process
            bytes
            q
          ≡ some (n, process (record q { operations = ops })))
        × Delivered q.operations ops (take n bytes)
        × (n ≡ min (length bytes) (all_open q.operations))
  unfolding accept_bytes accept_loop
  accept_bytes-Delivered [] q h s =
      (0, q.operations, refl, Delivered-same q.operations, omega arith)
  accept_bytes-Delivered (b ∷ bytes) q h s =
      let d =
        offer_bytes-Offered (accept_extra_bytes none) process 0 (b ∷ bytes) 0 q.operations s in
      let counted : d.o.accepted ≡ d.n = omega (arith, d.counted) in
      (
        d.n,
        d.o.offered,
        rw
            (
              h,
              d.result,
              d.consumed,
              offer_extra_lem (length d.o.left) d.k d.o.left d.o.accepted q.world,
            )
            (ap
              (λ (i : ℕ).
                some (i, process (record q { operations = d.o.offered; accept_buffer_size = 0 })))
              counted),
        d.delivered,
        d.as_many,
      )
