-- ===== src/Serial/Runs.antt =====
-- Sending and receiving operations at concrete inputs (serialqueue.cpp).
use p44utils.Prelude.{ℕ, ◌≡◌, refl, true, false, none, some, List, [], ◌∷◌, take, min}
use p44utils.Serial.Queue.{SerialQueue, accept_bytes, accept_extra_bytes}
use p44utils.Serial.Delivery.{QueuedOperation, sends, receives, Delivered, all_open, serial_accept}
use p44utils.Serial.Acceptance.{accept_bytes-Delivered}

-- Two operations wait for two bytes each; between them one has sent its bytes and one has not been
-- initiated.
abbrev waiting : SerialQueue QueuedOperation ℕ
waiting = record {
  operations =
      receives (record { initiated = true; expected_bytes = 2; received = 9 ∷ [] })
      ∷ sends (record { buffer = none; data_size = 0; append_index = 0 })
      ∷ receives (record { initiated = false; expected_bytes = 4; received = [] })
      ∷ receives (record { initiated = true; expected_bytes = 2; received = [] })
      ∷ [];
  accept_buffer_size = 0;
  buffered = [];
  world = 0;
}

accept_bytes-Delivered_example :
    (n : ℕ) × (ops : List QueuedOperation) × (accept_bytes serial_accept
        (accept_extra_bytes none)
        (λ (q : SerialQueue QueuedOperation ℕ). q)
        (5 ∷ 6 ∷ 7 ∷ [])
        waiting
      ≡ some (n, record waiting { operations = ops }))
    × Delivered waiting.operations ops (take n (5 ∷ 6 ∷ 7 ∷ []))
    × (n ≡ min 3 (all_open waiting.operations))
accept_bytes-Delivered_example =
    accept_bytes-Delivered (λ (q : SerialQueue QueuedOperation ℕ). q) (5 ∷ 6 ∷ 7 ∷ []) waiting refl
      (refl, (refl, (refl, (refl, tt))))
