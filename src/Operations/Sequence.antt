-- ===== src/Operations/Sequence.antt =====
-- Operations in sequence (operationqueue.cpp): how far the loop of processOneOperation gets.
use p44utils.Prelude.{
  none, some, ◌≢◌, not, ◌||◌, true, suc, arith, ◌++◌, List, [], ◌∷◌, sym, ◌∙◌, append_assoc,
  append-nil, ℕ, ◌≡◌, refl, Bool, false, if_split, if_both, ◌&&◌, ltb, ◌==◌,
}
use p44utils.Operations.Defs.{
  Attempt, succeeds, refuses, aborts_with, attempt, attempt_with, abort_operation, queue_now,
  Operation, Pending, Queue, Surroundings, has_timed_out_at, can_initiate, initiate,
  finalize_operation,
}
use p44utils.Operations.Processing.{
  process_one_operation, process_list, try_initiate, scan, complete, time_out, insert_next,
  put_next,
}

-- The operations of `back` stand in the list as they are, one after the other.
abbrev pub Keeps : List Pending → List Pending → Type 0
Keeps back ops = (front : List Pending) × (queued : List Pending) × (ops ≡ front ++ back ++ queued)

abbrev Ends : List Pending → List Pending → Type 0
Ends back rest = (front : List Pending) × (rest ≡ front ++ back)

Keeps-append :
    (back rest acc queued : List Pending) → Ends back rest → Keeps back (acc ++ rest ++ queued)
Keeps-append back rest acc queued (front, e) = (acc ++ front, queued, rw e (simp append_assoc refl))

Keeps-last : (back rest acc : List Pending) → Ends back rest → Keeps back (acc ++ rest)
Keeps-last back rest acc (front, e) =
    (acc ++ front, [], rw e (simp (append_assoc, append-nil) refl))

Ends-nil : (back : List Pending) → Ends back [] → back ≡ []
Ends-nil back ([], e) = sym e
Ends-nil back (p ∷ front, e) = absurd (ground arith)

Keeps-behind :
    (back rest acc : List Pending) (p : Pending) → Ends back rest → Keeps back (acc ++ p ∷ rest)
Keeps-behind back rest acc p e =
    let (front, queued, q) = Keeps-last back rest (acc ++ p ∷ []) e in
    (front, queued, sym (append_assoc acc (p ∷ []) rest) ∙ q)

insert_next-Keeps :
    (back rest front queued : List Pending) (next : Pending)
    → Ends back rest
    → Keeps back (insert_next front next rest queued)
unfolding insert_next
insert_next-Keeps back [] front queued next e =
    let none_behind = Ends-nil back e in
    (front ++ queued ++ next ∷ [], [], rw none_behind (simp append-nil refl))
insert_next-Keeps back (p ∷ rest) front queued next e =
    let (f, q, e') = Keeps-append back (p ∷ rest) (front ++ next ∷ []) queued e in
    (f, q, simp append_assoc (simp append_assoc at e'))

-- The virtual initiate does not return false for the operation, whatever its delay fields are.
abbrev pub IsReady : Surroundings → Operation → Type 0
IsReady env op =
    (o : Operation) (reads : ℕ) → o.object ≡ op.object → env.initiation o reads ≢ refuses

-- Whether the loop must not go past an operation in sequence, as it stands behind the attempt.
abbrev holds_up : Bool → Operation → Bool
holds_up waits op = op.in_sequence && (waits || op.initiated)

appended : (back ops more : List Pending) → Keeps back ops → Keeps back (ops ++ more)
appended back ops more (front, queued, e) = (front, queued ++ more, rw e (simp append_assoc refl))

module _ (env : Surroundings) where
  can_initiate-same :
      (op : Operation) (q : Queue)
      → ((can_initiate env op q).1.in_sequence ≡ op.in_sequence)
        × ((can_initiate env op q).1.object ≡ op.object)
  unfolding can_initiate
  can_initiate-same op q =
      if_both (λ (o : Operation). (o.in_sequence ≡ op.in_sequence) × (o.object ≡ op.object))
        (ltb 0 op.initiation_delay && op.initiates_not_before == 0) (refl, refl) (refl, refl)

  initiate-same :
      (op : Operation) (q : Queue)
      → ((initiate env op q).0.in_sequence ≡ op.in_sequence)
        × ((initiate env op q).0.initiated ≡ true)
  unfolding initiate
  initiate-same op q =
      if_both
        (λ (s : Operation × Queue). (s.0.in_sequence ≡ op.in_sequence) × (s.0.initiated ≡ true))
        (op.timeout == 0) (refl, refl) (refl, refl)

  attempt_with-holds :
      (a : Attempt) (p : Pending) (q : Queue)
      → a ≢ refuses
      → p.operation.in_sequence ≡ true
      → holds_up false (attempt_with env a p q).1.operation ≡ true
  unfolding attempt_with
  attempt_with-holds succeeds p q n h =
      let (i, d) = initiate-same p.operation q in rw (i, d, h) refl
  attempt_with-holds refuses p q n h = absurd (n refl)
  attempt_with-holds (aborts_with e) p q n h =
      let (i, d) =
        initiate-same (record p.operation { aborted = true; completion = none })
          (abort_operation env (some e) p q) in
      rw (i, d, h) refl

  try_initiate-holds :
      (t : ℕ) (p : Pending) (q : Queue)
      → IsReady env p.operation
      → p.operation.in_sequence ≡ true
      → holds_up (try_initiate env t p q).0 (try_initiate env t p q).1.operation ≡ true
  unfolding try_initiate attempt
  try_initiate-holds t p q ready h =
      let (can, op1, q1) = can_initiate env p.operation q in
      let (s, o) = can_initiate-same p.operation q in
      let P : Bool × Pending × Queue → Type 0 = λ r. holds_up r.0 r.1.operation ≡ true in
      if_split P p.operation.initiated (λ i. rw (h, i) refl)
        λ _.
          if_both P can
            (attempt_with-holds (env.initiation op1 q1.reads) (record p { operation = op1 }) q1
              (ready op1 q1.reads o) (s ∙ h))
            (rw (s, h) refl)

  complete-Keeps :
      (back acc rest : List Pending) (p : Pending) (q : Queue)
      → Ends back rest
      → Keeps back (complete env acc p rest q).operations
  unfolding complete put_next
  complete-Keeps back acc rest p q e =
      let q1 = (finalize_operation env p (record q { operations = [] })).1 in
      elim (finalize_operation env p (record q { operations = [] })).0
        as (λ c. Keeps back (put_next env acc rest c q1).operations) [
          | [] ↦ Keeps-append back rest acc q1.operations e
          | next ∷ more ↦ appended back _ _ (insert_next-Keeps back rest acc q1.operations _ e)
        ]

  scan-Keeps_step :
      (t : ℕ) (back acc rest : List Pending) (p : Pending) (q : Queue)
      → Ends back rest
      → let (waits, p1, q1) = try_initiate env t p (record q { operations = [] }) in
        (holds_up waits p1.operation ≡ false
          → Keeps back (scan env t (acc ++ p1 ∷ []) rest q1).1.operations)
        → Keeps back (scan env t acc (p ∷ rest) q).1.operations
  unfolding scan time_out
  scan-Keeps_step t back acc rest p q e on =
      let (waits, p1, q1) = try_initiate env t p (record q { operations = [] }) in
      let op = p1.operation in
      let P : Bool × Queue → Type 0 = λ s. Keeps back s.1.operations in
      let stays = Keeps-behind back rest acc p1 e in
      if_split P (has_timed_out_at t p.operation) (λ _. Keeps-append back rest acc _ e)
        λ _.
          if_split P (waits && op.in_sequence) (λ _. stays)
            λ w.
              if_split P op.aborted (λ _. Keeps-append back rest acc q1.operations e)
                λ _.
                  if_split P (not op.initiated) (λ i. on (ground (arith, w, i)))
                    λ _.
                      if_split P (env.completed op q1.reads)
                        (λ _. complete-Keeps back acc rest p1 q1 e)
                        λ _. if_split P op.in_sequence (λ _. stays) (λ n. on (ground (arith, n)))

  scan-Keeps :
      (t : ℕ) (acc front back : List Pending) (p : Pending) (q : Queue)
      → IsReady env p.operation
      → p.operation.in_sequence ≡ true
      → Keeps back (scan env t acc (front ++ p ∷ back) q).1.operations
  scan-Keeps t acc [] back p q ready h =
      let held = try_initiate-holds t p (record q { operations = [] }) ready h in
      scan-Keeps_step t back acc back p q ([], refl) (λ n. absurd (ground (arith, held, n)))
  scan-Keeps t acc (x ∷ front) back p q ready h =
      let (waits, x1, q1) = try_initiate env t x (record q { operations = [] }) in
      scan-Keeps_step t back acc (front ++ p ∷ back) x q (front ++ p ∷ [], simp append_assoc refl)
        λ _. scan-Keeps t (acc ++ x1 ∷ []) front back p q1 ready h

  process_list-Keeps :
      (front back : List Pending) (p : Pending) (q : Queue)
      → IsReady env p.operation
      → p.operation.in_sequence ≡ true
      → Keeps back (process_list env (front ++ p ∷ back) q).1.operations
  unfolding process_list queue_now
  process_list-Keeps [] back p q ready h =
      scan-Keeps (env.now_at q.reads) [] [] back p
        (record q { is_processing = true; reads = suc q.reads }) ready h
  process_list-Keeps (x ∷ front) back p q ready h =
      scan-Keeps (env.now_at q.reads) [] (x ∷ front) back p
        (record q { is_processing = true; reads = suc q.reads }) ready h

  -- Whatever the callbacks queue and chain, processOneOperation does not touch what stands behind
  -- an operation in sequence whose initiate() does not return false: those operations stay in the
  -- queue as they are, in their order, one after the other.
  pub process_one_operation-Keeps :
      (front back : List Pending) (p : Pending) (q : Queue)
      → q.operations ≡ front ++ p ∷ back
      → IsReady env p.operation
      → p.operation.in_sequence ≡ true
      → Keeps back (process_one_operation env q).1.operations
  unfolding process_one_operation
  process_one_operation-Keeps front back p q e ready h =
      if_both (λ (s : Bool × Queue). Keeps back s.1.operations) q.is_processing
        (front ++ p ∷ [], [], e ∙ simp (append_assoc, append-nil) refl)
        (simp e (process_list-Keeps front back p q ready h))
