-- ===== src/Timers/Handlers.antt =====
-- What a timer's handler may do to the main loop: it is called with the loop, and changes it by the
-- operations of mainloop.cpp only. The timer it is handed keeps its ticket number, which is private
-- (class MLTimer of mainloop.hpp).
use p44utils.Prelude.{ℕ, suc, ◌≤◌, ◌<◌, ◌≡◌, refl, none, List, zero, ◌∷◌, false, if_both, arith}
use p44utils.Timers.Defs.{
  MlTimer, MainLoop, Env, execute_once_at, cancel_execution_ticket, reschedule_execution_ticket_at,
  terminate, now, run_timer, schedule_timer,
}
use p44utils.Timers.Order.{IsSorted}
use p44utils.Timers.Tickets.{find, IsUnique, Issued}
use p44utils.Timers.Loop.{
  Inv, timer_of, schedule_timer-Inv, execute_once_at-Inv, timer_of-execute_once_at,
  cancel_execution_ticket-Inv, timer_of-cancel_execution_ticket, reschedule_execution_ticket_at-Inv,
  timer_of-reschedule_execution_ticket_at,
}

module _ {W : Type 0} (env : Env W) where
  -- One thing that a handler does to the loop.
  pub data Act : MainLoop W → MainLoop W → Type 0 where
    executes :
        (cb time tolerance : ℕ) (m : MainLoop W) → Act m (execute_once_at cb time tolerance m).1
    cancels : (k : ℕ) (m : MainLoop W) → Act m (cancel_execution_ticket k m).1
    reschedules :
        (k time tolerance : ℕ) (m : MainLoop W)
        → Act m (reschedule_execution_ticket_at k time tolerance m).1
    terminates : (code : ℕ) (m : MainLoop W) → Act m (terminate code m)
    reads_clock : (m : MainLoop W) → Act m (now env m).1
    works : (w : W) (m : MainLoop W) → Act m (record m { world = w })

  pub data Acts (m : MainLoop W) : MainLoop W → Type 0 where
    done : Acts m m
    andthen : {n o : MainLoop W} → Acts m n → Act n o → Acts m o

  pub record IsActing : Type 0 where
    pub acts : (p : MlTimer) (t : ℕ) (m : MainLoop W) → Acts m (env.call p t m).1
    pub keeps_ticket :
        (p : MlTimer) (t : ℕ) (m : MainLoop W) → (env.call p t m).0.ticket_no ≡ p.ticket_no

  -- The invariant, with a number that was issued and stands for no timer: the running one's.
  pub record InvWithout (k : ℕ) (m : MainLoop W) : Type 0 where
    pub inv : Inv m
    pub absent : timer_of k m ≡ none
    pub was_issued : (0 < k) × (k ≤ m.ticket_no)

  -- Ticket numbers are only counted up, and the clock is only read on.
  Act-mono : {m n : MainLoop W} → Act m n → (m.ticket_no ≤ n.ticket_no) × (m.reads ≤ n.reads)
  unfolding execute_once_at cancel_execution_ticket reschedule_execution_ticket_at terminate now
  Act-mono (executes cb time tolerance m) = ground arith
  Act-mono (cancels zero m) = omega arith
  Act-mono (cancels (suc k) m) = ground arith
  Act-mono (reschedules zero time tolerance m) = omega arith
  Act-mono (reschedules (suc k) time tolerance m) = ground arith
  Act-mono (terminates code m) = omega arith
  Act-mono (reads_clock m) = omega arith
  Act-mono (works w m) = omega arith

  Act-Inv : {m n : MainLoop W} → Act m n → Inv m → Inv n
  unfolding terminate now
  Act-Inv (executes cb time tolerance m) v = execute_once_at-Inv cb time tolerance m v
  Act-Inv (cancels k m) v = cancel_execution_ticket-Inv k m v
  Act-Inv (reschedules k time tolerance m) v =
      reschedule_execution_ticket_at-Inv k time tolerance m v
  Act-Inv (terminates code m) v = record { sorted = v.sorted; unique = v.unique; issued = v.issued }
  Act-Inv (reads_clock m) v = record { sorted = v.sorted; unique = v.unique; issued = v.issued }
  Act-Inv (works w m) v = record { sorted = v.sorted; unique = v.unique; issued = v.issued }

  new_number :
      (cb time tolerance : ℕ) (m : MainLoop W)
      → (execute_once_at cb time tolerance m).0 ≡ suc m.ticket_no
  unfolding execute_once_at
  new_number cb time tolerance m = refl

  Act-absent :
      (k : ℕ) {m n : MainLoop W}
      → Act m n
      → Inv m
      → k ≤ m.ticket_no
      → timer_of k m ≡ none
      → timer_of k n ≡ none
  unfolding terminate now
  Act-absent k (executes cb time tolerance m) v h a =
      ground
        (arith, timer_of-execute_once_at cb time tolerance k m v, new_number cb time tolerance m)
  Act-absent k (cancels j m) v h a = ground (arith, timer_of-cancel_execution_ticket j k m v)
  Act-absent k (reschedules j time tolerance m) v h a =
      ground (arith, timer_of-reschedule_execution_ticket_at j time tolerance k m v)
  Act-absent k (terminates code m) v h a = unfold timer_of in a
  Act-absent k (reads_clock m) v h a = unfold timer_of in a
  Act-absent k (works w m) v h a = unfold timer_of in a

  Acts-InvWithout : (k : ℕ) {m n : MainLoop W} → Acts m n → InvWithout k m → InvWithout k n
  Acts-InvWithout k done v = v
  Acts-InvWithout k (andthen before a) v =
      let w = Acts-InvWithout k before v in
      record {
        inv = Act-Inv a w.inv;
        absent = Act-absent k a w.inv w.was_issued.1 w.absent;
        was_issued = (w.was_issued.0, omega (arith, w.was_issued, Act-mono a));
      }

  Acts-reads : {m n : MainLoop W} → Acts m n → m.reads ≤ n.reads
  Acts-reads done = omega arith
  Acts-reads (andthen before a) = omega (arith, Acts-reads before, Act-mono a)

  -- Running the first timer of a loop in order, its handler and the insertion included, leaves the
  -- loop in order, for handlers that act on the loop by its operations only and keep the timer's
  -- number.
  pub run_timer-Inv :
      IsActing
      → (p : MlTimer) (t : ℕ) (rest : List MlTimer) (m : MainLoop W) → m.timers ≡ p ∷ rest
      → Inv m
      → Inv (run_timer env p t rest m)
  unfolding run_timer
  run_timer-Inv w p t rest m e v =
      if_both Inv ran.0.reinsert (schedule_timer-Inv ran.0 ran.1 gone ticket after.inv) after.inv
    where
      p0 : MlTimer
      p0 = record p { reinsert = false }

      m0 : MainLoop W
      m0 = record m { timers = rest }

      ran : MlTimer × MainLoop W
      ran = env.call p0 t m0

      sorted : IsSorted (p ∷ rest)
      sorted = rw e at v.sorted

      unique : IsUnique (p ∷ rest)
      unique = rw e at v.unique

      issued : Issued m.ticket_no (p ∷ rest)
      issued = rw e at v.issued

      before : InvWithout p.ticket_no m0
      before = record {
        inv = record { sorted = sorted.1; unique = unique.1; issued = issued.1 };
        absent = unfold timer_of in unique.0;
        was_issued = issued.0;
      }

      after : InvWithout p.ticket_no ran.1
      after = Acts-InvWithout p.ticket_no (w.acts p0 t m0) before

      gone : find ran.0.ticket_no ran.1.timers ≡ none
      gone = rw (w.keeps_ticket p0 t m0) (unfold timer_of in after.absent)

      ticket : (0 < ran.0.ticket_no) × (ran.0.ticket_no ≤ ran.1.ticket_no)
      ticket = rw (w.keeps_ticket p0 t m0) after.was_issued

  pub run_timer-reads :
      IsActing
      → (p : MlTimer) (t : ℕ) (rest : List MlTimer) (m : MainLoop W)
      → m.reads ≤ (run_timer env p t rest m).reads
  unfolding run_timer schedule_timer
  run_timer-reads w p t rest m =
      ground
        (arith, Acts-reads (w.acts (record p { reinsert = false }) t (record m { timers = rest })))
