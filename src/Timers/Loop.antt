-- ===== src/Timers/Loop.antt =====
-- The operations on the main loop's timers: their effect on each ticket, and the invariant of the
-- timer list (mainloop.cpp). `find` says which timer a ticket number stands for.
use p44utils.Prelude.{
  ℕ, zero, suc, ◌≤◌, ◌<◌, ◌≡◌, Option, none, some, false, arith, inl, inr, if◌then◌else◌, ◌==◌,
  Option-cases, is_some,
}
use p44utils.Timers.Defs.{
  MlTimer, MainLoop, take_out, schedule_timer, execute_once_at, cancel_execution_ticket,
  reschedule_execution_ticket_at,
}
use p44utils.Timers.Order.{IsSorted, schedule_list-IsSorted, take_out-IsSorted}
use p44utils.Timers.Tickets.{
  find, IsUnique, Issued, find-schedule_list, schedule_list-IsUnique, schedule_list-Issued,
  Issued-suc, find_unissued, find_zero, take_out-none, take_out-find, find_rest, rest-IsUnique,
  rest-Issued,
}

-- The list is in the order of execution times, no two timers share a ticket number, and every
-- number was issued.
pub record Inv {W : Type 0} (m : MainLoop W) : Type 0 where
  pub sorted : IsSorted m.timers
  pub unique : IsUnique m.timers
  pub issued : Issued m.ticket_no m.timers

abbrev pub moved_to : ℕ → Option MlTimer → Option MlTimer
moved_to time none = none
moved_to time (some t) = some (record t { execution_time = time })

module _ {W : Type 0} where
  unfoldable pub timer_of : ℕ → MainLoop W → Option MlTimer
  timer_of k m = find k m.timers

  abbrev made : ℕ → ℕ → ℕ → MainLoop W → MlTimer
  made cb time tolerance m = record {
    ticket_no = suc m.ticket_no;
    execution_time = time;
    tolerance = tolerance;
    callback = cb;
    reinsert = false;
  }

  pub schedule_timer-Inv :
      (t : MlTimer) (m : MainLoop W)
      → find t.ticket_no m.timers ≡ none
      → (0 < t.ticket_no) × (t.ticket_no ≤ m.ticket_no)
      → Inv m
      → Inv (schedule_timer t m)
  unfolding schedule_timer
  schedule_timer-Inv t m fresh h v = record {
    sorted = schedule_list-IsSorted t m.timers v.sorted;
    unique = schedule_list-IsUnique t m.timers fresh v.unique;
    issued = schedule_list-Issued m.ticket_no t m.timers h v.issued;
  }

  pub execute_once_at-Inv :
      (cb time tolerance : ℕ) (m : MainLoop W) → Inv m → Inv (execute_once_at cb time tolerance m).1
  unfolding execute_once_at
  execute_once_at-Inv cb time tolerance m v =
      schedule_timer-Inv (made cb time tolerance m) (record m { ticket_no = suc m.ticket_no })
        (find_unissued m.ticket_no (suc m.ticket_no) m.timers (omega arith) v.issued)
        (omega arith, omega arith)
        (record {
          sorted = v.sorted;
          unique = v.unique;
          issued = Issued-suc m.ticket_no m.timers v.issued;
        })

  -- On a loop in order, executeOnceAt returns a number that no timer had, and registers a timer of
  -- that number with the time, tolerance and callback asked for; the timers of all other numbers
  -- stay as they were.
  pub timer_of-execute_once_at :
      (cb time tolerance k : ℕ) (m : MainLoop W)
      → Inv m
      → let (n, m') = execute_once_at cb time tolerance m in
        (timer_of n m ≡ none)
        × (timer_of k m' ≡ (
            if n == k
            then some (record {
              ticket_no = n;
              execution_time = time;
              tolerance = tolerance;
              callback = cb;
              reinsert = false;
            })
            else timer_of k m))
  unfolding execute_once_at timer_of
  timer_of-execute_once_at cb time tolerance k m v =
      let fresh : find (suc m.ticket_no) m.timers ≡ none =
        find_unissued m.ticket_no (suc m.ticket_no) m.timers (omega arith) v.issued in
      (fresh, find-schedule_list k (made cb time tolerance m) m.timers fresh)

  pub cancel_execution_ticket-Inv :
      (k : ℕ) (m : MainLoop W) → Inv m → Inv (cancel_execution_ticket k m).1
  unfolding cancel_execution_ticket
  cancel_execution_ticket-Inv zero m v = v
  cancel_execution_ticket-Inv (suc k) m v = elim (Option-cases (take_out (suc k) m.timers)) [
    | inl e ↦ rw (e, cancel_execution_ticket) v
    | inr ((t, rest), e) ↦
        rw (e, cancel_execution_ticket)
          (record {
            sorted = take_out-IsSorted (suc k) m.timers v.sorted e;
            unique = rest-IsUnique (suc k) m.timers v.unique e;
            issued = (rest-Issued (suc k) m.ticket_no m.timers v.issued e).0;
          })
  ]

  -- On a loop in order, cancelExecutionTicket returns true exactly when the number stands for a
  -- timer; after it the number stands for none, and the timers of all other numbers stay as they
  -- were.
  pub timer_of-cancel_execution_ticket :
      (k j : ℕ) (m : MainLoop W)
      → Inv m
      → let (done, m') = cancel_execution_ticket k m in
        (done ≡ is_some (timer_of k m)) × (timer_of j m' ≡ (if k == j then none else timer_of j m))
  unfolding cancel_execution_ticket timer_of
  timer_of-cancel_execution_ticket zero j m v =
      ground (arith, find_zero m.ticket_no m.timers v.issued)
  timer_of-cancel_execution_ticket (suc k) j m v = elim (Option-cases (take_out (suc k) m.timers)) [
    | inl e ↦ ground (arith, take_out-none (suc k) m.timers e)
    | inr ((t, rest), e) ↦
        ground (arith, take_out-find (suc k) m.timers e, find_rest (suc k) j m.timers v.unique e)
  ]

  pub reschedule_execution_ticket_at-Inv :
      (k time tolerance : ℕ) (m : MainLoop W)
      → Inv m
      → Inv (reschedule_execution_ticket_at k time tolerance m).1
  unfolding reschedule_execution_ticket_at
  reschedule_execution_ticket_at-Inv zero time tolerance m v = v
  reschedule_execution_ticket_at-Inv (suc k) time tolerance m v =
      elim (Option-cases (take_out (suc k) m.timers)) [
        | inl e ↦ rw (e, reschedule_execution_ticket_at) v
        | inr ((t, rest), e) ↦
            let gone : find t.ticket_no rest ≡ none = ground (
              arith,
              take_out-find (suc k) m.timers e,
              find_rest (suc k) t.ticket_no m.timers v.unique e,
            ) in
            let left = rest-Issued (suc k) m.ticket_no m.timers v.issued e in
            rw (e, reschedule_execution_ticket_at)
              (schedule_timer-Inv (record t { execution_time = time }) (record m { timers = rest })
                gone (left.1, left.2)
                (record {
                  sorted = take_out-IsSorted (suc k) m.timers v.sorted e;
                  unique = rest-IsUnique (suc k) m.timers v.unique e;
                  issued = left.0;
                }))
      ]

  -- On a loop in order, rescheduleExecutionTicketAt returns true exactly when the number stands
  -- for a timer; that timer then has the new execution time, and all else about it (its tolerance
  -- included) and about the timers of all other numbers stays as it was.
  pub timer_of-reschedule_execution_ticket_at :
      (k time tolerance j : ℕ) (m : MainLoop W)
      → Inv m
      → let (done, m') = reschedule_execution_ticket_at k time tolerance m in
        (done ≡ is_some (timer_of k m))
        × (timer_of j m' ≡ (if k == j then moved_to time (timer_of j m) else timer_of j m))
  unfolding reschedule_execution_ticket_at timer_of schedule_timer
  timer_of-reschedule_execution_ticket_at zero time tolerance j m v =
      ground (arith, find_zero m.ticket_no m.timers v.issued)
  timer_of-reschedule_execution_ticket_at (suc k) time tolerance j m v =
      elim (Option-cases (take_out (suc k) m.timers)) [
        | inl e ↦ ground (arith, take_out-none (suc k) m.timers e)
        | inr ((t, rest), e) ↦ ground (
          arith,
          take_out-find (suc k) m.timers e,
          find_rest (suc k) j m.timers v.unique e,
          find_rest (suc k) t.ticket_no m.timers v.unique e,
          find-schedule_list j (record t { execution_time = time }) rest,
        )
      ]
