-- ===== src/Timers/TicketObject.antt =====
-- MLTicket objects over the main loop's timers (mainloop.cpp).
use p44utils.Prelude.{ℕ, zero, suc, ◌≡◌, refl, none, some, false, arith, if◌then◌else◌, ◌==◌}
use p44utils.Timers.Defs.{
  MainLoop, execute_once_at, cancel_execution_ticket, ticket_cancel, execute_ticket_once_at,
}
use p44utils.Timers.Tickets.{find_unissued}
use p44utils.Timers.Loop.{
  Inv, timer_of, execute_once_at-Inv, timer_of-execute_once_at, cancel_execution_ticket-Inv,
  timer_of-cancel_execution_ticket,
}

module _ {W : Type 0} where
  new_number :
      (cb time tolerance : ℕ) (m : MainLoop W)
      → (execute_once_at cb time tolerance m).0 ≡ suc m.ticket_no
  unfolding execute_once_at
  new_number cb time tolerance m = refl

  timer_of_unissued : (m : MainLoop W) → Inv m → timer_of (suc m.ticket_no) m ≡ none
  unfolding timer_of
  timer_of_unissued m v =
      find_unissued m.ticket_no (suc m.ticket_no) m.timers (omega arith) v.issued

  pub ticket_cancel-Inv : (k : ℕ) (m : MainLoop W) → Inv m → Inv (ticket_cancel k m).2
  unfolding ticket_cancel
  ticket_cancel-Inv zero m v = v
  ticket_cancel-Inv (suc k) m v = cancel_execution_ticket-Inv (suc k) m v

  pub execute_ticket_once_at-Inv :
      (ticket cb time tolerance : ℕ) (m : MainLoop W)
      → Inv m
      → Inv (execute_ticket_once_at ticket cb time tolerance m).1
  unfolding execute_ticket_once_at
  execute_ticket_once_at-Inv ticket cb time tolerance m v =
      ticket_cancel-Inv (ticket_cancel ticket m).1 _
        (execute_once_at-Inv cb time tolerance _ (ticket_cancel-Inv ticket m v))

  ticket_cancel_cleared : (k : ℕ) (m : MainLoop W) → (ticket_cancel k m).1 ≡ 0
  unfolding ticket_cancel
  ticket_cancel_cleared zero m = refl
  ticket_cancel_cleared (suc k) m = refl

  timer_of-ticket_cancel :
      (k j : ℕ) (m : MainLoop W)
      → Inv m
      → timer_of j (ticket_cancel k m).2 ≡ (if k == j then none else timer_of j m)
  unfolding ticket_cancel cancel_execution_ticket
  timer_of-ticket_cancel zero j m v = ground (arith, timer_of-cancel_execution_ticket zero j m v)
  timer_of-ticket_cancel (suc k) j m v = (timer_of-cancel_execution_ticket (suc k) j m v).1

  ticket_cancel-ticket_no : (k : ℕ) (m : MainLoop W) → (ticket_cancel k m).2.ticket_no ≡ m.ticket_no
  unfolding ticket_cancel cancel_execution_ticket
  ticket_cancel-ticket_no zero m = refl
  ticket_cancel-ticket_no (suc k) m = ground arith

  execute_ticket_once_at_lem :
      (ticket cb time tolerance : ℕ) (m : MainLoop W)
      → execute_ticket_once_at ticket cb time tolerance m
        ≡ execute_once_at cb time tolerance (ticket_cancel ticket m).2
  unfolding execute_ticket_once_at
  execute_ticket_once_at_lem zero cb time tolerance m = refl
  execute_ticket_once_at_lem (suc k) cb time tolerance m = refl

  -- On a loop in order, executeTicketOnceAt ends the timer that the ticket stood for and answers
  -- the number of a new timer, which no timer had; the timers of other numbers stay as they were.
  pub timer_of-execute_ticket_once_at :
      (ticket cb time tolerance j : ℕ) (m : MainLoop W)
      → Inv m
      → let (n, m') = execute_ticket_once_at ticket cb time tolerance m in
        (timer_of n m ≡ none)
        × (timer_of j m' ≡ (
            if n == j
            then some (record {
              ticket_no = n;
              execution_time = time;
              tolerance = tolerance;
              callback = cb;
              reinsert = false;
            })
            else if ticket == j
            then none
            else timer_of j m))
  timer_of-execute_ticket_once_at ticket cb time tolerance j m v =
      let m0 = (ticket_cancel ticket m).2 in
      let v0 : Inv m0 = ticket_cancel-Inv ticket m v in
      rw (execute_ticket_once_at_lem ticket cb time tolerance m) (
        ground (
          arith,
          timer_of-execute_once_at cb time tolerance j m0 v0,
          timer_of-ticket_cancel ticket j m v,
          new_number cb time tolerance m0,
          ticket_cancel-ticket_no ticket m,
          timer_of_unissued m v,
        ))
