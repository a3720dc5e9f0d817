-- ===== src/Timers/Defs.antt =====
-- The timer part of class MainLoop and class MLTicket (mainloop.hpp, mainloop.cpp).
-- MLMicroSeconds (a 64 bit count) is ℕ: times, intervals and tolerances are not negative, and no
-- sum of them reaches 2 ^ 63. `never` is the constant Never.
-- MainLoop::now() returns the readings of a clock, one after the other: `now_at` of the environment
-- gives them, and the loop counts in `reads` how many were taken.
-- Handlers are not part of the loop: `call` of the environment is what running one does to the
-- timer it is handed and to the loop, and `world` is the state that belongs to the handlers.
use p44utils.Prelude.{
  ℕ, zero, suc, ◌+◌, Bool, true, false, Option, none, some, List, [], ◌∷◌, ◌++◌, ltb, ◌==◌,
  if◌then◌else◌, min,
}

pub record MlTimer : Type 0 where
  pub ticket_no : ℕ
  pub execution_time : ℕ
  pub tolerance : ℕ
  pub callback : ℕ
  pub reinsert : Bool

pub record MainLoop (W : Type 0) : Type 0 where
  pub timers : List MlTimer
  pub timers_changed : Bool
  pub ticket_no : ℕ
  pub terminated : Bool
  pub exit_code : ℕ
  pub max_coalescing : ℕ
  pub reads : ℕ
  pub world : W

pub record Env (W : Type 0) : Type 0 where
  pub now_at : ℕ → ℕ
  pub call : MlTimer → ℕ → MainLoop W → MlTimer × MainLoop W

abbrev pub never : ℕ
never = 0

-- The loop of scheduleTimer over the list, with the append that it falls through to.
unfoldable pub insert_before_later : MlTimer → List MlTimer → List MlTimer
insert_before_later t [] = t ∷ []
insert_before_later t (p ∷ ps) =
    if ltb t.execution_time p.execution_time then t ∷ p ∷ ps else p ∷ insert_before_later t ps

-- mTimers.back() of the list `p ∷ ps`.
unfoldable pub back : MlTimer → List MlTimer → MlTimer
back p [] = p
back p (q ∷ ps) = back q ps

unfoldable pub schedule_list : MlTimer → List MlTimer → List MlTimer
unfolding back insert_before_later
schedule_list t [] = t ∷ []
schedule_list t (p ∷ ps) =
    if ltb t.execution_time (back p ps).execution_time
    then insert_before_later t (p ∷ ps)
    else (p ∷ ps) ++ t ∷ []

-- The timer with a ticket number, and the list without it.
unfoldable pub take_out : ℕ → List MlTimer → Option (MlTimer × List MlTimer)
take_out k [] = none
take_out k (p ∷ ps) =
    if p.ticket_no == k
    then some (p, ps)
    else elim (take_out k ps) [ none ↦ none | some (t, rest) ↦ some (t, p ∷ rest) ]

module _ {W : Type 0} where
  unfoldable pub schedule_timer : MlTimer → MainLoop W → MainLoop W
  schedule_timer t m = record m { timers = schedule_list t m.timers; timers_changed = true }

  -- executeOnceAt: the new ticket number and the loop.
  unfoldable pub execute_once_at : ℕ → ℕ → ℕ → MainLoop W → ℕ × MainLoop W
  unfolding schedule_timer
  execute_once_at cb time tolerance m =
      let n = suc m.ticket_no in
      let t : MlTimer = record {
        ticket_no = n;
        execution_time = time;
        tolerance = tolerance;
        callback = cb;
        reinsert = false;
      } in
      (n, schedule_timer t (record m { ticket_no = n }))

  -- cancelExecutionTicket(MLTicketNo)
  unfoldable pub cancel_execution_ticket : ℕ → MainLoop W → Bool × MainLoop W
  cancel_execution_ticket zero m = (false, m)
  cancel_execution_ticket (suc k) m = elim (take_out (suc k) m.timers) [
    | none ↦ (false, m)
    | some (t, rest) ↦ (true, record m { timers = rest; timers_changed = true })
  ]

  unfoldable pub reschedule_execution_ticket_at : ℕ → ℕ → ℕ → MainLoop W → Bool × MainLoop W
  unfolding schedule_timer
  reschedule_execution_ticket_at zero time tolerance m = (false, m)
  reschedule_execution_ticket_at (suc k) time tolerance m = elim (take_out (suc k) m.timers) [
    | none ↦ (false, m)
    | some (t, rest) ↦
        (true, schedule_timer (record t { execution_time = time }) (record m { timers = rest }))
  ]

  unfoldable pub terminate : ℕ → MainLoop W → MainLoop W
  terminate code m = record m { exit_code = code; terminated = true }

-- MLTicket::cancel(): the value of mTicketNo, the result, the new mTicketNo and the loop.
module _ {W : Type 0} where
  unfoldable pub ticket_cancel : ℕ → MainLoop W → Bool × ℕ × MainLoop W
  unfolding cancel_execution_ticket
  ticket_cancel zero m = (false, 0, m)
  ticket_cancel (suc k) m = let (done, m') = cancel_execution_ticket (suc k) m in (done, 0, m')

  -- executeTicketOnceAt: cancels what the ticket still refers to, and gives it the new number.
  -- The assignment (MLTicket::operator=) cancels once more, which finds no number.
  unfoldable pub execute_ticket_once_at : ℕ → ℕ → ℕ → ℕ → MainLoop W → ℕ × MainLoop W
  unfolding ticket_cancel execute_once_at
  execute_ticket_once_at ticket cb time tolerance m =
      let (done, t0, m0) = ticket_cancel ticket m in
      let (n, m1) = execute_once_at cb time tolerance m0 in
      let (again, t1, m2) = ticket_cancel t0 m1 in (n, m2)

  -- MLTicket::rescheduleAt
  unfoldable pub ticket_reschedule_at : ℕ → ℕ → ℕ → MainLoop W → Bool × MainLoop W
  unfolding reschedule_execution_ticket_at
  ticket_reschedule_at zero time tolerance m = (false, m)
  ticket_reschedule_at (suc k) time tolerance m =
      reschedule_execution_ticket_at (suc k) time tolerance m

module _ {W : Type 0} (env : Env W) where
  -- MainLoop::now()
  unfoldable pub now : MainLoop W → ℕ × MainLoop W
  now m = (env.now_at m.reads, record m { reads = suc m.reads })

  unfoldable pub execute_once : ℕ → ℕ → ℕ → MainLoop W → ℕ × MainLoop W
  unfolding now execute_once_at
  execute_once cb delay tolerance m =
      let (t, m') = now m in execute_once_at cb (t + delay) tolerance m'

  unfoldable pub reschedule_execution_ticket : ℕ → ℕ → ℕ → MainLoop W → Bool × MainLoop W
  unfolding now reschedule_execution_ticket_at
  reschedule_execution_ticket k delay tolerance m =
      let (t, m') = now m in reschedule_execution_ticket_at k (t + delay) tolerance m'

  -- What checkTimers does with a timer that is due, once `rest` is the list without it: runs the
  -- handler on a copy, and inserts the copy again where the handler retriggered it.
  unfoldable pub run_timer : MlTimer → ℕ → List MlTimer → MainLoop W → MainLoop W
  unfolding schedule_timer
  run_timer p t rest m =
      let (p', m') = env.call (record p { reinsert = false }) t (record m { timers = rest }) in
      if p'.reinsert then schedule_timer p' m' else m'

  -- The two loops of checkTimers, from the test of the inner one on. `next` is nextTimer.
  -- All changes of the list set mTimersChanged, so while it is false the iterator stands at the
  -- list's front: what was before it has been erased. `none` means that the fuel ran out.
  unfoldable pub check_loop : ℕ → ℕ → ℕ → MainLoop W → Option (ℕ × MainLoop W)
  unfolding now
  check_loop zero until next m = none
  check_loop (suc f) until next m = elim m.timers_changed [
    | true ↦ check_loop f until never (record m { timers_changed = false })
    | false ↦ elim m.timers [
      | [] ↦ some (next, m)
      | p ∷ rest ↦
          let (t, m1) = now m in
          elim (ltb (t + min p.tolerance m.max_coalescing) p.execution_time) [
            | true ↦ some (p.execution_time, m1)
            | false ↦ elim (ltb until t) [
              | true ↦ some (p.execution_time, m1)
              | false ↦ elim m.terminated [
                | true ↦ some (never, m1)
                | false ↦ check_loop f until p.execution_time (run_timer p t rest m1)
              ]
            ]
          ]
    ]
  ]

  unfoldable pub check_timers : ℕ → ℕ → MainLoop W → Option (ℕ × MainLoop W)
  unfolding check_loop now
  check_timers fuel timeout m =
      let (t, m') = now m in
      check_loop fuel (t + timeout) never (record m' { timers_changed = false })
