-- ===== src/Timers/Runs.antt =====
-- The timers of the main loop at concrete inputs (mainloop.cpp): three timers, a clock that moves
-- 100 microseconds per reading, and handlers that note when they are called.
use p44utils.Prelude.{
  ℕ, ◌+◌, ◌*◌, ◌≤◌, ◌≡◌, refl, true, false, some, none, Option, List, [], ◌∷◌, arith, is_some,
  if◌then◌else◌, ◌==◌, All, length,
}
use p44utils.Timers.Defs.{
  MlTimer, MainLoop, Env, insert_before_later, schedule_list, execute_once_at,
  cancel_execution_ticket, reschedule_execution_ticket_at, execute_ticket_once_at, check_timers,
  run_timer,
}
use p44utils.Timers.Order.{IsSorted, schedule_list-insert_before_later}
use p44utils.Timers.Tickets.{find}
use p44utils.Timers.Loop.{
  Inv, timer_of, moved_to, timer_of-execute_once_at, timer_of-cancel_execution_ticket,
  timer_of-reschedule_execution_ticket_at,
}
use p44utils.Timers.TicketObject.{timer_of-execute_ticket_once_at}
use p44utils.Timers.Handlers.{done, andthen, works, IsActing, run_timer-Inv}
use p44utils.Timers.Check.{
  PassesAt, KeepsWhenDue, Answers, check_timers_ends, check_timers_runs_due,
}
use p44utils.Timers.Retrigger.{
  Skips, InReach, up_to, from_now_if_late, retrigger_timer, retrigger_timer-Skips,
  retrigger_timer-InReach,
}

abbrev timer_at : ℕ → ℕ → MlTimer
timer_at n time = record {
  ticket_no = n;
  execution_time = time;
  tolerance = 50;
  callback = n;
  reinsert = false;
}

abbrev waiting : List MlTimer
waiting = timer_at 2 150 ∷ timer_at 1 300 ∷ timer_at 3 4000 ∷ []

-- A call's time, and its timer's time and tolerance.
abbrev Notes : Type 0
Notes = List (ℕ × ℕ × ℕ)

abbrev loop : MainLoop Notes
loop = record {
  timers = waiting;
  timers_changed = true;
  ticket_no = 3;
  terminated = false;
  exit_code = 0;
  max_coalescing = 1000000;
  reads = 1;
  world = [];
}

abbrev noting : Env Notes
noting = record {
  now_at = λ i. 100 * i;
  call = λ p t m. (p, record m { world = (t, p.execution_time, p.tolerance) ∷ m.world });
}

waiting-IsSorted : IsSorted waiting
waiting-IsSorted = ground arith

loop-Inv : Inv loop
unfolding find
loop-Inv = record { sorted = waiting-IsSorted; unique = ground arith; issued = ground arith }

noting-IsActing : IsActing noting
noting-IsActing = record {
  acts = λ p t m. andthen done (works ((t, p.execution_time, p.tolerance) ∷ m.world) m);
  keeps_ticket = λ p t m. refl;
}

-- Both due timers run, the third stays.
two_run : Option ℕ
unfolding check_timers
two_run = elim (check_timers noting 20 1000 loop) [
  | none ↦ none
  | some (next, m) ↦ some (length m.world)
]

two_run_lem : two_run ≡ some 2
unfolding two_run run_timer
two_run_lem = refl

schedule_list-insert_before_later_example :
    schedule_list (timer_at 4 300) waiting ≡ insert_before_later (timer_at 4 300) waiting
schedule_list-insert_before_later_example =
    schedule_list-insert_before_later (timer_at 4 300) waiting waiting-IsSorted

timer_of-execute_once_at_example :
    let (n, m) = execute_once_at 7 500 10 loop in
    (timer_of n loop ≡ none)
    × (timer_of 4 m ≡ (
        if n == 4
        then some (record {
          ticket_no = n;
          execution_time = 500;
          tolerance = 10;
          callback = 7;
          reinsert = false;
        })
        else timer_of 4 loop))
timer_of-execute_once_at_example = timer_of-execute_once_at 7 500 10 4 loop loop-Inv

timer_of-cancel_execution_ticket_example :
    let (found, m) = cancel_execution_ticket 1 loop in
    (found ≡ is_some (timer_of 1 loop))
    × (timer_of 3 m ≡ (if 1 == 3 then none else timer_of 3 loop))
timer_of-cancel_execution_ticket_example = timer_of-cancel_execution_ticket 1 3 loop loop-Inv

timer_of-reschedule_execution_ticket_at_example :
    let (found, m) = reschedule_execution_ticket_at 2 9000 0 loop in
    (found ≡ is_some (timer_of 2 loop))
    × (timer_of 2 m ≡ (if 2 == 2 then moved_to 9000 (timer_of 2 loop) else timer_of 2 loop))
timer_of-reschedule_execution_ticket_at_example =
    timer_of-reschedule_execution_ticket_at 2 9000 0 2 loop loop-Inv

timer_of-execute_ticket_once_at_example :
    let (n, m) = execute_ticket_once_at 2 7 500 10 loop in
    (timer_of n loop ≡ none)
    × (timer_of 2 m ≡ (
        if n == 2
        then some (record {
          ticket_no = n;
          execution_time = 500;
          tolerance = 10;
          callback = 7;
          reinsert = false;
        })
        else if 2 == 2
        then none
        else timer_of 2 loop))
timer_of-execute_ticket_once_at_example = timer_of-execute_ticket_once_at 2 7 500 10 2 loop loop-Inv

run_timer-Inv_example :
    Inv (run_timer noting (timer_at 2 150) 200 (timer_at 1 300 ∷ timer_at 3 4000 ∷ []) loop)
run_timer-Inv_example =
    run_timer-Inv noting noting-IsActing (timer_at 2 150) 200
      (timer_at 1 300 ∷ timer_at 3 4000 ∷ []) loop refl loop-Inv

clock_passes : PassesAt noting 12 1100
clock_passes i h = omega arith

check_timers_ends_example : (r : ℕ × MainLoop Notes) × (check_timers noting 30 1000 loop ≡ some r)
check_timers_ends_example =
    check_timers_ends noting noting-IsActing 30 1000 12 loop clock_passes (omega arith)

abbrev InTime : Notes → Type 0
InTime = All (λ (n : ℕ × ℕ × ℕ). n.1 ≤ n.0 + n.2)

InTime-kept : KeepsWhenDue noting noting-IsActing 1100 InTime
InTime-kept p t m d b v h = (omega (arith, d.not_early), h)

check_timers_runs_due_example :
    let ran = check_timers_ends noting noting-IsActing 30 1000 12 loop clock_passes (omega arith) in
    Inv ran.0.1 × InTime ran.0.1.world × Answers ran.0
check_timers_runs_due_example =
    check_timers_runs_due noting noting-IsActing InTime 30 1000 loop InTime-kept loop-Inv tt
      (check_timers_ends noting noting-IsActing 30 1000 12 loop clock_passes (omega arith)).1

retrigger_timer-Skips_example :
    Skips 4 40 100 10
      (record (timer_at 1 10) { tolerance = 5 })
      (retrigger_timer noting (timer_at 1 10) 40 5 (up_to 3) loop).0
retrigger_timer-Skips_example = retrigger_timer-Skips noting (timer_at 1 10) 40 5 3 loop

retrigger_timer-InReach_example :
    InReach 100 (retrigger_timer noting (timer_at 1 10) 40 5 from_now_if_late loop).0
retrigger_timer-InReach_example =
    retrigger_timer-InReach noting (timer_at 1 10) 40 5 from_now_if_late loop
