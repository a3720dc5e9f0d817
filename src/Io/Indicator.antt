-- ===== src/Io/Indicator.antt =====
-- Class IndicatorOutput (digitalio.cpp). `now` is the time that MainLoop::now answers to an
-- operation; the ticket is the execution time of its timer. Times are not negative: 0 stands for
-- Never, and for an infinite time to blink.
use p44utils.Prelude.{
  ℕ, ◌+◌, ◌-◌, ◌*◌, ◌/◌, Bool, true, false, not, ◌&&◌, Option, none, some, ltb, if◌then◌else◌,
}
use p44utils.Timers.Defs.{MlTimer}
use p44utils.Timers.Retrigger.{from_now_if_late, retrigger_at}
use p44utils.Io.Digital.{DigitalIo, set, on, off}

pub record Indicator : Type 0 where
  pub io : DigitalIo
  pub next_timed_state : Bool
  pub blink_on_time : ℕ
  pub blink_off_time : ℕ
  pub blink_until_time : ℕ
  pub timed_op_ticket : Option ℕ

unfoldable pub new_indicator : DigitalIo → Indicator
new_indicator io = record {
  io = io;
  next_timed_state = false;
  blink_on_time = 0;
  blink_off_time = 0;
  blink_until_time = 0;
  timed_op_ticket = none;
}

unfoldable pub stop : Indicator → Indicator
stop ind = record ind {
  blink_on_time = 0;
  blink_off_time = 0;
  blink_until_time = 0;
  timed_op_ticket = none;
}

unfoldable pub on_for : ℕ → ℕ → Indicator → Indicator
unfolding stop set
on_for now on_time ind =
    let lit = record (stop ind) { io = set true ind.io } in
    if ltb 0 on_time
    then record lit { next_timed_state = false; timed_op_ticket = some (now + on_time) }
    else lit

-- `now` is read for the end of blinking, and `later` for the timer.
unfoldable pub blink_for : ℕ → ℕ → ℕ → ℕ → ℕ → Indicator → Indicator
unfolding set
blink_for now later on_time period on_ratio ind =
    let blink_on = period * on_ratio * 10 / 1000 in
    record {
      io = set true ind.io;
      next_timed_state = false;
      blink_on_time = blink_on;
      blink_off_time = period - blink_on;
      blink_until_time = if ltb 0 on_time then now + on_time else 0;
      timed_op_ticket = some (later + blink_on);
    }

unfoldable pub steady : Bool → Indicator → Indicator
unfolding stop set
steady state ind = record (stop ind) { io = set state ind.io }

unfoldable pub steady_off : Indicator → Indicator
unfolding stop off
steady_off ind = record (stop ind) { io = off ind.io }

unfoldable pub steady_on : Indicator → Indicator
unfolding stop on
steady_on ind = record (stop ind) { io = on ind.io }

-- The handler of the timer: `now` is read for the end of blinking, and `later` by retriggerTimer.
unfoldable pub timer : ℕ → ℕ → MlTimer → Indicator → MlTimer × Indicator
unfolding set stop retrigger_at
timer now later tmr ind =
    let applied = record ind { io = set ind.next_timed_state ind.io; timed_op_ticket = none } in
    let next = not ind.next_timed_state in
    let tmr' =
      (retrigger_at later (record tmr { tolerance = 0 })
        (if next then ind.blink_off_time else ind.blink_on_time) from_now_if_late).1 in
    if ltb 0 ind.blink_until_time && ltb ind.blink_until_time now
    then (tmr, stop applied)
    else if ltb 0 ind.blink_on_time
    then (
      tmr',
      record applied { next_timed_state = next; timed_op_ticket = some tmr'.execution_time },
    )
    else (tmr, applied)
