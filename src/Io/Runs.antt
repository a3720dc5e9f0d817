-- ===== src/Io/Runs.antt =====
-- A bus and an indicator at concrete inputs (digitalio.cpp).
use p44utils.Prelude.{
  ℕ, ◌+◌, ◌*◌, ◌≡◌, ◌≤◌, refl, inr, Bool, true, false, not, none, some, [], ◌∷◌, length,
  if◌then◌else◌, arith,
}
use p44utils.Timers.Defs.{MlTimer}
use p44utils.Io.Digital.{DigitalIo, is_set}
use p44utils.Io.Bus.{Bus, set_bus_value}
use p44utils.Io.BusValue.{Shows, set_bus_value-Shows}
use p44utils.Io.Indicator.{Indicator, blink_for, timer, new_indicator}
use p44utils.Io.Blinking.{Blinks, run, timer-Blinks, run-blink_for}

-- An output, inverted or not, with the state of its pin.
abbrev output_pin : Bool → Bool → DigitalIo
output_pin inverted state = record {
  output = true;
  inverted = inverted;
  pin = record { output = true; pin_state = state; key_set = false };
}

-- Three pins that show 5; the second is inverted.
abbrev bus : Bus
bus = record {
  bus_pins = output_pin false true ∷ output_pin true true ∷ output_pin false true ∷ [];
  outputs = true;
  current_value = 5;
}

set_bus_value-Shows_example :
    let b' = set_bus_value 6 bus in
    Shows 6 1 b'.bus_pins × (b'.current_value ≡ 6) × (length b'.bus_pins ≡ length bus.bus_pins)
unfolding is_set
set_bus_value-Shows_example =
    set_bus_value-Shows 6 bus refl (refl, refl, (refl, refl, (refl, refl, tt)))

abbrev lamp : Indicator
lamp = new_indicator (output_pin true true)

abbrev blink_timer : MlTimer
blink_timer = record {
  ticket_no = 1;
  execution_time = 130;
  tolerance = 0;
  callback = 0;
  reinsert = false;
}

abbrev blinking : Indicator
blinking = record {
  io = output_pin false true;
  next_timed_state = false;
  blink_on_time = 30;
  blink_off_time = 70;
  blink_until_time = 500;
  timed_op_ticket = some 130;
}

blinking-Blinks : Blinks blinking
unfolding is_set
blinking-Blinks = record { is_output = refl; shows = refl; goes_on = omega arith }

timer-Blinks_example :
    let (tmr', ind') = timer 131 132 blink_timer blinking in
    Blinks ind'
    × (is_set ind'.io ≡ not (is_set blinking.io))
    × (tmr'.reinsert ≡ true)
    × (130 + (if is_set ind'.io then 30 else 70) ≤ tmr'.execution_time)
    × (132 ≤ tmr'.execution_time)
    × (ind'.timed_op_ticket ≡ some tmr'.execution_time)
timer-Blinks_example = timer-Blinks 131 132 blink_timer blinking blinking-Blinks (inr (omega arith))

abbrev clock : ℕ → ℕ
clock i = 130 + i * 100

run-blink_for_example :
    (run clock 5 0 blink_timer (blink_for 100 101 400 100 30 lamp)).timed_op_ticket ≡ none
run-blink_for_example =
    run-blink_for clock 4 100 101 400 100 30 blink_timer lamp (omega arith) (λ i h. omega arith)
