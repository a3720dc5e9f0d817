-- ===== src/Io/Button.antt =====
-- Class ButtonInput (digitalio.cpp). Reports to the handler of the button are the results; the ticket
-- is the execution time of the timer for repeated reports, 0 stands for Never.
use p44utils.Prelude.{
  ℕ, ◌+◌, ◌-◌, Bool, true, false, not, ◌&&◌, ◌||◌, Option, none, some, List, [], ◌∷◌, ◌==◌,
  if◌then◌else◌,
}
use p44utils.Io.Digital.{DigitalIo, is_set}

-- What the handler is called with: state, has changed, time since the previous change.
pub record Report : Type 0 where
  pub state : Bool
  pub has_changed : Bool
  pub time_since : ℕ

pub record Button : Type 0 where
  pub io : DigitalIo
  pub last_change_time : ℕ
  pub report_press_and_release : Bool
  pub has_handler : Bool
  pub repeat_active_report : ℕ
  pub active_report_ticket : Option ℕ
  pub input_handler : Bool

unfoldable pub repeat_state_report : ℕ → Button → List Report × Button
repeat_state_report now b = (
  if b.has_handler
      then record { state = true; has_changed = false; time_since = now - b.last_change_time } ∷ []
      else [],
  record b { active_report_ticket = some (now + b.repeat_active_report) },
)

unfoldable pub set_button_handler : ℕ → Bool → Bool → ℕ → Button → List Report × Button
unfolding repeat_state_report is_set
set_button_handler now handler press_and_release repeat_report b =
    let b' = record b {
      report_press_and_release = press_and_release;
      repeat_active_report = repeat_report;
      has_handler = handler;
      input_handler = handler;
    } in
    let repeated = repeat_state_report now b' in
    if handler
    then (if is_set b.io && not (repeat_report == 0) then repeated else ([], b'))
    else ([], record b' { active_report_ticket = none })

unfoldable pub input_changed : ℕ → Bool → Button → List Report × Button
input_changed now new_state b = (
  if not new_state || b.report_press_and_release
      then record { state = new_state; has_changed = true; time_since = now - b.last_change_time }
        ∷ []
      else [],
  record b {
    last_change_time = now;
    active_report_ticket =
        if new_state && not (b.repeat_active_report == 0)
        then some (now + b.repeat_active_report)
        else none;
  },
)
