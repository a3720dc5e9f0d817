-- ===== src/Io/BusValue.antt =====
-- What the pins of a bus show when a value is set (digitalio.cpp).
use p44utils.Prelude.{
  ℕ, ◌*◌, ◌%◌, ◌^◌, ◌≡◌, refl, ◌∙◌, true, not, ◌&&◌, List, [], ◌∷◌, ◌==◌, length, if_split, arith,
}
use mathlib.Core.Path.{subst}
use p44utils.Io.Digital.{agree, DigitalIo, differ, is_set, is_set-set, set_output}
use p44utils.Io.Bus.{Bus, has_bit, apply_changes, set_bus_value}

-- Every pin is an output and shows its bit of the value, the first pin that of the mask `m`.
abbrev pub Shows : ℕ → ℕ → List DigitalIo → Type 0
Shows value m [] = Unit {0}
Shows value m (io ∷ ios) =
    (io.pin.output ≡ true) × (is_set io ≡ has_bit value m) × Shows value (m * 2 % 2 ^ 32) ios

apply_changes-Shows :
    (value current m : ℕ) (ios : List DigitalIo)
    → Shows current m ios
    → Shows value m (apply_changes value current m ios)
unfolding apply_changes
apply_changes-Shows value current m [] s = tt
apply_changes-Shows value current m (io ∷ ios) (o, i, s) =
    let rest = apply_changes-Shows value current (m * 2 % 2 ^ 32) ios s in
    if_split
      (λ (io' : DigitalIo). Shows value m (io' ∷ apply_changes value current (m * 2 % 2 ^ 32) ios))
      (differ (has_bit value m) (has_bit current m))
      (λ changed. (set_output (has_bit value m) io o, is_set-set (has_bit value m) io o, rest))
      (λ same. (o, i ∙ agree (has_bit current m) (has_bit value m) same, rest))

length-apply_changes :
    (value current m : ℕ) (ios : List DigitalIo)
    → length (apply_changes value current m ios) ≡ length ios
unfolding apply_changes
length-apply_changes value current m [] = refl
length-apply_changes value current m (io ∷ ios) =
    omega (arith, length-apply_changes value current (m * 2 % 2 ^ 32) ios)

-- Setting a value on a bus of outputs that shows its current value makes every pin show its bit of
-- the new value, the first pin the lowest, though only the pins of changed bits are set; the bus
-- keeps the value and its width.
pub set_bus_value-Shows :
    (value : ℕ) (b : Bus)
    → b.outputs ≡ true
    → Shows b.current_value 1 b.bus_pins
    → let b' = set_bus_value value b in
      Shows value 1 b'.bus_pins
      × (b'.current_value ≡ value)
      × (length b'.bus_pins ≡ length b.bus_pins)
unfolding set_bus_value
set_bus_value-Shows value b o s =
    if_split
      (λ (b' : Bus).
        Shows value 1 b'.bus_pins
        × (b'.current_value ≡ value)
        × (length b'.bus_pins ≡ length b.bus_pins))
      (b.outputs && not (value == b.current_value))
      (λ changed. (
        apply_changes-Shows value b.current_value 1 b.bus_pins s,
        refl,
        length-apply_changes value b.current_value 1 b.bus_pins,
      ))
      (λ unchanged.
        let same : b.current_value ≡ value = ground (arith, o, unchanged) in
        (subst (λ (v : ℕ). Shows v 1 b.bus_pins) same s, same, refl))
