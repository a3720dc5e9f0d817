-- ===== src/Io/Bus.antt =====
-- Class DigitalIoBus (digitalio.cpp), of at most 31 pins. A mask is shifted as a uint32_t.
use Prim.Native.Nat.{bit_and, bit_or}
use p44utils.Prelude.{
  ℕ, ◌-◌, ◌*◌, ◌%◌, ◌^◌, Bool, not, ◌&&◌, List, [], ◌∷◌, length, ◌==◌, if◌then◌else◌,
}
use p44utils.Io.Digital.{DigitalIo, differ, is_set, set}

pub record Bus : Type 0 where
  pub bus_pins : List DigitalIo
  pub outputs : Bool
  pub current_value : ℕ

abbrev pub bit : Bool → ℕ
bit b = if b then 1 else 0

-- The value that the constructor computes for pins that all have the initial state.
unfoldable pub initial_value : Bool → List DigitalIo → ℕ → ℕ
initial_value state [] value = value
initial_value state (io ∷ ios) value =
    initial_value state ios (bit_or (value * 2 % 2 ^ 32) (bit state))

unfoldable pub new_bus : List DigitalIo → Bool → Bool → Bus
unfolding initial_value
new_bus ios outputs state = record {
  bus_pins = ios;
  outputs = outputs;
  current_value = initial_value state ios 0;
}

-- The loop of getBusValue.
unfoldable pub read_pins : List DigitalIo → ℕ → ℕ
unfolding is_set
read_pins [] value = value
read_pins (io ∷ ios) value = read_pins ios (bit_or (value * 2 % 2 ^ 32) (bit (is_set io)))

unfoldable pub get_bus_value : Bus → ℕ × Bus
unfolding read_pins
get_bus_value b =
    let value = read_pins b.bus_pins 0 in
    if not b.outputs then (value, record b { current_value = value }) else (b.current_value, b)

unfoldable pub get_max_bus_value : Bus → ℕ
get_max_bus_value b = 2 ^ length b.bus_pins - 1

unfoldable pub get_bus_width : Bus → ℕ
get_bus_width b = length b.bus_pins % 2 ^ 8

abbrev pub has_bit : ℕ → ℕ → Bool
has_bit value m = not (bit_and value m == 0)

-- The loop of setBusValue, from the pin of the mask `m` on.
unfoldable pub apply_changes : ℕ → ℕ → ℕ → List DigitalIo → List DigitalIo
unfolding set
apply_changes value current m [] = []
apply_changes value current m (io ∷ ios) =
    (if differ (has_bit value m) (has_bit current m) then set (has_bit value m) io else io)
    ∷ apply_changes value current (m * 2 % 2 ^ 32) ios

unfoldable pub set_bus_value : ℕ → Bus → Bus
unfolding apply_changes
set_bus_value value b =
    if b.outputs && not (value == b.current_value)
    then record b {
      bus_pins = apply_changes value b.current_value 1 b.bus_pins;
      current_value = value;
    }
    else b
