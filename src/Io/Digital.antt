-- ===== src/Io/Digital.antt =====
-- Class SimPin (iopin.cpp) and the operations of class DigitalIo (digitalio.cpp) on it.
use p44utils.Prelude.{
  Bool, true, false, not, if◌then◌else◌, ◌≡◌, refl, ap, ◌∙◌, if_both, if_split, sym,
}

abbrev pub differ : Bool → Bool → Bool
differ true b = not b
differ false b = b

-- `key_set` is what the console key of an input answers.
pub record SimPin : Type 0 where
  pub output : Bool
  pub pin_state : Bool
  pub key_set : Bool

unfoldable pub get_state : SimPin → Bool
get_state p = if p.output then p.pin_state else p.key_set

unfoldable pub set_state : Bool → SimPin → SimPin
set_state state p =
    if not p.output
    then p
    else if differ p.pin_state state
    then record p { pin_state = state }
    else p

pub record DigitalIo : Type 0 where
  pub output : Bool
  pub inverted : Bool
  pub pin : SimPin

unfoldable pub is_set : DigitalIo → Bool
unfolding get_state
is_set io = differ (get_state io.pin) io.inverted

unfoldable pub set : Bool → DigitalIo → DigitalIo
unfolding set_state
set state io = record io { pin = set_state (differ state io.inverted) io.pin }

unfoldable pub on : DigitalIo → DigitalIo
unfolding set
on io = set true io

unfoldable pub off : DigitalIo → DigitalIo
unfolding set
off io = set false io

unfoldable pub toggle : DigitalIo → Bool × DigitalIo
unfolding is_set set
toggle io =
    let state = is_set io in if io.output then (not state, set (not state) io) else (state, io)

-- What was set is read back from an output, inverted or not.
inverted_twice : (a b : Bool) → differ (differ a b) b ≡ a
inverted_twice true true = refl
inverted_twice true false = refl
inverted_twice false true = refl
inverted_twice false false = refl

-- Two states that do not differ are the same.
pub agree : (a b : Bool) → differ b a ≡ false → a ≡ b
agree true true h = refl
agree true false h = cc
agree false true h = cc
agree false false h = refl

set_state-get_state :
    (state : Bool) (p : SimPin) → p.output ≡ true → get_state (set_state state p) ≡ state
unfolding get_state set_state
set_state-get_state state p h = rw h (
    if_split (λ (q : SimPin). get_state q ≡ state) (differ p.pin_state state) (λ changed. refl)
      (λ same. sym (agree state p.pin_state same)))

pub set_output :
    (state : Bool) (io : DigitalIo) → io.pin.output ≡ true → (set state io).pin.output ≡ true
unfolding set set_state
set_output state io h = rw h (
    if_both (λ (p : SimPin). p.output ≡ true) (differ io.pin.pin_state (differ state io.inverted))
      refl refl)

pub is_set-set :
    (state : Bool) (io : DigitalIo) → io.pin.output ≡ true → is_set (set state io) ≡ state
unfolding is_set set
is_set-set state io h =
    ap (λ (s : Bool). differ s io.inverted)
      (set_state-get_state (differ state io.inverted) io.pin h)
    ∙ inverted_twice state io.inverted
