-- ===== src/Text/HexRoundTrip.antt =====
-- Hexadecimal strings read back (utils.cpp).
use p44utils.Prelude.{
  Bool-cases, inl, inr, All, ◌⊎◌, ◌∙◌, ◌||◌, ◌==◌, ap, sym, append-nil, append_assoc, length-append,
  if◌then◌else◌, not, ltb, ◌*◌, ◌+◌, ◌^◌, ◌≤◌, suc, refl, ℕ, ◌/◌, ◌%◌, ◌<◌, ◌≡◌, Bool, true, false,
  some, List, [], ◌∷◌, ◌++◌, length, arith,
}
use p44utils.Text.Quote.{hex_upper}
use p44utils.Text.Hex.{
  hex_further, data_to_hex_string, hex_to_binary_string, mac_bytes, mac_number,
  mac_address_to_string, string_to_mac_address, hex_value, is_hex_separator, hex_loop, hex_byte,
}
use p44utils.Tlv.Tags.{IsByte}

hex_value-hex_upper : (d : ℕ) → d < 16 → hex_value (hex_upper d) ≡ some d
unfolding hex_value
hex_value-hex_upper d h = ground arith

digit_no_separator :
    (spaces : Bool) (d : ℕ) → d < 16 → is_hex_separator spaces (hex_upper d) ≡ false
digit_no_separator spaces d h = ground arith

abbrev HasRoom : ℕ → List ℕ → Type 0
HasRoom max bs = (max == 0 || ltb (length bs) max) ≡ true

hex_loop_digit :
    (spaces first : Bool) (max b d : ℕ) (bs s : List ℕ)
    → d < 16
    → HasRoom max bs
    → hex_loop spaces max bs b first (hex_upper d ∷ s)
      ≡ hex_loop spaces max
          (if first then bs else bs ++ ((b * 16 + d) % 256) ∷ [])
          (if first then d else (b * 16 + d) % 256)
          (not first)
          s
unfolding hex_loop
hex_loop_digit spaces first max b d bs s h m =
    rw (digit_no_separator spaces d h, hex_value-hex_upper d h, m) refl

-- Two digits add their byte.
hex_loop_byte :
    (spaces : Bool) (max b byte : ℕ) (bs s : List ℕ)
    → byte < 256
    → HasRoom max bs
    → hex_loop spaces max bs b true (hex_byte byte ++ s)
      ≡ hex_loop spaces max (bs ++ byte ∷ []) byte true s
hex_loop_byte spaces max b byte bs s h m =
    let whole : (byte / 16 * 16 + byte % 16) % 256 ≡ byte = omega arith in
    hex_loop_digit spaces true max b (byte / 16) bs (hex_upper (byte % 16) ∷ s) (omega arith) m
    ∙ hex_loop_digit spaces false max (byte / 16) (byte % 16) bs s (omega arith) m
    ∙ ap (λ (x : ℕ). hex_loop spaces max (bs ++ x ∷ []) x true s) whole

-- A separator behind a whole byte changes nothing.
hex_loop_separator :
    (spaces : Bool) (max b sep : ℕ) (bs s : List ℕ)
    → is_hex_separator spaces sep ≡ true
    → HasRoom max bs
    → hex_loop spaces max bs b true (sep ∷ s) ≡ hex_loop spaces max bs b true s
unfolding hex_loop
hex_loop_separator true max b sep bs s h m = rw (h, m) refl
hex_loop_separator false max b sep bs s h m = rw (h, m) refl

hex_loop_full : (spaces : Bool) (max b : ℕ) (bs : List ℕ) → hex_loop spaces max bs b true [] ≡ bs
unfolding hex_loop
hex_loop_full true max b bs = ground arith
hex_loop_full false max b bs = ground arith

-- No separator, or one that hexToBinaryString takes for one.
abbrev pub IsSeparator : Bool → ℕ → Type 0
IsSeparator spaces sep = (sep ≡ 0) ⊎ (is_hex_separator spaces sep ≡ true)

-- There is room for so many more bytes.
abbrev pub Fits : ℕ → ℕ → Type 0
Fits max n = (max ≡ 0) ⊎ (n ≤ max)

room : (max n : ℕ) (bs : List ℕ) → Fits max (length bs + suc n) → HasRoom max bs
room max n bs f = ground arith

hex_loop-hex_further :
    (spaces : Bool) (max b sep : ℕ) (bs bytes : List ℕ)
    → IsSeparator spaces sep
    → All IsByte bytes
    → Fits max (length bs + length bytes)
    → hex_loop spaces max bs b true (hex_further sep bytes) ≡ bs ++ bytes
unfolding hex_further
hex_loop-hex_further spaces max b sep bs [] i a f =
    hex_loop_full spaces max b bs ∙ sym (append-nil bs)
hex_loop-hex_further spaces max b sep bs (byte ∷ bytes) i a f =
    let m = room max (length bytes) bs f in
    let next : Fits max (length (bs ++ byte ∷ []) + length bytes) =
      ground (arith, length-append bs (byte ∷ [])) in
    let rest =
      hex_loop_byte spaces max b byte bs (hex_further sep bytes) a.0 m
      ∙ hex_loop-hex_further spaces max byte sep (bs ++ byte ∷ []) bytes i a.1 next
      ∙ append_assoc bs (byte ∷ []) bytes in
    elim (Bool-cases (sep == 0)) [
      | inl z ↦ rw z rest
      | inr n ↦
          let sepa : is_hex_separator spaces sep ≡ true = ground arith in
          rw n (
            hex_loop_separator spaces max b sep bs (hex_byte byte ++ hex_further sep bytes) sepa m
            ∙ rest)
    ]

-- hexToBinaryString reads back the bytes that dataToHexString wrote, with no separator or with one
-- that hexToBinaryString skips, where the maximal number of bytes is 0 or is not exceeded.
pub hex_to_binary_string-data_to_hex_string :
    (spaces : Bool) (max sep : ℕ) (bytes : List ℕ)
    → IsSeparator spaces sep
    → All IsByte bytes
    → Fits max (length bytes)
    → hex_to_binary_string (data_to_hex_string sep bytes) spaces max ≡ bytes
unfolding hex_to_binary_string data_to_hex_string
hex_to_binary_string-data_to_hex_string spaces max sep [] i a f = hex_loop_full spaces max 0 []
hex_to_binary_string-data_to_hex_string spaces max sep (byte ∷ bytes) i a f =
    hex_loop_byte spaces max 0 byte [] (hex_further sep bytes) a.0
      (room max (length bytes) [] (ground arith))
    ∙ hex_loop-hex_further spaces max byte sep (byte ∷ []) bytes i a.1 (ground arith)

-- stringToMacAddress reads back the MAC address that macAddressToString wrote, below 2 ^ 48, with
-- no separator or with one that hexToBinaryString skips.
pub string_to_mac_address-mac_address_to_string :
    (spaces : Bool) (sep m : ℕ)
    → IsSeparator spaces sep
    → m < 2 ^ 48
    → string_to_mac_address (mac_address_to_string m sep) spaces ≡ m
unfolding string_to_mac_address mac_address_to_string mac_bytes mac_number
string_to_mac_address-mac_address_to_string spaces sep m i h =
    let bytes = mac_bytes m in
    let back : hex_to_binary_string (data_to_hex_string sep bytes) spaces 6 ≡ bytes =
      hex_to_binary_string-data_to_hex_string spaces 6 sep bytes i (omega arith)
        (inr (omega arith)) in
    rw back (omega arith)
