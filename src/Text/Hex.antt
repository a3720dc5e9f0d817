-- ===== src/Text/Hex.antt =====
-- Hexadecimal strings, MAC addresses and GTIN check digits (utils.cpp).
use p44utils.Prelude.{
  is_some, ℕ, zero, suc, ◌+◌, ◌-◌, ◌*◌, ◌/◌, ◌%◌, ◌^◌, Bool, true, not, ◌&&◌, ◌||◌, Option, none,
  some, List, [], ◌∷◌, ◌++◌, length, ltb, ◌==◌, if◌then◌else◌,
}
use p44utils.Text.Chars.{to_upper}
use p44utils.Text.Quote.{hex_upper}

-- The value of a digit, in arithmetic on a char. A negative char is none of 0 to 15 either.
unfoldable pub hex_value : ℕ → Option ℕ
hex_value c =
    let d = (to_upper c + (256 - 48)) % 256 in
    let v = if ltb 9 d then d - 7 else d in if ltb 0xF v then none else some v

abbrev pub nibble : Option ℕ → ℕ
nibble none = 0
nibble (some d) = d

abbrev pub is_hex_separator : Bool → ℕ → Bool
is_hex_separator spaces c = c == b'-' || (c == b':' || (spaces && c == 32))

-- The loop of hexToBinaryString: `first` is firstNibble, and `b` the byte that is read.
unfoldable pub hex_loop : Bool → ℕ → List ℕ → ℕ → Bool → List ℕ → List ℕ
unfolding hex_value
hex_loop spaces max bs b first [] =
    if (max == 0 || ltb (length bs) max) && (spaces && not first) then bs ++ b ∷ [] else bs
hex_loop spaces max bs b first (c ∷ s) =
    let separator = is_hex_separator spaces c in
    let v = nibble (hex_value c) in
    let bad = not (is_some (hex_value c)) in
    let byte = (b * 16 + v) % 256 in
    let rest =
      hex_loop spaces max
        (if separator
          then (if spaces && not first then bs ++ b ∷ [] else bs)
          else (if first then bs else bs ++ byte ∷ []))
        (if separator then b else (if first then v else byte))
        (if separator then (first || spaces) else not first) s in
    if max == 0 || ltb (length bs) max then (if not separator && bad then bs else rest) else bs

unfoldable pub hex_to_binary_string : List ℕ → Bool → ℕ → List ℕ
unfolding hex_loop
hex_to_binary_string s spaces max = hex_loop spaces max [] 0 true s

abbrev pub hex_byte : ℕ → List ℕ
hex_byte b = hex_upper (b / 16) ∷ hex_upper (b % 16) ∷ []

-- The loop of dataToHexString, behind the first byte; a separator of 0 is none.
unfoldable pub hex_further : ℕ → List ℕ → List ℕ
hex_further sep [] = []
hex_further sep (b ∷ bytes) =
    (if sep == 0 then hex_byte b else sep ∷ hex_byte b) ++ hex_further sep bytes

unfoldable pub data_to_hex_string : ℕ → List ℕ → List ℕ
unfolding hex_further
data_to_hex_string sep [] = []
data_to_hex_string sep (b ∷ bytes) = hex_byte b ++ hex_further sep bytes

unfoldable pub mac_bytes : ℕ → List ℕ
mac_bytes m =
    m / 2 ^ 40 % 256
    ∷ m / 2 ^ 32 % 256
    ∷ m / 2 ^ 24 % 256
    ∷ m / 2 ^ 16 % 256
    ∷ m / 2 ^ 8 % 256
    ∷ m % 256
    ∷ []

unfoldable pub mac_address_to_string : ℕ → ℕ → List ℕ
unfolding mac_bytes data_to_hex_string
mac_address_to_string m sep = data_to_hex_string sep (mac_bytes m)

unfoldable pub mac_number : ℕ → List ℕ → ℕ
mac_number mac [] = mac
mac_number mac (b ∷ bytes) = mac_number ((mac * 2 ^ 8 + b) % 2 ^ 64) bytes

unfoldable pub string_to_mac_address : List ℕ → Bool → ℕ
unfolding hex_to_binary_string mac_number
string_to_mac_address s spaces =
    let b = hex_to_binary_string s spaces 6 in if length b == 6 then mac_number 0 b else 0

-- The loop of gtinCheckDigit: `n` rounds are left, the next one weighs a digit with 3 or 1.
unfoldable pub gtin_sum : ℕ → Bool → ℕ → ℕ
gtin_sum zero threefold g = 0
gtin_sum (suc n) threefold g =
    (if threefold then 3 else 1) * (g / 10 % 10) + gtin_sum n (not threefold) (g / 10)

-- newcheck and oldcheck: gtinCheckDigit returns their difference.
unfoldable pub gtin_checks : ℕ → ℕ × ℕ
gtin_checks g =
    let sum = gtin_sum 20 true g in (if ltb 0 (sum % 10) then 10 - sum % 10 else 0, g % 10)
