-- ===== src/Tlv/Element.antt =====
-- One element of the TLV format, as bytes: the tag with the count of the size bytes, the size, and
-- the contents; and what TLVWriter::finish_my_tag writes (tlv.cpp).
use Prim.Native.Nat.{bit_and, bit_or}
use p44utils.Prelude.{
  ℕ, zero, suc, ◌+◌, ◌-◌, ◌*◌, ◌/◌, ◌%◌, ◌^◌, ◌≤◌, ◌<◌, ◌≡◌, refl, ap, Bool, true, false, ◌&&◌,
  none, some, List, [], ◌∷◌, ◌++◌, leb, ◌==◌, length, All, arith, if◌then◌else◌, append_assoc,
}
use p44utils.Prelude.Bits.{bit_and_low, bit_or_fields}
use p44utils.Tlv.Tags.{tlv_invalid, tlv_tagmask, tlv_sizemask, IsByte, IsU64, big_endian_from}
use p44utils.Tlv.Writer.{WriterState, int_data, unsigned_data, finish_my_tag}
use p44utils.Tlv.Ints.{IsShortest, unsigned_data-IsShortest}
use native.Mathlib.Nat.{pow-suc, mul-le-mul_right, mul-le-mul, pow-le-pow_right}
use native.Mathlib.Decide.{dec_le}

pub big_endian_from-lt :
    (bs : List ℕ) (d : ℕ) → All IsByte bs → big_endian_from d bs < (d + 1) * 256 ^ length bs
big_endian_from-lt [] d h = omega arith
big_endian_from-lt (b ∷ bs) d h =
    let step : (d * 256 + b + 1) * 256 ^ length bs ≤ ((d + 1) * 256) * 256 ^ length bs =
      mul-le-mul_right (256 ^ length bs) (omega arith) in
    omega (
      arith,
      big_endian_from-lt bs (d * 256 + b) h.1,
      step,
      ap (λ (p : ℕ). (d + 1) * p) (pow-suc 256 (length bs)),
    )

pub big_endian_from-ge : (bs : List ℕ) (d : ℕ) → d * 256 ^ length bs ≤ big_endian_from d bs
big_endian_from-ge [] d = omega arith
big_endian_from-ge (b ∷ bs) d =
    let step : d * 256 * 256 ^ length bs ≤ (d * 256 + b) * 256 ^ length bs =
      mul-le-mul_right (256 ^ length bs) (omega arith) in
    omega (
      arith,
      big_endian_from-ge bs (d * 256 + b),
      step,
      ap (λ (p : ℕ). d * p) (pow-suc 256 (length bs)),
    )

few : (b n v : ℕ) → b < 256 → n ≤ 3 → v < (b + 1) * 256 ^ n → v < 2 ^ 32
few b n v hb hn h =
    let power : 256 ^ n ≤ 256 ^ 3 = pow-le-pow_right (omega arith) hn in
    let times : (b + 1) * 256 ^ n ≤ 256 * 256 ^ 3 = mul-le-mul {n₂ = 256} (omega arith) power in
    omega arith

many : (b n v : ℕ) → 0 < b → 4 ≤ n → b * 256 ^ n ≤ v → 2 ^ 32 ≤ v
many b n v hb hn h =
    let power : 256 ^ 4 ≤ 256 ^ n = pow-le-pow_right (omega arith) hn in
    let times : 1 * 256 ^ 4 ≤ b * 256 ^ n = mul-le-mul hb power in omega arith

-- A number has four bytes at most exactly if it is below 2 ^ 32.
pub short_form :
    (value : ℕ) (bs : List ℕ) → IsShortest value bs → leb (length bs) 4 ≡ leb (value + 1) (2 ^ 32)
short_form value [] v = absurd (omega arith)
short_form value (b ∷ bs) v =
    let top = 0 * 256 + b in
    let whole : big_endian_from top bs ≡ value = v.stands_for in
    elim (dec_le (length bs) 3) [
      | yes h ↦
          let small : value < 2 ^ 32 =
            few top (length bs) value (omega (arith, v.are_bytes.0)) h
              (omega (arith, whole, big_endian_from-lt bs top v.are_bytes.1)) in
          ground arith
      | no h ↦
          let lead : 0 < b = v.no_zeros (omega arith) in
          let big : 2 ^ 32 ≤ value =
            many top (length bs) value (omega arith) (omega arith)
              (omega (arith, whole, big_endian_from-ge bs top)) in
          ground arith
    ]

-- Over a small range, every value is checked by evaluation.
agree : (ℕ → ℕ) → (ℕ → ℕ) → ℕ → Bool
agree f g zero = true
agree f g (suc n) = (f n == g n) && agree f g n

agree→eq : (f g : ℕ → ℕ) (n i : ℕ) → agree f g n ≡ true → i < n → f i ≡ g i
unfolding agree
agree→eq f g zero i e h = absurd (omega arith)
agree→eq f g (suc n) i e h = ground (arith, agree→eq f g n i)

pub tag_bits : (n : ℕ) → n < 256 → bit_and n tlv_tagmask ≡ n / 4 * 4
unfolding agree
tag_bits n h = agree→eq (λ n. bit_and n tlv_tagmask) (λ n. n / 4 * 4) 256 n refl h

-- A tag leaves the two bits for the count of the size bytes free.
pub record IsTag (tag : ℕ) : Type 0 where
  pub is_byte : tag < 256
  pub free : tag % 4 ≡ 0

pub tag_byte :
    (tag n : ℕ)
    → IsTag tag
    → n < 4
    → bit_or (bit_and tag tlv_tagmask) (bit_and n tlv_sizemask) ≡ tag + n
tag_byte tag n t h = ground (arith, tag_bits tag, bit_and_low 2 n, bit_or_fields 2 (tag / 4) n)

-- The format of an element.
unfoldable pub element : ℕ → List ℕ → List ℕ
element tag contents =
    let size = unsigned_data (length contents) in (tag + (length size - 1)) ∷ size ++ contents

-- finish_my_tag appends the element of the started tag, counts it and ends the tag, for contents
-- of less than 2 ^ 32 bytes; for any longer ones its assert fails. The started tag has its two low
-- bits free.
pub finish_my_tag_lem :
    (bytes : List ℕ) (w : WriterState)
    → IsTag w.started_tag
    → IsU64 (length bytes)
    → finish_my_tag bytes w ≡ (
        if leb (length bytes + 1) (2 ^ 32)
        then some (record {
          tlv = w.tlv ++ element w.started_tag bytes;
          started_tag = tlv_invalid;
          tag_count = w.tag_count + 1;
        })
        else none)
unfolding finish_my_tag element unsigned_data
finish_my_tag_lem bytes w t h =
    let len = int_data (length bytes) false in
    let tag = w.started_tag + (length len - 1) in
    let shape : IsShortest (length bytes) len = unsigned_data-IsShortest (length bytes) h in
    ground (
      arith,
      short_form (length bytes) len shape,
      shape.not_empty,
      tag_byte w.started_tag (length len - 1),
      append_assoc w.tlv (tag ∷ []) len,
      append_assoc w.tlv (tag ∷ len) bytes,
    )
