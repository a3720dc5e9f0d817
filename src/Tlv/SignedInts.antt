-- ===== src/Tlv/SignedInts.antt =====
-- What TLVWriter::int_data writes of a signed number (tlv.cpp).
use Prim.Native.Nat.{bit_and}
use native.Mathlib.Nat.{one-le-pow}
use p44utils.Prelude.{
  ℕ, zero, suc, ◌+◌, ◌-◌, ◌*◌, ◌%◌, ◌^◌, ◌<◌, ◌≡◌, refl, Bool, true, false, not, ◌&&◌, ◌||◌, List,
  [], ◌∷◌, ◌++◌, ◌==◌, length, length-append, arith, All,
}
use p44utils.Prelude.Bits.{bit_and_low}
use p44utils.Tlv.Tags.{IsByte, IsU64, big_endian}
use p44utils.Tlv.Writer.{int_bytes, signed_data}
use p44utils.Tlv.Ints.{big_endian_from-append, All-append_one, mul_positive, high-suc, high}

abbrev tests_sign : ℕ → ℕ → Bool → Bool
tests_sign value k started =
    started
    || not (bit_and value (0x1FF * 2 ^ (8 * suc k - 1)) == 0)
    || (true && not (bit_and value (0x1FF * 2 ^ (8 * suc k - 1)) == 0x1FF * 2 ^ (8 * suc k - 1)))

-- The test of a round is passed by every signed number: a part that is 0 is not the mask.
sign_test : (value k : ℕ) (started : Bool) → tests_sign value k started ≡ true
sign_test value k true = refl
sign_test value k false =
    let mask : 0 < 0x1FF * 2 ^ (8 * suc k - 1) =
      mul_positive 0x1FF _ (one-le-pow (8 * suc k - 1) 2 (omega arith)) (omega arith) in
    ground arith

-- Eight bytes that stand for a number.
abbrev pub IsWhole : ℕ → List ℕ → Type 0
IsWhole value bytes = (big_endian bytes ≡ value) × All IsByte bytes × (length bytes ≡ 8)

int_bytes-IsWhole :
    (k value : ℕ) (started : Bool) (bytes : List ℕ)
    → big_endian bytes ≡ high value (suc k)
    → All IsByte bytes
    → length bytes + k ≡ 7
    → IsWhole value (int_bytes k value true started bytes)
unfolding int_bytes
int_bytes-IsWhole zero value started bytes s b n = (
  omega (arith, big_endian_from-append bytes 0 (value % 256)),
  All-append_one bytes (value % 256) b (omega arith),
  omega (arith, length-append bytes (value % 256 ∷ [])),
)
int_bytes-IsWhole (suc k) value started bytes s b n =
    let byte = high value (suc k) % 256 in
    rw (sign_test value k started, bit_and_low 8 (high value (suc k)))
      (int_bytes-IsWhole k value true (bytes ++ byte ∷ [])
        (omega (arith, big_endian_from-append bytes 0 byte, high-suc value (suc k)))
        (All-append_one bytes byte b (omega arith))
        (omega (arith, length-append bytes (byte ∷ []))))

-- signed_data writes the eight bytes of the 64 bit pattern, whatever the number is: no form of a
-- signed number is shorter.
pub signed_data-IsWhole : (value : ℕ) → IsU64 value → IsWhole value (signed_data value)
unfolding signed_data
signed_data-IsWhole value h = int_bytes-IsWhole 7 value false [] (omega arith) tt (omega arith)
