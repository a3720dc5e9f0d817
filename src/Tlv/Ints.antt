-- ===== src/Tlv/Ints.antt =====
-- What TLVWriter::int_data writes: the bytes of a number, highest first (tlv.cpp).
use Prim.Native.Nat.{bit_and}
use native.Mathlib.Nat.{div-div-eq-div-mul, one-le-pow}
use native.Mathlib.Numerals.{towards_suc}
use p44utils.Prelude.{
  ℕ, zero, suc, ◌+◌, ◌*◌, ◌/◌, ◌%◌, ◌^◌, ◌≤◌, ◌<◌, ◌≡◌, ◌⊎◌, refl, Bool, true, false, not, ◌&&◌,
  ◌||◌, List, [], ◌∷◌, ◌++◌, ◌==◌, length, length-append, arith, All, inl, inr, Bool-cases, ap, ◌∙◌,
  get_or, sym,
}
use p44utils.Prelude.Bits.{bit_and_low, bit_and_shifted}
use p44utils.Tlv.Tags.{IsU64, IsByte, big_endian, big_endian_from}
use p44utils.Tlv.Writer.{unsigned_data, int_bytes}

pub big_endian_from-append :
    (bs : List ℕ) (d b : ℕ) → big_endian_from d (bs ++ b ∷ []) ≡ big_endian_from d bs * 256 + b
big_endian_from-append [] d b = refl
big_endian_from-append (x ∷ bs) d b = big_endian_from-append bs (d * 256 + x) b

pub All-append_one : (bs : List ℕ) (b : ℕ) → All IsByte bs → IsByte b → All IsByte (bs ++ b ∷ [])
All-append_one [] b h hb = (hb, tt)
All-append_one (x ∷ bs) b h hb = (h.0, All-append_one bs b h.1 hb)

abbrev pub high : ℕ → ℕ → ℕ
high value k = value / 2 ^ (8 * k)

shift_by_eight : (s : ℕ) → 2 ^ s * 256 ≡ 2 ^ (s + 8)
shift_by_eight s = simp towards_suc (omega arith)

shift_suc : (k : ℕ) → 2 ^ (8 * k) * 256 ≡ 2 ^ (8 * suc k)
shift_suc k = shift_by_eight (8 * k) ∙ ap (λ (e : ℕ). 2 ^ e) (omega arith)

-- The part of the number above a byte.
pub high-suc : (value k : ℕ) → high value (suc k) ≡ high value k / 256
high-suc value k =
    sym (div-div-eq-div-mul value (2 ^ (8 * k)) 256 ∙ ap (λ (d : ℕ). value / d) (shift_suc k))

byte_mask :
    (value k : ℕ)
    → bit_and value (0xFF * 2 ^ (8 * suc k)) ≡ high value (suc k) % 256 * 2 ^ (8 * suc k)
byte_mask value k =
    bit_and_shifted (8 * suc k) value 0xFF
    ∙ ap (λ (d : ℕ). d * 2 ^ (8 * suc k)) (bit_and_low 8 (high value (suc k)))

get_or-append : (bs cs : List ℕ) → 0 < get_or bs 0 0 → 0 < get_or (bs ++ cs) 0 0
get_or-append [] cs h = absurd (omega arith)
get_or-append (b ∷ bs) cs h = h

-- The bytes written so far stand for the part of the number above what is left; nothing was written
-- while that part is 0.
record Written (value k : ℕ) (started : Bool) (bytes : List ℕ) : Type 0 where
  stands_for : big_endian bytes ≡ high value (suc k)
  are_bytes : All IsByte bytes
  count : length bytes + k ≤ 7
  not_started : started ≡ false → bytes ≡ []
  leading : started ≡ true → 0 < get_or bytes 0 0

-- What a number's bytes are: they stand for it, they are 1 to 8, and the first of several is not 0.
pub record IsShortest (value : ℕ) (bytes : List ℕ) : Type 0 where
  pub stands_for : big_endian bytes ≡ value
  pub are_bytes : All IsByte bytes
  pub not_empty : 1 ≤ length bytes
  pub fits : length bytes ≤ 8
  pub no_zeros : 2 ≤ length bytes → 0 < get_or bytes 0 0

last_byte :
    (value : ℕ) (started : Bool) (bytes : List ℕ)
    → Written value 0 started bytes
    → IsShortest value (bytes ++ value % 256 ∷ [])
last_byte value started bytes v = elim (Bool-cases started) [
  | inl e ↦ ended (λ _. get_or-append bytes (value % 256 ∷ []) (v.leading e))
  | inr e ↦
      let none_yet : length bytes ≡ 0 = rw (v.not_started e) refl in
      ended (λ h. absurd (omega (arith, length-append bytes (value % 256 ∷ []))))
]
  where
    ended :
        (2 ≤ length (bytes ++ value % 256 ∷ []) → 0 < get_or (bytes ++ value % 256 ∷ []) 0 0)
        → IsShortest value (bytes ++ value % 256 ∷ [])
    ended lead = record {
      stands_for = omega (arith, big_endian_from-append bytes 0 (value % 256), v.stands_for);
      are_bytes = All-append_one bytes (value % 256) v.are_bytes (omega arith);
      not_empty = omega (arith, length-append bytes (value % 256 ∷ []));
      fits = omega (arith, length-append bytes (value % 256 ∷ []), v.count);
      no_zeros = lead;
    }

-- A round that puts its byte, and one that does not.
put_byte :
    (value k : ℕ) (started : Bool) (bytes : List ℕ)
    → Written value (suc k) started bytes
    → (started ≡ true) ⊎ (0 < high value (suc k) % 256)
    → Written value k true (bytes ++ high value (suc k) % 256 ∷ [])
put_byte value k started bytes v h = record {
  stands_for = omega (
    arith,
    big_endian_from-append bytes 0 (high value (suc k) % 256),
    v.stands_for,
    high-suc value (suc k),
  );
  are_bytes = All-append_one bytes _ v.are_bytes (omega arith);
  count = omega (arith, length-append bytes (high value (suc k) % 256 ∷ []), v.count);
  not_started = λ e. cc;
  leading = λ _. first h;
}
  where
    fresh : (bs : List ℕ) (b : ℕ) → bs ≡ [] → 0 < b → 0 < get_or (bs ++ b ∷ []) 0 0
    fresh [] b e h = h
    fresh (x ∷ bs) b e h = absurd (cc e)

    first :
        (started ≡ true) ⊎ (0 < high value (suc k) % 256)
        → 0 < get_or (bytes ++ high value (suc k) % 256 ∷ []) 0 0
    first (inl e) = get_or-append bytes (high value (suc k) % 256 ∷ []) (v.leading e)
    first (inr p) = elim (Bool-cases started) [
      | inl e ↦ get_or-append bytes (high value (suc k) % 256 ∷ []) (v.leading e)
      | inr e ↦ fresh bytes (high value (suc k) % 256) (v.not_started e) p
    ]

skip_byte :
    (value k : ℕ) (bytes : List ℕ)
    → Written value (suc k) false bytes
    → high value (suc k) % 256 ≡ 0
    → Written value k false bytes
skip_byte value k bytes v h = record {
  stands_for = rw empty (omega (arith, high-suc value (suc k), nothing));
  are_bytes = v.are_bytes;
  count = omega (arith, v.count);
  not_started = v.not_started;
  leading = λ e. cc;
}
  where
    empty : bytes ≡ []
    empty = v.not_started refl

    nothing : high value (suc (suc k)) ≡ 0
    nothing = sym v.stands_for ∙ rw empty refl

abbrev tests_byte : ℕ → ℕ → Bool → Bool
tests_byte value k started =
    started
    || not (bit_and value (0xFF * 2 ^ (8 * suc k)) == 0)
    || (false && not (bit_and value (0xFF * 2 ^ (8 * suc k)) == 0xFF * 2 ^ (8 * suc k)))

pub mul_positive : (b p : ℕ) → 0 < p → 0 < b → 0 < b * p
mul_positive b p h h' = grind arith

-- The test of a round, in an unsigned number.
test_byte :
    (value k : ℕ) (started : Bool)
    → ((tests_byte value k started ≡ true) × ((started ≡ true) ⊎ (0 < high value (suc k) % 256)))
      ⊎ ((tests_byte value k started ≡ false) × (started ≡ false) × (high value (suc k) % 256 ≡ 0))
test_byte value k true = inl (refl, inl refl)
test_byte value k false = elim (Bool-cases (high value (suc k) % 256 == 0)) [
  | inl e ↦
      let none_left : high value (suc k) % 256 ≡ 0 = ground arith in
      let masked : bit_and value (0xFF * 2 ^ (8 * suc k)) ≡ 0 =
        byte_mask value k ∙ ap (λ (d : ℕ). d * 2 ^ (8 * suc k)) none_left ∙ omega arith in
      inr (rw masked refl, refl, none_left)
  | inr e ↦
      let some_left : 0 < high value (suc k) % 256 = ground arith in
      let masked : 0 < bit_and value (0xFF * 2 ^ (8 * suc k)) =
        rw (byte_mask value k)
          (mul_positive _ (2 ^ (8 * suc k)) (one-le-pow (8 * suc k) 2 (omega arith)) some_left) in
      inl (ground arith, inr some_left)
]

int_bytes-IsShortest :
    (k value : ℕ) (started : Bool) (bytes : List ℕ)
    → Written value k started bytes
    → IsShortest value (int_bytes k value false started bytes)
unfolding int_bytes
int_bytes-IsShortest zero value started bytes v = last_byte value started bytes v
int_bytes-IsShortest (suc k) value started bytes v = elim (test_byte value k started) [
  | inl (e, why) ↦
      rw (e, bit_and_low 8 (high value (suc k)))
        (int_bytes-IsShortest k value true _ (put_byte value k started bytes v why))
  | inr (e, s, none_left) ↦
      rw e
        (int_bytes-IsShortest k value false bytes (skip_byte value k bytes (rw s at v) none_left))
]

-- unsigned_data writes the shortest big-endian form of a number below 2 ^ 64: 1 to 8 bytes that
-- stand for the number, the first of several not 0.
pub unsigned_data-IsShortest : (value : ℕ) → IsU64 value → IsShortest value (unsigned_data value)
unfolding unsigned_data
unsigned_data-IsShortest value h = int_bytes-IsShortest 7 value false [] (record {
  stands_for = omega arith;
  are_bytes = tt;
  count = omega arith;
  not_started = λ _. refl;
  leading = λ e. cc;
})
