-- ===== src/Prelude/Bits.antt =====
-- The operations `&`, `|` and `^` on unsigned words, as arithmetic: the lowest digit split off,
-- masks of low bits, shifted masks, and the join of fields that do not overlap.
use Prim.Native.Nat.{
  ℕ, zero, suc, ◌+◌, ◌*◌, ◌/◌, ◌%◌, ◌^◌, ◌-◌, ◌≤◌, ◌<◌, min, max, digits, bitwise, bit_and, bit_or,
  bit_and-bitwise, bit_or-bitwise,
}
use mathlib.Core.Path.{◌≡◌, refl, ap, ◌∙◌, sym}
use native.Mathlib.Nat.{
  pow-suc, one-le-pow, div-div-eq-div-mul, div-add-mod, mod-eq_of_lt, add-mul-mod_self_left,
}
use native.Mathlib.Omega.{arith}

-- How much fuel the recursion over the digits is given does not matter, once it is enough.
module _ (ends : ℕ → ℕ) (op : ℕ → ℕ → ℕ) where
  abbrev over : ℕ → ℕ → ℕ → ℕ
  over = digits ends op

  over_zero : (fuel b : ℕ) → over fuel 0 b ≡ ends b
  over_zero zero b = refl
  over_zero (suc fuel) b = refl

  over_enough : (fuel more a b : ℕ) → a ≤ fuel → a ≤ more → over fuel a b ≡ over more a b
  over_enough fuel more zero b p q = over_zero fuel b ∙ sym (over_zero more b)
  over_enough zero more (suc a) b p q = absurd (omega arith)
  over_enough (suc fuel) zero (suc a) b p q = absurd (omega arith)
  over_enough (suc fuel) (suc more) (suc a) b p q =
      ap (λ (d : ℕ). d * 2 + op (suc a % 2) (b % 2))
        (over_enough fuel more (suc a / 2) (b / 2) (omega arith) (omega arith))

  low_digit :
      (a b : ℕ)
      → bitwise ends op (suc a) b ≡ bitwise ends op (suc a / 2) (b / 2) * 2 + op (suc a % 2) (b % 2)
  low_digit a b =
      ap (λ (d : ℕ). d * 2 + op (suc a % 2) (b % 2))
        (over_enough a (suc a / 2) (suc a / 2) (b / 2) (omega arith) (omega arith))

and_digit : (a b : ℕ) → bit_and a b ≡ bit_and (a / 2) (b / 2) * 2 + min (a % 2) (b % 2)
and_digit zero b = omega (arith, bit_and-bitwise 0 b, bit_and-bitwise 0 (b / 2))
and_digit (suc a) b = omega (
  arith,
  bit_and-bitwise (suc a) b,
  bit_and-bitwise (suc a / 2) (b / 2),
  low_digit (λ y. 0) min a b,
)

or_digit : (a b : ℕ) → bit_or a b ≡ bit_or (a / 2) (b / 2) * 2 + max (a % 2) (b % 2)
or_digit zero b = omega (arith, bit_or-bitwise 0 b, bit_or-bitwise 0 (b / 2))
or_digit (suc a) b = omega (
  arith,
  bit_or-bitwise (suc a) b,
  bit_or-bitwise (suc a / 2) (b / 2),
  low_digit (λ y. y) max a b,
)

and_zero_below : (n a : ℕ) → a ≤ n → bit_and a 0 ≡ 0
and_zero_below n zero h = omega (arith, bit_and-bitwise 0 0)
and_zero_below zero (suc a) h = absurd (omega arith)
and_zero_below (suc n) (suc a) h =
    omega (arith, and_digit (suc a) 0, and_zero_below n (suc a / 2) (omega arith))

or_zero_below : (n a : ℕ) → a ≤ n → bit_or a 0 ≡ a
or_zero_below n zero h = omega (arith, bit_or-bitwise 0 0)
or_zero_below zero (suc a) h = absurd (omega arith)
or_zero_below (suc n) (suc a) h =
    omega (arith, or_digit (suc a) 0, or_zero_below n (suc a / 2) (omega arith))

halves : (a s : ℕ) → a / 2 / 2 ^ s ≡ a / 2 ^ suc s
halves a s = div-div-eq-div-mul a 2 (2 ^ s) ∙ ap (λ (d : ℕ). a / d) (omega (arith, pow-suc 2 s))

double : (m s : ℕ) → m * 2 ^ suc s ≡ 2 * (m * 2 ^ s)
double m s = omega (arith, ap (λ (d : ℕ). m * d) (pow-suc 2 s))

-- x & (m << s) keeps the bits of x from s on that m has.
pub bit_and_shifted : (s a m : ℕ) → bit_and a (m * 2 ^ s) ≡ bit_and (a / 2 ^ s) m * 2 ^ s
bit_and_shifted zero a m =
    let x : a / 1 ≡ a = omega arith in
    let y : m * 1 ≡ m = omega arith in
    omega (arith, ap (λ (d : ℕ). bit_and d m) x, ap (bit_and a) y)
bit_and_shifted (suc s) a m = ground (
  arith,
  and_digit a (m * 2 ^ suc s),
  double m s,
  bit_and_shifted s (a / 2) m,
  halves a s,
  double (bit_and (a / 2 ^ suc s) m) s,
)

mod_halves : (a p : ℕ) → 0 < p → a / 2 % p * 2 + a % 2 ≡ a % (p * 2)
mod_halves a p h =
    let rest = a / 2 % p * 2 + a % 2 in
    let small : rest < p * 2 = omega arith in
    let whole : rest + p * 2 * (a / 2 / p) ≡ a = omega (arith, div-add-mod (a / 2) p) in
    sym (mod-eq_of_lt small)
    ∙ sym (add-mul-mod_self_left rest (p * 2) (a / 2 / p))
    ∙ ap (λ (d : ℕ). d % (p * 2)) whole

-- x & (2^k - 1)
pub bit_and_low : (k a : ℕ) → bit_and a (2 ^ k - 1) ≡ a % 2 ^ k
bit_and_low zero a = omega (arith, and_zero_below a a (omega arith))
bit_and_low (suc k) a = ground (
  arith,
  and_digit a (2 ^ suc k - 1),
  pow-suc 2 k,
  one-le-pow k 2,
  bit_and_low k (a / 2),
  mod_halves a (2 ^ k) (one-le-pow k 2 (omega arith)),
)

-- (q << k) | r, where r fits in k bits.
pub bit_or_fields : (k q r : ℕ) → r < 2 ^ k → bit_or (q * 2 ^ k) r ≡ q * 2 ^ k + r
bit_or_fields zero q r h = ground (arith, or_zero_below q q)
bit_or_fields (suc k) q r h =
    ground (arith, or_digit (q * 2 ^ suc k) r, double q k, pow-suc 2 k, bit_or_fields k q (r / 2))
