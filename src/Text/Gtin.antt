-- ===== src/Text/Gtin.antt =====
-- The check digit of a GTIN (utils.cpp).
use p44utils.Prelude.{
  ap, ℕ, zero, suc, ◌+◌, ◌-◌, ◌*◌, ◌/◌, ◌%◌, ◌≡◌, ◌↔◌, refl, Bool, true, false, arith, ◌<◌,
}
use p44utils.Text.Hex.{gtin_sum, gtin_checks}

-- The last `n` digits of a number, weighed with `w` and 4 - `w` in turn, from the last one up.
unfoldable pub digit_sum : ℕ → ℕ → ℕ → ℕ
digit_sum zero w g = 0
digit_sum (suc n) w g = w * (g % 10) + digit_sum n (4 - w) (g / 10)

abbrev weight : Bool → ℕ
weight true = 3
weight false = 1

gtin_sum-digit_sum :
    (n : ℕ) (threefold : Bool) (g : ℕ)
    → gtin_sum n threefold g ≡ digit_sum n (weight threefold) (g / 10)
unfolding gtin_sum digit_sum
gtin_sum-digit_sum zero threefold g = refl
gtin_sum-digit_sum (suc n) true g = omega (arith, gtin_sum-digit_sum n false (g / 10))
gtin_sum-digit_sum (suc n) false g = omega (arith, gtin_sum-digit_sum n true (g / 10))

-- The mod 10 rule over the 21 digits that the function reads.
abbrev pub IsGtin : ℕ → Type 0
IsGtin g = digit_sum 21 1 g % 10 ≡ 0

digit_sum_last : (g : ℕ) → digit_sum 21 1 g ≡ g % 10 + digit_sum 20 3 (g / 10)
unfolding digit_sum
digit_sum_last g = omega arith

-- The check digit that gtinCheckDigit computes makes a number a GTIN when it replaces the last
-- digit, and a number is a GTIN already exactly when the computed digit is its own.
pub gtin_checks-IsGtin :
    (g : ℕ)
    → let (newcheck, oldcheck) = gtin_checks g in
      IsGtin (g - oldcheck + newcheck) × (IsGtin g ↔ (newcheck ≡ oldcheck))
unfolding gtin_checks
gtin_checks-IsGtin g =
    let new = (gtin_checks g).0 in
    let sum = gtin_sum 20 true g in
    let same : sum ≡ digit_sum 20 3 (g / 10) = gtin_sum-digit_sum 20 true g in
    let digit : (new < 10) × ((new + sum) % 10 ≡ 0) = ground arith in
    let last : (g - g % 10 + new) % 10 ≡ new = omega arith in
    let upper : (g - g % 10 + new) / 10 ≡ g / 10 = omega arith in
    let new_digits : digit_sum 20 3 ((g - g % 10 + new) / 10) ≡ digit_sum 20 3 (g / 10) =
      ap (digit_sum 20 3) upper in
    (
      omega (arith, digit_sum_last (g - g % 10 + new), new_digits, last, same, digit),
      (
        λ h. omega (arith, digit_sum_last g, same, digit),
        λ h. omega (arith, digit_sum_last g, same, digit),
      ),
    )
