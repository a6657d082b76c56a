-- ===== src/Decimal.antt =====
-- Python's `decimal.Decimal` as the program uses it: finite values (every validated model refuses
-- NaN and the infinities), a coefficient and an exponent, with the results of arithmetic rounded
-- half to even to the precision of the context. The exponent is not bounded, and -0 is 0.
-- The program works in the default context of 28 digits and in local contexts of 60.
pub mod Order
pub mod Extremes
pub mod Root
pub mod Fuel
pub mod Tests
use aero_bot.Prelude.{
  ℕ, zero, suc, ◌+◌, ◌-◌, ◌*◌, ◌/◌, ◌%◌, ◌^◌, Bool, true, false, not, ◌&&◌, ◌||◌, ltb, leb, ◌==◌,
  if◌then◌else◌, List, [], ◌∷◌,
}
use mathlib.Core.Bool.{xor}
use aero_bot.Prelude.Int.{ℤ, pos, negsuc, pos_part, neg_part, sub_ℕ, ◌+ℤ◌, ◌-ℤ◌, ◌*ℤ◌, min_ℤ, abs_ℤ}
use aero_bot.Prelude.Results.{Result, ok, err, division_by_zero}

-- The value is coefficient * 10 ^ exponent.
pub record Decimal : Type 0 where
  pub coefficient : ℤ
  pub exponent : ℤ

-- The default context's precision, and the program's `MATH_PRECISION`.
abbrev pub default_precision : ℕ
default_precision = 28

abbrev pub math_precision : ℕ
math_precision = 60

-- `Decimal(n)` of a whole number, and `Decimal("…")` with so many digits behind the point.
abbrev pub whole : ℕ → Decimal
whole n = record { coefficient = pos n; exponent = pos 0 }

abbrev pub literal : ℕ → ℕ → Decimal
literal n places = record { coefficient = pos n; exponent = sub_ℕ 0 places }

-- How far the exponent `e` lies above `m`.
unfoldable pub gap : ℤ → ℤ → ℕ
unfolding ◌-ℤ◌
gap e m = abs_ℤ (e -ℤ m)

-- The positive and the negative part at an exponent `m` at most the value's own.
unfoldable pub upper_part : Decimal → ℤ → ℕ
upper_part a m = pos_part a.coefficient * 10 ^ gap a.exponent m

unfoldable pub lower_part : Decimal → ℤ → ℕ
lower_part a m = neg_part a.coefficient * 10 ^ gap a.exponent m

abbrev pub common_exponent : Decimal → Decimal → ℤ
common_exponent a b = min_ℤ a.exponent b.exponent

-- `a < b` and `a <= b`, which compare exactly.
unfoldable pub lt : Decimal → Decimal → Bool
unfolding upper_part lower_part gap
lt a b =
    let m = common_exponent a b in
    ltb (upper_part a m + lower_part b m) (upper_part b m + lower_part a m)

abbrev pub le : Decimal → Decimal → Bool
le a b = not (lt b a)

-- `min(a, b)` and `max(a, b)` keep the first of equal values.
unfoldable pub min : Decimal → Decimal → Decimal
min a b = if lt b a then b else a

unfoldable pub max : Decimal → Decimal → Decimal
max a b = if lt a b then b else a

-- How many decimal digits a coefficient has; the number itself is fuel enough.
digits_from : ℕ → ℕ → ℕ
digits_from zero n = 1
digits_from (suc fuel) n = let rest = digits_from fuel (n / 10) in if ltb n 10 then 1 else rest + 1

unfoldable pub digit_count : ℕ → ℕ
unfolding digits_from
digit_count n = digits_from n n

-- Rounding half to even drops `k` digits.
unfoldable pub round_half_even : ℕ → ℕ → ℕ
round_half_even n k =
    let q = n / 10 ^ k in
    let twice = 2 * (n % 10 ^ k) in
    if ltb (10 ^ k) twice || (twice == 10 ^ k && q % 2 == 1) then q + 1 else q

abbrev pub with_sign : Bool → ℕ → ℤ
with_sign negative n = if negative then sub_ℕ 0 n else pos n

abbrev pub is_negative : ℤ → Bool
is_negative (pos _) = false
is_negative (negsuc _) = true

-- The context's rounding of an exact result.
unfoldable pub fix : ℕ → Decimal → Decimal
unfolding digit_count round_half_even ◌+ℤ◌
fix precision a =
    let n = abs_ℤ a.coefficient in
    let d = digit_count n in
    let k = d - precision in
    let q = round_half_even n k in
    let carry = ltb precision (digit_count q) in
    if leb d precision then a else record {
      coefficient = with_sign (is_negative a.coefficient) (if carry then q / 10 else q);
      exponent = a.exponent +ℤ pos (if carry then k + 1 else k);
    }

unfoldable pub add : ℕ → Decimal → Decimal → Decimal
unfolding fix upper_part lower_part gap
add precision a b =
    let m = common_exponent a b in
    fix precision (record {
      coefficient = sub_ℕ (upper_part a m + upper_part b m) (lower_part a m + lower_part b m);
      exponent = m;
    })

unfoldable pub sub : ℕ → Decimal → Decimal → Decimal
unfolding fix upper_part lower_part gap
sub precision a b =
    let m = common_exponent a b in
    fix precision (record {
      coefficient = sub_ℕ (upper_part a m + lower_part b m) (lower_part a m + upper_part b m);
      exponent = m;
    })

unfoldable pub mul : ℕ → Decimal → Decimal → Decimal
unfolding fix ◌*ℤ◌ ◌+ℤ◌
mul precision a b =
    fix precision
      (record { coefficient = a.coefficient *ℤ b.coefficient; exponent = a.exponent +ℤ b.exponent })

-- An exact quotient drops trailing zeros, `limit` of them at most.
strip_zeros : ℕ → ℕ → ℕ × ℕ
strip_zeros zero n = (n, 0)
strip_zeros (suc limit) n =
    let rest = strip_zeros limit (n / 10) in if (n % 10) == 0 then (rest.0, rest.1 + 1) else (n, 0)

-- The quotient of two magnitudes, with one digit more than the precision and a last digit that
-- never hides a remainder, and the number of digits it was shifted by.
unfoldable pub quotient : ℕ → ℕ → ℕ → ℕ × ℤ
unfolding strip_zeros digit_count
quotient precision n d =
    let up = digit_count d + precision + 1 - digit_count n in
    let down = digit_count n - (digit_count d + precision + 1) in
    let q = n * 10 ^ up / (d * 10 ^ down) in
    let exact = (n * 10 ^ up % (d * 10 ^ down)) == 0 in
    let (stripped, zeros) = strip_zeros up q in
    if exact
    then (stripped, sub_ℕ (down + zeros) up)
    else (if (q % 5) == 0 then q + 1 else q, sub_ℕ down up)

-- `a / b` for a divisor that is not zero.
unfoldable pub div : ℕ → Decimal → Decimal → Decimal
unfolding quotient fix ◌+ℤ◌ ◌-ℤ◌ xor
div precision a b =
    let (q, shift) = quotient precision (abs_ℤ a.coefficient) (abs_ℤ b.coefficient) in
    let ideal = a.exponent -ℤ b.exponent in
    let negative = xor (is_negative a.coefficient) (is_negative b.coefficient) in
    if abs_ℤ a.coefficient == 0
    then record { coefficient = pos 0; exponent = ideal }
    else fix precision (record { coefficient = with_sign negative q; exponent = ideal +ℤ shift })

-- `a / b` where the divisor may be zero.
unfoldable pub checked_div : ℕ → Decimal → Decimal → Result Decimal
unfolding div
checked_div precision a b =
    if abs_ℤ b.coefficient == 0 then err division_by_zero else ok (div precision a b)

-- Python's `sum(xs, Decimal(0))` adds from the left.
sum_from : ℕ → Decimal → List Decimal → Decimal
sum_from precision acc [] = acc
sum_from precision acc (x ∷ xs) = sum_from precision (add precision acc x) xs

unfoldable pub sum : ℕ → List Decimal → Decimal
unfolding sum_from
sum precision xs = sum_from precision (whole 0) xs
