-- ===== src/Decimal/Root.antt =====
-- Square roots and the rounding to whole numbers and to a quantum.
use aero_bot.Prelude.{ℕ, zero, suc, ◌+◌, ◌-◌, ◌*◌, ◌/◌, ◌%◌, ◌^◌, ◌&&◌, leb, ◌==◌, if◌then◌else◌}
use aero_bot.Prelude.Int.{ℤ, pos, sub_ℕ, ◌+ℤ◌, ◌-ℤ◌, ltb_ℤ, abs_ℤ}
use aero_bot.Prelude.Results.{Result, ok, raise_if, invalid_operation, ◌>>◌}
use aero_bot.Decimal.{Decimal, digit_count, fix, gap, with_sign, is_negative}

-- The whole square root of `c` by Newton's iteration from above.
unfoldable pub root_from : ℕ → ℕ → ℕ → ℕ
root_from zero c n = n
root_from (suc fuel) c n =
    let q = c / n in let rest = root_from fuel c ((n + q) / 2) in if leb n q then n else rest

-- `x.sqrt()` of a value that is not negative: one digit more than the precision is found exactly,
-- and an inexact last digit never hides a remainder. The iteration starts above the root and falls
-- at every round, so that its start is fuel enough.
unfoldable pub sqrt : ℕ → Decimal → Decimal
unfolding root_from fix digit_count ◌+ℤ◌ ◌-ℤ◌
sqrt precision a =
    let digits = digit_count (abs_ℤ a.coefficient) in
    let odd = (abs_ℤ a.exponent % 2) == 1 in
    let half =
      if is_negative a.exponent
      then sub_ℕ 0 ((abs_ℤ a.exponent + 1) / 2)
      else pos (abs_ℤ a.exponent / 2) in
    let c = if odd then abs_ℤ a.coefficient * 10 else abs_ℤ a.coefficient in
    let l = if odd then digits / 2 + 1 else (digits + 1) / 2 in
    let up = precision + 1 - l in
    let down = l - (precision + 1) in
    let shifted = c * 100 ^ up / 100 ^ down in
    let n = root_from (10 ^ (precision + 1)) shifted (10 ^ (precision + 1)) in
    let exact = ((c * 100 ^ up % 100 ^ down) == 0) && ((n * n) == shifted) in
    let result =
      (if exact
        then record { coefficient = pos (n * 10 ^ down / 10 ^ up); exponent = half }
        else record {
          coefficient = pos (if (n % 5) == 0 then n + 1 else n);
          exponent = half -ℤ sub_ℕ up down;
        }) in
    if abs_ℤ a.coefficient == 0
    then record { coefficient = pos 0; exponent = half }
    else fix precision result

-- `x.sqrt()`, which a negative value has not.
unfoldable pub checked_sqrt : ℕ → Decimal → Result Decimal
unfolding sqrt
checked_sqrt precision a = do
  raise_if (is_negative a.coefficient) invalid_operation
  ok (sqrt precision a)

-- `to_integral_value(rounding=ROUND_CEILING)` then `int(…)`.
unfoldable pub ceiling : Decimal → ℤ
unfolding gap
ceiling a =
    let scale = 10 ^ gap a.exponent (pos 0) in
    let n = abs_ℤ a.coefficient in
    if ltb_ℤ a.exponent (pos 0)
    then (if is_negative a.coefficient then sub_ℕ 0 (n / scale) else pos ((n + scale - 1) / scale))
    else with_sign (is_negative a.coefficient) (n * scale)

-- `quantize(Decimal(10) ** -places, rounding=ROUND_FLOOR)` of a value that is not negative.
unfoldable pub quantize_floor : ℕ → Decimal → Decimal
unfolding gap
quantize_floor places a =
    let target = sub_ℕ 0 places in
    let scale = 10 ^ gap a.exponent target in
    record {
      coefficient = pos (
          if ltb_ℤ a.exponent target
          then abs_ℤ a.coefficient / scale
          else abs_ℤ a.coefficient * scale);
      exponent = target;
    }

-- `to_integral_value(rounding=ROUND_FLOOR)` then `int(…)`.
unfoldable pub floor : Decimal → ℤ
unfolding gap
floor a =
    let scale = 10 ^ gap a.exponent (pos 0) in
    let n = abs_ℤ a.coefficient in
    if ltb_ℤ a.exponent (pos 0)
    then (if is_negative a.coefficient then sub_ℕ 0 ((n + scale - 1) / scale) else pos (n / scale))
    else with_sign (is_negative a.coefficient) (n * scale)
