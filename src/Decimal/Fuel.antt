-- ===== src/Decimal/Fuel.antt =====
-- The fuel of the square root of src/aero_bot/policy.py's decimals.
use aero_bot.Prelude.{ℕ, zero, suc, ◌+◌, ◌/◌, ◌≤◌, true, ◌≡◌, inl, inr, arith, leb, Bool-cases}
use aero_bot.Decimal.Root.{root_from}

-- Newton's iteration from a start that is at most the fuel ends by its own test, and not for want of
-- fuel: the result is at most the quotient by it.
pub root_from-settled :
    (fuel c n : ℕ) → n ≤ fuel → leb (root_from fuel c n) (c / root_from fuel c n) ≡ true
unfolding root_from
root_from-settled zero c n enough = ground arith
root_from-settled (suc fuel) c n enough = elim (Bool-cases (leb n (c / n))) [
  | inl done ↦ rw done done
  | inr above ↦ rw above (root_from-settled fuel c ((n + c / n) / 2) (ground arith))
]
