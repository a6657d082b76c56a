-- ===== src/Decimal/Extremes.antt =====
-- `min` and `max` of decimals.
use aero_bot.Prelude.{◌≡◌, inl, inr, true, arith, Bool-cases}
use aero_bot.Decimal.{Decimal, lt, le, min, max}
use aero_bot.Decimal.Order.{le_refl, le_of_lt}

module _ (a b : Decimal) where
  -- The smaller of two is at most each, and is one of them.
  pub min_bounds : (le (min a b) a ≡ true) × (le (min a b) b ≡ true)
  unfolding min
  min_bounds = elim (Bool-cases (lt b a)) [
    | inl below ↦ rw below (le_of_lt b a below, le_refl b)
    | inr not_below ↦ rw not_below (le_refl a, rw not_below)
  ]

  pub max_bounds : (le a (max a b) ≡ true) × (le b (max a b) ≡ true)
  unfolding max
  max_bounds = elim (Bool-cases (lt a b)) [
    | inl below ↦ rw below (le_of_lt a b below, le_refl b)
    | inr not_below ↦ rw not_below (le_refl a, rw not_below)
  ]

-- A bound below both lies below the smaller.
pub lt-min : (c a b : Decimal) → lt c a ≡ true → lt c b ≡ true → lt c (min a b) ≡ true
unfolding min
lt-min c a b h k = ground arith
