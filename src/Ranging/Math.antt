-- ===== src/Ranging/Math.antt =====
-- The price, liquidity and cost formulas of src/aero_bot/ranging.py, all at its working precision.
use aero_bot.Prelude.{ℕ, ◌+◌, Bool, not, ◌&&◌, Option, none, some, List, [], ◌∷◌, if◌then◌else◌}
use aero_bot.Prelude.Int.{ℤ, pos, ◌+ℤ◌, ◌-ℤ◌, leb_ℤ}
use aero_bot.Prelude.Results.{Result, ok, Error, raise_if, ◌>>=◌, ◌>>◌}
use aero_bot.Decimal.{
  Decimal, whole, literal, lt, le, fix, add, sub, mul, div, checked_div, math_precision,
}
use aero_bot.Decimal.Root.{checked_sqrt}
use aero_bot.Ranging.Types.{PoolPricePoint}

-- `**` and `ln` of decimals at the working precision, which the standard library computes.
pub record DecimalMath : Type 0 where
  pub power : Decimal → Decimal → Result Decimal
  pub ln : Decimal → Result Decimal

-- `Decimal(n)` of an integer.
abbrev pub integer : ℤ → Decimal
integer n = record { coefficient = n; exponent = pos 0 }

abbrev pub plus : Decimal → Decimal
plus = fix math_precision

infixl 65 ◌⊕◌ ◌⊖◌
infixl 70 ◌⊗◌
abbrev pub ◌⊕◌ : Decimal → Decimal → Decimal
a ⊕ b = add math_precision a b

abbrev pub ◌⊖◌ : Decimal → Decimal → Decimal
a ⊖ b = sub math_precision a b

abbrev pub ◌⊗◌ : Decimal → Decimal → Decimal
a ⊗ b = mul math_precision a b

abbrev pub ratio : Decimal → Decimal → Result Decimal
ratio = checked_div math_precision

abbrev pub root : Decimal → Result Decimal
root = checked_sqrt math_precision

abbrev pub tick_price_ratio : Decimal
tick_price_ratio = literal 10_001 4

abbrev pub is_positive : Decimal → Bool
is_positive = lt (whole 0)

unfoldable pub human_price_from_raw_tick :
    DecimalMath → ℤ → Bool → (stock_decimals quote_decimals : ℕ) → Result Decimal
human_price_from_raw_tick math raw_tick stock_is_token0 stock_decimals quote_decimals = do
  scale ← math.power (whole 10) (whole stock_decimals ⊖ whole quote_decimals)
  raw_price ← math.power tick_price_ratio (integer raw_tick)
  if stock_is_token0
      then ok (plus (raw_price ⊗ scale))
      else (ratio scale raw_price >>= λ price. ok (plus price))

unfoldable pub position_liquidity_at_price :
    (entry_price lower_price upper_price : Decimal) → Result Decimal
position_liquidity_at_price entry_price lower_price upper_price = do
  raise_if (not (is_positive entry_price && is_positive lower_price && is_positive upper_price))
      Error.value_error
  raise_if (not (lt lower_price entry_price && lt entry_price upper_price)) Error.value_error
  sqrt_price ← root entry_price
  sqrt_upper ← root upper_price
  sqrt_lower ← root lower_price
  inverse ← ratio (whole 1) sqrt_price
  inverse_upper ← ratio (whole 1) sqrt_upper
  let value_per_liquidity = (inverse ⊖ inverse_upper) ⊗ entry_price ⊕ (sqrt_price ⊖ sqrt_lower)
  liquidity ← ratio (whole 1) value_per_liquidity
  ok (plus liquidity)

-- Multiplication and division run from the left.
unfoldable pub batch_cost_usd :
    (gas_price_gwei : Decimal) (action_gas_units safe_overhead_gas_units : ℕ)
    (eth_price_assumption_usd : Decimal)
    → Decimal
batch_cost_usd gas_price_gwei action_gas_units safe_overhead_gas_units eth_price_assumption_usd =
    div math_precision (whole (action_gas_units + safe_overhead_gas_units) ⊗ gas_price_gwei)
      (whole 1_000_000_000)
    ⊗ eth_price_assumption_usd

unfoldable pub swap_impact_cost_usd : (swap_usd pool_depth_usd : Decimal) → Decimal
swap_impact_cost_usd swap_usd pool_depth_usd =
    if is_positive pool_depth_usd
    then div math_precision (swap_usd ⊗ div math_precision swap_usd pool_depth_usd) (whole 2)
    else whole 0

-- A position's value per liquidity at a square-root price.
abbrev pub value_at : DecimalMath → (lower_sqrt upper_sqrt sqrt_p : Decimal) → Result Decimal
value_at math lower_sqrt upper_sqrt sqrt_p = do
  inverse ← ratio (whole 1) sqrt_p
  inverse_upper ← ratio (whole 1) upper_sqrt
  square ← math.power sqrt_p (whole 2)
  ok ((inverse ⊖ inverse_upper) ⊗ square ⊕ (sqrt_p ⊖ lower_sqrt))

unfoldable pub range_value_fraction_at_price :
    DecimalMath → (entry_price lower_price upper_price evaluated_price : Decimal) → Result Decimal
range_value_fraction_at_price math entry_price lower_price upper_price evaluated_price = do
  raise_if (not (is_positive evaluated_price)) Error.value_error
  entry_sqrt ← root entry_price
  lower_sqrt ← root lower_price
  upper_sqrt ← root upper_price
  evaluated_sqrt ← root evaluated_price
  marked ← value_at math lower_sqrt upper_sqrt evaluated_sqrt
  entered ← value_at math lower_sqrt upper_sqrt entry_sqrt
  fraction ← ratio marked entered
  ok (plus fraction)

-- The last point of a path that is not empty.
abbrev pub last_point : PoolPricePoint → List PoolPricePoint → PoolPricePoint
last_point point [] = point
last_point _ (point ∷ points) = last_point point points

-- The microseconds of the intervals that open inside the band.
abbrev pub inside_micros :
    (lower_price upper_price : Decimal) → PoolPricePoint → List PoolPricePoint → ℤ
inside_micros lower_price upper_price earlier [] = pos 0
inside_micros lower_price upper_price earlier (later ∷ points) =
    (if le lower_price earlier.price_usdc && le earlier.price_usdc upper_price
      then later.timestamp -ℤ earlier.timestamp
      else pos 0)
    +ℤ inside_micros lower_price upper_price later points

unfoldable pub band_dwell_fraction :
    List PoolPricePoint
    → (lower_distance_fraction upper_distance_fraction : Decimal) → Result (Option Decimal)
band_dwell_fraction [] lower_distance upper_distance = ok none
band_dwell_fraction (first ∷ []) lower_distance upper_distance = ok none
band_dwell_fraction (first ∷ second ∷ points) lower_distance upper_distance =
    let span = (last_point second points).timestamp -ℤ first.timestamp in
    let lower_price = first.price_usdc ⊗ (whole 1 ⊖ lower_distance) in
    let upper_price = first.price_usdc ⊗ (whole 1 ⊕ upper_distance) in
    if leb_ℤ span (pos 0)
    then ok none
    else (ratio (integer (inside_micros lower_price upper_price first (second ∷ points)))
          (integer span)
        >>= λ dwell. ok (some (plus dwell)))
