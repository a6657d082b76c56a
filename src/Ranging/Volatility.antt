-- ===== src/Ranging/Volatility.antt =====
-- The realized volatility and the centered mark of src/aero_bot/ranging.py.
use aero_bot.Prelude.{ℕ, Bool, not, Option, none, some, List, [], ◌∷◌, if◌then◌else◌}
use aero_bot.Prelude.Int.{ℤ, pos, ◌-ℤ◌, leb_ℤ}
use aero_bot.Prelude.Results.{Result, ok, Error, raise_if, ◌>>=◌, ◌>>◌}
use aero_bot.Decimal.{Decimal, whole, lt, le}
use aero_bot.Ranging.Types.{PoolPricePoint}
use aero_bot.Ranging.Math.{
  DecimalMath, ◌⊕◌, ◌⊖◌, ◌⊗◌, ratio, root, plus, integer, is_positive, last_point,
}
use aero_bot.Decimal.Root.{floor}
use aero_bot.Ranging.Math.{tick_price_ratio}

-- The sum of the squared logarithmic returns, from the left.
abbrev pub squared_returns :
    DecimalMath → Decimal → PoolPricePoint → List PoolPricePoint → Result Decimal
squared_returns math total earlier [] = ok total
squared_returns math total earlier (later ∷ points) = do
  relative ← ratio later.price_usdc earlier.price_usdc
  logarithm ← math.ln relative
  square ← math.power logarithm (whole 2)
  squared_returns math (total ⊕ square) later points

-- `realized_volatility_from_points`
unfoldable pub realized_volatility_from_points :
    DecimalMath → List PoolPricePoint → Result (Option Decimal)
realized_volatility_from_points math [] = ok none
realized_volatility_from_points math (first ∷ []) = ok none
realized_volatility_from_points math (first ∷ second ∷ points) =
    let span = (last_point second points).timestamp -ℤ first.timestamp in
    if leb_ℤ span (pos 0) then ok none else do
      total ← squared_returns math (whole 0) first (second ∷ points)
      seconds ← ratio (integer span) (whole 1_000_000)
      span_days ← ratio seconds (whole 86_400)
      variance ← ratio total span_days
      volatility ← root variance
      ok (some (plus volatility))

unfoldable pub raw_tick_for_human_price :
    DecimalMath → Decimal → Bool → (stock_decimals quote_decimals : ℕ) → Result ℤ
raw_tick_for_human_price math human_price stock_is_token0 stock_decimals quote_decimals = do
  raise_if (not (is_positive human_price)) Error.value_error
  scale ← math.power (whole 10) (whole stock_decimals ⊖ whole quote_decimals)
  raw_price ← (if stock_is_token0 then ratio human_price scale else ratio scale human_price)
  price_log ← math.ln raw_price
  tick_log ← math.ln tick_price_ratio
  log_tick ← ratio price_log tick_log
  ok (floor log_tick)

-- The stock and the USDC of one unit of value at a price, in, below or above the centered band.
abbrev pub legs_at :
    (liquidity sqrt_lower sqrt_upper price half_width_fraction : Decimal)
    → Result (Decimal × Decimal)
legs_at liquidity sqrt_lower sqrt_upper price width = do
  inverse_upper ← ratio (whole 1) sqrt_upper
  if le price (whole 1 ⊖ width)
      then (ratio (whole 1) sqrt_lower >>= λ inverse_lower.
          ok (liquidity ⊗ (inverse_lower ⊖ inverse_upper), whole 0))
      else if lt price (whole 1 ⊕ width)
      then (root price >>= λ sqrt_price.
          (ratio (whole 1) sqrt_price >>= λ inverse.
          ok (liquidity ⊗ (inverse ⊖ inverse_upper), liquidity ⊗ (sqrt_price ⊖ sqrt_lower))))
      else ok (whole 0, liquidity ⊗ (sqrt_upper ⊖ sqrt_lower))

unfoldable pub position_value_fraction_at_price :
    (half_width_fraction price : Decimal) → Result Decimal
position_value_fraction_at_price width price = do
  raise_if (not (is_positive price)) Error.value_error
  sqrt_lower ← root (whole 1 ⊖ width)
  sqrt_upper ← root (whole 1 ⊕ width)
  sqrt_center ← root (sqrt_lower ⊗ sqrt_upper)
  liquidity ← ratio (whole 1) (whole 2 ⊗ (sqrt_center ⊖ sqrt_lower))
  legs ← legs_at liquidity sqrt_lower sqrt_upper price width
  ok (plus (legs.0 ⊗ price ⊕ legs.1))
