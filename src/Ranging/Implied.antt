-- ===== src/Ranging/Implied.antt =====
-- `implied_average_half_width_fraction` of src/aero_bot/ranging.py, with its bisection, and the
-- centered band that it inverts.
use aero_bot.Prelude.{
  ℕ, zero, suc, ◌==◌, true, false, not, ◌&&◌, ◌||◌, Option, none, some, if◌then◌else◌,
}
use aero_bot.Prelude.Results.{Result, ok, Error, raise_if, ◌>>=◌, ◌>>◌}
use aero_bot.Decimal.{Decimal, whole, literal, lt, div, math_precision}
use aero_bot.Ranging.Math.{DecimalMath, ◌⊕◌, ◌⊖◌, ◌⊗◌, ratio, root, plus, is_positive}

unfoldable pub band_shape : DecimalMath → Decimal → Result Decimal
band_shape math half_width_fraction = do
  raise_if (not (is_positive half_width_fraction && lt half_width_fraction (whole 1)))
      Error.value_error
  square ← math.power half_width_fraction (whole 2)
  inner ← root (whole 1 ⊖ square)
  center ← root inner
  lower ← root (whole 1 ⊖ half_width_fraction)
  ok (plus (center ⊖ lower))

unfoldable pub liquidity_per_deployed_dollar :
    DecimalMath → (pool_price_usdc half_width_fraction : Decimal) → Result Decimal
liquidity_per_deployed_dollar math pool_price_usdc half_width_fraction = do
  raise_if (not (is_positive pool_price_usdc)) Error.value_error
  shape ← band_shape math half_width_fraction
  sqrt_price ← root pool_price_usdc
  liquidity ← ratio (whole 1) (whole 2 ⊗ sqrt_price ⊗ shape)
  ok (plus liquidity)

abbrev pub implied_width_search_steps : ℕ
implied_width_search_steps = 200

abbrev pub implied_width_search_bound : Decimal
implied_width_search_bound = literal 5 1

abbrev pub middle_of : Decimal → Decimal → Decimal
middle_of low high = div math_precision (low ⊕ high) (whole 2)

-- So many halvings of the interval from `low` to `high`.
unfoldable pub bisect :
    ℕ → DecimalMath → (pool_price_usdc observed_ratio low high : Decimal) → Result Decimal
bisect zero math pool_price_usdc observed_ratio low high = ok (plus (middle_of low high))
bisect (suc steps) math pool_price_usdc observed_ratio low high =
    liquidity_per_deployed_dollar math pool_price_usdc (middle_of low high) >>= λ liquidity.
    elim (lt observed_ratio liquidity) [
      | true ↦ bisect steps math pool_price_usdc observed_ratio (middle_of low high) high
      | false ↦ bisect steps math pool_price_usdc observed_ratio low (middle_of low high)
    ]

unfoldable pub implied_average_half_width_fraction :
    DecimalMath
    → (pool_price_usdc : Decimal) (gauge_liquidity_raw : ℕ) (staked_tvl_usd : Decimal)
      (stock_decimals quote_decimals : ℕ)
    → Result (Option Decimal)
implied_average_half_width_fraction math pool_price_usdc gauge_liquidity_raw staked_tvl_usd
      stock_decimals quote_decimals =
    if gauge_liquidity_raw == 0 || not (is_positive staked_tvl_usd) then ok none else do
      half ← ratio (whole stock_decimals ⊕ whole quote_decimals) (whole 2)
      human_scale ← math.power (whole 10) half
      scaled ← ratio (whole gauge_liquidity_raw) human_scale
      observed_ratio ← ratio scaled staked_tvl_usd
      region_minimum ← liquidity_per_deployed_dollar math pool_price_usdc implied_width_search_bound
      if lt observed_ratio region_minimum
          then ok none
          else (bisect implied_width_search_steps math pool_price_usdc observed_ratio (whole 0)
                implied_width_search_bound
              >>= λ width. ok (some width))
