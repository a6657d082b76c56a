-- ===== src/Ranging/Examples.antt =====
-- Evidence and decimal functions for runs of the solve of src/aero_bot/ranging.py: a price of one
-- USDC at the raw tick zero, and an hour of a trailing path that stays there.
use aero_bot.Prelude.{ℕ, zero, suc, ◌+◌, ◌*◌, true, some, List, [], ◌∷◌}
use aero_bot.Prelude.Int.{ℤ, pos, negsuc}
use aero_bot.Prelude.Results.{Result, ok}
use aero_bot.Decimal.{Decimal, whole, literal, mul, checked_div, math_precision}
use aero_bot.Decimal.Root.{floor}
use aero_bot.Ranging.Types.{PoolPricePoint, RangingEvidence, RangingObservations}
use aero_bot.Ranging.Math.{DecimalMath}

abbrev power_of : Decimal → ℕ → Decimal
power_of base zero = whole 1
power_of base (suc n) = mul math_precision (power_of base n) base

abbrev signed_power : Decimal → ℤ → Result Decimal
signed_power base (pos n) = ok (power_of base n)
signed_power base (negsuc n) = checked_div math_precision (whole 1) (power_of base (n + 1))

-- Powers with whole exponents. No run takes a logarithm.
abbrev pub whole_powers : DecimalMath
whole_powers = record { power = λ base exponent. signed_power base (floor exponent); ln = ok }

abbrev pub point_at : ℕ → PoolPricePoint
point_at seconds = record {
  timestamp = pos (seconds * 1_000_000);
  block_number = seconds;
  log_index = 0;
  amount0 = pos 1;
  amount1 = negsuc 0;
  sqrt_ratio = 1;
  liquidity = 1;
  tick = pos 0;
  price_usdc = whole 1;
}

-- Points every so many seconds.
abbrev path_of : (count start step : ℕ) → List PoolPricePoint
path_of zero start step = []
path_of (suc count) start step = point_at start ∷ path_of count (start + step) step

abbrev pub flat_evidence : RangingEvidence
flat_evidence = record {
  gauge_liquidity_raw = 1_000_000;
  staked_tvl_usd = whole 400_000;
  active_liquidity_raw = 900_000;
  fee_window_seconds = 3_600;
  fee_window_notional_usd = whole 10_000;
  pool_fee_ppm = 500;
  realized_daily_volatility = some (literal 1 3);
  trailing_path = path_of 11 6_000 300;
  stock_decimals = 6;
  quote_decimals = 6;
  pool_tick_raw = some (pos 0);
  stock_is_token0 = some true;
}

abbrev pub observations : RangingObservations
observations = record {
  pool_price_usdc = whole 1;
  observed_at = pos 9_060_000_000;
  emissions_apr = whole 200;
  evidence = flat_evidence;
  pool_depth_usd = whole 50_000;
  position_size_usd = whole 500;
  gas_price_gwei = literal 5 2;
  target_net_daily_yield = literal 1 2;
  min_range_half_width_fraction = literal 1 3;
  max_range_half_width_fraction = literal 3 3;
  tick_spacing = 10;
  stop_buffer_fraction = literal 5 3;
  recenter_wait_seconds = 900;
  out_of_range_grace_seconds = 600;
  reentry_cooldown_seconds = 900;
  enter_batch_gas_units = 650_000;
  recenter_batch_gas_units = 550_000;
  exit_batch_gas_units = 350_000;
  safe_overhead_gas_per_batch = 100_000;
  eth_price_assumption_usd = whole 3_000;
}
