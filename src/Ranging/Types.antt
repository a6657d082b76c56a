-- ===== src/Ranging/Types.antt =====
-- The records of src/aero_bot/ranging.py and of the price points of src/aero_bot/history.py that
-- pass between the policy engine and the range-width solver.
use aero_bot.Prelude.{ℕ, Bool, Option, List}
use aero_bot.Prelude.Int.{ℤ}
use aero_bot.Prelude.Results.{Result}
use aero_bot.Decimal.{Decimal}

-- A point in time, and a span of time, in microseconds. (A validated `datetime` is aware, so that
-- an instant is one number.)
abbrev pub Instant : Type 0
Instant = ℤ

abbrev pub Span : Type 0
Span = ℤ

pub record PoolPricePoint : Type 0 where
  pub timestamp : Instant
  pub block_number : ℕ
  pub log_index : ℕ
  pub amount0 : ℤ
  pub amount1 : ℤ
  pub sqrt_ratio : ℕ
  pub liquidity : ℕ
  pub tick : ℤ
  pub price_usdc : Decimal

pub record RangingEvidence : Type 0 where
  pub gauge_liquidity_raw : ℕ
  pub staked_tvl_usd : Decimal
  pub active_liquidity_raw : ℕ
  pub fee_window_seconds : ℕ
  pub fee_window_notional_usd : Decimal
  pub pool_fee_ppm : ℕ
  pub realized_daily_volatility : Option Decimal
  pub trailing_path : List PoolPricePoint
  pub stock_decimals : ℕ
  pub quote_decimals : ℕ
  pub pool_tick_raw : Option ℤ
  pub stock_is_token0 : Option Bool

-- The evidence thresholds, which no caller sets, are left to the solver.
pub record RangingObservations : Type 0 where
  pub pool_price_usdc : Decimal
  pub observed_at : Instant
  pub emissions_apr : Decimal
  pub evidence : RangingEvidence
  pub pool_depth_usd : Decimal
  pub position_size_usd : Decimal
  pub gas_price_gwei : Decimal
  pub target_net_daily_yield : Decimal
  pub min_range_half_width_fraction : Decimal
  pub max_range_half_width_fraction : Decimal
  pub tick_spacing : ℕ
  pub stop_buffer_fraction : Decimal
  pub recenter_wait_seconds : ℕ
  pub out_of_range_grace_seconds : ℕ
  pub reentry_cooldown_seconds : ℕ
  pub enter_batch_gas_units : ℕ
  pub recenter_batch_gas_units : ℕ
  pub exit_batch_gas_units : ℕ
  pub safe_overhead_gas_per_batch : ℕ
  pub eth_price_assumption_usd : Decimal

pub data WidthSolveMode : Type 0 where
  solved cash_hold deferred fallback_ceiling : WidthSolveMode

pub record AlignedBound : Type 0 where
  pub tick : ℤ
  pub price : Decimal
  pub distance_fraction : Decimal

pub record ExecutableRangeEvaluation : Type 0 where
  pub lower_bound : AlignedBound
  pub upper_bound : AlignedBound
  pub total_span_fraction : Decimal
  pub position_liquidity_per_dollar : Decimal
  pub position_liquidity_raw_added : ℕ
  pub gross_emissions_yield_per_day : Decimal
  pub fee_yield_per_day : Decimal
  pub uptime_fraction : Decimal
  pub uptime_measured : Bool
  pub recenter_rate_per_day : Decimal
  pub recenter_cost_per_day : Decimal
  pub stop_rate_per_day : Decimal
  pub stop_cost_per_day : Decimal
  pub net_yield_per_day : Decimal

-- Its diagnostic lines are text for people, and are left out.
pub record WidthSolution : Type 0 where
  pub mode : WidthSolveMode
  pub lower_bound : Option AlignedBound
  pub upper_bound : Option AlignedBound
  pub tick_spacing : ℕ
  pub target_net_daily_yield : Decimal
  pub implied_average_half_width_fraction : Option Decimal
  pub evaluations : List ExecutableRangeEvaluation

-- What the policy engine calls: `ceiling_width_solution` at the pool price, the tick spacing, the
-- ceiling half width and the target yield, and `solve_range_width`.
pub record RangeSolver : Type 0 where
  pub ceiling_width_solution : Decimal → ℕ → Decimal → Decimal → Result WidthSolution
  pub solve_range_width : RangingObservations → Result WidthSolution
