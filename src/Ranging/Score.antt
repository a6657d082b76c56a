-- ===== src/Ranging/Score.antt =====
-- The scoring of one executable pair of bounds in `solve_range_width` of src/aero_bot/ranging.py.
use aero_bot.Prelude.{ℕ, ◌+◌, ◌==◌, Bool, true, not, ◌&&◌, Option, none, some, if◌then◌else◌, ltb}
use aero_bot.Prelude.Int.{pos_part}
use aero_bot.Prelude.Results.{Result, ok, Error, checked, ◌>>=◌}
use aero_bot.Decimal.{Decimal, whole, le, min, max}
use aero_bot.Decimal.Root.{floor}
use aero_bot.Ranging.Types.{RangingObservations, AlignedBound, ExecutableRangeEvaluation}
use aero_bot.Ranging.Math.{
  DecimalMath, ◌⊕◌, ◌⊖◌, ◌⊗◌, ratio, plus, is_positive, band_dwell_fraction,
  position_liquidity_at_price, range_value_fraction_at_price,
}

-- What is computed once for all the pairs.
pub record SolveTerms : Type 0 where
  pub volatility : Decimal
  pub fee_stream_per_day : Decimal
  pub enter_gas : Decimal
  pub recenter_gas : Decimal
  pub exit_gas : Decimal
  pub recenter_impact : Decimal
  pub stop_impact : Decimal
  pub human_scale : Decimal
  pub acting_window_seconds : ℕ

-- `ExecutableRangeEvaluation(...)`: the field checks.
unfoldable pub evaluation_fits : ExecutableRangeEvaluation → Bool
evaluation_fits row =
    is_positive row.total_span_fraction
    && is_positive row.position_liquidity_per_dollar
    && ltb 0 row.position_liquidity_raw_added
    && le (whole 0) row.gross_emissions_yield_per_day
    && le (whole 0) row.fee_yield_per_day
    && le (whole 0) row.uptime_fraction
    && le row.uptime_fraction (whole 1)
    && le (whole 0) row.recenter_rate_per_day
    && le (whole 0) row.recenter_cost_per_day
    && le (whole 0) row.stop_rate_per_day
    && le (whole 0) row.stop_cost_per_day

abbrev pub seconds_per_day : Decimal
seconds_per_day = whole 86_400

pub record Rates : Type 0 where
  pub recenter : Decimal
  pub stop : Decimal

-- The two-branch renewal cycle at the distances `a` below and `b` above.
unfoldable pub renewal_rates :
    DecimalMath → RangingObservations → SolveTerms → (a b : Decimal) → Result Rates
renewal_rates math observations terms a b =
    if not (is_positive terms.volatility)
    then ok (record { recenter = whole 0; stop = whole 0 })
    else do
      let gap = observations.stop_buffer_fraction
      variance ← math.power terms.volatility (whole 2)
      exit_days ← ratio (a ⊗ b) variance
      upside_probability ← ratio a (a ⊕ b)
      excursion_days ← ratio (a ⊗ gap) variance
      stop_probability ← ratio a (a ⊕ gap)
      wait_days ← ratio (whole terms.acting_window_seconds) seconds_per_day
      cooldown_days ← ratio (whole observations.reentry_cooldown_seconds) seconds_per_day
      let downside_days = excursion_days ⊕ stop_probability ⊗ cooldown_days
      let cycle_days =
          exit_days
          ⊕ (upside_probability ⊗ wait_days ⊕ (whole 1 ⊖ upside_probability) ⊗ downside_days)
      recenter ← ratio upside_probability cycle_days
      stop ← ratio ((whole 1 ⊖ upside_probability) ⊗ stop_probability) cycle_days
      ok (record { recenter = recenter; stop = stop })

-- The share of a liquidity denominator after one's own stake.
abbrev pub share_of : (added present : ℕ) → Result Decimal
share_of added present = ratio (whole added) (whole (present + added))

unfoldable pub gross_emissions_of : RangingObservations → ℕ → Result Decimal
gross_emissions_of observations added = do
  share ← share_of added observations.evidence.gauge_liquidity_raw
  daily ← ratio observations.emissions_apr (whole 365)
  ratio (daily ⊗ observations.evidence.staked_tvl_usd ⊗ share) observations.position_size_usd

unfoldable pub fee_yield_of : RangingObservations → SolveTerms → ℕ → Result Decimal
fee_yield_of observations terms added = do
  share ← share_of added observations.evidence.active_liquidity_raw
  if is_positive terms.fee_stream_per_day
      then ratio (terms.fee_stream_per_day ⊗ share) observations.position_size_usd
      else ok (whole 0)

-- What a pair nets, once its liquidity and its measured dwell are known.
unfoldable pub evaluate_pair :
    DecimalMath
    → RangingObservations
    → SolveTerms
    → (lower upper : AlignedBound) (dwell liquidity_per_dollar : Decimal) (added : ℕ)
    → Result ExecutableRangeEvaluation
evaluate_pair math observations terms lower upper dwell liquidity_per_dollar added = do
  let price = observations.pool_price_usdc
  let size = observations.position_size_usd
  let band_low = min lower.price upper.price
  let band_high = max lower.price upper.price
  span ← ratio band_high band_low
  gross_emissions ← gross_emissions_of observations added
  fee_yield ← fee_yield_of observations terms added
  below ← ratio band_low price
  above ← ratio band_high price
  rates ← renewal_rates math observations terms (whole 1 ⊖ below) (above ⊖ whole 1)
  recenter_cost ← ratio (rates.recenter ⊗ (terms.recenter_gas ⊕ terms.recenter_impact)) size
  marked ←
      range_value_fraction_at_price math price band_low band_high
        (band_low ⊗ (whole 1 ⊖ observations.stop_buffer_fraction))
  exit_costs ← ratio (terms.exit_gas ⊕ terms.enter_gas ⊕ terms.stop_impact) size
  let stop_cost = rates.stop ⊗ ((whole 1 ⊖ marked) ⊕ exit_costs)
  let row : ExecutableRangeEvaluation = record {
    lower_bound = lower;
    upper_bound = upper;
    total_span_fraction = plus (span ⊖ whole 1);
    position_liquidity_per_dollar = plus liquidity_per_dollar;
    position_liquidity_raw_added = added;
    gross_emissions_yield_per_day = plus gross_emissions;
    fee_yield_per_day = plus fee_yield;
    uptime_fraction = plus dwell;
    uptime_measured = true;
    recenter_rate_per_day = plus rates.recenter;
    recenter_cost_per_day = plus recenter_cost;
    stop_rate_per_day = plus rates.stop;
    stop_cost_per_day = plus stop_cost;
    net_yield_per_day = plus ((gross_emissions ⊕ fee_yield) ⊗ dwell ⊖ recenter_cost ⊖ stop_cost);
  }
  checked (evaluation_fits row) Error.validation_error row

-- The raw liquidity that the position adds.
abbrev pub added_of : RangingObservations → SolveTerms → Decimal → ℕ
added_of observations terms liquidity_per_dollar =
    pos_part (floor (liquidity_per_dollar ⊗ observations.position_size_usd ⊗ terms.human_scale))

-- A pair of bounds with its measured dwell. A pair whose dwell is not measurable, or whose
-- liquidity rounds down to nothing, is passed over.
unfoldable pub score_measured :
    DecimalMath
    → RangingObservations
    → SolveTerms
    → (lower upper : AlignedBound) → Option Decimal
    → Result (Option ExecutableRangeEvaluation)
score_measured math observations terms lower upper none = ok none
score_measured math observations terms lower upper (some dwell) = do
  liquidity_per_dollar ←
      position_liquidity_at_price observations.pool_price_usdc (min lower.price upper.price)
        (max lower.price upper.price)
  let added = added_of observations terms liquidity_per_dollar
  if added == 0
      then ok none
      else (evaluate_pair math observations terms lower upper dwell liquidity_per_dollar added
          >>= λ row. ok (some row))

unfoldable pub score_pair :
    DecimalMath
    → RangingObservations
    → SolveTerms
    → (lower upper : AlignedBound) → Result (Option ExecutableRangeEvaluation)
score_pair math observations terms lower upper =
    band_dwell_fraction observations.evidence.trailing_path lower.distance_fraction
      upper.distance_fraction
    >>= score_measured math observations terms lower upper
