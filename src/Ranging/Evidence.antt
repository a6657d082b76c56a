-- ===== src/Ranging/Evidence.antt =====
-- The evidence checks and the shared terms of `solve_range_width` of src/aero_bot/ranging.py.
use aero_bot.Prelude.{
  ℕ, ◌*◌, ◌/◌, ◌==◌, Bool, true, not, ◌&&◌, ◌||◌, List, [], ◌∷◌, ltb, length, if◌then◌else◌,
}
use aero_bot.Prelude.Int.{pos, ◌-ℤ◌, leb_ℤ, ltb_ℤ, pos_part}
use aero_bot.Prelude.Results.{Result, ok, ◌>>=◌}
use aero_bot.Decimal.{Decimal, whole}
use aero_bot.Ranging.Types.{RangingObservations, PoolPricePoint, Span}
use aero_bot.Ranging.Math.{
  DecimalMath, ◌⊕◌, ◌⊗◌, ratio, is_positive, last_point, batch_cost_usd, swap_impact_cost_usd,
}
use aero_bot.Ranging.Score.{SolveTerms}

abbrev pub min_evidence_points : ℕ
min_evidence_points = 10

abbrev pub min_evidence_window_seconds : ℕ
min_evidence_window_seconds = 1_800

abbrev pub max_evidence_age : Span
max_evidence_age = pos (1_800 * 1_000_000)

-- Whether the trailing path is unusable: no span, too few points or too short a window, a newest
-- point after the observation, or one that is too old.
abbrev pub path_unusable : RangingObservations → List PoolPricePoint → Bool
path_unusable observations [] = true
path_unusable observations (_ ∷ []) = true
path_unusable observations (first ∷ second ∷ points) =
    let newest = last_point second points in
    let span = newest.timestamp -ℤ first.timestamp in
    let age = observations.observed_at -ℤ newest.timestamp in
    leb_ℤ span (pos 0)
    || ltb (length (first ∷ second ∷ points)) min_evidence_points
    || ltb (pos_part span / 1_000_000) min_evidence_window_seconds
    || ltb_ℤ age (pos 0)
    || ltb_ℤ max_evidence_age age

-- Whether the measured liquidity or the fee evidence is unusable.
unfoldable pub liquidity_unusable : RangingObservations → Bool
liquidity_unusable observations =
    let evidence = observations.evidence in
    (evidence.gauge_liquidity_raw == 0)
    || not (is_positive evidence.staked_tvl_usd)
    || (evidence.active_liquidity_raw == 0)
    || not (is_positive observations.pool_depth_usd)
    || (is_positive evidence.fee_window_notional_usd && (evidence.fee_window_seconds == 0))

abbrev pub min_seconds : ℕ → ℕ → ℕ
min_seconds a b = if ltb b a then b else a

abbrev pub fee_stream_of : RangingObservations → Result Decimal
fee_stream_of observations =
    let evidence = observations.evidence in
    (if evidence.fee_window_seconds == 0
      then ok (whole 0)
      else ratio (evidence.fee_window_notional_usd ⊗ whole 86_400)
          (whole evidence.fee_window_seconds))
    >>= λ daily_notional. ratio (daily_notional ⊗ whole evidence.pool_fee_ppm) (whole 1_000_000)

abbrev pub cost_of : RangingObservations → ℕ → Decimal
cost_of observations units =
    batch_cost_usd observations.gas_price_gwei units observations.safe_overhead_gas_per_batch
      observations.eth_price_assumption_usd

unfoldable pub solve_terms : DecimalMath → RangingObservations → Decimal → Result SolveTerms
solve_terms math observations volatility = do
  fee_stream ← fee_stream_of observations
  half_size ← ratio observations.position_size_usd (whole 2)
  half_decimals ←
      ratio
        (whole observations.evidence.stock_decimals ⊕ whole observations.evidence.quote_decimals)
        (whole 2)
  human_scale ← math.power (whole 10) half_decimals
  ok (record {
    volatility = volatility;
    fee_stream_per_day = fee_stream;
    enter_gas = cost_of observations observations.enter_batch_gas_units;
    recenter_gas = cost_of observations observations.recenter_batch_gas_units;
    exit_gas = cost_of observations observations.exit_batch_gas_units;
    recenter_impact = swap_impact_cost_usd half_size observations.pool_depth_usd;
    stop_impact = swap_impact_cost_usd observations.position_size_usd observations.pool_depth_usd;
    human_scale = human_scale;
    acting_window_seconds =
        min_seconds observations.recenter_wait_seconds observations.out_of_range_grace_seconds;
  })
