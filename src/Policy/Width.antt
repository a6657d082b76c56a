-- ===== src/Policy/Width.antt =====
-- `_solve_range_width` and `_range_for_solution` of src/aero_bot/policy.py: what the engine asks of
-- the range-width solver, and the price range of its answer.
use aero_bot.Prelude.{ℕ, ◌+◌, ◌/◌, ◌==◌, true, none, some, [], if◌then◌else◌}
use aero_bot.Prelude.Int.{pos, negsuc}
use aero_bot.Prelude.Results.{
  Result, ok, err, or_raise, raise_if, value_error, validation_error, ◌>>=◌, ◌>>◌,
}
use aero_bot.Decimal.{Decimal, le}
use aero_bot.Ranging.Types.{
  Span, RangingEvidence, RangingObservations, WidthSolution, WidthSolveMode,
}
use aero_bot.Policy.Parameters.{PolicyParameters, RangeWidthPolicy}
use aero_bot.Policy.Types.{PolicyObservation, AlignedPriceRange}
use aero_bot.Policy.Day.{PolicyEngine}
use aero_bot.Policy.Gas.{income_expectation_apr}

-- `int(span.total_seconds())`, where a field demands that it is not negative.
abbrev pub whole_seconds : Span → Result ℕ
whole_seconds (pos n) = ok (n / 1_000_000)
whole_seconds (negsuc n) = if (n + 1) / 1_000_000 == 0 then ok 0 else err validation_error

abbrev pub deferred_solution : PolicyParameters → WidthSolution
deferred_solution p = record {
  mode = WidthSolveMode.deferred;
  lower_bound = none;
  upper_bound = none;
  tick_spacing = p.tick_spacing;
  target_net_daily_yield = p.target_net_daily_yield;
  implied_average_half_width_fraction = none;
  evaluations = [];
}

unfoldable pub ranging_observations :
    PolicyParameters
    → PolicyObservation
    → RangingEvidence
    → (gas_price position_size_usd : Decimal) → Result RangingObservations
ranging_observations p observation evidence gas_price position_size_usd = do
  wait ← whole_seconds p.recenter_wait
  grace ← whole_seconds p.out_of_range_grace
  cooldown ← whole_seconds p.reentry_cooldown
  ok (record {
    pool_price_usdc = observation.amm_price_usdc;
    observed_at = observation.observed_at;
    emissions_apr = income_expectation_apr observation;
    evidence = evidence;
    pool_depth_usd = observation.pool_depth_usd;
    position_size_usd = position_size_usd;
    gas_price_gwei = gas_price;
    target_net_daily_yield = p.target_net_daily_yield;
    min_range_half_width_fraction = p.min_range_half_width_fraction;
    max_range_half_width_fraction = p.max_range_half_width_fraction;
    tick_spacing = p.tick_spacing;
    stop_buffer_fraction = p.stop_buffer_fraction;
    recenter_wait_seconds = wait;
    out_of_range_grace_seconds = grace;
    reentry_cooldown_seconds = cooldown;
    enter_batch_gas_units = p.enter_batch_gas_units;
    recenter_batch_gas_units = p.recenter_batch_gas_units;
    exit_batch_gas_units = p.exit_batch_gas_units;
    safe_overhead_gas_per_batch = p.safe_overhead_gas_per_batch;
    eth_price_assumption_usd = p.eth_price_assumption_usd;
  })

-- Missing evidence, or a missing gas price, defers.
unfoldable pub adaptive_width : PolicyEngine → PolicyObservation → Decimal → Result WidthSolution
adaptive_width engine observation position_size_usd = elim observation.ranging [
  | none ↦ ok (deferred_solution engine.parameters)
  | some evidence ↦ elim observation.gas_price_gwei [
    | none ↦ ok (deferred_solution engine.parameters)
    | some gas_price ↦
        ranging_observations engine.parameters observation evidence gas_price position_size_usd
        >>= engine.solver.solve_range_width
  ]
]

unfoldable pub solve_range_width : PolicyEngine → PolicyObservation → Decimal → Result WidthSolution
unfolding adaptive_width
solve_range_width engine observation position_size_usd =
    let p = engine.parameters in
    elim p.range_width_policy [
      | RangeWidthPolicy.adaptive_band ↦ adaptive_width engine observation position_size_usd
      | RangeWidthPolicy.fixed_ceiling_baseline ↦
          engine.solver.ceiling_width_solution observation.amm_price_usdc p.tick_spacing
            p.max_range_half_width_fraction p.target_net_daily_yield
    ]

-- The bounds by their prices; `AlignedPriceRange` refuses an empty range.
unfoldable pub range_for_solution : WidthSolution → Result AlignedPriceRange
range_for_solution solution = do
  lower ← or_raise solution.lower_bound value_error
  upper ← or_raise solution.upper_bound value_error
  let low = (if le lower.price upper.price then lower else upper)
  let high = (if le lower.price upper.price then upper else lower)
  raise_if (le high.price low.price) validation_error
  ok (record {
    lower_tick = low.tick;
    upper_tick = high.tick;
    lower_price = low.price;
    upper_price = high.price;
    exact_bounds = true;
  })
