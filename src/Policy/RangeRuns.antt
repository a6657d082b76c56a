-- ===== src/Policy/RangeRuns.antt =====
-- A run of the engine of src/aero_bot/policy.py with the solver of src/aero_bot/ranging.py.
use aero_bot.Prelude.{some, ◌≡◌, refl, true}
use aero_bot.Prelude.Int.{pos, ◌+ℤ◌, ◌-ℤ◌, ◌*ℤ◌}
use aero_bot.Prelude.Results.{ok}
use aero_bot.Decimal.{
  whole, lt, add, sub, mul, div, fix, min, max, sum, digit_count, round_half_even, gap, upper_part,
  lower_part, quotient, checked_div,
}
use aero_bot.Decimal.Root.{ceiling, quantize_floor, checked_sqrt, sqrt, floor}
use aero_bot.Ranging.Math
use aero_bot.Ranging.Types.{RangingObservations, WidthSolution}
use aero_bot.Ranging.Math.{
  human_price_from_raw_tick, position_liquidity_at_price, swap_impact_cost_usd,
  range_value_fraction_at_price, band_dwell_fraction,
}
use aero_bot.Ranging.Implied.{
  implied_average_half_width_fraction, liquidity_per_deployed_dollar, band_shape, bisect,
}
use aero_bot.Ranging.Grid.{bound_at, walk_outward, enumerate_aligned_bounds}
use aero_bot.Ranging.Score.{
  evaluation_fits, renewal_rates, gross_emissions_of, fee_yield_of, evaluate_pair, score_measured,
  score_pair,
}
use aero_bot.Ranging.Choice.{sorts_before, sort, best_of}
use aero_bot.Ranging.Evidence.{solve_terms, liquidity_unusable}
use aero_bot.Ranging.Solve.{
  score_uppers, score_pairs, choose, solve_grid, solve_anchored, solve_measured, tick_incoherent,
}
use aero_bot.Ranging.Solve
use aero_bot.Ranging.Ceiling.{range_solver}
use aero_bot.Ranging.Answer.{Solves}
use aero_bot.Ranging.Examples.{whole_powers, flat_evidence}
use aero_bot.Policy.Day.{
  PolicyEngine, observe_day, roll_over, ratchet_peak, latch_halt, latch_equity_of,
}
use aero_bot.Policy.Gas.{
  gas_gate_blocks, expected_daily_gross_yield, income_expectation_apr, batch_cost_usd, batch_gas,
}
use aero_bot.Policy.Swap.{
  swap_plan, tranche_count, tranche_size, whole_swap_plan, sliced_swap_plan, slices,
  build_swap_plan,
}
use aero_bot.Policy.Exits.{reference_stale, hold}
use aero_bot.Policy.Width.{
  solve_range_width, adaptive_width, ranging_observations, range_for_solution,
}
use aero_bot.Policy.Flat.{decide_flat, entry_refusal, entry_size, enter_by_solution, enter}
use aero_bot.Policy.Types.{
  PolicyObservation, PolicyActionKind, PolicyOutcome, AlignedPriceRange, PolicyReason,
}
use aero_bot.Policy.Engine.{decide, dispatch}
use aero_bot.Policy.RangeAnswers.{AsksFor}
use aero_bot.Policy.EntryRange.{entry-Solves}
use aero_bot.Policy.Examples.{engine, in_range, fresh_state, is_ok, result_or, result_or-ok}

abbrev solving : PolicyEngine
solving = record engine { solver = range_solver whole_powers }

abbrev calm : PolicyObservation
calm = record in_range {
  observed_at = pos 9_060_000_000;
  amm_price_usdc = whole 1;
  emissions_apr = whole 200;
  ranging = some flat_evidence;
}

abbrev entered : PolicyOutcome
entered =
    result_or (hold fresh_state PolicyReason.flat_awaiting_entry) (decide solving fresh_state calm)

calm-enters :
    (is_ok (decide solving fresh_state calm) ≡ true)
    × (entered.decision.action ≡ PolicyActionKind.enter)
unfolding decide dispatch observe_day roll_over ratchet_peak latch_halt latch_equity_of decide_flat
    entry_refusal reference_stale gas_gate_blocks expected_daily_gross_yield income_expectation_apr
    batch_cost_usd batch_gas solve_range_width adaptive_width ranging_observations
    range_for_solution enter_by_solution enter swap_plan tranche_count tranche_size whole_swap_plan
    sliced_swap_plan slices build_swap_plan lt add sub mul div fix min max sum digit_count
    round_half_even gap upper_part lower_part quotient checked_div ceiling quantize_floor
    checked_sqrt sqrt floor ◌+ℤ◌ ◌-ℤ◌ ◌*ℤ◌ human_price_from_raw_tick position_liquidity_at_price
    aero_bot.Ranging.Math.batch_cost_usd swap_impact_cost_usd range_value_fraction_at_price
    band_dwell_fraction implied_average_half_width_fraction liquidity_per_deployed_dollar band_shape
    bisect bound_at walk_outward enumerate_aligned_bounds evaluation_fits renewal_rates
    gross_emissions_of fee_yield_of evaluate_pair score_measured score_pair sorts_before sort
    best_of score_uppers score_pairs choose solve_grid solve_terms solve_anchored solve_measured
    tick_incoherent liquidity_unusable aero_bot.Ranging.Solve.solve_range_width
calm-enters = (refl, refl)

entry-Solves_example :
    (asked : RangingObservations) × (solution : WidthSolution) × (range : AlignedPriceRange)
    × AsksFor solving.parameters calm (entry_size solving.parameters calm) asked
    × (aero_bot.Ranging.Solve.solve_range_width whole_powers asked ≡ ok solution)
    × Solves whole_powers asked solution
    × (range_for_solution solution ≡ ok range)
    × (entered.decision.price_range ≡ some range)
entry-Solves_example =
    entry-Solves whole_powers solving fresh_state calm entered refl refl refl refl
      (result_or-ok (hold fresh_state PolicyReason.flat_awaiting_entry)
        (decide solving fresh_state calm) calm-enters.0)
      calm-enters.1
