-- ===== src/Policy/Trace/Tests.antt =====
-- Runs of `entry_gate_trace` of src/aero_bot/policy.py.
use aero_bot.Prelude.{◌≡◌, refl, true, List}
use aero_bot.Prelude.Results.{Ensures}
use aero_bot.Decimal.{
  le, lt, add, sub, mul, div, fix, min, max, sum, digit_count, round_half_even, gap, upper_part,
  lower_part, quotient, checked_div,
}
use aero_bot.Policy.Flat.{margin_bound}
use aero_bot.Policy.Gas.{
  expected_daily_gross_yield, income_expectation_apr, batch_cost_usd, batch_gas,
}
use aero_bot.Policy.Day.{observe_day, roll_over, ratchet_peak, latch_halt, latch_equity_of}
use aero_bot.Policy.Width.{solve_range_width, adaptive_width, ranging_observations}
use aero_bot.Policy.Engine.{decide}
use aero_bot.Policy.Types.{PolicyObservation}
use aero_bot.Policy.Trace.{
  GateLine, entry_gate_trace, measured_gates, solve_gate, flat_basis_of, Gate,
}
use aero_bot.Policy.Trace.Agreement.{first_failure, Foretells}
use aero_bot.Policy.Trace.Decide.{entry_gate_trace-decide}
use aero_bot.Policy.Examples.{engine, in_range, open_state, is_ok, result_or-ok, result_or}
use aero_bot.Prelude.{[], some}

-- A paused registry under a running oracle.
abbrev paused : PolicyObservation
paused = record in_range { registry_paused = true }

abbrev paused_lines : List GateLine
paused_lines = result_or [] (entry_gate_trace engine open_state paused)

traced-is_ok : is_ok (entry_gate_trace engine open_state paused) ≡ true
unfolding entry_gate_trace solve_gate measured_gates solve_range_width adaptive_width
    ranging_observations lt add sub mul div fix min max sum digit_count round_half_even gap
    upper_part lower_part quotient checked_div
traced-is_ok = refl

first_failure_of_paused : first_failure paused_lines ≡ some Gate.condition_flat
unfolding entry_gate_trace solve_gate measured_gates solve_range_width adaptive_width
    ranging_observations lt add sub mul div fix min max sum digit_count round_half_even gap
    upper_part lower_part quotient checked_div observe_day roll_over ratchet_peak latch_halt
    latch_equity_of expected_daily_gross_yield income_expectation_apr batch_cost_usd batch_gas
first_failure_of_paused = refl

raised : le engine.parameters.min_entry_emissions_apr (margin_bound engine.parameters) ≡ true
unfolding lt add sub mul div fix min max sum digit_count round_half_even gap upper_part lower_part
    quotient checked_div
raised = refl

entry_gate_trace-decide_example :
    Ensures
      (decide engine (flat_basis_of open_state) paused)
      (Foretells (first_failure paused_lines))
entry_gate_trace-decide_example =
    entry_gate_trace-decide engine open_state paused paused_lines raised
      (result_or-ok [] (entry_gate_trace engine open_state paused) traced-is_ok)
