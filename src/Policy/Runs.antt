-- ===== src/Policy/Runs.antt =====
-- Runs of sessions, deadlines and the day machinery of src/aero_bot/policy.py.
use aero_bot.Prelude.{[], ◌∷◌, none, some, ◌≡◌, ◌≢◌, refl, true, false, ◌↔◌, ◌||◌, is_none, arith}
use aero_bot.Prelude.Int.{◌-ℤ◌, ◌+ℤ◌}
use aero_bot.Prelude.Results.{ok, Ensures, Returns}
use aero_bot.Decimal.{
  whole, literal, lt, le, add, sub, mul, div, fix, min, max, sum, digit_count, round_half_even, gap,
  upper_part, lower_part, quotient, checked_div,
}
use aero_bot.Decimal.Root.{ceiling, quantize_floor, checked_sqrt, sqrt}
use aero_bot.Policy.Day.{
  observe_day, roll_over, ratchet_peak, latch_halt, latch_equity_of, ratchet, same_day,
}
use aero_bot.Policy.Gas.{
  gas_gate_blocks, expected_daily_gross_yield, income_expectation_apr, batch_cost_usd, batch_gas,
}
use aero_bot.Policy.Swap.{
  swap_plan, tranche_count, tranche_size, whole_swap_plan, sliced_swap_plan, slices,
  build_swap_plan, stock_quantity, position_composition,
}
use aero_bot.Policy.Exits.{
  reference_stale, safety_exit, stock_sale, reference_beyond_open_bound, dislocation_outcome,
  usable_reference, out_of_range_grace_exit,
}
use aero_bot.Policy.Width.{
  solve_range_width, adaptive_width, ranging_observations, range_for_solution,
}
use aero_bot.Policy.Flat.{decide_flat, entry_refusal, enter_by_solution, enter}
use aero_bot.Policy.Maintain.{
  decide_above, decide_below, decide_in_range, exit_or_wait, recenter, recenter_below,
  recenter_by_solution, waited, recenter_size,
}
use aero_bot.Policy.Types.{
  PolicyState, PolicyActionKind, PolicyObservation, PolicyOutcome, above, below,
}
use aero_bot.Policy.Engine.{decide, dispatch, decide_with_position, decide_by_price}
use aero_bot.Policy.Session.{
  Steps, NeverEnters, arms_cooldown, halted_day-NeverEnters, exit_cooldown-NeverEnters,
}
use aero_bot.Policy.Deadlines.{
  Acts, Recentered, decide_out_of_range, grace_bounds_the_hold, no_early_grace_exit,
  evidence_gap_outlasts_grace, recenter_bounds,
}
use aero_bot.Policy.Halt.{was_halted, breaches, anchor_of, observe_day-halt_iff, observe_day-peak}
use aero_bot.Policy.Examples.{
  engine, in_range, fresh_state, open_state, halted_state, position, seconds, observed, outcome_of,
}

-- Two observations of the halted day, and what they lead to.
abbrev first : PolicyOutcome
first = outcome_of (decide engine halted_state in_range)

abbrev later : PolicyObservation
later = observed (seconds 1_100) 1_000

abbrev second : PolicyOutcome
second = outcome_of (decide engine first.next_state later)

abbrev halted_steps : Steps
halted_steps = (in_range, first) ∷ (later, second) ∷ []

halted_runs :
    (decide engine halted_state in_range ≡ ok first)
    × (decide engine first.next_state later ≡ ok second)
unfolding decide dispatch observe_day roll_over ratchet_peak latch_halt latch_equity_of decide_flat
    entry_refusal reference_stale gas_gate_blocks expected_daily_gross_yield income_expectation_apr
    batch_cost_usd batch_gas solve_range_width adaptive_width ranging_observations
    range_for_solution enter_by_solution enter swap_plan tranche_count tranche_size whole_swap_plan
    sliced_swap_plan slices build_swap_plan lt add sub mul div fix min max sum digit_count
    round_half_even gap upper_part lower_part quotient checked_div ceiling quantize_floor
halted_runs = (refl, refl)

halted_day-NeverEnters_example : NeverEnters halted_steps
halted_day-NeverEnters_example =
    halted_day-NeverEnters engine 0 halted_state halted_steps refl (refl, refl) (refl, (refl, tt))
      (halted_runs.0, (halted_runs.1, tt))

-- A stop-out, and an observation within the cooldown that follows it.
abbrev crashed : PolicyObservation
crashed = observed (seconds 1_000) 900

abbrev stopped : PolicyOutcome
stopped = outcome_of (decide engine open_state crashed)

abbrev after_stop : PolicyOutcome
after_stop = outcome_of (decide engine stopped.next_state later)

stop_runs :
    (decide engine open_state crashed ≡ ok stopped)
    × (decide engine stopped.next_state later ≡ ok after_stop)
unfolding decide dispatch observe_day roll_over ratchet_peak latch_halt latch_equity_of decide_flat
    entry_refusal reference_stale gas_gate_blocks expected_daily_gross_yield income_expectation_apr
    batch_cost_usd batch_gas solve_range_width adaptive_width ranging_observations
    range_for_solution enter_by_solution enter swap_plan tranche_count tranche_size whole_swap_plan
    sliced_swap_plan slices build_swap_plan lt add sub mul div fix min max sum digit_count
    round_half_even gap upper_part lower_part quotient checked_div ceiling quantize_floor
    decide_with_position decide_by_price safety_exit stock_sale stock_quantity position_composition
    checked_sqrt sqrt reference_beyond_open_bound dislocation_outcome usable_reference decide_above
    decide_below decide_in_range exit_or_wait out_of_range_grace_exit recenter recenter_below
    recenter_by_solution waited
stop_runs = (refl, refl)

stop_arms : arms_cooldown stopped.decision.action ≡ true
unfolding decide dispatch observe_day roll_over ratchet_peak latch_halt latch_equity_of decide_flat
    entry_refusal reference_stale gas_gate_blocks expected_daily_gross_yield income_expectation_apr
    batch_cost_usd batch_gas solve_range_width adaptive_width ranging_observations
    range_for_solution enter_by_solution enter swap_plan tranche_count tranche_size whole_swap_plan
    sliced_swap_plan slices build_swap_plan lt add sub mul div fix min max sum digit_count
    round_half_even gap upper_part lower_part quotient checked_div ceiling quantize_floor
    decide_with_position decide_by_price safety_exit stock_sale stock_quantity position_composition
    checked_sqrt sqrt reference_beyond_open_bound dislocation_outcome usable_reference decide_above
    decide_below decide_in_range exit_or_wait out_of_range_grace_exit recenter recenter_below
    recenter_by_solution waited
stop_arms = refl

exit_cooldown-NeverEnters_example : NeverEnters ((later, after_stop) ∷ [])
unfolding ◌+ℤ◌
exit_cooldown-NeverEnters_example =
    exit_cooldown-NeverEnters engine open_state crashed stopped ((later, after_stop) ∷ []) refl
      stop_runs.0 stop_arms (ground arith, tt) (stop_runs.1, tt)

-- Prices above the range: long after the start of the wait, and early in it.
abbrev high : PolicyObservation
high = record (observed (seconds 1_000) 1_010) { gas_price_gwei = some (literal 4 2) }

abbrev early : PolicyObservation
early = observed (seconds 200) 1_010

grace_bounds_the_hold_example :
    Ensures (decide_out_of_range above engine open_state position high) Acts
unfolding waited ◌-ℤ◌
grace_bounds_the_hold_example = grace_bounds_the_hold engine open_state position high above refl

no_early_grace_exit_example :
    Ensures
      (decide_out_of_range below engine open_state position early)
      (λ out. out.decision.action ≢ PolicyActionKind.range_grace_exit)
unfolding waited ◌-ℤ◌
no_early_grace_exit_example = no_early_grace_exit engine open_state position early below refl

abbrev blind : PolicyObservation
blind = record high { ranging = none }

blind_gas :
    gas_gate_blocks engine.parameters blind engine.parameters.recenter_batch_gas_units
      (recenter_size engine.parameters position blind)
    ≡ false
unfolding decide dispatch observe_day roll_over ratchet_peak latch_halt latch_equity_of decide_flat
    entry_refusal reference_stale gas_gate_blocks expected_daily_gross_yield income_expectation_apr
    batch_cost_usd batch_gas solve_range_width adaptive_width ranging_observations
    range_for_solution enter_by_solution enter swap_plan tranche_count tranche_size whole_swap_plan
    sliced_swap_plan slices build_swap_plan lt add sub mul div fix min max sum digit_count
    round_half_even gap upper_part lower_part quotient checked_div ceiling quantize_floor
blind_gas = refl

blind_size : le (recenter_size engine.parameters position blind) (whole 0) ≡ false
unfolding lt min mul
blind_size = refl

evidence_gap_outlasts_grace_example :
    Returns (decide_above engine open_state position blind) (λ out.
      (out.decision.action ≡ PolicyActionKind.hold) × (is_none out.next_state.position ≡ false))
unfolding waited ◌-ℤ◌
evidence_gap_outlasts_grace_example =
    evidence_gap_outlasts_grace engine open_state position blind refl refl blind_size blind_gas refl

abbrev recentered : PolicyOutcome
recentered = outcome_of (decide_out_of_range above engine open_state position high)

recenters :
    (decide_out_of_range above engine open_state position high ≡ ok recentered)
    × (recentered.decision.action ≡ PolicyActionKind.recenter)
unfolding decide dispatch observe_day roll_over ratchet_peak latch_halt latch_equity_of decide_flat
    entry_refusal reference_stale gas_gate_blocks expected_daily_gross_yield income_expectation_apr
    batch_cost_usd batch_gas solve_range_width adaptive_width ranging_observations
    range_for_solution enter_by_solution enter swap_plan tranche_count tranche_size whole_swap_plan
    sliced_swap_plan slices build_swap_plan lt add sub mul div fix min max sum digit_count
    round_half_even gap upper_part lower_part quotient checked_div ceiling quantize_floor
    decide_with_position decide_by_price safety_exit stock_sale stock_quantity position_composition
    checked_sqrt sqrt reference_beyond_open_bound dislocation_outcome usable_reference decide_above
    decide_below decide_in_range exit_or_wait out_of_range_grace_exit recenter recenter_below
    recenter_by_solution waited
recenters = (refl, refl)

recenter_bounds_example : Recentered engine.parameters position high recentered
recenter_bounds_example =
    recenter_bounds engine open_state position high above recentered recenters.0 recenters.1

observe_day-halt_iff_example :
    let next = observe_day engine halted_state in_range in
    (next.day ≡ some 0)
    × ((same_day next.halted_day (some 0) ≡ true) ↔ (
        (was_halted engine halted_state in_range
          || (breaches engine (anchor_of engine halted_state in_range) in_range
              || breaches engine
                  (ratchet halted_state.peak_equity_usd (latch_equity_of in_range))
                  in_range))
        ≡ true))
observe_day-halt_iff_example = observe_day-halt_iff engine halted_state in_range

abbrev peaked : PolicyState
peaked = record fresh_state { peak_equity_usd = some (whole 1_200) }

observe_day-peak_example :
    let peak = ratchet (some (whole 1_200)) (latch_equity_of in_range) in
    ((observe_day engine peaked in_range).peak_equity_usd ≡ some peak)
    × (le (whole 1_200) peak ≡ true)
    × (le (latch_equity_of in_range) peak ≡ true)
observe_day-peak_example = observe_day-peak engine peaked in_range (whole 1_200) refl
