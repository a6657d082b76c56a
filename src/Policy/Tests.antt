-- ===== src/Policy/Tests.antt =====
-- Runs of the engine of src/aero_bot/policy.py.
use aero_bot.Prelude.{Option, none, some, ◌≡◌, refl, true, false, inl}
use aero_bot.Prelude.Int.{◌-ℤ◌}
use aero_bot.Prelude.Results.{Result, ok, Ensures, Returns}
use aero_bot.Decimal.{
  Decimal, le, whole, default_precision, lt, add, sub, mul, div, fix, min, max, sum, digit_count,
  round_half_even, gap, upper_part, lower_part, quotient, checked_div,
}
use aero_bot.Decimal.Root.{ceiling, quantize_floor, checked_sqrt, sqrt}
use aero_bot.Policy.Day.{observe_day, roll_over, ratchet_peak, latch_halt, latch_equity_of}
use aero_bot.Policy.Gas.{
  gas_gate_blocks, expected_daily_gross_yield, income_expectation_apr, batch_cost_usd, batch_gas,
}
use aero_bot.Policy.Swap.{
  swap_plan, tranche_count, tranche_size, whole_swap_plan, sliced_swap_plan, slices,
  build_swap_plan, stock_quantity, position_composition,
}
use aero_bot.Policy.Exits.{
  reference_stale, safety_exit, stock_sale, reference_beyond_open_bound, dislocation_outcome,
  usable_reference, out_of_range_grace_exit,
}
use aero_bot.Policy.Width.{
  solve_range_width, adaptive_width, ranging_observations, range_for_solution,
}
use aero_bot.Policy.Flat.{entry_size, decide_flat, entry_refusal, enter_by_solution, enter}
use aero_bot.Policy.Maintain.{
  decide_above, decide_below, decide_in_range, exit_or_wait, recenter, recenter_below,
  recenter_by_solution, waited,
}
use aero_bot.Policy.Types.{
  PolicyObservation, SwapPlan, SwapDirection, PolicyActionKind, PolicyOutcome,
}
use aero_bot.Policy.Engine.{stop_level, decide, dispatch, decide_with_position, decide_by_price}
use aero_bot.Policy.Posture.{Follows}
use aero_bot.Policy.Posture.Decide.{decide-Follows}
use aero_bot.Policy.Entry.{EntryGates, OpensEntry}
use aero_bot.Policy.Entry.Verdicts.{entry_passed_every_gate, open_gates_enter, closed_gate_holds}
use aero_bot.Policy.Tranches.{Covers, swap_plan-Covers}
use aero_bot.Policy.Stops.{IsStopOut, stop_is_never_deferred, timed_out_inventory_is_sold}
use aero_bot.Policy.Examples.{
  engine, in_range, fresh_state, open_state, holding_state, position, seconds, observed, outcome_of,
  is_ok, result_or-ok, result_or, inventory, solution, range, empty_plan,
}

abbrev entered : PolicyOutcome
entered = outcome_of (decide engine fresh_state in_range)

enters :
    (decide engine fresh_state in_range ≡ ok entered)
    × (entered.decision.action ≡ PolicyActionKind.enter)
unfolding decide dispatch observe_day roll_over ratchet_peak latch_halt latch_equity_of decide_flat
    entry_refusal reference_stale gas_gate_blocks expected_daily_gross_yield income_expectation_apr
    batch_cost_usd batch_gas solve_range_width adaptive_width ranging_observations
    range_for_solution enter_by_solution enter swap_plan tranche_count tranche_size whole_swap_plan
    sliced_swap_plan slices build_swap_plan lt add sub mul div fix min max sum digit_count
    round_half_even gap upper_part lower_part quotient checked_div ceiling quantize_floor
enters = (refl, refl)

-- A price below the stop level.
abbrev crashed : PolicyObservation
crashed = observed (seconds 1_000) 900

abbrev stopped : PolicyOutcome
stopped = outcome_of (decide engine open_state crashed)

abbrev stopped_quantity : Decimal
stopped_quantity = result_or (whole 0) (stock_quantity position crashed.amm_price_usdc)

abbrev stopped_sale : Option SwapPlan
stopped_sale = result_or none (stock_sale engine.parameters crashed stopped_quantity)

stops :
    (decide engine open_state crashed ≡ ok stopped)
    × (stopped.decision.action ≡ PolicyActionKind.stop_out)
    × (stock_quantity position crashed.amm_price_usdc ≡ ok stopped_quantity)
    × (stock_sale engine.parameters crashed stopped_quantity ≡ ok stopped_sale)
    × (le crashed.amm_price_usdc (stop_level engine.parameters position) ≡ true)
unfolding decide dispatch observe_day roll_over ratchet_peak latch_halt latch_equity_of decide_flat
    entry_refusal reference_stale gas_gate_blocks expected_daily_gross_yield income_expectation_apr
    batch_cost_usd batch_gas solve_range_width adaptive_width ranging_observations
    range_for_solution enter_by_solution enter swap_plan tranche_count tranche_size whole_swap_plan
    sliced_swap_plan slices build_swap_plan lt add sub mul div fix min max sum digit_count
    round_half_even gap upper_part lower_part quotient checked_div ceiling quantize_floor
    decide_with_position decide_by_price safety_exit stock_sale stock_quantity position_composition
    checked_sqrt sqrt reference_beyond_open_bound dislocation_outcome usable_reference decide_above
    decide_below decide_in_range exit_or_wait out_of_range_grace_exit recenter recenter_below
    recenter_by_solution waited
stops = (refl, refl, refl, refl, refl)

abbrev sale_plan : Result SwapPlan
sale_plan =
    swap_plan engine.parameters SwapDirection.sell_stock
      (mul default_precision inventory.stock_quantity in_range.amm_price_usdc)
      in_range.pool_depth_usd

abbrev sold_plan : SwapPlan
sold_plan = result_or empty_plan sale_plan

sells : sale_plan ≡ ok sold_plan
unfolding decide dispatch observe_day roll_over ratchet_peak latch_halt latch_equity_of decide_flat
    entry_refusal reference_stale gas_gate_blocks expected_daily_gross_yield income_expectation_apr
    batch_cost_usd batch_gas solve_range_width adaptive_width ranging_observations
    range_for_solution enter_by_solution enter swap_plan tranche_count tranche_size whole_swap_plan
    sliced_swap_plan slices build_swap_plan lt add sub mul div fix min max sum digit_count
    round_half_even gap upper_part lower_part quotient checked_div ceiling quantize_floor
    decide_with_position decide_by_price safety_exit stock_sale stock_quantity position_composition
    checked_sqrt sqrt reference_beyond_open_bound dislocation_outcome usable_reference decide_above
    decide_below decide_in_range exit_or_wait out_of_range_grace_exit recenter recenter_below
    recenter_by_solution waited
sells = refl

entry_gates : EntryGates engine.parameters (observe_day engine fresh_state in_range) in_range
unfolding decide dispatch observe_day roll_over ratchet_peak latch_halt latch_equity_of decide_flat
    entry_refusal reference_stale gas_gate_blocks expected_daily_gross_yield income_expectation_apr
    batch_cost_usd batch_gas solve_range_width adaptive_width ranging_observations
    range_for_solution enter_by_solution enter swap_plan tranche_count tranche_size whole_swap_plan
    sliced_swap_plan slices build_swap_plan lt add sub mul div fix min max sum digit_count
    round_half_even gap upper_part lower_part quotient checked_div ceiling quantize_floor
    decide_with_position decide_by_price safety_exit stock_sale stock_quantity position_composition
    checked_sqrt sqrt reference_beyond_open_bound dislocation_outcome usable_reference decide_above
    decide_below decide_in_range exit_or_wait out_of_range_grace_exit recenter recenter_below
    recenter_by_solution waited
entry_gates = record {
  no_halt = refl;
  no_cooldown = tt;
  oracle_fresh = refl;
  registry_active = refl;
  reference_fresh = inl refl;
  above_floor = refl;
  above_margin = λ _. refl;
  some_size = refl;
  affordable = (refl, refl);
}

abbrev entry_plan : Result SwapPlan
entry_plan =
    swap_plan engine.parameters SwapDirection.buy_stock
      (div default_precision (entry_size engine.parameters in_range) (whole 2))
      in_range.pool_depth_usd

abbrev bought_plan : SwapPlan
bought_plan = result_or empty_plan entry_plan

entry_plan-is_ok : is_ok entry_plan ≡ true
unfolding swap_plan tranche_count tranche_size whole_swap_plan sliced_swap_plan slices
    build_swap_plan lt add sub mul div fix min max sum digit_count round_half_even gap upper_part
    lower_part quotient checked_div ceiling quantize_floor
entry_plan-is_ok = refl

buys : entry_plan ≡ ok bought_plan
buys = result_or-ok empty_plan entry_plan entry_plan-is_ok

solves : solve_range_width engine in_range (entry_size engine.parameters in_range) ≡ ok solution
unfolding solve_range_width adaptive_width ranging_observations
solves = refl

bounds : range_for_solution solution ≡ ok range
unfolding range_for_solution lt
bounds = refl

oracle_gate : ¬ (true ≡ false)
oracle_gate e = cc

-- An observation whose oracle is stale.
abbrev stale_oracle : PolicyObservation
stale_oracle = record in_range { oracle_stale = true }

open_gates_enter_example : Returns (decide engine fresh_state in_range) (λ out.
    (out.decision.action ≡ PolicyActionKind.enter) × (out.decision.price_range ≡ some range))
open_gates_enter_example =
    open_gates_enter engine fresh_state in_range refl refl solution range bought_plan entry_gates
      solves refl bounds buys

closed_gate_holds_example : Returns (decide engine fresh_state stale_oracle) (λ out.
    (out.decision.action ≡ PolicyActionKind.hold)
    × (out.next_state ≡ observe_day engine fresh_state stale_oracle))
closed_gate_holds_example =
    closed_gate_holds engine fresh_state stale_oracle refl refl
      (λ gates. oracle_gate (gates.oracle_fresh))

entry_passed_every_gate_example :
    EntryGates engine.parameters (observe_day engine fresh_state in_range) in_range
    × OpensEntry engine in_range entered
    × (entered.next_state.dilution_exit_pending ≡ false)
entry_passed_every_gate_example =
    entry_passed_every_gate engine fresh_state in_range entered refl enters.0 enters.1

decide-Follows_example :
    Ensures
      (decide engine open_state crashed)
      (Follows engine.parameters crashed (observe_day engine open_state crashed))
decide-Follows_example = decide-Follows engine open_state crashed refl

stop_is_never_deferred_example :
    Returns (decide engine open_state crashed) (IsStopOut engine.parameters crashed)
stop_is_never_deferred_example =
    stop_is_never_deferred engine open_state crashed position stopped_quantity stopped_sale refl
      refl refl stops.4 stops.2 stops.3

timed_out_inventory_is_sold_example : Returns (decide engine holding_state in_range) (λ out.
    (out.decision.action ≡ PolicyActionKind.sell_inventory)
    × (out.next_state.held_inventory ≡ none))
unfolding ◌-ℤ◌
timed_out_inventory_is_sold_example =
    timed_out_inventory_is_sold engine holding_state in_range inventory sold_plan refl refl sells

swap_plan-Covers_example :
    Ensures
      (swap_plan engine.parameters SwapDirection.buy_stock (whole 250) (whole 50_000))
      (Covers SwapDirection.buy_stock (whole 250))
swap_plan-Covers_example =
    swap_plan-Covers engine.parameters SwapDirection.buy_stock (whole 250) (whole 50_000)
