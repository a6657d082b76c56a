-- ===== src/Selector/Tests.antt =====
-- Runs of src/aero_bot/selector.py on a board of two pools.
use aero_bot.Prelude.{true, false, List, [], ◌∷◌, none, some, ◌≡◌, refl}
use aero_bot.Prelude.Results.{ok}
use aero_bot.Decimal.{
  Decimal, whole, literal, lt, add, mul, div, fix, digit_count, round_half_even, gap, upper_part,
  lower_part, quotient,
}
use aero_bot.Audit.Text.{Text, same_text}
use aero_bot.Policy.Parameters.{locked_policy_parameters}
use aero_bot.Policy.Types.{Address, PolicyActionKind, PolicyReason, PolicyOutcome}
use aero_bot.Policy.Gas.{batch_cost_usd, expected_daily_gross_yield, income_expectation_apr}
use aero_bot.Policy.Examples.{in_range, fresh_state}
use aero_bot.Selector.Board.{
  PoolEntryEvaluation, text_before, rank_better, better_of, best_entry_from, select_best_entry,
  closest_from, closest_call_evaluation,
}
use aero_bot.Selector.Best.{IsBestOf, select_best_entry-IsBestOf}
use aero_bot.Selector.Switch.{
  SwitchDirective, combined_units, bound_usd, economics_at, switch_gas_economics, others, threshold,
  directive_if, sized_switch, switch_into, switch_to, build, evaluate_switch,
}
use aero_bot.Selector.Warranted.{Warranted, evaluate_switch-Warranted}

-- An entry of 1000 USDC.
abbrev entry : PolicyOutcome
entry = record {
  decision = record {
    action = PolicyActionKind.enter;
    reason = PolicyReason.entry_threshold_met;
    price_range = none;
    size_usd = some (whole 1_000);
    swap_plan = none;
    width_solution = none;
    estimated_gas_units = none;
    estimated_gas_cost_usd = none;
  };
  next_state = fresh_state;
}

abbrev pool : Text → Address → Decimal → PoolEntryEvaluation
pool symbol address apr = record {
  symbol = symbol;
  pool_address = address;
  observation = record in_range { emissions_apr = apr };
  emissions_apr = apr;
  qualifies = true;
  blocked_reason = none;
  entry_outcome = some entry;
}

abbrev blocked : Text → Address → Decimal → PoolEntryEvaluation
blocked symbol address apr = record (pool symbol address apr) {
  qualifies = false;
  blocked_reason = some PolicyReason.event_window_flat;
  entry_outcome = none;
}

-- The held pool A at 100 percent, B at 200 percent, C blocked at 300 percent.
abbrev board : List PoolEntryEvaluation
board = pool (65 ∷ []) 1 (whole 1) ∷ pool (66 ∷ []) 2 (whole 2) ∷ blocked (67 ∷ []) 3 (whole 3) ∷ []

abbrev directive : SwitchDirective
directive = record {
  from_symbol = 65 ∷ [];
  to_symbol = (66 ∷ []);
  to_pool_address = 2;
  entry_outcome = entry;
  margin_fraction = literal 30 2;
  held_emissions_apr = whole 1;
  candidate_emissions_apr = whole 2;
  combined_gas_units = combined_units locked_policy_parameters;
  combined_gas_cost_usd = some (
      batch_cost_usd locked_policy_parameters (combined_units locked_policy_parameters)
        (literal 5 2));
}

selects_b : select_best_entry board ≡ some (pool (66 ∷ []) 2 (whole 2))
unfolding select_best_entry best_entry_from better_of rank_better text_before lt gap upper_part
    lower_part
selects_b = refl

-- The first symbol wins a tie.
breaks_a_tie :
    select_best_entry (pool (66 ∷ []) 2 (whole 2) ∷ pool (65 ∷ []) 1 (whole 2) ∷ [])
    ≡ some (pool (65 ∷ []) 1 (whole 2))
unfolding select_best_entry best_entry_from better_of rank_better text_before lt gap upper_part
    lower_part
breaks_a_tie = refl

names_c : closest_call_evaluation board ≡ some (blocked (67 ∷ []) 3 (whole 3))
unfolding closest_call_evaluation closest_from better_of rank_better text_before lt gap upper_part
    lower_part
names_c = refl

switches_to_b :
    evaluate_switch locked_policy_parameters (65 ∷ []) (whole 1) (literal 30 2) board
    ≡ ok (some directive)
unfolding evaluate_switch build switch_to switch_into sized_switch directive_if switch_gas_economics
    economics_at bound_usd others threshold same_text select_best_entry best_entry_from better_of
    rank_better text_before batch_cost_usd expected_daily_gross_yield income_expectation_apr lt add
    mul div fix digit_count round_half_even gap upper_part lower_part quotient combined_units
switches_to_b = refl

select_best_entry-IsBestOf_example : IsBestOf board (select_best_entry board)
select_best_entry-IsBestOf_example = select_best_entry-IsBestOf board

evaluate_switch-Warranted_example :
    Warranted locked_policy_parameters (65 ∷ []) (whole 1) (literal 30 2) board directive
evaluate_switch-Warranted_example =
    evaluate_switch-Warranted locked_policy_parameters (65 ∷ []) (whole 1) (literal 30 2) board
      directive switches_to_b
