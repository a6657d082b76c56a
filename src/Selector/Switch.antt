-- ===== src/Selector/Switch.antt =====
-- `switch_gas_economics` and `evaluate_switch` of src/aero_bot/selector.py. The evidence lines and
-- notes are left out.
use aero_bot.Prelude.{ℕ, ◌+◌, Bool, false, List, [], ◌∷◌, Option, none, some, if◌then◌else◌}
use aero_bot.Prelude.Results.{Result, ok, raise_if, value_error, validation_error, ◌>>◌}
use aero_bot.Decimal.{Decimal, whole, lt, le, add, mul, default_precision}
use aero_bot.Audit.Text.{Text, same_text}
use aero_bot.Policy.Parameters.{PolicyParameters}
use aero_bot.Policy.Types.{Address, PolicyObservation, PolicyOutcome}
use aero_bot.Policy.Gas.{batch_cost_usd, expected_daily_gross_yield}
use aero_bot.Selector.Board.{PoolEntryEvaluation, select_best_entry}

pub record SwitchDirective : Type 0 where
  pub from_symbol : Text
  pub to_symbol : Text
  pub to_pool_address : Address
  pub entry_outcome : PolicyOutcome
  pub margin_fraction : Decimal
  pub held_emissions_apr : Decimal
  pub candidate_emissions_apr : Decimal
  pub combined_gas_units : ℕ
  pub combined_gas_cost_usd : Option Decimal

unfoldable pub combined_units : PolicyParameters → ℕ
combined_units p =
    (p.exit_batch_gas_units + p.safe_overhead_gas_per_batch)
    + (p.enter_batch_gas_units + p.safe_overhead_gas_per_batch)

-- The bound on the cost of a switch, from what the new position is expected to earn in a day.
unfoldable pub bound_usd : PolicyParameters → Decimal → PolicyObservation → Decimal
bound_usd p entry_size_usd candidate_observation =
    mul default_precision p.gas_cost_max_gross_yield_fraction
      (expected_daily_gross_yield candidate_observation entry_size_usd)

unfoldable pub economics_at :
    PolicyParameters
    → (entry_size_usd : Decimal) → PolicyObservation
    → (gas_price_gwei : Option Decimal) → Bool × ℕ × Option Decimal
economics_at p entry_size_usd candidate_observation none = (false, combined_units p, none)
economics_at p entry_size_usd candidate_observation (some gas_price) =
    let cost = batch_cost_usd p (combined_units p) gas_price in
    (le cost (bound_usd p entry_size_usd candidate_observation), combined_units p, some cost)

unfoldable pub switch_gas_economics :
    PolicyParameters → (entry_size_usd : Decimal) → PolicyObservation → Bool × ℕ × Option Decimal
switch_gas_economics p entry_size_usd candidate_observation =
    economics_at p entry_size_usd candidate_observation candidate_observation.gas_price_gwei

-- The evaluations of the pools other than the held one.
unfoldable pub others : Text → List PoolEntryEvaluation → List PoolEntryEvaluation
others held_symbol [] = []
others held_symbol (evaluation ∷ evaluations) =
    let rest = others held_symbol evaluations in
    if same_text evaluation.symbol held_symbol then rest else evaluation ∷ rest

unfoldable pub threshold : (held_emissions_apr switch_margin_fraction : Decimal) → Decimal
threshold held_emissions_apr switch_margin_fraction =
    mul default_precision held_emissions_apr
      (add default_precision (whole 1) switch_margin_fraction)

-- `SwitchDirective(…)` refuses a negative yield of the held pool.
unfoldable pub build : Option SwitchDirective → Result (Option SwitchDirective)
build none = ok none
build (some directive) =
    raise_if (lt directive.held_emissions_apr (whole 0)) validation_error >> ok (some directive)

module _ (p : PolicyParameters) (held_symbol : Text)
    (held_emissions_apr switch_margin_fraction : Decimal) where
  unfoldable pub directive_if :
      PoolEntryEvaluation → PolicyOutcome → Bool × ℕ × Option Decimal → Option SwitchDirective
  directive_if best outcome economics =
      if economics.0
      then some (record {
        from_symbol = held_symbol;
        to_symbol = best.symbol;
        to_pool_address = best.pool_address;
        entry_outcome = outcome;
        margin_fraction = switch_margin_fraction;
        held_emissions_apr = held_emissions_apr;
        candidate_emissions_apr = best.emissions_apr;
        combined_gas_units = economics.1;
        combined_gas_cost_usd = economics.2;
      })
      else none

  unfoldable pub sized_switch :
      PoolEntryEvaluation → PolicyOutcome → (entry_size : Option Decimal) → Option SwitchDirective
  sized_switch best outcome none = none
  sized_switch best outcome (some entry_size) =
      if le entry_size (whole 0)
      then none
      else directive_if best outcome (switch_gas_economics p entry_size best.observation)

  unfoldable pub switch_into :
      PoolEntryEvaluation → (entry_outcome : Option PolicyOutcome) → Option SwitchDirective
  switch_into best none = none
  switch_into best (some outcome) =
      if le best.emissions_apr (threshold held_emissions_apr switch_margin_fraction)
      then none
      else sized_switch best outcome outcome.decision.size_usd

  unfoldable pub switch_to : Option PoolEntryEvaluation → Option SwitchDirective
  switch_to none = none
  switch_to (some best) = switch_into best best.entry_outcome

  unfoldable pub evaluate_switch : List PoolEntryEvaluation → Result (Option SwitchDirective)
  evaluate_switch evaluations =
      raise_if (lt switch_margin_fraction (whole 0)) value_error
      >> build (switch_to (select_best_entry (others held_symbol evaluations)))
