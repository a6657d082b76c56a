-- ===== src/Policy/Flat.antt =====
-- `_decide_flat` of src/aero_bot/policy.py: the ordered entry gates of a book that holds only USDC.
use aero_bot.Prelude.{Bool, true, false, Option, none, some, if◌then◌else◌, ◌&&◌}
use aero_bot.Prelude.Int.{ltb_ℤ}
use aero_bot.Prelude.Results.{Result, ok, ◌>>=◌}
use aero_bot.Decimal.{Decimal, whole, lt, le, min, add, mul, div, default_precision}
use aero_bot.Ranging.Types.{WidthSolution, WidthSolveMode}
use aero_bot.Policy.Parameters.{PolicyParameters}
use aero_bot.Policy.Types.{
  PolicyObservation, PolicyState, PolicyActionKind, PolicyReason, PolicyOutcome, SwapDirection,
}
use aero_bot.Policy.Day.{PolicyEngine, same_day}
use aero_bot.Policy.Gas.{batch_gas, gas_gate_blocks}
use aero_bot.Policy.Swap.{swap_plan}
use aero_bot.Policy.Exits.{hold, costed_decision, reference_stale}
use aero_bot.Policy.Width.{solve_range_width, range_for_solution}

-- `_flat_reason`: whether a condition demands that the policy be flat.
abbrev pub flat_required : PolicyObservation → Bool
flat_required observation = if observation.oracle_stale then true else observation.registry_paused

abbrev pub cooldown_active : PolicyState → PolicyObservation → Bool
cooldown_active state observation = elim state.reentry_blocked_until [
  | none ↦ false
  | some until ↦ ltb_ℤ observation.observed_at until
]

-- The floor raised by the margin that a dilution exit leaves behind.
abbrev pub margin_bound : PolicyParameters → Decimal
margin_bound p =
    mul default_precision p.min_entry_emissions_apr
      (add default_precision (whole 1) p.dilution_reentry_margin_fraction)

abbrev pub equity_cap : PolicyParameters → PolicyObservation → Decimal
equity_cap p observation =
    mul default_precision observation.equity_usd p.max_position_equity_fraction

abbrev pub depth_cap : PolicyParameters → PolicyObservation → Decimal
depth_cap p observation =
    mul default_precision observation.pool_depth_usd p.max_position_depth_fraction

abbrev pub entry_size : PolicyParameters → PolicyObservation → Decimal
entry_size p observation = min (equity_cap p observation) (depth_cap p observation)

-- The first gate that refuses the entry, in the order of the code, before the width is solved.
unfoldable pub entry_refusal :
    PolicyParameters → PolicyState → PolicyObservation → Bool → Option PolicyReason
entry_refusal p state observation flat =
    if same_day state.halted_day state.day
    then some PolicyReason.daily_loss_halt_active
    else if cooldown_active state observation
    then some PolicyReason.entry_cooldown_active
    else if flat
    then some PolicyReason.event_window_flat
    else if reference_stale p observation
    then some PolicyReason.reference_stale
    else if lt observation.emissions_apr p.min_entry_emissions_apr
    then some PolicyReason.emissions_below_entry_threshold
    else if state.dilution_exit_pending && lt observation.emissions_apr (margin_bound p)
    then some PolicyReason.dilution_reentry_margin_active
    else if le (entry_size p observation) (whole 0)
    then some PolicyReason.entry_size_empty
    else if gas_gate_blocks p observation p.enter_batch_gas_units (entry_size p observation)
    then some PolicyReason.gas_gate_deferred
    else none

-- The mint at the solved range: half of the size is bought as stock.
unfoldable pub enter :
    PolicyEngine → PolicyState → PolicyObservation → WidthSolution → Result PolicyOutcome
enter engine state observation solution = do
  let p = engine.parameters
  let size = entry_size p observation
  entry_range ← range_for_solution solution
  plan ←
      swap_plan p SwapDirection.buy_stock (div default_precision size (whole 2))
        observation.pool_depth_usd
  let decision =
      costed_decision PolicyActionKind.enter PolicyReason.entry_threshold_met (some plan)
        (batch_gas p observation p.enter_batch_gas_units)
  ok (record {
    decision = record decision {
      price_range = some entry_range;
      size_usd = some size;
      width_solution = some solution;
    };
    next_state = record state {
      position = some (record {
        pool_address = observation.pool_address;
        token_address = observation.token_address;
        price_range = entry_range;
        committed_usd = size;
        entered_at = observation.observed_at;
        out_of_range_since = none;
        out_of_range_side = none;
      });
      dilution_exit_pending = false;
    };
  })

-- What a width solution allows.
unfoldable pub enter_by_solution :
    PolicyEngine → PolicyState → PolicyObservation → WidthSolution → Result PolicyOutcome
enter_by_solution engine state observation solution = elim solution.mode [
  | WidthSolveMode.deferred ↦ ok (hold state PolicyReason.range_evidence_deferred)
  | WidthSolveMode.cash_hold ↦ ok (hold state PolicyReason.range_net_nonpositive)
  | WidthSolveMode.solved ↦ enter engine state observation solution
  | WidthSolveMode.fallback_ceiling ↦ enter engine state observation solution
]

unfoldable pub decide_flat :
    PolicyEngine → PolicyState → PolicyObservation → Bool → Result PolicyOutcome
decide_flat engine state observation flat =
    let p = engine.parameters in
    elim (entry_refusal p state observation flat) [
      | some reason ↦ ok (hold state reason)
      | none ↦
          solve_range_width engine observation (entry_size p observation)
          >>= enter_by_solution engine state observation
    ]
