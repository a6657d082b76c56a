-- ===== src/Policy/Engine.antt =====
-- `_decide_with_position`, `_decide_holding_inventory` and `decide` of src/aero_bot/policy.py.
use aero_bot.Prelude.{Bool, true, false, Option, none, some, if◌then◌else◌, ◌||◌}
use aero_bot.Prelude.Int.{◌-ℤ◌, leb_ℤ}
use aero_bot.Prelude.Results.{Result, ok, or_raise, value_error, ◌>>=◌}
use aero_bot.Decimal.{Decimal, whole, lt, le, sub, mul, default_precision}
use aero_bot.Policy.Parameters.{PolicyParameters}
use aero_bot.Policy.Types.{
  PolicyObservation, PolicyPosition, PolicyState, PolicyActionKind, PolicyReason, PolicyOutcome,
  HeldInventory, InventoryOrigin, SwapDirection,
}
use aero_bot.Policy.Day.{PolicyEngine, observe_day}
use aero_bot.Policy.Gas.{batch_gas}
use aero_bot.Policy.Swap.{swap_plan}
use aero_bot.Policy.Exits.{
  hold, costed_decision, safety_exit, reference_beyond_open_bound, dislocation_outcome,
  usable_reference, stale_low_level,
}
use aero_bot.Policy.Flat.{flat_required, decide_flat}
use aero_bot.Policy.Maintain.{decide_above, decide_below, decide_in_range}

abbrev pub stop_level : PolicyParameters → PolicyPosition → Decimal
stop_level p position =
    mul default_precision position.price_range.lower_price
      (sub default_precision (whole 1) p.stop_buffer_fraction)

-- The rules that follow the pool's own price, in their fixed order.
unfoldable pub decide_by_price :
    PolicyEngine → PolicyState → PolicyPosition → PolicyObservation → Bool → Result PolicyOutcome
decide_by_price engine state position observation flat =
    let p = engine.parameters in
    let price = observation.amm_price_usdc in
    if le price (stop_level p position)
    then safety_exit p state observation PolicyActionKind.stop_out
        PolicyReason.downside_stop_triggered true false
    else if lt observation.emissions_apr p.min_entry_emissions_apr
    then safety_exit p state observation PolicyActionKind.dilution_exit
        PolicyReason.dilution_exit_triggered true true
    else if flat
    then safety_exit p state observation PolicyActionKind.event_exit
        PolicyReason.event_exit_triggered false false
    else if le position.price_range.upper_price price
    then decide_above engine state position observation
    else if lt price position.price_range.lower_price
    then decide_below engine state position observation
    else ok (decide_in_range state position)

unfoldable pub decide_with_position :
    PolicyEngine → PolicyState → PolicyObservation → Bool → Result PolicyOutcome
unfolding decide_by_price
decide_with_position engine state observation flat = do
  let p = engine.parameters
  position ← or_raise state.position value_error
  if reference_beyond_open_bound p observation
      then safety_exit p state observation PolicyActionKind.defensive_exit
          PolicyReason.reference_stale_defensive_exit false false
      else dislocation_outcome p state observation >>= elim [
        | some outcome ↦ ok outcome
        | none ↦ decide_by_price engine state position observation flat
      ]

abbrev pub timed_out : PolicyParameters → HeldInventory → PolicyObservation → Bool
timed_out p inventory observation =
    leb_ℤ p.convergence_timeout (observation.observed_at -ℤ inventory.held_since)

abbrev pub retry_reason : InventoryOrigin → Option PolicyReason
retry_reason InventoryOrigin.failed_entry = some PolicyReason.failed_entry_retry
retry_reason InventoryOrigin.failed_recenter = some PolicyReason.failed_recenter_retry
retry_reason InventoryOrigin.stale_low_exit = none
retry_reason InventoryOrigin.adopted_balance = none
retry_reason InventoryOrigin.out_of_range_exit = none

-- The pool has converged to a fresh reference.
unfoldable pub converged : PolicyParameters → PolicyObservation → Bool
converged p observation = elim (usable_reference p observation) [
  | none ↦ false
  | some reference ↦ le (stale_low_level p reference) observation.amm_price_usdc
]

-- Why the inventory is sold, if it is.
unfoldable pub sell_reason :
    PolicyParameters → HeldInventory → PolicyObservation → Bool → Option PolicyReason
unfolding converged
sell_reason p inventory observation flat =
    if flat
    then some PolicyReason.inventory_flat_window_sell
    else if timed_out p inventory observation
    then some PolicyReason.inventory_convergence_timeout
    else if converged p observation
    then some PolicyReason.inventory_convergence_reached
    else none

unfoldable pub sell_or_hold :
    PolicyParameters → PolicyState → HeldInventory → PolicyObservation → Bool → Result PolicyOutcome
sell_or_hold p state inventory observation flat = elim (sell_reason p inventory observation flat) [
  | none ↦ ok (hold state PolicyReason.holding_inventory_awaiting_convergence)
  | some reason ↦ do
    plan ←
        swap_plan p SwapDirection.sell_stock
          (mul default_precision inventory.stock_quantity observation.amm_price_usdc)
          observation.pool_depth_usd
    ok (record {
      decision =
          costed_decision PolicyActionKind.sell_inventory reason (some plan)
            (batch_gas p observation p.inventory_sell_gas_units);
      next_state = record state { held_inventory = none };
    })
]

abbrev pub is_enter : PolicyActionKind → Bool
is_enter PolicyActionKind.enter = true
is_enter _ = false

-- The retry of a failed mint, if its inventory allows one now.
abbrev pub retry_allowed :
    PolicyParameters → HeldInventory → PolicyObservation → Bool → Option PolicyReason
retry_allowed p inventory observation flat =
    if flat || timed_out p inventory observation then none else retry_reason inventory.origin

unfoldable pub decide_holding_inventory :
    PolicyEngine → PolicyState → PolicyObservation → Bool → Result PolicyOutcome
decide_holding_inventory engine state observation flat = do
  let p = engine.parameters
  inventory ← or_raise state.held_inventory value_error
  elim (retry_allowed p inventory observation flat) [
    | none ↦ sell_or_hold p state inventory observation flat
    | some reason ↦ do
      retry ← decide_flat engine (record state { held_inventory = none }) observation flat
      if is_enter retry.decision.action
          then ok (record {
            decision = record retry.decision { reason = reason };
            next_state = retry.next_state;
          })
          else sell_or_hold p state inventory observation flat
  ]

-- Held inventory first, then an open position, then the entry gates.
unfoldable pub dispatch :
    Option HeldInventory
    → Option PolicyPosition
    → PolicyEngine
    → PolicyState
    → PolicyObservation
    → Result PolicyOutcome
dispatch (some _) _ engine state observation =
    decide_holding_inventory engine state observation (flat_required observation)
dispatch none (some _) engine state observation =
    decide_with_position engine state observation (flat_required observation)
dispatch none none engine state observation =
    decide_flat engine state observation (flat_required observation)

unfoldable pub decide : PolicyEngine → PolicyState → PolicyObservation → Result PolicyOutcome
decide engine state observation =
    let observed = observe_day engine state observation in
    dispatch observed.held_inventory observed.position engine observed observation
