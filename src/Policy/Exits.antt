-- ===== src/Policy/Exits.antt =====
-- The holds and exits of src/aero_bot/policy.py: `_hold`, `_safety_exit`,
-- `_out_of_range_grace_exit` and the dislocation monitor `_dislocation_outcome`.
use aero_bot.Prelude.{ℕ, Bool, true, false, Option, none, some, ltb, if◌then◌else◌}
use aero_bot.Prelude.Int.{◌+ℤ◌}
use aero_bot.Prelude.Results.{Result, ok, or_raise, value_error, ◌>>=◌}
use aero_bot.Decimal.{Decimal, whole, lt, le, add, sub, mul, default_precision}
use aero_bot.Ranging.Types.{Instant}
use aero_bot.Policy.Parameters.{PolicyParameters}
use aero_bot.Policy.Types.{
  PolicyObservation, PolicyPosition, PolicyState, PolicyActionKind, PolicyReason, PolicyDecision,
  PolicyOutcome, HeldInventory, InventoryOrigin, SwapPlan, SwapDirection,
}
use aero_bot.Policy.Gas.{batch_gas}
use aero_bot.Policy.Swap.{stock_quantity, swap_plan}

-- A decision that carries nothing but its action and its reason.
abbrev pub bare_decision : PolicyActionKind → PolicyReason → PolicyDecision
bare_decision action reason = record {
  action = action;
  reason = reason;
  price_range = none;
  size_usd = none;
  swap_plan = none;
  width_solution = none;
  estimated_gas_units = none;
  estimated_gas_cost_usd = none;
}

abbrev pub hold : PolicyState → PolicyReason → PolicyOutcome
hold state reason = record {
  decision = bare_decision PolicyActionKind.hold reason;
  next_state = state;
}

-- A decision with a swap, if any, and with the gas of its batch.
abbrev pub costed_decision :
    PolicyActionKind → PolicyReason → Option SwapPlan → ℕ × Option Decimal → PolicyDecision
costed_decision action reason plan (units, cost) = record (bare_decision action reason) {
  swap_plan = plan;
  estimated_gas_units = some units;
  estimated_gas_cost_usd = cost;
}

-- The sale of a quantity of stock at the pool price; none where nothing is held.
unfoldable pub stock_sale :
    PolicyParameters → PolicyObservation → Decimal → Result (Option SwapPlan)
stock_sale p observation quantity =
    if le quantity (whole 0)
    then ok none
    else swap_plan p SwapDirection.sell_stock
        (mul default_precision quantity observation.amm_price_usdc) observation.pool_depth_usd
      >>= λ plan. ok (some plan)

abbrev pub cooldown_end : PolicyParameters → PolicyObservation → Bool → Option Instant
cooldown_end p observation with_cooldown =
    if with_cooldown then some (observation.observed_at +ℤ p.reentry_cooldown) else none

-- Burn the position and swap all of it back to USDC.
unfoldable pub safety_exit :
    PolicyParameters
    → PolicyState
    → PolicyObservation
    → PolicyActionKind
    → PolicyReason
    → (with_cooldown dilution_exit : Bool) → Result PolicyOutcome
unfolding stock_sale
safety_exit p state observation action reason with_cooldown dilution_exit = do
  position ← or_raise state.position value_error
  quantity ← stock_quantity position observation.amm_price_usdc
  plan ← stock_sale p observation quantity
  ok (record {
    decision = costed_decision action reason plan (batch_gas p observation p.exit_batch_gas_units);
    next_state = record state {
      position = none;
      reentry_blocked_until = cooldown_end p observation with_cooldown;
      dilution_exit_pending = dilution_exit;
    };
  })

-- The stock of a burned position, held outside the pool.
abbrev pub inventory_of :
    PolicyPosition → PolicyObservation → InventoryOrigin → Decimal → HeldInventory
inventory_of position observation origin quantity = record {
  pool_address = position.pool_address;
  token_address = position.token_address;
  stock_quantity = quantity;
  held_since = observation.observed_at;
  origin = origin;
}

-- Income protection: the position has been out of its range for the whole grace window.
unfoldable pub out_of_range_grace_exit :
    PolicyParameters → PolicyState → PolicyObservation → Result PolicyOutcome
out_of_range_grace_exit p state observation = do
  position ← or_raise state.position value_error
  quantity ← stock_quantity position observation.amm_price_usdc
  let held =
      (if lt (whole 0) quantity
        then some (inventory_of position observation InventoryOrigin.out_of_range_exit quantity)
        else state.held_inventory)
  ok (record {
    decision =
        costed_decision PolicyActionKind.range_grace_exit PolicyReason.out_of_range_grace_expired
          none (batch_gas p observation p.exit_batch_gas_units);
    next_state = record state {
      position = none;
      held_inventory = held;
      reentry_blocked_until = cooldown_end p observation true;
    };
  })

-- The entry bound on the reference quote, and the looser one of an open position. A quote that is
-- missing is never fresh.
abbrev older_than : ℕ → PolicyObservation → Bool
older_than bound observation =
    if observation.reference_enforcement_enabled
    then elim observation.reference_price_usdc [
      | none ↦ true
      | some _ ↦ elim observation.reference_age_seconds [ none ↦ true | some age ↦ ltb bound age ]
    ]
    else false

unfoldable pub reference_stale : PolicyParameters → PolicyObservation → Bool
reference_stale p = older_than p.reference_max_age_seconds

unfoldable pub reference_beyond_open_bound : PolicyParameters → PolicyObservation → Bool
reference_beyond_open_bound p = older_than p.reference_open_position_max_age_seconds

-- Stale-low: burn, and hold the stock outside the pool. The inventory's origin is the record's
-- default.
unfoldable pub stale_low_burn :
    PolicyParameters → PolicyState → PolicyObservation → PolicyPosition → Result PolicyOutcome
stale_low_burn p state observation position = do
  quantity ← stock_quantity position observation.amm_price_usdc
  let held =
      (if le quantity (whole 0)
        then state.held_inventory
        else some (inventory_of position observation InventoryOrigin.adopted_balance quantity))
  ok (record {
    decision =
        costed_decision PolicyActionKind.stale_low_burn PolicyReason.dislocation_stale_low_triggered
          none (batch_gas p observation p.exit_batch_gas_units);
    next_state = record state { position = none; held_inventory = held };
  })

-- The reference that the dislocation monitor compares with: enforced, present and fresh.
unfoldable pub usable_reference : PolicyParameters → PolicyObservation → Option Decimal
unfolding reference_stale
usable_reference p observation =
    if observation.reference_enforcement_enabled
    then if reference_stale p observation then none else observation.reference_price_usdc
    else none

-- The upper and the lower edge of the band around the reference.
abbrev pub stale_high_level : PolicyParameters → Decimal → Decimal
stale_high_level p reference =
    mul default_precision reference
      (add default_precision (whole 1) p.dislocation_threshold_fraction)

abbrev pub stale_low_level : PolicyParameters → Decimal → Decimal
stale_low_level p reference =
    mul default_precision reference
      (sub default_precision (whole 1) p.dislocation_threshold_fraction)

abbrev acted : Result PolicyOutcome → Result (Option PolicyOutcome)
acted r = r >>= λ out. ok (some out)

unfoldable pub dislocation_outcome :
    PolicyParameters → PolicyState → PolicyObservation → Result (Option PolicyOutcome)
unfolding usable_reference
dislocation_outcome p state observation = elim (usable_reference p observation) [
  | none ↦ ok none
  | some reference ↦ do
    position ← or_raise state.position value_error
    if le (stale_high_level p reference) observation.amm_price_usdc
        then acted (
            safety_exit p state observation PolicyActionKind.dislocation_exit
              PolicyReason.dislocation_stale_high_triggered false false)
        else if le observation.amm_price_usdc (stale_low_level p reference)
        then acted (stale_low_burn p state observation position)
        else ok none
]
