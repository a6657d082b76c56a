-- ===== src/Policy/Stops.antt =====
-- What `decide` in src/aero_bot/policy.py may not put off: the stop-out of an open position and the
-- sale of held inventory.
use aero_bot.Prelude.Int.{◌+ℤ◌}
use aero_bot.Prelude.Results.{Returns, ok}
use aero_bot.Decimal.{mul, default_precision, Decimal, le}
use aero_bot.Policy.Types.{
  SwapPlan, SwapDirection, PolicyObservation, PolicyPosition, PolicyState, PolicyActionKind,
  PolicyOutcome, HeldInventory,
}
use aero_bot.Policy.Swap.{stock_quantity, swap_plan}
use aero_bot.Policy.Exits.{
  stock_sale, safety_exit, reference_beyond_open_bound, dislocation_outcome,
}
use aero_bot.Prelude.{◌∙◌, true, false, Option, none, some, ◌≡◌, refl, arith}
use aero_bot.Policy.Parameters.{PolicyParameters}
use aero_bot.Policy.Day.{PolicyEngine, observe_day}
use aero_bot.Policy.Engine.{
  decide, dispatch, decide_with_position, decide_holding_inventory, stop_level, timed_out,
  sell_or_hold, sell_reason,
}
use aero_bot.Policy.Flat.{flat_required}
use aero_bot.Policy.Posture.Decide.{observe_day_keeps}

-- The stop-out's step, and the state it leaves.
abbrev pub IsStopOut : PolicyParameters → PolicyObservation → PolicyOutcome → Type 0
IsStopOut p observation out =
    (out.decision.action ≡ PolicyActionKind.stop_out)
    × (out.next_state.position ≡ none)
    × (out.next_state.reentry_blocked_until ≡ some (observation.observed_at +ℤ p.reentry_cooldown))

module _ (engine : PolicyEngine) (state : PolicyState) (observation : PolicyObservation) where
  stop_first :
      (position : PolicyPosition) (quantity : Decimal) (sale : Option SwapPlan)
      → state.position ≡ some position
      → observation.reference_enforcement_enabled ≡ false
      → le observation.amm_price_usdc (stop_level engine.parameters position) ≡ true
      → stock_quantity position observation.amm_price_usdc ≡ ok quantity
      → stock_sale engine.parameters observation quantity ≡ ok sale
      → Returns
          (decide_with_position engine state observation (flat_required observation))
          (IsStopOut engine.parameters observation)
  unfolding decide_with_position reference_beyond_open_bound dislocation_outcome safety_exit
  stop_first position quantity sale found advisory low valued sold = ground arith

  sold_after_timeout :
      (inventory : HeldInventory) (plan : SwapPlan)
      → state.held_inventory ≡ some inventory
      → timed_out engine.parameters inventory observation ≡ true
      → swap_plan engine.parameters SwapDirection.sell_stock
          (mul default_precision inventory.stock_quantity observation.amm_price_usdc)
          observation.pool_depth_usd
        ≡ ok plan
      → Returns
          (decide_holding_inventory engine state observation (flat_required observation))
          (λ out.
            (out.decision.action ≡ PolicyActionKind.sell_inventory)
            × (out.next_state.held_inventory ≡ none))
  unfolding decide_holding_inventory sell_or_hold sell_reason
  sold_after_timeout inventory plan found late sold = ground arith

-- How `dispatch` chooses.
module _ (engine : PolicyEngine) (s : PolicyState) (observation : PolicyObservation) where
  dispatch-open :
      {held : Option HeldInventory} {open_position : Option PolicyPosition}
      (position : PolicyPosition)
      → held ≡ none
      → open_position ≡ some position
      → dispatch held open_position engine s observation
        ≡ decide_with_position engine s observation (flat_required observation)
  unfolding dispatch
  dispatch-open position e k = rw (e, k) refl

  dispatch-held :
      {held : Option HeldInventory} (open_position : Option PolicyPosition)
      (inventory : HeldInventory)
      → held ≡ some inventory
      → dispatch held open_position engine s observation
        ≡ decide_holding_inventory engine s observation (flat_required observation)
  unfolding dispatch
  dispatch-held open_position inventory e = rw e refl

-- Whatever the day machinery does, `decide` dispatches on the posture before it.
module _ (engine : PolicyEngine) (state : PolicyState) (observation : PolicyObservation) where
  -- With an open position and no held inventory, while the off-chain reference is not enforced, a
  -- pool price at or below the stop level leads to a stop-out, whatever else holds: emissions,
  -- flat window, range evidence, gas price or grace window. `decide` returns if the stock of the
  -- position can be computed and its sale planned; the position is closed and the cooldown armed.
  pub stop_is_never_deferred :
      (position : PolicyPosition) (quantity : Decimal) (sale : Option SwapPlan)
      → state.position ≡ some position
      → state.held_inventory ≡ none
      → observation.reference_enforcement_enabled ≡ false
      → le observation.amm_price_usdc (stop_level engine.parameters position) ≡ true
      → stock_quantity position observation.amm_price_usdc ≡ ok quantity
      → stock_sale engine.parameters observation quantity ≡ ok sale
      → Returns (decide engine state observation) (IsStopOut engine.parameters observation)
  unfolding decide
  stop_is_never_deferred position quantity sale open_position empty advisory low valued sold =
      let (same_position, same_inventory, _, _) = observe_day_keeps engine state observation in
      let observed = observe_day engine state observation in
      let none_held : observed.held_inventory ≡ none = same_inventory ∙ empty in
      let found : observed.position ≡ some position = same_position ∙ open_position in
      rw (dispatch-open engine observed observation position none_held found) (
        stop_first engine observed observation position quantity sale found advisory low valued
          sold)

  -- Held inventory is sold, and none is left, once the convergence timeout has elapsed since it was
  -- taken, whatever its origin and whatever the entry gates say. `decide` returns if the sale can be
  -- planned.
  pub timed_out_inventory_is_sold :
      (inventory : HeldInventory) (plan : SwapPlan)
      → state.held_inventory ≡ some inventory
      → timed_out engine.parameters inventory observation ≡ true
      → swap_plan engine.parameters SwapDirection.sell_stock
          (mul default_precision inventory.stock_quantity observation.amm_price_usdc)
          observation.pool_depth_usd
        ≡ ok plan
      → Returns (decide engine state observation) (λ out.
        (out.decision.action ≡ PolicyActionKind.sell_inventory)
        × (out.next_state.held_inventory ≡ none))
  unfolding decide
  timed_out_inventory_is_sold inventory plan held late sold =
      let (_, same_inventory, _, _) = observe_day_keeps engine state observation in
      let observed = observe_day engine state observation in
      let found : observed.held_inventory ≡ some inventory = same_inventory ∙ held in
      rw (dispatch-held engine observed observation _ inventory found)
        (sold_after_timeout engine observed observation inventory plan found late sold)
