-- ===== src/Policy/Posture/Decide.antt =====
-- The posture through the whole of `decide` in src/aero_bot/policy.py.
use aero_bot.Policy.Flat.{flat_required, decide_flat}
use aero_bot.Prelude.Results.{
  or_raise, value_error, or_raise-eq_ok, Ensures-ok, Result, ok, Ensures, Ensures-bind,
}
use aero_bot.Policy.Engine.{
  retry_allowed, is_enter, stop_level, decide, dispatch, decide_by_price, decide_with_position,
  decide_holding_inventory, sell_or_hold,
}
use aero_bot.Policy.Exits.{reference_beyond_open_bound, safety_exit, dislocation_outcome}
use aero_bot.Decimal.{lt, le}
use aero_bot.Policy.Maintain.{decide_in_range}
use aero_bot.Prelude.{
  Bool, true, Option, none, some, ◌≡◌, refl, inl, inr, arith, Bool-cases, Option-cases,
}
use aero_bot.Policy.Types.{
  PolicyObservation, PolicyPosition, PolicyState, PolicyActionKind, PolicyReason, PolicyOutcome,
  HeldInventory,
}
use aero_bot.Policy.Day.{PolicyEngine, observe_day}
use aero_bot.Policy.Posture.{
  IsExclusive, Follows, FollowsIfAny, is_safety_exit, safety_exit-Follows,
  dislocation_outcome-Follows, decide_flat-Follows, decide_above-Follows, decide_below-Follows,
}

module _ (engine : PolicyEngine) (s : PolicyState) (observation : PolicyObservation)
    (exclusive : IsExclusive s) where
  exit-Follows :
      (action : PolicyActionKind) (reason : PolicyReason) (cooldown dilution : Bool)
      → is_safety_exit action cooldown dilution ≡ true
      → Ensures
          (safety_exit engine.parameters s observation action reason cooldown dilution)
          (Follows engine.parameters observation s)
  exit-Follows = safety_exit-Follows engine.parameters s observation exclusive

  module _ (position : PolicyPosition) (open_position : s.position ≡ some position) where
    decide_in_range-Follows : Follows engine.parameters observation s (decide_in_range s position)
    unfolding decide_in_range
    decide_in_range-Follows = ground arith

    decide_by_price-Follows :
        (flat : Bool)
        → Ensures
            (decide_by_price engine s position observation flat)
            (Follows engine.parameters observation s)
    unfolding decide_by_price
    decide_by_price-Follows flat =
        let p = engine.parameters in
        let price = observation.amm_price_usdc in
        elim (Bool-cases (le price (stop_level p position))) [
          | inl e ↦ rw e (exit-Follows _ _ _ _ refl)
          | inr e ↦
              rw e (elim (Bool-cases (lt observation.emissions_apr p.min_entry_emissions_apr)) [
                | inl e ↦ rw e (exit-Follows _ _ _ _ refl)
                | inr e ↦ rw e (elim (Bool-cases flat) [
                  | inl e ↦ rw e (exit-Follows _ _ _ _ refl)
                  | inr e ↦ rw e (elim (Bool-cases (le position.price_range.upper_price price)) [
                    | inl e ↦
                        rw e (
                          decide_above-Follows engine s observation exclusive position
                            open_position)
                    | inr e ↦ rw e (elim (Bool-cases (lt price position.price_range.lower_price)) [
                      | inl e ↦ rw e (
                          decide_below-Follows engine s observation exclusive position
                            open_position)
                      | inr e ↦ rw e decide_in_range-Follows
                    ])
                  ])
                ])
              ])
        ]

  after_dislocation-Follows :
      (result : Option PolicyOutcome) (rest : Result PolicyOutcome)
      → FollowsIfAny engine.parameters observation s result
      → Ensures rest (Follows engine.parameters observation s)
      → Ensures {A = PolicyOutcome}
          (elim result [ some outcome ↦ ok outcome | none ↦ rest ])
          (Follows engine.parameters observation s)
  after_dislocation-Follows none rest h k = k
  after_dislocation-Follows (some out) rest h k = h

  pub decide_with_position-Follows :
      (flat : Bool)
      → Ensures
          (decide_with_position engine s observation flat)
          (Follows engine.parameters observation s)
  unfolding decide_with_position
  decide_with_position-Follows flat =
      Ensures-bind (or_raise s.position value_error) _ (Follows engine.parameters observation s)
        λ position found.
          elim (Bool-cases (reference_beyond_open_bound engine.parameters observation)) [
            | inl e ↦ rw e (exit-Follows _ _ _ _ refl)
            | inr e ↦ rw e (
                Ensures-bind (dislocation_outcome engine.parameters s observation) _
                  (Follows engine.parameters observation s)
                  λ result computed.
                    after_dislocation-Follows result _
                      (Ensures-ok (dislocation_outcome engine.parameters s observation) _ computed
                        (dislocation_outcome-Follows engine.parameters s observation exclusive))
                      (decide_by_price-Follows position
                        (or_raise-eq_ok s.position value_error found) flat))
          ]

  sell_or_hold-Follows :
      (inventory : HeldInventory) (flat : Bool)
      → s.held_inventory ≡ some inventory
      → Ensures
          (sell_or_hold engine.parameters s inventory observation flat)
          (Follows engine.parameters observation s)
  unfolding sell_or_hold
  sell_or_hold-Follows inventory flat h = ground arith

-- An entry out of held inventory starts from the state without it.
retry-Follows :
    (engine : PolicyEngine) (observation : PolicyObservation) (s : PolicyState)
    (out : PolicyOutcome) (reason : PolicyReason)
    → s.position ≡ none
    → Follows engine.parameters observation (record s { held_inventory = none }) out
    → is_enter out.decision.action ≡ true
    → Follows engine.parameters observation s
        (record { decision = record out.decision { reason = reason }; next_state = out.next_state })
retry-Follows engine observation s out reason h follows entered = ground arith

module _ (engine : PolicyEngine) (s : PolicyState) (observation : PolicyObservation)
    (exclusive : IsExclusive s) where
  decide_holding_inventory-Follows :
      (flat : Bool)
      → Ensures
          (decide_holding_inventory engine s observation flat)
          (Follows engine.parameters observation s)
  unfolding decide_holding_inventory
  decide_holding_inventory-Follows flat =
      Ensures-bind (or_raise s.held_inventory value_error) _
        (Follows engine.parameters observation s)
        λ inventory found.
          let held = or_raise-eq_ok s.held_inventory value_error found in
          let alone : s.position ≡ none = ground arith in
          let sold = sell_or_hold-Follows engine s observation exclusive inventory flat held in
          let emptied : PolicyState = record s { held_inventory = none } in
          elim (Option-cases (retry_allowed engine.parameters inventory observation flat)) [
            | inl e ↦ rw e sold
            | inr (reason, e) ↦ rw e (
                Ensures-bind (decide_flat engine emptied observation flat) _
                  (Follows engine.parameters observation s)
                  λ retry computed. elim (Bool-cases (is_enter retry.decision.action)) [
                    | inl e ↦ rw e (
                        retry-Follows engine observation s retry reason alone
                          (Ensures-ok (decide_flat engine emptied observation flat)
                            (Follows engine.parameters observation emptied) computed
                            (decide_flat-Follows engine emptied observation (ground arith) flat
                              alone refl))
                          e)
                    | inr e ↦ rw e sold
                  ])
          ]

  dispatch-Follows :
      (held : Option HeldInventory) (open_position : Option PolicyPosition)
      → s.held_inventory ≡ held
      → s.position ≡ open_position
      → Ensures
          (dispatch held open_position engine s observation)
          (Follows engine.parameters observation s)
  unfolding dispatch
  dispatch-Follows (some _) _ _ _ = decide_holding_inventory-Follows (flat_required observation)
  dispatch-Follows none (some _) _ _ =
      decide_with_position-Follows engine s observation exclusive (flat_required observation)
  dispatch-Follows none none h k =
      decide_flat-Follows engine s observation exclusive (flat_required observation) k h

-- The day machinery leaves all but the day's facts alone.
pub observe_day_keeps :
    (engine : PolicyEngine) (s : PolicyState) (observation : PolicyObservation)
    → let t = observe_day engine s observation in
      (t.position ≡ s.position)
      × (t.held_inventory ≡ s.held_inventory)
      × (t.reentry_blocked_until ≡ s.reentry_blocked_until)
      × (t.dilution_exit_pending ≡ s.dilution_exit_pending)
unfolding observe_day
observe_day_keeps engine s observation = ground arith

-- From a state that does not hold both a position and inventory, every normal return of `decide`
-- follows from the state after the day machinery: a hold keeps whether a position is open, and the
-- inventory; an entry opens a position where none was and leaves no inventory; a recenter keeps
-- one open, and the inventory; a stop-out, a dilution, event, dislocation or defensive exit closes the position and keeps the inventory; a
-- stale-low burn or a grace exit closes it; a sale empties the inventory and keeps the position;
-- and no pool switch occurs. The state after it does not hold both either. A stop-out, a dilution
-- exit and a grace exit block re-entry for the cooldown, the other three exits lift the block, and
-- the rest keep it. A dilution exit leaves its margin pending, an entry and the other safety exits
-- clear it, and the rest keep it. The facts of the day are those of the day machinery.
pub decide-Follows :
    (engine : PolicyEngine) (state : PolicyState) (observation : PolicyObservation)
    → IsExclusive state
    → Ensures
        (decide engine state observation)
        (Follows engine.parameters observation (observe_day engine state observation))
unfolding decide
decide-Follows engine state observation exclusive =
    let observed = observe_day engine state observation in
    let (same_position, same_inventory, _, _) = observe_day_keeps engine state observation in
    dispatch-Follows engine observed observation (rw (same_position, same_inventory) exclusive) _ _
      refl refl
