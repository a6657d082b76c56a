-- ===== src/Policy/Entry/Decide.antt =====
-- Entries through the whole of `decide` in src/aero_bot/policy.py.
use aero_bot.Prelude.{
  Bool, false, Option, none, some, ◌≡◌, refl, inl, inr, arith, Bool-cases, Option-cases, ◌∙◌, sym,
  ap,
}
use mathlib.Core.Bool.{false≢true}
use aero_bot.Prelude.Results.{Ensures, Ensures-bind, Ensures-map, Ensures-ok, or_raise, value_error}
use aero_bot.Policy.Types.{
  PolicyObservation, PolicyPosition, PolicyState, PolicyActionKind, PolicyOutcome, HeldInventory,
}
use aero_bot.Policy.Day.{PolicyEngine, observe_day}
use aero_bot.Policy.Flat.{flat_required, decide_flat}
use aero_bot.Policy.Engine.{
  decide, dispatch, decide_with_position, decide_holding_inventory, sell_or_hold, retry_allowed,
  is_enter,
}
use aero_bot.Policy.Posture.{Posture, IsExclusive}
use aero_bot.Policy.Posture.Decide.{observe_day_keeps, decide_with_position-Follows}
use aero_bot.Policy.Entry.{EntryGates, EntersBy, decide_flat-EntersBy}

module _ (engine : PolicyEngine) (s : PolicyState) (observation : PolicyObservation)
    (exclusive : IsExclusive s) where
  -- With a position open nothing is entered.
  with_position-EntersBy :
      {position : PolicyPosition}
      → s.position ≡ some position
      → Ensures
          (decide_with_position engine s observation (flat_required observation))
          (EntersBy engine s observation)
  with_position-EntersBy h =
      Ensures-map (decide_with_position engine s observation (flat_required observation)) _ _
        (λ out follows entered. absurd (never out (follows.posture) entered))
        (decide_with_position-Follows engine s observation exclusive (flat_required observation))
    where
      never :
          (out : PolicyOutcome)
          → Posture out.decision.action s out.next_state
          → out.decision.action ≡ PolicyActionKind.enter
          → ⊥
      never out posture entered = ground arith

  sell_or_hold-EntersBy :
      (inventory : HeldInventory) (flat : Bool)
      → Ensures
          (sell_or_hold engine.parameters s inventory observation flat)
          (λ out. is_enter out.decision.action ≡ false)
  unfolding sell_or_hold
  sell_or_hold-EntersBy inventory flat = ground arith

  -- No gate looks at the inventory.
  same_gates :
      EntryGates engine.parameters (record s { held_inventory = none }) observation
      → EntryGates engine.parameters s observation
  same_gates g = record {
    no_halt = g.no_halt;
    no_cooldown = g.no_cooldown;
    oracle_fresh = g.oracle_fresh;
    registry_active = g.registry_active;
    reference_fresh = g.reference_fresh;
    above_floor = g.above_floor;
    above_margin = g.above_margin;
    some_size = g.some_size;
    affordable = g.affordable;
  }

  sold-EntersBy :
      (inventory : HeldInventory) (flat : Bool)
      → Ensures
          (sell_or_hold engine.parameters s inventory observation flat)
          (EntersBy engine s observation)
  sold-EntersBy inventory flat =
      Ensures-map (sell_or_hold engine.parameters s inventory observation flat) _ _
        (λ out not_entered entered. absurd (false≢true (sym not_entered ∙ ap is_enter entered)))
        (sell_or_hold-EntersBy inventory flat)

  holding-EntersBy :
      Ensures
        (decide_holding_inventory engine s observation (flat_required observation))
        (EntersBy engine s observation)
  unfolding decide_holding_inventory
  holding-EntersBy =
      let flat = flat_required observation in
      let emptied : PolicyState = record s { held_inventory = none } in
      Ensures-bind (or_raise s.held_inventory value_error) _ (EntersBy engine s observation)
        λ inventory found.
          elim (Option-cases (retry_allowed engine.parameters inventory observation flat)) [
            | inl e ↦ rw (e, Ensures) (sold-EntersBy inventory flat)
            | inr (reason, e) ↦
                rw (e, Ensures)
                  (Ensures-bind (decide_flat engine emptied observation flat) _
                    (EntersBy engine s observation)
                    λ retry computed. elim (Bool-cases (is_enter retry.decision.action)) [
                      | inr e ↦ rw e (sold-EntersBy inventory flat)
                      | inl e ↦ rw e (λ entered.
                          let (gates, opened, cleared) =
                            Ensures-ok (decide_flat engine emptied observation flat)
                              (EntersBy engine emptied observation) computed
                              (decide_flat-EntersBy engine emptied observation) entered in
                          (same_gates gates, opened, cleared))
                    ])
          ]

  dispatch-EntersBy :
      (held : Option HeldInventory) (open_position : Option PolicyPosition)
      → s.position ≡ open_position
      → Ensures (dispatch held open_position engine s observation) (EntersBy engine s observation)
  unfolding dispatch
  dispatch-EntersBy (some _) _ _ = holding-EntersBy
  dispatch-EntersBy none (some _) h = with_position-EntersBy h
  dispatch-EntersBy none none _ = decide_flat-EntersBy engine s observation

-- Whenever `decide` enters, from a state that does not hold both a position and inventory, every
-- entry gate holds of the observation and of the state after the day machinery: the day is not
-- halted, no cooldown runs, the oracle is fresh and the registry active, the reference quote is
-- fresh where it is enforced, the emissions clear the floor and, after a dilution exit, its margin,
-- the size is positive, and the gas price is known, under its ceiling and worth its yield. The
-- position that is opened commits exactly the capped size, at most the equity cap and at most the
-- depth cap, at the range of the decision.
pub decide-EntersBy :
    (engine : PolicyEngine) (state : PolicyState) (observation : PolicyObservation)
    → IsExclusive state
    → Ensures
        (decide engine state observation)
        (EntersBy engine (observe_day engine state observation) observation)
unfolding decide
decide-EntersBy engine state observation exclusive =
    let observed = observe_day engine state observation in
    let (same_position, same_inventory, _, _) = observe_day_keeps engine state observation in
    dispatch-EntersBy engine observed observation (rw (same_position, same_inventory) exclusive) _ _
      refl
