-- ===== src/Policy/Entry/Verdicts.antt =====
-- The verdicts of `decide` in src/aero_bot/policy.py on entries, from the gates to the action and
-- from the action to the gates.
use aero_bot.Prelude.{false, Option, none, some, ◌≡◌, refl, inl, inr, arith, Option-cases, ◌∙◌}
use aero_bot.Prelude.Results.{ok, Ensures-ok, Returns}
use aero_bot.Decimal.{div, whole, default_precision}
use aero_bot.Ranging.Types.{WidthSolution, WidthSolveMode}
use aero_bot.Policy.Types.{
  PolicyObservation, PolicyPosition, PolicyState, PolicyActionKind, PolicyOutcome, HeldInventory,
  AlignedPriceRange, SwapPlan, SwapDirection,
}
use aero_bot.Policy.Day.{PolicyEngine, observe_day}
use aero_bot.Policy.Swap.{swap_plan}
use aero_bot.Policy.Width.{solve_range_width, range_for_solution}
use aero_bot.Policy.Flat.{
  decide_flat, enter, enter_by_solution, entry_refusal, entry_size, flat_required,
}
use aero_bot.Policy.Engine.{decide, dispatch}
use aero_bot.Policy.Posture.{IsExclusive}
use aero_bot.Policy.Posture.Decide.{observe_day_keeps}
use aero_bot.Policy.Entry.{EntryGates, OpensEntry, entry_refusal-none_iff}
use aero_bot.Policy.Entry.Decide.{decide-EntersBy}

-- Whenever `decide` enters, from a state that does not hold both a position and inventory, every
-- entry gate holds of the observation and of the state after the day machinery: the day is not
-- halted, no cooldown runs, the oracle is fresh and the registry active, the reference quote is
-- fresh where it is enforced, the emissions clear the floor and, after a dilution exit, its margin,
-- the size is positive, and the gas price is known, under its ceiling and worth its yield. The
-- position that is opened commits exactly the capped size, at most the equity cap and at most the
-- depth cap, at the range of the decision, and no dilution margin is left pending.
pub entry_passed_every_gate :
    (engine : PolicyEngine) (state : PolicyState) (observation : PolicyObservation)
    (out : PolicyOutcome)
    → IsExclusive state
    → decide engine state observation ≡ ok out
    → out.decision.action ≡ PolicyActionKind.enter
    → EntryGates engine.parameters (observe_day engine state observation) observation
      × OpensEntry engine observation out
      × (out.next_state.dilution_exit_pending ≡ false)
entry_passed_every_gate engine state observation out exclusive decided =
    Ensures-ok _ _ decided (decide-EntersBy engine state observation exclusive)

module _ (engine : PolicyEngine) (s : PolicyState) (observation : PolicyObservation) where
  pub dispatch-flat :
      {held : Option HeldInventory} {open_position : Option PolicyPosition}
      → held ≡ none
      → open_position ≡ none
      → dispatch held open_position engine s observation
        ≡ decide_flat engine s observation (flat_required observation)
  unfolding dispatch
  dispatch-flat e k = rw (e, k) refl

  flat-enters :
      (solution : WidthSolution) (range : AlignedPriceRange) (plan : SwapPlan)
      → entry_refusal engine.parameters s observation (flat_required observation) ≡ none
      → solve_range_width engine observation (entry_size engine.parameters observation)
        ≡ ok solution
      → solution.mode ≡ WidthSolveMode.solved
      → range_for_solution solution ≡ ok range
      → swap_plan engine.parameters SwapDirection.buy_stock
          (div default_precision (entry_size engine.parameters observation) (whole 2))
          observation.pool_depth_usd
        ≡ ok plan
      → Returns (decide_flat engine s observation (flat_required observation)) (λ out.
        (out.decision.action ≡ PolicyActionKind.enter) × (out.decision.price_range ≡ some range))
  unfolding decide_flat enter_by_solution enter
  flat-enters solution range plan passes solved mode bounds planned = ground arith

  flat-refuses :
      ¬ (EntryGates engine.parameters s observation)
      → Returns
          (decide_flat engine s observation (flat_required observation))
          (λ out. (out.decision.action ≡ PolicyActionKind.hold) × (out.next_state ≡ s))
  unfolding decide_flat
  flat-refuses closed =
      elim (Option-cases
        (entry_refusal engine.parameters s observation (flat_required observation))) [
          | inl e ↦ absurd (closed ((entry_refusal-none_iff engine.parameters s observation).0 e))
          | inr (reason, e) ↦ rw (e, Returns) (refl, refl)
        ]

module _ (engine : PolicyEngine) (state : PolicyState) (observation : PolicyObservation)
    (no_position : state.position ≡ none) (no_inventory : state.held_inventory ≡ none) where
  -- A flat state with every gate open, on the state after the day machinery, enters: if the range
  -- solver solves a width for the size of the entry, its bounds give a range, and the swap of half
  -- of the size can be planned, `decide` returns an entry at that range.
  pub open_gates_enter :
      (solution : WidthSolution) (range : AlignedPriceRange) (plan : SwapPlan)
      → EntryGates engine.parameters (observe_day engine state observation) observation
      → solve_range_width engine observation (entry_size engine.parameters observation)
        ≡ ok solution
      → solution.mode ≡ WidthSolveMode.solved
      → range_for_solution solution ≡ ok range
      → swap_plan engine.parameters SwapDirection.buy_stock
          (div default_precision (entry_size engine.parameters observation) (whole 2))
          observation.pool_depth_usd
        ≡ ok plan
      → Returns (decide engine state observation) (λ out.
        (out.decision.action ≡ PolicyActionKind.enter) × (out.decision.price_range ≡ some range))
  unfolding decide
  open_gates_enter solution range plan gates solved mode bounds planned =
      let observed = observe_day engine state observation in
      let (same_position, same_inventory, _, _) = observe_day_keeps engine state observation in
      rw
        (dispatch-flat engine observed observation (same_inventory ∙ no_inventory)
          (same_position ∙ no_position))
        (flat-enters engine observed observation solution range plan
          ((entry_refusal-none_iff engine.parameters observed observation).1 gates) solved mode
          bounds planned)

  -- A flat state with any gate closed, on the state after the day machinery, never raises:
  -- `decide` returns a hold, and changes nothing but what the day machinery does.
  pub closed_gate_holds :
      ¬ (EntryGates engine.parameters (observe_day engine state observation) observation)
      → Returns (decide engine state observation) (λ out.
        (out.decision.action ≡ PolicyActionKind.hold)
        × (out.next_state ≡ observe_day engine state observation))
  unfolding decide
  closed_gate_holds closed =
      let observed = observe_day engine state observation in
      let (same_position, same_inventory, _, _) = observe_day_keeps engine state observation in
      rw
        (dispatch-flat engine observed observation (same_inventory ∙ no_inventory)
          (same_position ∙ no_position))
        (flat-refuses engine observed observation closed)
