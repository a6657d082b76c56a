-- ===== src/Policy/Trace/Agreement.antt =====
-- The trace of src/aero_bot/policy.py against its decisions.
use aero_bot.Prelude.{true, Option, none, some, List, [], ◌∷◌, ◌≡◌, arith, if◌then◌else◌}
use aero_bot.Prelude.Results.{Ensures}
use aero_bot.Decimal.{le}
use aero_bot.Decimal.Order.{le_trans}
use aero_bot.Policy.Types.{
  PolicyObservation, PolicyState, PolicyActionKind, PolicyReason, PolicyOutcome,
}
use aero_bot.Policy.Day.{PolicyEngine, observe_day}
use aero_bot.Policy.Gas.{gas_gate_blocks}
use aero_bot.Policy.Exits.{reference_stale}
use aero_bot.Policy.Flat.{
  decide_flat, entry_refusal, enter_by_solution, enter, flat_required, margin_bound,
}
use aero_bot.Policy.Posture.Decide.{observe_day_keeps}
use aero_bot.Policy.Trace.{Gate, GateLine, measured_gates, solve_gate, flat_basis_of}

-- The first gate that fails.
abbrev pub first_failure : List GateLine → Option Gate
first_failure [] = none
first_failure (line ∷ lines) = if line.passes then first_failure lines else some line.gate

-- The gate that a reason to hold belongs to. One reason covers both gas gates, and two the floor.
abbrev pub gate_of : PolicyReason → Option Gate
gate_of PolicyReason.daily_loss_halt_active = some Gate.daily_loss_halt
gate_of PolicyReason.entry_cooldown_active = some Gate.reentry_cooldown
gate_of PolicyReason.event_window_flat = some Gate.condition_flat
gate_of PolicyReason.reference_stale = some Gate.reference_freshness
gate_of PolicyReason.emissions_below_entry_threshold = some Gate.emissions_floor
gate_of PolicyReason.dilution_reentry_margin_active = some Gate.emissions_floor
gate_of PolicyReason.entry_size_empty = some Gate.entry_size_positive
gate_of PolicyReason.gas_gate_deferred = some Gate.gas_ceiling
gate_of PolicyReason.range_evidence_deferred = some Gate.range_width_solve
gate_of PolicyReason.range_net_nonpositive = some Gate.range_width_solve
gate_of _ = none

abbrev pub one_gas_gate : Gate → Gate
one_gas_gate Gate.gas_cost_vs_yield = Gate.gas_ceiling
one_gas_gate gate = gate

-- What a trace says of a decision: no failure, an entry; a failure, a hold for that gate's reason.
abbrev pub Foretells : Option Gate → PolicyOutcome → Type 0
Foretells none out = out.decision.action ≡ PolicyActionKind.enter
Foretells (some gate) out =
    (out.decision.action ≡ PolicyActionKind.hold)
    × (gate_of out.decision.reason ≡ some (one_gas_gate gate))

abbrev pub Blames : Option PolicyReason → Option Gate → Type 0
Blames none none = Unit
Blames none (some _) = ⊥
Blames (some _) none = ⊥
Blames (some reason) (some gate) = gate_of reason ≡ some (one_gas_gate gate)

module _ (engine : PolicyEngine) (state : PolicyState) (observation : PolicyObservation)
    (raised : le engine.parameters.min_entry_emissions_apr (margin_bound engine.parameters)
      ≡ true) where
  abbrev pub working : PolicyState
  working = observe_day engine (flat_basis_of state) observation

  pub measured_gates-Blames :
      Blames
        (entry_refusal engine.parameters working observation (flat_required observation))
        (first_failure (measured_gates engine.parameters (flat_basis_of state) working observation))
  unfolding entry_refusal measured_gates reference_stale gas_gate_blocks
  measured_gates-Blames =
      let kept = observe_day_keeps engine (flat_basis_of state) observation in
      ground (
        arith,
        le_trans engine.parameters.min_entry_emissions_apr (margin_bound engine.parameters)
            observation.emissions_apr,
      )

  pub solve_gate-Foretells : Ensures (solve_gate engine observation) (λ last.
      entry_refusal engine.parameters working observation (flat_required observation) ≡ none
      → Ensures
          (decide_flat engine working observation (flat_required observation))
          (Foretells (first_failure (last ∷ []))))
  unfolding solve_gate entry_refusal decide_flat enter_by_solution enter gas_gate_blocks
  solve_gate-Foretells = ground arith
