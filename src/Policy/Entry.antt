-- ===== src/Policy/Entry.antt =====
-- When src/aero_bot/policy.py enters a position: the gates of `_decide_flat`, read as conditions on
-- the observation and the state, and the position that an entry opens.
pub mod Decide
pub mod Verdicts
use aero_bot.Ranging.Types.{WidthSolveMode, WidthSolution}
use aero_bot.Prelude.Results.{Ensures-map, Result, ok, err, Ensures, Ensures-bind, ◌>>=◌}
use aero_bot.Policy.Width.{solve_range_width}
use aero_bot.Policy.Exits.{hold, reference_stale}
use aero_bot.Decimal.Extremes.{min_bounds}
use aero_bot.Prelude.{
  ℕ, Bool, true, false, not, Option, none, some, if◌then◌else◌, ◌≡◌, refl, ◌⊎◌, inl, inr, arith,
  ◌↔◌, ◌≤◌, is_none, Bool-cases, Option-cases, ◌||◌, ◌&&◌,
}
use aero_bot.Prelude.Int.{◌≤ℤ◌}
use aero_bot.Decimal.{Decimal, lt, le, min, whole, mul, default_precision}
use aero_bot.Policy.Parameters.{PolicyParameters}
use aero_bot.Policy.Types.{
  PolicyObservation, PolicyPosition, PolicyState, PolicyActionKind, PolicyReason, PolicyOutcome,
  HeldInventory,
}
use aero_bot.Policy.Day.{PolicyEngine, observe_day, same_day}
use aero_bot.Policy.Gas.{
  gas_gate_blocks, batch_cost_usd, expected_daily_gross_yield, total_gas_units,
}
use aero_bot.Policy.Flat.{
  decide_flat, enter, enter_by_solution, entry_refusal, flat_required, entry_size, margin_bound,
  equity_cap, depth_cap,
}

-- The reference quote is not enforced, or it is present and within the entry bound.
abbrev HasQuote : ℕ → Option Decimal → Option ℕ → Type 0
HasQuote bound (some _) (some age) = age ≤ bound
HasQuote bound none _ = ⊥
HasQuote bound (some _) none = ⊥

abbrev pub IsFresh : PolicyParameters → PolicyObservation → Type 0
IsFresh p observation =
    (observation.reference_enforcement_enabled ≡ false)
    ⊎ HasQuote p.reference_max_age_seconds observation.reference_price_usdc
        observation.reference_age_seconds

abbrev pub IsOver : PolicyState → PolicyObservation → Type 0
IsOver state observation = elim state.reentry_blocked_until [
  | none ↦ Unit {0}
  | some until ↦ until ≤ℤ observation.observed_at
]

-- The gas price is known, under its ceiling, and the batch costs at most its share of the yield.
abbrev pub IsAffordable : PolicyParameters → PolicyObservation → ℕ → Decimal → Type 0
IsAffordable p observation units value = elim observation.gas_price_gwei [
  | none ↦ ⊥
  | some gas_price ↦
      (le gas_price p.gas_price_ceiling_gwei ≡ true)
      × (le (batch_cost_usd p (total_gas_units p units) gas_price) (
            mul default_precision p.gas_cost_max_gross_yield_fraction
              (expected_daily_gross_yield observation value))
          ≡ true)
]

-- Every gate of an entry, on the state after the day machinery.
pub record EntryGates (p : PolicyParameters) (state : PolicyState) (observation : PolicyObservation)
    : Type 0 where
  pub no_halt : same_day state.halted_day state.day ≡ false
  pub no_cooldown : IsOver state observation
  pub oracle_fresh : observation.oracle_stale ≡ false
  pub registry_active : observation.registry_paused ≡ false
  pub reference_fresh : IsFresh p observation
  pub above_floor : le p.min_entry_emissions_apr observation.emissions_apr ≡ true
  pub above_margin :
      state.dilution_exit_pending ≡ true → le (margin_bound p) observation.emissions_apr ≡ true
  pub some_size : lt (whole 0) (entry_size p observation) ≡ true
  pub affordable : IsAffordable p observation p.enter_batch_gas_units (entry_size p observation)

module _ (p : PolicyParameters) (state : PolicyState) (observation : PolicyObservation) where
  entry_refusal-none_iff :
      (entry_refusal p state observation (flat_required observation) ≡ none)
      ↔ EntryGates p state observation
  unfolding entry_refusal reference_stale gas_gate_blocks
  entry_refusal-none_iff = ground arith

-- The position that an entry opens: of the capped size, at the range of the decision.
abbrev pub OpensEntry : PolicyEngine → PolicyObservation → PolicyOutcome → Type 0
OpensEntry engine observation out = elim out.next_state.position [
  | none ↦ ⊥
  | some position ↦
      (position.committed_usd ≡ entry_size engine.parameters observation)
      × (le position.committed_usd (equity_cap engine.parameters observation) ≡ true)
      × (le position.committed_usd (depth_cap engine.parameters observation) ≡ true)
      × (out.decision.size_usd ≡ some position.committed_usd)
      × (out.decision.price_range ≡ some position.price_range)
      × (position.entered_at ≡ observation.observed_at)
      × (position.out_of_range_since ≡ none)
]

abbrev pub EntersBy : PolicyEngine → PolicyState → PolicyObservation → PolicyOutcome → Type 0
EntersBy engine observed observation out =
    out.decision.action ≡ PolicyActionKind.enter
    → EntryGates engine.parameters observed observation
      × OpensEntry engine observation out
      × (out.next_state.dilution_exit_pending ≡ false)

module _ (engine : PolicyEngine) (s : PolicyState) (observation : PolicyObservation) where
  enter-OpensEntry :
      (solution : WidthSolution)
      → Ensures (enter engine s observation solution) (λ out.
        OpensEntry engine observation out × (out.next_state.dilution_exit_pending ≡ false))
  unfolding enter
  enter-OpensEntry solution =
      let p = engine.parameters in
      ground (arith, min_bounds (equity_cap p observation) (depth_cap p observation))

  enter_by_solution-OpensEntry :
      (solution : WidthSolution)
      → Ensures (enter_by_solution engine s observation solution) (λ out.
        out.decision.action ≡ PolicyActionKind.enter
        → OpensEntry engine observation out × (out.next_state.dilution_exit_pending ≡ false))
  unfolding enter_by_solution
  enter_by_solution-OpensEntry solution = by_mode solution.mode
    where
      mints : Ensures (enter engine s observation solution) (λ out.
          out.decision.action ≡ PolicyActionKind.enter
          → OpensEntry engine observation out × (out.next_state.dilution_exit_pending ≡ false))
      mints =
          Ensures-map (enter engine s observation solution) _ _ (λ out h _. h)
            (enter-OpensEntry solution)

      by_mode :
          (mode : WidthSolveMode)
          → Ensures {A = PolicyOutcome}
              (elim mode [
                | WidthSolveMode.deferred ↦ ok (hold s PolicyReason.range_evidence_deferred)
                | WidthSolveMode.cash_hold ↦ ok (hold s PolicyReason.range_net_nonpositive)
                | WidthSolveMode.solved ↦ enter engine s observation solution
                | WidthSolveMode.fallback_ceiling ↦ enter engine s observation solution
              ])
              (λ out.
                out.decision.action ≡ PolicyActionKind.enter
                → OpensEntry engine observation out
                  × (out.next_state.dilution_exit_pending ≡ false))
      by_mode WidthSolveMode.deferred = λ h. cc
      by_mode WidthSolveMode.cash_hold = λ h. cc
      by_mode WidthSolveMode.solved = mints
      by_mode WidthSolveMode.fallback_ceiling = mints

  decide_flat-EntersBy :
      Ensures
        (decide_flat engine s observation (flat_required observation))
        (EntersBy engine s observation)
  unfolding decide_flat
  decide_flat-EntersBy =
      let p = engine.parameters in
      let size = entry_size p observation in
      elim (Option-cases (entry_refusal p s observation (flat_required observation))) [
        | inr (reason, e) ↦ rw (e, Ensures) (λ entered. cc)
        | inl e ↦
            rw (e, Ensures)
              (Ensures-bind (solve_range_width engine observation size) _
                (EntersBy engine s observation)
                λ solution computed.
                  Ensures-map (enter_by_solution engine s observation solution) _ _
                    (λ out h entered.
                      ((entry_refusal-none_iff p s observation).0 e, (h entered).0, (h entered).1))
                    (enter_by_solution-OpensEntry solution))
      ]
