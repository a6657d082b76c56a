-- ===== src/Policy/Trace.antt =====
-- `entry_gate_trace` of src/aero_bot/policy.py: the verdict of each entry gate, in order. The text of
-- a line beside its gate and its verdict is left out.
pub mod Agreement
pub mod Decide
mod Tests
use aero_bot.Prelude.{
  ℕ, Bool, true, false, not, ◌&&◌, Option, none, some, List, [], ◌∷◌, ◌++◌, leb, if◌then◌else◌,
}
use aero_bot.Prelude.Int.{leb_ℤ}
use aero_bot.Prelude.Results.{Result, ok, err, ◌>>=◌}
use aero_bot.Decimal.{Decimal, whole, lt, le, mul, default_precision}
use aero_bot.Ranging.Types.{WidthSolveMode}
use aero_bot.Policy.Parameters.{PolicyParameters}
use aero_bot.Policy.Types.{PolicyObservation, PolicyState}
use aero_bot.Policy.Day.{PolicyEngine, observe_day, same_day}
use aero_bot.Policy.Gas.{batch_cost_usd, total_gas_units, expected_daily_gross_yield}
use aero_bot.Policy.Width.{solve_range_width}
use aero_bot.Policy.Flat.{flat_required, margin_bound, entry_size}

pub data Gate : Type 0 where
  daily_loss_halt reentry_cooldown condition_flat reference_freshness emissions_floor : Gate
  entry_size_positive gas_ceiling gas_cost_vs_yield range_width_solve : Gate

-- A line: its gate, and whether it passes.
pub record GateLine : Type 0 where
  pub gate : Gate
  pub passes : Bool

abbrev pub line : Gate → Bool → GateLine
line gate passes = record { gate = gate; passes = passes }

abbrev pub reference_passes : PolicyParameters → PolicyObservation → Bool
reference_passes p observation =
    if observation.reference_enforcement_enabled
    then elim observation.reference_age_seconds [
      | none ↦ false
      | some age ↦ elim observation.reference_price_usdc [
        | none ↦ false
        | some _ ↦ leb age p.reference_max_age_seconds
      ]
    ]
    else true

-- The margin takes the place of the floor after a dilution exit.
abbrev pub emissions_passes : PolicyParameters → Bool → PolicyObservation → Bool
emissions_passes p dilution_exit_pending observation =
    if dilution_exit_pending
    then le (margin_bound p) observation.emissions_apr
    else le p.min_entry_emissions_apr observation.emissions_apr

abbrev pub gas_ceiling_passes : PolicyParameters → PolicyObservation → Bool
gas_ceiling_passes p observation = elim observation.gas_price_gwei [
  | none ↦ false
  | some gas_price ↦ le gas_price p.gas_price_ceiling_gwei
]

abbrev pub gas_cost_passes : PolicyParameters → PolicyObservation → Bool
gas_cost_passes p observation = elim observation.gas_price_gwei [
  | none ↦ false
  | some gas_price ↦ le (batch_cost_usd p (total_gas_units p p.enter_batch_gas_units) gas_price) (
      mul default_precision p.gas_cost_max_gross_yield_fraction
        (expected_daily_gross_yield observation (entry_size p observation)))
]

-- Gates 1 to 8. The cooldown and the margin are read off the state before the day machinery.
unfoldable pub measured_gates :
    PolicyParameters → (flat_basis working_state : PolicyState) → PolicyObservation → List GateLine
measured_gates p flat_basis working_state observation =
    line Gate.daily_loss_halt (not (same_day working_state.halted_day working_state.day))
    ∷ line Gate.reentry_cooldown (elim flat_basis.reentry_blocked_until [
      | none ↦ true
      | some until ↦ leb_ℤ until observation.observed_at
    ])
    ∷ line Gate.condition_flat (not (flat_required observation))
    ∷ line Gate.reference_freshness (reference_passes p observation)
    ∷ line Gate.emissions_floor (emissions_passes p flat_basis.dilution_exit_pending observation)
    ∷ line Gate.entry_size_positive (lt (whole 0) (entry_size p observation))
    ∷ line Gate.gas_ceiling (gas_ceiling_passes p observation)
    ∷ line Gate.gas_cost_vs_yield (gas_cost_passes p observation)
    ∷ []

abbrev pub mode_passes : WidthSolveMode → Bool
mode_passes WidthSolveMode.solved = true
mode_passes WidthSolveMode.cash_hold = false
mode_passes WidthSolveMode.deferred = false
mode_passes WidthSolveMode.fallback_ceiling = true

-- Gate 9.
unfoldable pub solve_gate : PolicyEngine → PolicyObservation → Result GateLine
solve_gate engine observation =
    let size = entry_size engine.parameters observation in
    elim observation.gas_price_gwei [
      | none ↦ ok (line Gate.range_width_solve false)
      | some _ ↦
          if lt (whole 0) size
          then (solve_range_width engine observation size >>= λ solution.
              ok (line Gate.range_width_solve (mode_passes solution.mode)))
          else ok (line Gate.range_width_solve false)
    ]

-- The state that a flat book would have: entry is a question about a flat book.
abbrev pub flat_basis_of : PolicyState → PolicyState
flat_basis_of state = record state { position = none; held_inventory = none }

unfoldable pub entry_gate_trace :
    PolicyEngine → PolicyState → PolicyObservation → Result (List GateLine)
unfolding measured_gates solve_gate
entry_gate_trace engine state observation = do
  let flat_basis = flat_basis_of state
  let working_state = observe_day engine flat_basis observation
  last ← solve_gate engine observation
  ok (measured_gates engine.parameters flat_basis working_state observation ++ last ∷ [])
