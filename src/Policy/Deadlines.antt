-- ===== src/Policy/Deadlines.antt =====
-- The out-of-range grace window of src/aero_bot/policy.py, and what a recenter commits.
use aero_bot.Policy.Parameters.{RangeWidthPolicy, PolicyParameters}
use aero_bot.Policy.Gas.{gas_gate_blocks}
use aero_bot.Policy.Width.{solve_range_width}
use aero_bot.Prelude.Results.{Ensures-ok, Returns, Result, ok, Ensures}
use aero_bot.Prelude.{◌≢◌, true, false, none, some, ◌≡◌, ◌⊎◌, arith, is_none}
use aero_bot.Decimal.{le, whole}
use aero_bot.Decimal.Extremes.{min_bounds}
use aero_bot.Policy.Types.{
  PolicyObservation, PolicyPosition, PolicyState, PolicyActionKind, PolicyReason, PolicyOutcome,
  RangeSide, above, below,
}
use aero_bot.Policy.Day.{PolicyEngine}
use aero_bot.Policy.Exits.{out_of_range_grace_exit}
use aero_bot.Policy.Maintain.{
  decide_above, decide_below, must_act, recenter_size, recenter_depth_cap,
}

-- What is left to do once the grace window has elapsed: recenter, exit, or (the one wait that is
-- left) hold because the range cannot be solved for want of evidence.
abbrev pub Acts : PolicyOutcome → Type 0
Acts out =
    (out.decision.action ≡ PolicyActionKind.recenter)
    ⊎ ((out.decision.action ≡ PolicyActionKind.range_grace_exit)
        ⊎ (out.decision.reason ≡ PolicyReason.range_evidence_deferred))

abbrev pub decide_out_of_range :
    RangeSide
    → PolicyEngine
    → PolicyState
    → PolicyPosition
    → PolicyObservation
    → Result PolicyOutcome
decide_out_of_range above = decide_above
decide_out_of_range below = decide_below

-- What a recenter leaves: a smaller or equal commitment within the depth cap, on a fresh clock.
abbrev pub Recentered :
    PolicyParameters → PolicyPosition → PolicyObservation → PolicyOutcome → Type 0
Recentered p position observation out = elim out.next_state.position [
  | none ↦ ⊥
  | some next ↦
      (le next.committed_usd position.committed_usd ≡ true)
      × (le next.committed_usd (recenter_depth_cap p observation) ≡ true)
      × (le next.committed_usd (whole 0) ≡ false)
      × (out.decision.price_range ≡ some next.price_range)
      × (next.entered_at ≡ observation.observed_at)
      × (next.out_of_range_since ≡ none)
]

module _ (engine : PolicyEngine) (state : PolicyState) (position : PolicyPosition)
    (observation : PolicyObservation) where
  -- Out of range on either side, once the grace window has elapsed: whenever the branch returns, it
  -- recenters or exits, or holds for want of evidence to solve the range; no other wait is left.
  pub grace_bounds_the_hold :
      (side : RangeSide)
      → must_act engine.parameters side position observation ≡ true
      → Ensures (decide_out_of_range side engine state position observation) Acts
  unfolding decide_above decide_below out_of_range_grace_exit
  grace_bounds_the_hold above late = ground arith
  grace_bounds_the_hold below late = ground arith

  -- Out of range on either side, the engine takes no grace exit before the window has elapsed.
  pub no_early_grace_exit :
      (side : RangeSide)
      → must_act engine.parameters side position observation ≡ false
      → Ensures
          (decide_out_of_range side engine state position observation)
          (λ out. out.decision.action ≢ PolicyActionKind.range_grace_exit)
  unfolding decide_above decide_below out_of_range_grace_exit
  no_early_grace_exit above early = ground arith
  no_early_grace_exit below early = ground arith

  -- Above the range, with a size and the gas to recenter but without ranging evidence, the engine
  -- of the adaptive band holds and keeps the position, also once the grace window has elapsed.
  pub evidence_gap_outlasts_grace :
      engine.parameters.range_width_policy ≡ RangeWidthPolicy.adaptive_band
      → observation.ranging ≡ none
      → le (recenter_size engine.parameters position observation) (whole 0) ≡ false
      → gas_gate_blocks engine.parameters observation engine.parameters.recenter_batch_gas_units
          (recenter_size engine.parameters position observation)
        ≡ false
      → must_act engine.parameters above position observation ≡ true
      → Returns (decide_above engine state position observation) (λ out.
        (out.decision.action ≡ PolicyActionKind.hold) × (is_none out.next_state.position ≡ false))
  unfolding decide_above solve_range_width
  evidence_gap_outlasts_grace adaptive gap size gas act = ground arith

  by_side-Recentered :
      (side : RangeSide)
      → Ensures (decide_out_of_range side engine state position observation) (λ out.
        (out.decision.action ≡ PolicyActionKind.recenter)
        → Recentered engine.parameters position observation out)
  unfolding decide_above decide_below out_of_range_grace_exit
  by_side-Recentered above =
      ground (
        arith,
        min_bounds position.committed_usd (recenter_depth_cap engine.parameters observation),
      )
  by_side-Recentered below =
      ground (
        arith,
        min_bounds position.committed_usd (recenter_depth_cap engine.parameters observation),
      )

  -- A recenter, on either side of the range, commits a positive size, at most what was committed and
  -- at most the current depth cap with its headroom, at the range of the decision, and restarts the
  -- clocks of the position.
  pub recenter_bounds :
      (side : RangeSide) (out : PolicyOutcome)
      → decide_out_of_range side engine state position observation ≡ ok out
      → out.decision.action ≡ PolicyActionKind.recenter
      → Recentered engine.parameters position observation out
  recenter_bounds side out decided = Ensures-ok _ _ decided (by_side-Recentered side)
