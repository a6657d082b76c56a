-- ===== src/Policy/Maintain.antt =====
-- The maintenance of an open position in src/aero_bot/policy.py: the out-of-range branches of
-- `_decide_with_position`, `_recenter_size`, and the position inside its range.
use aero_bot.Prelude.{Bool, true, false, not, Option, none, some, if◌then◌else◌, ◌&&◌, ◌||◌}
use aero_bot.Prelude.Int.{◌-ℤ◌, ltb_ℤ, leb_ℤ, min_ℤ}
use aero_bot.Prelude.Results.{Result, ok, ◌>>=◌}
use aero_bot.Decimal.{Decimal, whole, literal, lt, le, min, sub, mul, div, default_precision}
use aero_bot.Ranging.Types.{Instant, Span, WidthSolution, WidthSolveMode}
use aero_bot.Policy.Parameters.{PolicyParameters}
use aero_bot.Policy.Types.{
  PolicyObservation, PolicyPosition, PolicyState, PolicyActionKind, PolicyReason, PolicyOutcome,
  RangeSide, above, below, SwapDirection, SwapPlan, AlignedPriceRange,
}
use aero_bot.Policy.Day.{PolicyEngine}
use aero_bot.Policy.Gas.{batch_gas, gas_gate_blocks, downside_recenter_economics}
use aero_bot.Policy.Swap.{swap_plan}
use aero_bot.Policy.Exits.{hold, costed_decision, out_of_range_grace_exit}
use aero_bot.Policy.Width.{solve_range_width, range_for_solution}

-- The replacement mint's size, under the current depth cap and its headroom.
abbrev pub recenter_depth_cap : PolicyParameters → PolicyObservation → Decimal
recenter_depth_cap p observation =
    mul default_precision
      (mul default_precision observation.pool_depth_usd p.max_position_depth_fraction)
      (literal 70 2)

abbrev pub recenter_size : PolicyParameters → PolicyPosition → PolicyObservation → Decimal
recenter_size p position observation = min position.committed_usd (recenter_depth_cap p observation)

abbrev same_side : RangeSide → Option RangeSide → Bool
same_side side none = true
same_side above (some above) = true
same_side above (some below) = false
same_side below (some above) = false
same_side below (some below) = true

-- Since when the position is out of its range on this side.
abbrev pub wait_anchor : RangeSide → PolicyPosition → PolicyObservation → Instant
wait_anchor side position observation = elim position.out_of_range_since [
  | none ↦ observation.observed_at
  | some since ↦
      if same_side side position.out_of_range_side then since else observation.observed_at
]

unfoldable pub waited : RangeSide → PolicyPosition → PolicyObservation → Span
unfolding ◌-ℤ◌
waited side position observation = observation.observed_at -ℤ wait_anchor side position observation

-- The grace window has elapsed.
abbrev pub must_act : PolicyParameters → RangeSide → PolicyPosition → PolicyObservation → Bool
must_act p side position observation = leb_ℤ p.out_of_range_grace (waited side position observation)

abbrev pub before_attempt : PolicyParameters → RangeSide → PolicyPosition → PolicyObservation → Bool
before_attempt p side position observation =
    ltb_ℤ (waited side position observation) (min_ℤ p.out_of_range_grace p.recenter_wait)

-- The state in which the wait goes on.
abbrev pub waiting_state :
    RangeSide → PolicyState → PolicyPosition → PolicyObservation → PolicyState
waiting_state side state position observation = record state {
  position = some (record position {
    out_of_range_since = some (wait_anchor side position observation);
    out_of_range_side = some side;
  });
}

-- A recenter that cannot be made: exit once the grace window has elapsed, wait before.
unfoldable pub exit_or_wait :
    PolicyParameters
    → RangeSide
    → PolicyState
    → PolicyPosition
    → PolicyObservation
    → PolicyReason
    → Result PolicyOutcome
exit_or_wait p side state position observation reason =
    if must_act p side position observation
    then out_of_range_grace_exit p state observation
    else ok (hold (waiting_state side state position observation) reason)

abbrev pub recenter_reason : RangeSide → PolicyReason
recenter_reason above = PolicyReason.recenter_wait_elapsed
recenter_reason below = PolicyReason.downside_recenter_economic

-- Burn, and mint again at the new range.
unfoldable pub recenter :
    PolicyParameters
    → RangeSide
    → PolicyState
    → PolicyPosition
    → PolicyObservation
    → WidthSolution
    → AlignedPriceRange
    → SwapPlan
    → PolicyOutcome
recenter p side state position observation solution new_range plan =
    let size = recenter_size p position observation in
    let decision =
      costed_decision PolicyActionKind.recenter (recenter_reason side) (some plan)
        (batch_gas p observation p.recenter_batch_gas_units) in
    record {
      decision = record decision {
        price_range = some new_range;
        size_usd = some size;
        width_solution = some solution;
      };
      next_state = record state {
        position = some (record position {
          price_range = new_range;
          committed_usd = size;
          entered_at = observation.observed_at;
          out_of_range_since = none;
          out_of_range_side = none;
        });
      };
    }

-- What a width solution allows: missing evidence waits, also past the grace window, and a
-- solution without a positive net waits or exits. The swap plan is the one of the branch.
unfoldable pub recenter_by_solution :
    PolicyParameters
    → RangeSide
    → PolicyState
    → PolicyPosition
    → PolicyObservation
    → Result SwapPlan
    → WidthSolution
    → Result PolicyOutcome
unfolding exit_or_wait recenter
recenter_by_solution p side state position observation planned solution = elim solution.mode [
  | WidthSolveMode.deferred ↦
      ok (hold (waiting_state side state position observation) PolicyReason.range_evidence_deferred)
  | WidthSolveMode.cash_hold ↦
      exit_or_wait p side state position observation PolicyReason.range_net_nonpositive
  | _ ↦ do
    new_range ← range_for_solution solution
    plan ← planned
    ok (recenter p side state position observation solution new_range plan)
]

abbrev pub recenter_plan :
    PolicyParameters → SwapDirection → PolicyPosition → PolicyObservation → Result SwapPlan
recenter_plan p direction position observation =
    swap_plan p direction (div default_precision (recenter_size p position observation) (whole 2))
      observation.pool_depth_usd

-- The price is at the upper edge or above it.
unfoldable pub decide_above :
    PolicyEngine → PolicyState → PolicyPosition → PolicyObservation → Result PolicyOutcome
unfolding exit_or_wait recenter_by_solution
decide_above engine state position observation =
    let p = engine.parameters in
    let size = recenter_size p position observation in
    if before_attempt p above position observation
    then ok (
        hold (waiting_state above state position observation) PolicyReason.open_above_range_waiting)
    else if le size (whole 0)
    then exit_or_wait p above state position observation PolicyReason.open_above_range_waiting
    else if gas_gate_blocks p observation p.recenter_batch_gas_units size
    then exit_or_wait p above state position observation PolicyReason.gas_gate_deferred
    else solve_range_width engine observation size
      >>= recenter_by_solution p above state position observation
          (recenter_plan p SwapDirection.buy_stock position observation)

-- How far the price lies below the lower edge.
abbrev pub distance_fraction : PolicyPosition → PolicyObservation → Decimal
distance_fraction position observation =
    let lower = position.price_range.lower_price in
    div default_precision (sub default_precision lower observation.amm_price_usdc) lower

-- Below the range, with its swap planned: the churn must earn itself back.
unfoldable pub recenter_below :
    PolicyEngine
    → PolicyState
    → PolicyPosition
    → PolicyObservation
    → SwapPlan
    → Result PolicyOutcome
unfolding exit_or_wait recenter_by_solution
recenter_below engine state position observation plan =
    let p = engine.parameters in
    let size = recenter_size p position observation in
    let (_, cost) = batch_gas p observation p.recenter_batch_gas_units in
    if downside_recenter_economics p observation size plan cost
    then solve_range_width engine observation size
      >>= recenter_by_solution p below state position observation (ok plan)
    else exit_or_wait p below state position observation PolicyReason.downside_recenter_uneconomic

-- The price is below the lower edge, and above the stop.
unfoldable pub decide_below :
    PolicyEngine → PolicyState → PolicyPosition → PolicyObservation → Result PolicyOutcome
unfolding exit_or_wait recenter_below
decide_below engine state position observation =
    let p = engine.parameters in
    let size = recenter_size p position observation in
    let near =
      lt (distance_fraction position observation) p.downside_recenter_min_distance_fraction in
    if (before_attempt p below position observation || near)
      && not (must_act p below position observation)
    then ok
        (hold (waiting_state below state position observation) PolicyReason.open_below_edge_holding)
    else if le size (whole 0)
    then exit_or_wait p below state position observation PolicyReason.open_below_edge_holding
    else if gas_gate_blocks p observation p.recenter_batch_gas_units size
    then exit_or_wait p below state position observation PolicyReason.gas_gate_deferred
    else recenter_plan p SwapDirection.sell_stock position observation
      >>= recenter_below engine state position observation

-- Inside the range either side's wait is cleared.
unfoldable pub decide_in_range : PolicyState → PolicyPosition → PolicyOutcome
decide_in_range state position =
    hold
      (record state {
        position = some (record position { out_of_range_since = none; out_of_range_side = none });
      })
      PolicyReason.open_in_range
