-- ===== src/Policy/Posture.antt =====
-- What each action of src/aero_bot/policy.py does to the posture: the open position and the held
-- inventory.
pub mod Decide
use aero_bot.Policy.Exits.{
  cooldown_end, reference_beyond_open_bound, hold, safety_exit, stale_low_burn,
  out_of_range_grace_exit, dislocation_outcome,
}
use aero_bot.Ranging.Types.{Instant}
use aero_bot.Policy.Flat.{flat_required, decide_flat, enter, enter_by_solution}
use aero_bot.Prelude.Results.{
  Ensures-map, or_raise, value_error, or_raise-eq_ok, Ensures-ok, Ensures-if, Result, ok, err,
  Ensures, Ensures-bind, ◌>>=◌,
}
use aero_bot.Policy.Engine.{
  retry_allowed, is_enter, stop_level, decide, dispatch, decide_by_price, decide_with_position,
  decide_holding_inventory, sell_or_hold,
}
use aero_bot.Decimal.{lt, le}
use aero_bot.Policy.Maintain.{decide_above, decide_below, decide_in_range}
use aero_bot.Prelude.{
  ℕ, Bool, true, false, Option, none, some, if◌then◌else◌, ◌≡◌, not, ◌&&◌, refl, ◌⊎◌, inl, inr,
  arith, ◌||◌, is_none, Bool-cases, Option-cases,
}
use aero_bot.Policy.Parameters.{PolicyParameters}
use aero_bot.Policy.Types.{
  PolicyObservation, PolicyPosition, PolicyState, PolicyActionKind, PolicyReason, PolicyOutcome,
  HeldInventory,
}
use aero_bot.Policy.Day.{PolicyEngine, observe_day, roll_over, ratchet_peak, latch_halt}

-- The position is burned, and all of it swapped back to USDC.
abbrev pub Closes : PolicyState → PolicyState → Type 0
Closes s t =
    (is_none s.position ≡ false) × (t.position ≡ none) × (t.held_inventory ≡ s.held_inventory)

-- The position is burned; its stock may be held.
abbrev pub Burns : PolicyState → PolicyState → Type 0
Burns s t = (is_none s.position ≡ false) × (t.position ≡ none)

-- What an action means for the posture before it and after it.
abbrev pub Posture : PolicyActionKind → PolicyState → PolicyState → Type 0
Posture PolicyActionKind.hold s t =
    (is_none t.position ≡ is_none s.position) × (t.held_inventory ≡ s.held_inventory)
Posture PolicyActionKind.enter s t =
    (is_none s.position ≡ true) × (is_none t.position ≡ false) × (t.held_inventory ≡ none)
Posture PolicyActionKind.recenter s t =
    (is_none s.position ≡ false)
    × (is_none t.position ≡ false)
    × (t.held_inventory ≡ s.held_inventory)
Posture PolicyActionKind.stop_out s t = Closes s t
Posture PolicyActionKind.dilution_exit s t = Closes s t
Posture PolicyActionKind.event_exit s t = Closes s t
Posture PolicyActionKind.dislocation_exit s t = Closes s t
Posture PolicyActionKind.defensive_exit s t = Closes s t
Posture PolicyActionKind.stale_low_burn s t = Burns s t
Posture PolicyActionKind.range_grace_exit s t = Burns s t
Posture PolicyActionKind.sell_inventory s t =
    (is_none s.held_inventory ≡ false) × (t.held_inventory ≡ none) × (t.position ≡ s.position)
Posture PolicyActionKind.pool_switch s t = ⊥

-- The exits that swap everything back, with what they arm: the cooldown and the dilution margin.
abbrev is_safety_exit : PolicyActionKind → (cooldown dilution : Bool) → Bool
is_safety_exit PolicyActionKind.stop_out cooldown dilution = cooldown && not dilution
is_safety_exit PolicyActionKind.dilution_exit cooldown dilution = cooldown && dilution
is_safety_exit PolicyActionKind.event_exit cooldown dilution = not (cooldown || dilution)
is_safety_exit PolicyActionKind.dislocation_exit cooldown dilution = not (cooldown || dilution)
is_safety_exit PolicyActionKind.defensive_exit cooldown dilution = not (cooldown || dilution)
is_safety_exit _ cooldown dilution = false

-- Never a position and held inventory at once.
abbrev pub IsExclusive : PolicyState → Type 0
IsExclusive s = (is_none s.position || is_none s.held_inventory) ≡ true

-- When re-entry is blocked until, after an action.
abbrev pub cooldown_after :
    PolicyActionKind → PolicyParameters → PolicyObservation → PolicyState → Option Instant
cooldown_after PolicyActionKind.stop_out p observation s = cooldown_end p observation true
cooldown_after PolicyActionKind.dilution_exit p observation s = cooldown_end p observation true
cooldown_after PolicyActionKind.range_grace_exit p observation s = cooldown_end p observation true
cooldown_after PolicyActionKind.event_exit p observation s = none
cooldown_after PolicyActionKind.dislocation_exit p observation s = none
cooldown_after PolicyActionKind.defensive_exit p observation s = none
cooldown_after _ p observation s = s.reentry_blocked_until

-- Whether the margin of a dilution exit is pending, after an action.
abbrev pub dilution_after : PolicyActionKind → PolicyState → Bool
dilution_after PolicyActionKind.dilution_exit s = true
dilution_after PolicyActionKind.enter s = false
dilution_after PolicyActionKind.stop_out s = false
dilution_after PolicyActionKind.event_exit s = false
dilution_after PolicyActionKind.dislocation_exit s = false
dilution_after PolicyActionKind.defensive_exit s = false
dilution_after _ s = s.dilution_exit_pending

-- The facts of the day machinery.
abbrev pub SameDayFacts : PolicyState → PolicyState → Type 0
SameDayFacts s t =
    (t.day ≡ s.day)
    × (t.halted_day ≡ s.halted_day)
    × (t.peak_equity_usd ≡ s.peak_equity_usd)
    × (t.day_start_equity_usd ≡ s.day_start_equity_usd)

pub record Follows (p : PolicyParameters) (observation : PolicyObservation) (s : PolicyState)
    (out : PolicyOutcome) : Type 0 where
  pub posture : Posture out.decision.action s out.next_state
  pub exclusive : IsExclusive out.next_state
  pub cooldown :
      out.next_state.reentry_blocked_until ≡ cooldown_after out.decision.action p observation s
  pub dilution : out.next_state.dilution_exit_pending ≡ dilution_after out.decision.action s
  pub day_facts : SameDayFacts s out.next_state

abbrev pub FollowsIfAny :
    PolicyParameters → PolicyObservation → PolicyState → Option PolicyOutcome → Type 0
FollowsIfAny p observation s none = Unit
FollowsIfAny p observation s (some out) = Follows p observation s out

module _ (p : PolicyParameters) (s : PolicyState) (observation : PolicyObservation)
    (exclusive : IsExclusive s) where
  safety_exit-Follows :
      (action : PolicyActionKind) (reason : PolicyReason) (cooldown dilution : Bool)
      → is_safety_exit action cooldown dilution ≡ true
      → Ensures
          (safety_exit p s observation action reason cooldown dilution)
          (Follows p observation s)
  unfolding safety_exit
  safety_exit-Follows action reason cooldown dilution h = ground arith

  dislocation_outcome-Follows :
      Ensures (dislocation_outcome p s observation) (FollowsIfAny p observation s)
  unfolding dislocation_outcome safety_exit stale_low_burn
  dislocation_outcome-Follows = ground arith

module _ (engine : PolicyEngine) (s : PolicyState) (observation : PolicyObservation)
    (exclusive : IsExclusive s) where
  decide_flat-Follows :
      (flat : Bool)
      → s.position ≡ none
      → s.held_inventory ≡ none
      → Ensures (decide_flat engine s observation flat) (Follows engine.parameters observation s)
  unfolding decide_flat enter_by_solution enter
  decide_flat-Follows flat h k = ground arith

  module _ (position : PolicyPosition) (open_position : s.position ≡ some position) where
    decide_above-Follows :
        Ensures
          (decide_above engine s position observation)
          (Follows engine.parameters observation s)
    unfolding decide_above out_of_range_grace_exit
    decide_above-Follows = ground arith

    decide_below-Follows :
        Ensures
          (decide_below engine s position observation)
          (Follows engine.parameters observation s)
    unfolding decide_below out_of_range_grace_exit
    decide_below-Follows = ground arith
