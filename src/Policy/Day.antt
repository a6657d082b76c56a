-- ===== src/Policy/Day.antt =====
-- The engine's inputs, and the day machinery of src/aero_bot/policy.py: `_latch_equity_of` and
-- `PolicyEngine.observe_day`, which rolls the day over, ratchets the peak and latches the halt.
use aero_bot.Prelude.{Bool, true, false, Option, none, some, ◌==◌, if◌then◌else◌}
use aero_bot.Decimal.{Decimal, lt, le, sub, div, default_precision}
use aero_bot.Ranging.Types.{Instant, RangeSolver}
use aero_bot.Policy.Parameters.{PolicyParameters}
use aero_bot.Policy.Types.{Day, PolicyObservation, PolicyState}

-- `PolicyEngine`. `new_york_day` is the date of an instant in the time zone America/New_York, from
-- the time-zone database. The event calendar takes no part in a decision.
pub record PolicyEngine : Type 0 where
  pub parameters : PolicyParameters
  pub new_york_day : Instant → Day
  pub solver : RangeSolver

-- `==` of two optional dates.
abbrev pub same_day : Option Day → Option Day → Bool
same_day none none = true
same_day none (some _) = false
same_day (some _) none = false
same_day (some a) (some b) = a == b

unfoldable pub latch_equity_of : PolicyObservation → Decimal
latch_equity_of observation = elim observation.portfolio_equity_usd [
  | none ↦ observation.equity_usd
  | some equity ↦ equity
]

-- A new day resets the anchor and the latch; the peak survives.
unfoldable pub roll_over : Day → Decimal → PolicyState → PolicyState
roll_over today latch_equity state =
    if same_day state.day (some today)
    then state
    else record state { day = some today; day_start_equity_usd = latch_equity; halted_day = none }

-- The high-water mark after this observation.
abbrev pub ratchet : Option Decimal → Decimal → Decimal
ratchet none latch_equity = latch_equity
ratchet (some peak) latch_equity = if lt peak latch_equity then latch_equity else peak

unfoldable pub ratchet_peak : Decimal → PolicyState → PolicyState
ratchet_peak latch_equity state = record state {
  peak_equity_usd = some (ratchet state.peak_equity_usd latch_equity);
}

-- `(anchor - equity) / anchor`
abbrev pub drawdown : Decimal → Decimal → Decimal
drawdown anchor equity = div default_precision (sub default_precision anchor equity) anchor

-- Either drawdown at the bound or above it latches the day's halt.
unfoldable pub latch_halt : PolicyParameters → Day → Decimal → PolicyState → PolicyState
latch_halt p today latch_equity state =
    if same_day state.halted_day (some today)
    then state
    else if le p.daily_loss_halt_fraction (drawdown state.day_start_equity_usd latch_equity)
    then record state { halted_day = some today }
    else elim state.peak_equity_usd [
      | none ↦ state
      | some peak ↦
          if le p.daily_loss_halt_fraction (drawdown peak latch_equity)
          then record state { halted_day = some today }
          else state
    ]

unfoldable pub observe_day : PolicyEngine → PolicyState → PolicyObservation → PolicyState
unfolding roll_over ratchet_peak latch_halt
observe_day engine state observation =
    let today = engine.new_york_day observation.observed_at in
    let latch_equity = latch_equity_of observation in
    latch_halt engine.parameters today latch_equity
      (ratchet_peak latch_equity (roll_over today latch_equity state))
