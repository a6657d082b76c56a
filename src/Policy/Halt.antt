-- ===== src/Policy/Halt.antt =====
-- The day machinery of src/aero_bot/policy.py: when the daily loss halt is latched, and how the peak
-- moves.
use aero_bot.Prelude.{
  Bool, true, Option, none, some, ◌≡◌, inl, inr, arith, Bool-cases, ◌↔◌, ◌&&◌, ◌||◌, if◌then◌else◌,
}
use aero_bot.Decimal.{Decimal, lt, le}
use aero_bot.Decimal.Order.{le_refl, le_of_lt, le_of_not_lt}
use aero_bot.Policy.Types.{PolicyObservation, PolicyState}
use aero_bot.Policy.Day.{PolicyEngine, observe_day, ratchet, same_day, drawdown, latch_equity_of}

-- The day-start equity that counts at this observation: a new day starts at its first equity.
abbrev pub anchor_of : PolicyEngine → PolicyState → PolicyObservation → Decimal
anchor_of engine state observation =
    if same_day state.day (some (engine.new_york_day observation.observed_at))
    then state.day_start_equity_usd
    else latch_equity_of observation

-- The halt of this day was latched before.
abbrev pub was_halted : PolicyEngine → PolicyState → PolicyObservation → Bool
was_halted engine state observation =
    let today = some (engine.new_york_day observation.observed_at) in
    same_day state.day today && same_day state.halted_day today

abbrev pub breaches : PolicyEngine → Decimal → PolicyObservation → Bool
breaches engine anchor observation =
    le engine.parameters.daily_loss_halt_fraction (drawdown anchor (latch_equity_of observation))

ratchet_bounds :
    (previous : Option Decimal) (equity : Decimal)
    → (le equity (ratchet previous equity) ≡ true)
      × ((old : Decimal) → previous ≡ some old → le old (ratchet previous equity) ≡ true)
ratchet_bounds none equity = (le_refl equity, λ old e. cc)
ratchet_bounds (some peak) equity = elim (Bool-cases (lt peak equity)) [
  | inl above ↦ rw above (le_refl equity, λ old e. ground (arith, le_of_lt peak equity above))
  | inr not_above ↦
      rw not_above (le_of_not_lt peak equity not_above, λ old e. ground (arith, le_refl peak))
]

module _ (engine : PolicyEngine) (state : PolicyState) (observation : PolicyObservation) where
  -- After the day machinery the state belongs to the day of the observation, and that day is halted
  -- exactly if it was before, or the drawdown from the day's start or from the running peak (this
  -- observation included) is at the bound or above it.
  pub observe_day-halt_iff :
      let next = observe_day engine state observation in
      let today = engine.new_york_day observation.observed_at in
      (next.day ≡ some today)
      × ((same_day next.halted_day (some today) ≡ true) ↔ (
          (was_halted engine state observation
            || (breaches engine (anchor_of engine state observation) observation
                || breaches engine
                    (ratchet state.peak_equity_usd (latch_equity_of observation))
                    observation))
          ≡ true))
  unfolding observe_day
  observe_day-halt_iff = ground arith

  -- The running peak never falls: after an observation it is one that is at least the peak before
  -- and at least the equity observed.
  pub observe_day-peak :
      (old : Decimal)
      → state.peak_equity_usd ≡ some old
      → let peak = ratchet state.peak_equity_usd (latch_equity_of observation) in
        ((observe_day engine state observation).peak_equity_usd ≡ some peak)
        × (le old peak ≡ true)
        × (le (latch_equity_of observation) peak ≡ true)
  unfolding observe_day
  observe_day-peak old found =
      let (above, grows) = ratchet_bounds state.peak_equity_usd (latch_equity_of observation) in
      (ground arith, grows old found, above)
