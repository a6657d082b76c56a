-- ===== src/Oracle/Health.antt =====
-- `ChainlinkHealthEvaluator.evaluate` of src/aero_bot/oracles.py. Instants and spans are
-- microseconds; diagnostic lines and the texts that the result copies are left out.
use aero_bot.Prelude.{
  ℕ, ◌*◌, ◌/◌, ◌^◌, Bool, true, false, not, ◌||◌, ◌==◌, ltb, Option, none, some, if◌then◌else◌,
}
use aero_bot.Prelude.Int.{ℤ, pos, pos_part, neg_part, abs_ℤ, ◌-ℤ◌, ltb_ℤ, leb_ℤ, eqb_ℤ}
use aero_bot.Decimal.{Decimal, whole, div, default_precision}
use aero_bot.Ranging.Types.{Instant}
use aero_bot.Risk.Domain.{MarketRegime}

pub data OracleHealthStatus : Type 0 where
  healthy market_closed issuer_paused sequencer_down sequencer_grace_period : OracleHealthStatus
  invalid_feed future_timestamp stale unavailable : OracleHealthStatus

pub record OracleHealthPolicy : Type 0 where
  pub max_open_age_seconds : ℕ
  pub max_future_skew_seconds : ℕ
  pub max_observation_skew_seconds : ℕ
  pub sequencer_grace_period_seconds : ℕ

pub record ChainlinkFeedObservation : Type 0 where
  pub decimals : ℕ
  pub round_id : ℕ
  pub answer : ℤ
  pub started_at : Instant
  pub updated_at : Instant
  pub answered_in_round : ℕ
  pub observed_at : Instant
  pub issuer_paused : Bool
  pub issuer_multiplier_wad : ℕ

pub record SequencerObservation : Type 0 where
  pub answer : ℤ
  pub started_at : Instant
  pub observed_at : Instant

pub record OracleHealthResult : Type 0 where
  pub status : OracleHealthStatus
  pub healthy : Bool
  pub total_return_value : Option Decimal
  pub issuer_multiplier : Option Decimal
  pub age_seconds : Option ℕ

abbrev pub micros : ℕ → ℕ
micros seconds = seconds * 1_000_000

abbrev pub is_healthy : OracleHealthStatus → Bool
is_healthy OracleHealthStatus.healthy = true
is_healthy OracleHealthStatus.market_closed = false
is_healthy OracleHealthStatus.issuer_paused = false
is_healthy OracleHealthStatus.sequencer_down = false
is_healthy OracleHealthStatus.sequencer_grace_period = false
is_healthy OracleHealthStatus.invalid_feed = false
is_healthy OracleHealthStatus.future_timestamp = false
is_healthy OracleHealthStatus.stale = false
is_healthy OracleHealthStatus.unavailable = false

abbrev pub is_open : MarketRegime → Bool
is_open MarketRegime.market_open = true
is_open MarketRegime.overnight = false
is_open MarketRegime.weekend = false

-- Decimal(answer) / Decimal(10) ** decimals of a positive answer.
abbrev pub total_return_value_of : ChainlinkFeedObservation → Option Decimal
total_return_value_of observation =
    if ltb_ℤ (pos 0) observation.answer
    then some (
        div default_precision (record { coefficient = observation.answer; exponent = pos 0 })
          (whole (10 ^ observation.decimals)))
    else none

abbrev pub issuer_multiplier_of : ChainlinkFeedObservation → Option Decimal
issuer_multiplier_of observation =
    if ltb 0 observation.issuer_multiplier_wad
    then some (div default_precision (whole observation.issuer_multiplier_wad) (whole (10 ^ 18)))
    else none

-- `_result`
abbrev pub result_of : ChainlinkFeedObservation → OracleHealthStatus → Option ℕ → OracleHealthResult
result_of observation status age_seconds = record {
  status = status;
  healthy = is_healthy status;
  total_return_value = total_return_value_of observation;
  issuer_multiplier = issuer_multiplier_of observation;
  age_seconds = age_seconds;
}

-- The reads lie too far apart.
unfoldable pub skewed : OracleHealthPolicy → ChainlinkFeedObservation → SequencerObservation → Bool
skewed policy observation sequencer =
    ltb (micros policy.max_observation_skew_seconds)
      (abs_ℤ (observation.observed_at -ℤ sequencer.observed_at))

-- The sequencer's status starts after its observation, or so long before it at least.
unfoldable pub recovery_negative : SequencerObservation → Bool
recovery_negative sequencer = ltb_ℤ (sequencer.observed_at -ℤ sequencer.started_at) (pos 0)

unfoldable pub in_grace_period : OracleHealthPolicy → SequencerObservation → Bool
in_grace_period policy sequencer =
    ltb_ℤ (sequencer.observed_at -ℤ sequencer.started_at)
      (pos (micros policy.sequencer_grace_period_seconds))

-- The round, the answer, the multiplier or the order of the timestamps is invalid.
unfoldable pub round_invalid : ChainlinkFeedObservation → Bool
round_invalid observation =
    (observation.round_id == 0)
    || leb_ℤ observation.answer (pos 0)
    || (observation.issuer_multiplier_wad == 0)
    || ltb_ℤ observation.updated_at observation.started_at

-- The update lies too far after the observation.
unfoldable pub from_future : OracleHealthPolicy → ChainlinkFeedObservation → Bool
from_future policy observation =
    ltb (micros policy.max_future_skew_seconds)
      (neg_part (observation.observed_at -ℤ observation.updated_at))

-- Whole elapsed seconds, none of an update in the future.
unfoldable pub age_of : ChainlinkFeedObservation → ℕ
age_of observation = pos_part (observation.observed_at -ℤ observation.updated_at) / 1_000_000

unfoldable pub evaluate :
    OracleHealthPolicy
    → ChainlinkFeedObservation
    → SequencerObservation
    → MarketRegime
    → OracleHealthResult
evaluate policy observation sequencer market_regime =
    let age_seconds = age_of observation in
    if skewed policy observation sequencer
    then result_of observation OracleHealthStatus.invalid_feed (some age_seconds)
    else if not (eqb_ℤ sequencer.answer (pos 0))
    then result_of observation OracleHealthStatus.sequencer_down (some age_seconds)
    else if recovery_negative sequencer
    then result_of observation OracleHealthStatus.invalid_feed (some age_seconds)
    else if in_grace_period policy sequencer
    then result_of observation OracleHealthStatus.sequencer_grace_period (some age_seconds)
    else if observation.issuer_paused
    then result_of observation OracleHealthStatus.issuer_paused (some age_seconds)
    else if round_invalid observation
    then result_of observation OracleHealthStatus.invalid_feed (some age_seconds)
    else if from_future policy observation
    then result_of observation OracleHealthStatus.future_timestamp none
    else if not (is_open market_regime)
    then result_of observation OracleHealthStatus.market_closed (some age_seconds)
    else if ltb policy.max_open_age_seconds age_seconds
    then result_of observation OracleHealthStatus.stale (some age_seconds)
    else result_of observation OracleHealthStatus.healthy (some age_seconds)
