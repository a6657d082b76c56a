-- ===== src/Oracle/Gates.antt =====
-- When a feed is healthy by src/aero_bot/oracles.py.
use aero_bot.Prelude.{◌+◌, ◌<◌, true, false, ◌≡◌, ◌↔◌, ltb, arith}
use aero_bot.Prelude.Int.{pos, ◌-ℤ◌, ◌≤ℤ◌, ◌<ℤ◌, ◌+ℤ◌}
use aero_bot.Risk.Domain.{MarketRegime}
use aero_bot.Oracle.Health.{
  OracleHealthStatus, OracleHealthPolicy, ChainlinkFeedObservation, SequencerObservation, evaluate,
  micros, is_open, skewed, recovery_negative, in_grace_period, round_invalid, from_future, age_of,
}

-- Every gate of a healthy feed, in terms of instants.
pub record Trustworthy (policy : OracleHealthPolicy) (observation : ChainlinkFeedObservation)
    (sequencer : SequencerObservation) (market_regime : MarketRegime) : Type 0 where
  pub not_late :
      observation.observed_at
      ≤ℤ sequencer.observed_at +ℤ pos (micros policy.max_observation_skew_seconds)
  pub not_early :
      sequencer.observed_at
      ≤ℤ observation.observed_at +ℤ pos (micros policy.max_observation_skew_seconds)
  pub sequencer_up : sequencer.answer ≡ pos 0
  pub recovered :
      sequencer.started_at +ℤ pos (micros policy.sequencer_grace_period_seconds)
      ≤ℤ sequencer.observed_at
  pub issuer_active : observation.issuer_paused ≡ false
  pub some_round : 0 < observation.round_id
  pub positive_answer : pos 0 <ℤ observation.answer
  pub positive_multiplier : 0 < observation.issuer_multiplier_wad
  pub ordered : observation.started_at ≤ℤ observation.updated_at
  pub not_future :
      observation.updated_at
      ≤ℤ observation.observed_at +ℤ pos (micros policy.max_future_skew_seconds)
  pub open_market : market_regime ≡ MarketRegime.market_open
  pub fresh :
      observation.observed_at
      <ℤ observation.updated_at +ℤ pos (micros (policy.max_open_age_seconds + 1))

-- The gates, one by one.
module _ (policy : OracleHealthPolicy) (observation : ChainlinkFeedObservation)
    (sequencer : SequencerObservation) where
  abbrev Near : Type 0
  Near =
      (observation.observed_at
        ≤ℤ sequencer.observed_at +ℤ pos (micros policy.max_observation_skew_seconds))
      × (sequencer.observed_at
          ≤ℤ observation.observed_at +ℤ pos (micros policy.max_observation_skew_seconds))

  skewed-Near : (skewed policy observation sequencer ≡ false) ↔ Near
  unfolding skewed ◌-ℤ◌ ◌+ℤ◌
  skewed-Near = (λ e. (ground arith, ground arith), λ h. ground arith)

  recovery_iff :
      (recovery_negative sequencer ≡ false) × (in_grace_period policy sequencer ≡ false) ↔ (
        sequencer.started_at +ℤ pos (micros policy.sequencer_grace_period_seconds)
        ≤ℤ sequencer.observed_at)
  unfolding recovery_negative in_grace_period ◌-ℤ◌ ◌+ℤ◌
  recovery_iff = (λ e. ground arith, λ h. (ground arith, ground arith))

  abbrev ValidRound : Type 0
  ValidRound =
      (0 < observation.round_id)
      × (pos 0 <ℤ observation.answer)
      × (0 < observation.issuer_multiplier_wad)
      × (observation.started_at ≤ℤ observation.updated_at)

  round_invalid-ValidRound : (round_invalid observation ≡ false) ↔ ValidRound
  unfolding round_invalid
  round_invalid-ValidRound =
      (λ e. (ground arith, ground arith, ground arith, ground arith), λ h. ground arith)

  from_future_iff : (from_future policy observation ≡ false) ↔ (
      observation.updated_at
      ≤ℤ observation.observed_at +ℤ pos (micros policy.max_future_skew_seconds))
  unfolding from_future ◌-ℤ◌ ◌+ℤ◌
  from_future_iff = (λ e. ground arith, λ h. ground arith)

  age_iff : (ltb policy.max_open_age_seconds (age_of observation) ≡ false) ↔ (
      observation.observed_at
      <ℤ observation.updated_at +ℤ pos (micros (policy.max_open_age_seconds + 1)))
  unfolding age_of ◌-ℤ◌ ◌+ℤ◌
  age_iff = (λ e. ground arith, λ h. ground arith)

  market_iff :
      (market_regime : MarketRegime)
      → (is_open market_regime ≡ true) ↔ (market_regime ≡ MarketRegime.market_open)
  market_iff market_regime = (λ e. ground arith, λ h. ground arith)

  abbrev Passes : MarketRegime → Type 0
  Passes market_regime =
      (skewed policy observation sequencer ≡ false)
      × (sequencer.answer ≡ pos 0)
      × (recovery_negative sequencer ≡ false)
      × (in_grace_period policy sequencer ≡ false)
      × (observation.issuer_paused ≡ false)
      × (round_invalid observation ≡ false)
      × (from_future policy observation ≡ false)
      × (is_open market_regime ≡ true)
      × (ltb policy.max_open_age_seconds (age_of observation) ≡ false)

  evaluate-Passes :
      (market_regime : MarketRegime)
      → ((evaluate policy observation sequencer market_regime).status ≡ OracleHealthStatus.healthy)
        ↔ Passes market_regime
  unfolding evaluate
  evaluate-Passes market_regime = (λ e. ground arith, λ h. ground arith)

-- A feed is healthy exactly if the reads of feed and sequencer lie within the allowed skew of each
-- other, the sequencer is up and has been for its grace period, the issuer is not paused, the
-- round, the answer and the multiplier are positive, the round's update does not precede its start
-- nor follow its observation by more than the allowed skew, the market is open, and the update is
-- less than one second more than the allowed age old.
pub evaluate-Trustworthy_iff :
    (policy : OracleHealthPolicy) (observation : ChainlinkFeedObservation)
    (sequencer : SequencerObservation) (market_regime : MarketRegime)
    → ((evaluate policy observation sequencer market_regime).status ≡ OracleHealthStatus.healthy)
      ↔ Trustworthy policy observation sequencer market_regime
evaluate-Trustworthy_iff policy observation sequencer market_regime =
    let near = skewed-Near policy observation sequencer in
    let up = recovery_iff policy observation sequencer in
    let round = round_invalid-ValidRound policy observation sequencer in
    let future = from_future_iff policy observation sequencer in
    let age = age_iff policy observation sequencer in
    let market = market_iff policy observation sequencer market_regime in
    let passes = evaluate-Passes policy observation sequencer market_regime in
    (
      (λ e.
          let (unskewed, answer, not_negative, no_grace, active, valid, not_future, opened, young) =
            passes.0 e in
          record {
            not_late = (near.0 unskewed).0;
            not_early = (near.0 unskewed).1;
            sequencer_up = answer;
            recovered = up.0 (not_negative, no_grace);
            issuer_active = active;
            some_round = (round.0 valid).0;
            positive_answer = (round.0 valid).1;
            positive_multiplier = (round.0 valid).2;
            ordered = (round.0 valid).3;
            not_future = future.0 not_future;
            open_market = market.0 opened;
            fresh = age.0 young;
          }),
      (λ h. passes.1 (
        near.1 (h.not_late, h.not_early),
        h.sequencer_up,
        (up.1 h.recovered).0,
        (up.1 h.recovered).1,
        h.issuer_active,
        round.1 (h.some_round, h.positive_answer, h.positive_multiplier, h.ordered),
        future.1 h.not_future,
        market.1 h.open_market,
        age.1 h.fresh,
      )),
    )
