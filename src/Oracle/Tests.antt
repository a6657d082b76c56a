-- ===== src/Oracle/Tests.antt =====
-- Runs of the feed health and the coverage report of src/aero_bot/oracles.py.
use aero_bot.Prelude.{◌≡◌, ◌↔◌, refl, false, [], ◌∷◌}
use aero_bot.Prelude.Int.{pos, ◌-ℤ◌}
use aero_bot.Prelude.Results.{ok}
use aero_bot.Risk.Domain.{MarketRegime}
use aero_bot.Oracle.Health.{
  OracleHealthPolicy, OracleHealthStatus, ChainlinkFeedObservation, SequencerObservation, evaluate,
  skewed, in_grace_period, recovery_negative, round_invalid, from_future, age_of,
}
use aero_bot.Oracle.Gates.{Trustworthy, evaluate-Trustworthy_iff}
use aero_bot.Oracle.Coverage.{
  ChainlinkCoverageReport, OracleCoverageStatus, chainlink_coverage_report,
  consistent_coverage_counts,
}

abbrev policy : OracleHealthPolicy
policy = record {
  max_open_age_seconds = 3_600;
  max_future_skew_seconds = 30;
  max_observation_skew_seconds = 30;
  sequencer_grace_period_seconds = 3_600;
}

abbrev feed : ChainlinkFeedObservation
feed = record {
  decimals = 8;
  round_id = 7;
  answer = pos 15_000_000_000;
  started_at = pos 8_000_000_000;
  updated_at = pos 8_000_000_000;
  answered_in_round = 7;
  observed_at = pos 9_000_000_000;
  issuer_paused = false;
  issuer_multiplier_wad = 1_000_000_000_000_000_000;
}

abbrev sequencer : SequencerObservation
sequencer = record { answer = pos 0; started_at = pos 0; observed_at = pos 9_010_000_000 }

feed_is_healthy :
    (evaluate policy feed sequencer MarketRegime.market_open).status ≡ OracleHealthStatus.healthy
unfolding evaluate skewed in_grace_period recovery_negative round_invalid from_future age_of ◌-ℤ◌
feed_is_healthy = refl

evaluate-Trustworthy_iff_example :
    ((evaluate policy feed sequencer MarketRegime.market_open).status ≡ OracleHealthStatus.healthy)
    ↔ Trustworthy policy feed sequencer MarketRegime.market_open
evaluate-Trustworthy_iff_example =
    evaluate-Trustworthy_iff policy feed sequencer MarketRegime.market_open

abbrev report : ChainlinkCoverageReport
report = record {
  status = OracleCoverageStatus.verified;
  expected_assets = 1;
  configured_feeds = 1;
  healthy_feeds = 1;
  assessments = evaluate policy feed sequencer MarketRegime.market_open ∷ [];
  diagnostics = (79 ∷ 75 ∷ []) ∷ [];
}

report_is_built : chainlink_coverage_report report ≡ ok report
unfolding chainlink_coverage_report consistent_coverage_counts evaluate skewed in_grace_period
    recovery_negative round_invalid from_future age_of ◌-ℤ◌
report_is_built = refl
