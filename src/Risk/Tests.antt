-- ===== src/Risk/Tests.antt =====
-- Runs of the risk engine of src/aero_bot/risk.py.
use aero_bot.Prelude.{◌≡◌, ◌↔◌, refl, true, false, [], ◌∷◌}
use aero_bot.Prelude.Results.{ok, Returns}
use aero_bot.Decimal.{whole, literal, lt, add, mul, fix, digit_count, round_half_even}
use aero_bot.Risk.Domain.{
  MarketRegime, DecisionStatus, RiskReason, RiskPolicy, OpportunitySnapshot, CompensationAnalysis,
}
use aero_bot.Risk.Engine.{analyze_compensation, evaluate}
use aero_bot.Risk.Verdict.{
  IsEligible, AscendingFrom, Given, evaluate-eligible_iff, evaluate-reasons, Applies,
}

-- The default policy, armed and with one token and one pool.
abbrev policy : RiskPolicy
policy = record {
  allowed_token_addresses = 2 ∷ [];
  allowed_pool_addresses = 1 ∷ [];
  emergency_halt = false;
  max_oracle_age_seconds = 3_600;
  max_oracle_deviation_bps = whole 100;
  min_pool_tvl_usd = whole 1_000_000;
  min_exit_depth_usd = whole 25_000;
  emissions_reward_haircut = literal 50 2;
  max_adverse_selection_apr = literal 25 2;
  max_capital_usd = whole 10_000;
  max_realized_daily_loss_usd = whole 500;
  daily_opportunity_threshold = literal 1 2;
}

abbrev snapshot : OpportunitySnapshot
snapshot = record {
  token_address = 2;
  pool_address = 1;
  token_paused = true;
  market_regime = MarketRegime.market_open;
  oracle_healthy = true;
  oracle_age_seconds = 60;
  oracle_deviation_bps = whole 10;
  pool_tvl_usd = whole 2_000_000;
  exit_depth_usd = whole 50_000;
  fee_apr = whole 1;
  fee_retention_fraction = literal 90 2;
  emissions_apr = whole 8;
  impermanent_loss_apr = literal 10 2;
  adverse_selection_apr = literal 10 2;
  proposed_capital_usd = whole 1_000;
  realized_daily_loss_usd = whole 0;
}

abbrev compensation : CompensationAnalysis
compensation = record {
  retained_fee_apr = literal 90 2;
  adjusted_emissions_apr = literal 400 2;
  total_compensation_apr = literal 490 2;
}

computed : analyze_compensation policy snapshot ≡ ok compensation
unfolding analyze_compensation lt add mul fix digit_count round_half_even
computed = refl

evaluate-eligible_iff_example : Returns (evaluate policy snapshot) (λ decision.
    (decision.status ≡ DecisionStatus.eligible)
    ↔ IsEligible policy snapshot decision.net_daily_rate)
evaluate-eligible_iff_example = evaluate-eligible_iff policy snapshot compensation computed

evaluate-reasons_example : Returns (evaluate policy snapshot) (λ decision.
    AscendingFrom 0 decision.reasons
    × ((reason : RiskReason)
        → Given reason decision.reasons ↔ Applies policy snapshot decision.net_daily_rate reason))
evaluate-reasons_example = evaluate-reasons policy snapshot compensation computed
