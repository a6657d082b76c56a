-- ===== src/Risk/Engine.antt =====
-- `RiskEngine.evaluate` of src/aero_bot/risk.py, with the validator of `CompensationAnalysis`.
use aero_bot.Prelude.{Bool, true, false, not, ◌||◌, List, [], ◌∷◌, ◌==◌, ltb, if◌then◌else◌}
use aero_bot.Prelude.Results.{Result, ok, validation_error, raise_if, ◌>>=◌, ◌>>◌}
use aero_bot.Decimal.{Decimal, whole, lt, le, add, sub, mul, div, default_precision}
use aero_bot.Policy.Types.{Address}
use aero_bot.Risk.Domain.{
  MarketRegime, DecisionStatus, RiskReason, RiskPolicy, OpportunitySnapshot, CompensationAnalysis,
  RiskDecision,
}

-- `in`, of an allowlist.
unfoldable pub is_allowed : Address → List Address → Bool
is_allowed address [] = false
is_allowed address (allowed ∷ rest) = (address == allowed) || is_allowed address rest

abbrev pub is_open : MarketRegime → Bool
is_open MarketRegime.market_open = true
is_open MarketRegime.overnight = false
is_open MarketRegime.weekend = false

-- `_analyze_compensation`; the fields of `CompensationAnalysis` refuse negative rates.
unfoldable pub analyze_compensation : RiskPolicy → OpportunitySnapshot → Result CompensationAnalysis
analyze_compensation policy snapshot = do
  let m = default_precision
  let retained = mul m snapshot.fee_apr snapshot.fee_retention_fraction
  let adjusted = mul m snapshot.emissions_apr policy.emissions_reward_haircut
  let total = add m retained adjusted
  raise_if (lt retained (whole 0) || (lt adjusted (whole 0) || lt total (whole 0))) validation_error
  ok (record {
    retained_fee_apr = retained;
    adjusted_emissions_apr = adjusted;
    total_compensation_apr = total;
  })

abbrev pub net_apr_of : OpportunitySnapshot → CompensationAnalysis → Decimal
net_apr_of snapshot compensation =
    sub default_precision
      (sub default_precision compensation.total_compensation_apr snapshot.impermanent_loss_apr)
      snapshot.adverse_selection_apr

abbrev pub daily_rate : Decimal → Decimal
daily_rate net_apr = div default_precision net_apr (whole 365)

-- `if c: reasons.append(reason)`, before what the later gates append.
abbrev pub when : Bool → RiskReason → List RiskReason → List RiskReason
when c reason later = if c then reason ∷ later else later

-- The fourteen gates, in the order in which `evaluate` asks them.
unfoldable pub reasons_of :
    RiskPolicy → OpportunitySnapshot → (net_daily_rate : Decimal) → List RiskReason
reasons_of p s rate = when p.emergency_halt RiskReason.emergency_halt (
    when (not (is_allowed s.token_address p.allowed_token_addresses))
      RiskReason.token_not_allowlisted
      (when (not (is_allowed s.pool_address p.allowed_pool_addresses))
        RiskReason.pool_not_allowlisted
        (when s.token_paused RiskReason.token_paused (
          when (not (is_open s.market_regime)) RiskReason.market_closed (
            when (not s.oracle_healthy) RiskReason.oracle_unhealthy (
              when (ltb p.max_oracle_age_seconds s.oracle_age_seconds) RiskReason.oracle_stale (
                when (lt p.max_oracle_deviation_bps s.oracle_deviation_bps)
                  RiskReason.oracle_deviation
                  (when (lt s.pool_tvl_usd p.min_pool_tvl_usd) RiskReason.insufficient_liquidity (
                    when (lt s.exit_depth_usd p.min_exit_depth_usd)
                      RiskReason.insufficient_exit_depth
                      (when (lt p.max_capital_usd s.proposed_capital_usd)
                        RiskReason.capital_cap_exceeded
                        (when (le p.max_realized_daily_loss_usd s.realized_daily_loss_usd)
                          RiskReason.daily_loss_stop
                          (when (lt p.max_adverse_selection_apr s.adverse_selection_apr)
                            RiskReason.adverse_selection_excessive
                            (when (lt rate p.daily_opportunity_threshold)
                              RiskReason.opportunity_below_threshold [])))))))))))))

abbrev pub status_of : List RiskReason → DecisionStatus
status_of [] = DecisionStatus.eligible
status_of (_ ∷ _) = DecisionStatus.hold

unfoldable pub evaluate : RiskPolicy → OpportunitySnapshot → Result RiskDecision
evaluate policy snapshot = do
  compensation ← analyze_compensation policy snapshot
  let net_apr = net_apr_of snapshot compensation
  let rate = daily_rate net_apr
  let reasons = reasons_of policy snapshot rate
  ok (record {
    status = status_of reasons;
    reasons = reasons;
    compensation = compensation;
    net_apr = net_apr;
    net_daily_rate = rate;
  })
