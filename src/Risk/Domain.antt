-- ===== src/Risk/Domain.antt =====
-- The records and enumerations of src/aero_bot/domain.py.
use aero_bot.Prelude.{ℕ, Bool, List}
use aero_bot.Decimal.{Decimal}
use aero_bot.Policy.Types.{Address}

pub data MarketRegime : Type 0 where
  market_open overnight weekend : MarketRegime

pub data DecisionStatus : Type 0 where
  hold eligible : DecisionStatus

pub data RiskReason : Type 0 where
  emergency_halt token_not_allowlisted pool_not_allowlisted token_paused : RiskReason
  market_closed oracle_unhealthy oracle_stale oracle_deviation : RiskReason
  insufficient_liquidity insufficient_exit_depth capital_cap_exceeded : RiskReason
  daily_loss_stop adverse_selection_excessive opportunity_below_threshold : RiskReason

-- The allowlists are sets: only membership is asked.
pub record RiskPolicy : Type 0 where
  pub allowed_token_addresses : List Address
  pub allowed_pool_addresses : List Address
  pub emergency_halt : Bool
  pub max_oracle_age_seconds : ℕ
  pub max_oracle_deviation_bps : Decimal
  pub min_pool_tvl_usd : Decimal
  pub min_exit_depth_usd : Decimal
  pub emissions_reward_haircut : Decimal
  pub max_adverse_selection_apr : Decimal
  pub max_capital_usd : Decimal
  pub max_realized_daily_loss_usd : Decimal
  pub daily_opportunity_threshold : Decimal

pub record OpportunitySnapshot : Type 0 where
  pub token_address : Address
  pub pool_address : Address
  pub token_paused : Bool
  pub market_regime : MarketRegime
  pub oracle_healthy : Bool
  pub oracle_age_seconds : ℕ
  pub oracle_deviation_bps : Decimal
  pub pool_tvl_usd : Decimal
  pub exit_depth_usd : Decimal
  pub fee_apr : Decimal
  pub fee_retention_fraction : Decimal
  pub emissions_apr : Decimal
  pub impermanent_loss_apr : Decimal
  pub adverse_selection_apr : Decimal
  pub proposed_capital_usd : Decimal
  pub realized_daily_loss_usd : Decimal

pub record CompensationAnalysis : Type 0 where
  pub retained_fee_apr : Decimal
  pub adjusted_emissions_apr : Decimal
  pub total_compensation_apr : Decimal

pub record RiskDecision : Type 0 where
  pub status : DecisionStatus
  pub reasons : List RiskReason
  pub compensation : CompensationAnalysis
  pub net_apr : Decimal
  pub net_daily_rate : Decimal
