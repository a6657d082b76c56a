-- ===== src/Risk/Verdict.antt =====
-- What the verdict of src/aero_bot/risk.py says of the gates.
use aero_bot.Prelude.{
  ℕ, suc, Bool, true, false, List, [], ◌∷◌, ◌≡◌, ◌≢◌, ◌⊎◌, ◌↔◌, ◌≤◌, ◌<◌, not, ltb, inl, inr, refl,
  arith, Bool-cases,
}
use aero_bot.Prelude.Results.{ok, Returns}
use aero_bot.Decimal.{Decimal, lt, le}
use aero_bot.Policy.Types.{Address}
use aero_bot.Risk.Domain.{
  MarketRegime, DecisionStatus, RiskReason, RiskPolicy, OpportunitySnapshot, CompensationAnalysis,
}
use aero_bot.Risk.Engine.{
  is_allowed, is_open, when, reasons_of, status_of, evaluate, analyze_compensation, daily_rate,
  net_apr_of,
}

-- Membership in an allowlist.
abbrev pub IsListed : Address → List Address → Type 0
IsListed address [] = ⊥
IsListed address (allowed ∷ rest) = (address ≡ allowed) ⊎ IsListed address rest

is_allowed-true_iff :
    (address : Address) (allowed : List Address)
    → (is_allowed address allowed ≡ true) ↔ IsListed address allowed
unfolding is_allowed
is_allowed-true_iff address [] = ground arith
is_allowed-true_iff address (x ∷ xs) = let tail = is_allowed-true_iff address xs in ground arith

-- Everything that an eligible opportunity satisfies at its net daily rate.
pub record IsEligible (p : RiskPolicy) (s : OpportunitySnapshot) (rate : Decimal) : Type 0 where
  pub armed : p.emergency_halt ≡ false
  pub listed_token : IsListed s.token_address p.allowed_token_addresses
  pub listed_pool : IsListed s.pool_address p.allowed_pool_addresses
  pub active : s.token_paused ≡ false
  pub regime_open : s.market_regime ≡ MarketRegime.market_open
  pub healthy : s.oracle_healthy ≡ true
  pub fresh : s.oracle_age_seconds ≤ p.max_oracle_age_seconds
  pub near : le s.oracle_deviation_bps p.max_oracle_deviation_bps ≡ true
  pub liquid : le p.min_pool_tvl_usd s.pool_tvl_usd ≡ true
  pub deep : le p.min_exit_depth_usd s.exit_depth_usd ≡ true
  pub capped : le s.proposed_capital_usd p.max_capital_usd ≡ true
  pub below_stop : lt s.realized_daily_loss_usd p.max_realized_daily_loss_usd ≡ true
  pub tolerable : le s.adverse_selection_apr p.max_adverse_selection_apr ≡ true
  pub worthwhile : le p.daily_opportunity_threshold rate ≡ true

-- What each reason says of the policy, the opportunity and its net daily rate.
abbrev pub Applies : RiskPolicy → OpportunitySnapshot → Decimal → RiskReason → Type 0
Applies p s rate RiskReason.emergency_halt = p.emergency_halt ≡ true
Applies p s rate RiskReason.token_not_allowlisted =
    ¬ (IsListed s.token_address p.allowed_token_addresses)
Applies p s rate RiskReason.pool_not_allowlisted =
    ¬ (IsListed s.pool_address p.allowed_pool_addresses)
Applies p s rate RiskReason.token_paused = s.token_paused ≡ true
Applies p s rate RiskReason.market_closed = s.market_regime ≢ MarketRegime.market_open
Applies p s rate RiskReason.oracle_unhealthy = s.oracle_healthy ≡ false
Applies p s rate RiskReason.oracle_stale = p.max_oracle_age_seconds < s.oracle_age_seconds
Applies p s rate RiskReason.oracle_deviation =
    lt p.max_oracle_deviation_bps s.oracle_deviation_bps ≡ true
Applies p s rate RiskReason.insufficient_liquidity = lt s.pool_tvl_usd p.min_pool_tvl_usd ≡ true
Applies p s rate RiskReason.insufficient_exit_depth =
    lt s.exit_depth_usd p.min_exit_depth_usd ≡ true
Applies p s rate RiskReason.capital_cap_exceeded =
    lt p.max_capital_usd s.proposed_capital_usd ≡ true
Applies p s rate RiskReason.daily_loss_stop =
    le p.max_realized_daily_loss_usd s.realized_daily_loss_usd ≡ true
Applies p s rate RiskReason.adverse_selection_excessive =
    lt p.max_adverse_selection_apr s.adverse_selection_apr ≡ true
Applies p s rate RiskReason.opportunity_below_threshold =
    lt rate p.daily_opportunity_threshold ≡ true

-- The gates as a table, which the proofs run over.
abbrev fails : RiskPolicy → OpportunitySnapshot → Decimal → RiskReason → Bool
fails p s rate RiskReason.emergency_halt = p.emergency_halt
fails p s rate RiskReason.token_not_allowlisted =
    not (is_allowed s.token_address p.allowed_token_addresses)
fails p s rate RiskReason.pool_not_allowlisted =
    not (is_allowed s.pool_address p.allowed_pool_addresses)
fails p s rate RiskReason.token_paused = s.token_paused
fails p s rate RiskReason.market_closed = not (is_open s.market_regime)
fails p s rate RiskReason.oracle_unhealthy = not s.oracle_healthy
fails p s rate RiskReason.oracle_stale = ltb p.max_oracle_age_seconds s.oracle_age_seconds
fails p s rate RiskReason.oracle_deviation = lt p.max_oracle_deviation_bps s.oracle_deviation_bps
fails p s rate RiskReason.insufficient_liquidity = lt s.pool_tvl_usd p.min_pool_tvl_usd
fails p s rate RiskReason.insufficient_exit_depth = lt s.exit_depth_usd p.min_exit_depth_usd
fails p s rate RiskReason.capital_cap_exceeded = lt p.max_capital_usd s.proposed_capital_usd
fails p s rate RiskReason.daily_loss_stop =
    le p.max_realized_daily_loss_usd s.realized_daily_loss_usd
fails p s rate RiskReason.adverse_selection_excessive =
    lt p.max_adverse_selection_apr s.adverse_selection_apr
fails p s rate RiskReason.opportunity_below_threshold = lt rate p.daily_opportunity_threshold

abbrev gates : List RiskReason
gates =
    RiskReason.emergency_halt ∷ RiskReason.token_not_allowlisted ∷ RiskReason.pool_not_allowlisted
    ∷ RiskReason.token_paused ∷ RiskReason.market_closed ∷ RiskReason.oracle_unhealthy
    ∷ RiskReason.oracle_stale ∷ RiskReason.oracle_deviation ∷ RiskReason.insufficient_liquidity
    ∷ RiskReason.insufficient_exit_depth ∷ RiskReason.capital_cap_exceeded
    ∷ RiskReason.daily_loss_stop ∷ RiskReason.adverse_selection_excessive
    ∷ RiskReason.opportunity_below_threshold ∷ []

abbrev append_reasons : (RiskReason → Bool) → List RiskReason → List RiskReason
append_reasons failing [] = []
append_reasons failing (reason ∷ rest) = when (failing reason) reason (append_reasons failing rest)

reasons_of-table :
    (p : RiskPolicy) (s : OpportunitySnapshot) (rate : Decimal)
    → reasons_of p s rate ≡ append_reasons (fails p s rate) gates
unfolding reasons_of
reasons_of-table p s rate = refl

abbrev AllPass : (RiskReason → Bool) → List RiskReason → Type 0
AllPass failing [] = Unit
AllPass failing (reason ∷ rest) = (failing reason ≡ false) × AllPass failing rest

append_reasons-eligible_iff :
    (failing : RiskReason → Bool) (reasons : List RiskReason)
    → (status_of (append_reasons failing reasons) ≡ DecisionStatus.eligible)
      ↔ AllPass failing reasons
append_reasons-eligible_iff failing [] = (λ e. tt, λ e. refl)
append_reasons-eligible_iff failing (reason ∷ rest) =
    let tail = append_reasons-eligible_iff failing rest in
    elim (Bool-cases (failing reason)) [
      | inl e ↦ rw e (λ h. cc, λ (h, _). cc)
      | inr e ↦ rw e (λ h. (refl, tail.0 h), λ (_, h). tail.1 h)
    ]

-- The place of a gate in the fixed order.
abbrev pub rank : RiskReason → ℕ
rank RiskReason.emergency_halt = 0
rank RiskReason.token_not_allowlisted = 1
rank RiskReason.pool_not_allowlisted = 2
rank RiskReason.token_paused = 3
rank RiskReason.market_closed = 4
rank RiskReason.oracle_unhealthy = 5
rank RiskReason.oracle_stale = 6
rank RiskReason.oracle_deviation = 7
rank RiskReason.insufficient_liquidity = 8
rank RiskReason.insufficient_exit_depth = 9
rank RiskReason.capital_cap_exceeded = 10
rank RiskReason.daily_loss_stop = 11
rank RiskReason.adverse_selection_excessive = 12
rank RiskReason.opportunity_below_threshold = 13

-- Strictly ascending ranks, from a bound on.
abbrev pub AscendingFrom : ℕ → List RiskReason → Type 0
AscendingFrom n [] = Unit
AscendingFrom n (reason ∷ rest) = (n ≤ rank reason) × AscendingFrom (suc (rank reason)) rest

-- A reason of the list.
abbrev pub Given : RiskReason → List RiskReason → Type 0
Given reason [] = ⊥
Given reason (given ∷ rest) = (reason ≡ given) ⊎ Given reason rest

AscendingFrom-weaken :
    (m n : ℕ) (reasons : List RiskReason)
    → m ≤ n
    → AscendingFrom n reasons
    → AscendingFrom m reasons
AscendingFrom-weaken m n [] h ascending = tt
AscendingFrom-weaken m n (reason ∷ rest) h (bound, ascending) = (omega arith, ascending)

append_reasons-AscendingFrom :
    (failing : RiskReason → Bool) (n : ℕ) (reasons : List RiskReason)
    → AscendingFrom n reasons
    → AscendingFrom n (append_reasons failing reasons)
append_reasons-AscendingFrom failing n [] ascending = tt
append_reasons-AscendingFrom failing n (reason ∷ rest) (bound, ascending) =
    let tail = append_reasons-AscendingFrom failing (suc (rank reason)) rest ascending in
    elim (Bool-cases (failing reason)) [
      | inl e ↦ rw e (bound, tail)
      | inr e ↦ rw e (AscendingFrom-weaken n (suc (rank reason)) _ (omega arith) tail)
    ]

append_reasons-Given_iff :
    (failing : RiskReason → Bool) (reason : RiskReason) (reasons : List RiskReason)
    → Given reason (append_reasons failing reasons)
      ↔ (Given reason reasons × (failing reason ≡ true))
append_reasons-Given_iff failing reason [] = (λ h. absurd h, λ (h, _). absurd h)
append_reasons-Given_iff failing reason (first ∷ rest) =
    let tail = append_reasons-Given_iff failing reason rest in
    elim (Bool-cases (failing first)) [ inl e ↦ rw e (ground arith) | inr e ↦ rw e (ground arith) ]

every_gate-Given : (reason : RiskReason) → Given reason gates
every_gate-Given reason = ground arith

module _ (p : RiskPolicy) (s : OpportunitySnapshot) (rate : Decimal) where
  AllPass-iff : AllPass (fails p s rate) gates ↔ IsEligible p s rate
  AllPass-iff =
      let token = is_allowed-true_iff s.token_address p.allowed_token_addresses in
      let pool = is_allowed-true_iff s.pool_address p.allowed_pool_addresses in ground arith

  fails-Applies : (reason : RiskReason) → (fails p s rate reason ≡ true) ↔ Applies p s rate reason
  fails-Applies RiskReason.token_not_allowlisted =
      let token = is_allowed-true_iff s.token_address p.allowed_token_addresses in ground arith
  fails-Applies RiskReason.pool_not_allowlisted =
      let pool = is_allowed-true_iff s.pool_address p.allowed_pool_addresses in ground arith
  fails-Applies reason = ground arith

module _ (p : RiskPolicy) (s : OpportunitySnapshot) (compensation : CompensationAnalysis)
    (computed : analyze_compensation p s ≡ ok compensation) where
  -- When the compensation can be computed, `evaluate` returns, and its verdict is eligible exactly if
  -- there is no emergency halt, token and pool are listed, the token is active, the market open, the
  -- oracle healthy, fresh and near the pool, the pool and its exit deep enough, the capital and the
  -- adverse selection within their caps, the loss of the day below the stop, and the net daily rate
  -- that it reports at the threshold or above.
  pub evaluate-eligible_iff : Returns (evaluate p s) (λ decision.
      (decision.status ≡ DecisionStatus.eligible) ↔ IsEligible p s decision.net_daily_rate)
  unfolding evaluate
  evaluate-eligible_iff =
      rw (computed, reasons_of-table)
        (let rate = daily_rate (net_apr_of s compensation) in
          let verdict = append_reasons-eligible_iff (fails p s rate) gates in
          let gates = AllPass-iff p s rate in
          (λ h. gates.0 (verdict.0 h), λ h. verdict.1 (gates.1 h)))

  -- When the compensation can be computed, `evaluate` returns its reasons in the fixed order of the
  -- gates, each at most once, and a reason is given exactly if it applies: the halt is set, a
  -- token or pool is not listed, the token is paused, the market not open, the oracle unhealthy,
  -- older than its bound or further off than its bound, the pool or its exit below its minimum,
  -- the capital or the adverse selection above its cap, the loss of the day at the stop or above,
  -- the net daily rate that it reports below the threshold.
  pub evaluate-reasons : Returns (evaluate p s) (λ decision.
      AscendingFrom 0 decision.reasons
      × ((reason : RiskReason)
          → Given reason decision.reasons ↔ Applies p s decision.net_daily_rate reason))
  unfolding evaluate
  evaluate-reasons =
      let rate = daily_rate (net_apr_of s compensation) in
      let failing = fails p s rate in
      rw (computed, reasons_of-table)
        (
          append_reasons-AscendingFrom failing 0 gates (ground arith),
          λ reason.
              let given = append_reasons-Given_iff failing reason gates in
              let (applies, applies_back) = fails-Applies p s rate reason in
              (λ h. applies (given.0 h).1, λ h. given.1 (every_gate-Given reason, applies_back h)),
        )
