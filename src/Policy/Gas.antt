-- ===== src/Policy/Gas.antt =====
-- The gas model of src/aero_bot/policy.py: `income_expectation_apr`, `_batch_gas`,
-- `_gas_gate_blocks` and `_downside_recenter_economics`. The lines of text that they return beside
-- their verdict are left out.
use aero_bot.Prelude.{ℕ, ◌+◌, Bool, true, false, Option, none, some, map, if◌then◌else◌}
use aero_bot.Decimal.{Decimal, whole, lt, le, add, mul, div, sum, default_precision}
use aero_bot.Policy.Parameters.{PolicyParameters}
use aero_bot.Policy.Types.{PolicyObservation, SwapPlan, SwapTranche}

abbrev pub days_per_year : Decimal
days_per_year = whole 365

abbrev pub gwei_per_eth : Decimal
gwei_per_eth = whole 1_000_000_000

-- The lower of the current reading and a conservative basis, where one is carried.
unfoldable pub income_expectation_apr : PolicyObservation → Decimal
income_expectation_apr observation = elim observation.conservative_income_apr [
  | none ↦ observation.emissions_apr
  | some basis ↦ if lt basis observation.emissions_apr then basis else observation.emissions_apr
]

abbrev pub total_gas_units : PolicyParameters → ℕ → ℕ
total_gas_units p action_gas_units = action_gas_units + p.safe_overhead_gas_per_batch

unfoldable pub batch_cost_usd : PolicyParameters → ℕ → Decimal → Decimal
batch_cost_usd p units gas_price =
    mul default_precision
      (div default_precision (mul default_precision (whole units) gas_price) gwei_per_eth)
      p.eth_price_assumption_usd

-- The batch's units, and its cost where the gas price can be read.
unfoldable pub batch_gas : PolicyParameters → PolicyObservation → ℕ → ℕ × Option Decimal
batch_gas p observation action_gas_units =
    let units = total_gas_units p action_gas_units in
    elim observation.gas_price_gwei [
      | none ↦ (units, none)
      | some gas_price ↦ (units, some (batch_cost_usd p units gas_price))
    ]

unfoldable pub expected_daily_gross_yield : PolicyObservation → Decimal → Decimal
expected_daily_gross_yield observation position_value_usd =
    div default_precision
      (mul default_precision position_value_usd
        (add default_precision (income_expectation_apr observation) observation.fee_apr))
      days_per_year

-- Whether a batch that is not urgent must wait.
unfoldable pub gas_gate_blocks : PolicyParameters → PolicyObservation → ℕ → Decimal → Bool
gas_gate_blocks p observation action_gas_units position_value_usd =
    elim observation.gas_price_gwei [
      | none ↦ true
      | some gas_price ↦
          if lt p.gas_price_ceiling_gwei gas_price
          then true
          else lt
              (mul default_precision p.gas_cost_max_gross_yield_fraction
                (expected_daily_gross_yield observation position_value_usd))
              (batch_cost_usd p (total_gas_units p action_gas_units) gas_price)
    ]

abbrev tranche_cost : SwapTranche → Decimal
tranche_cost tranche =
    mul default_precision tranche.usd_size
      (elim tranche.modeled_impact_fraction [ none ↦ whole 0 | some impact ↦ impact ])

unfoldable pub impact_cost : SwapPlan → Decimal
impact_cost plan = sum default_precision (map tranche_cost plan.tranches)

-- Whether a downside recenter earns its gas and price impact back in time.
unfoldable pub downside_recenter_economics :
    PolicyParameters → PolicyObservation → Decimal → SwapPlan → Option Decimal → Bool
downside_recenter_economics p observation position_value_usd plan gas_cost_usd =
    let expected = expected_daily_gross_yield observation position_value_usd in
    elim gas_cost_usd [
      | none ↦ false
      | some gas_cost ↦ elim plan.max_modeled_impact_fraction [
        | none ↦ false
        | some impact ↦
            if lt p.swap_impact_ceiling_fraction impact
            then false
            else if le expected (whole 0)
            then false
            else le
                (div default_precision (add default_precision gas_cost (impact_cost plan)) expected)
                p.downside_recenter_max_payback_days
      ]
    ]
