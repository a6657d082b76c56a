-- ===== src/Policy/Parameters.antt =====
-- `PolicyParameters` of src/aero_bot/policy.py, its validator and the locked values.
use aero_bot.Prelude.{ℕ, ◌*◌, Bool, not, ◌&&◌, ltb}
use aero_bot.Prelude.Int.{pos, leb_ℤ}
use aero_bot.Prelude.Results.{Result, raise_if, validation_error, ◌>>◌}
use aero_bot.Decimal.{Decimal, whole, literal, lt, le}
use aero_bot.Ranging.Types.{Span}

pub data RangeWidthPolicy : Type 0 where
  adaptive_band fixed_ceiling_baseline : RangeWidthPolicy

pub record PolicyParameters : Type 0 where
  pub target_net_daily_yield : Decimal
  pub min_range_half_width_fraction : Decimal
  pub max_range_half_width_fraction : Decimal
  pub range_width_policy : RangeWidthPolicy
  pub dilution_reentry_margin_fraction : Decimal
  pub tick_spacing : ℕ
  pub recenter_wait : Span
  pub out_of_range_grace : Span
  pub downside_recenter_min_distance_fraction : Decimal
  pub downside_recenter_max_payback_days : Decimal
  pub stop_buffer_fraction : Decimal
  pub reentry_cooldown : Span
  pub min_entry_emissions_apr : Decimal
  pub max_position_equity_fraction : Decimal
  pub max_position_depth_fraction : Decimal
  pub daily_loss_halt_fraction : Decimal
  pub reference_max_age_seconds : ℕ
  pub reference_open_position_max_age_seconds : ℕ
  pub dislocation_threshold_fraction : Decimal
  pub convergence_timeout : Span
  pub swap_impact_ceiling_fraction : Decimal
  pub swap_impact_tranche_fraction : Decimal
  pub gas_price_ceiling_gwei : Decimal
  pub gas_cost_max_gross_yield_fraction : Decimal
  pub safe_overhead_gas_per_batch : ℕ
  pub enter_batch_gas_units : ℕ
  pub recenter_batch_gas_units : ℕ
  pub exit_batch_gas_units : ℕ
  pub inventory_sell_gas_units : ℕ
  pub eth_price_assumption_usd : Decimal

-- `PolicyParameters.require_unit_fractions`
abbrev is_open_unit : Decimal → Bool
is_open_unit x = lt (whole 0) x && lt x (whole 1)

abbrev is_half_open_unit : Decimal → Bool
is_half_open_unit x = lt (whole 0) x && le x (whole 1)

unfoldable pub require_unit_fractions : PolicyParameters → Result (Unit {0})
require_unit_fractions p = do
  raise_if (not (is_open_unit p.min_range_half_width_fraction)) validation_error
  raise_if (not (is_open_unit p.max_range_half_width_fraction)) validation_error
  raise_if (le p.max_range_half_width_fraction p.min_range_half_width_fraction) validation_error
  raise_if (not (is_open_unit p.dilution_reentry_margin_fraction)) validation_error
  raise_if (not (is_open_unit p.stop_buffer_fraction)) validation_error
  raise_if (not (is_half_open_unit p.max_position_equity_fraction)) validation_error
  raise_if (not (is_half_open_unit p.max_position_depth_fraction)) validation_error
  raise_if (not (is_open_unit p.daily_loss_halt_fraction)) validation_error
  raise_if (not (is_open_unit p.dislocation_threshold_fraction)) validation_error
  raise_if
      (not (
        lt (whole 0) p.swap_impact_tranche_fraction
        && le p.swap_impact_tranche_fraction p.swap_impact_ceiling_fraction))
      validation_error
  raise_if (not (is_open_unit p.swap_impact_ceiling_fraction)) validation_error
  raise_if (le p.gas_price_ceiling_gwei (whole 0)) validation_error
  raise_if (not (is_open_unit p.gas_cost_max_gross_yield_fraction)) validation_error
  raise_if (le p.eth_price_assumption_usd (whole 0)) validation_error
  raise_if (leb_ℤ p.convergence_timeout (pos 0)) validation_error
  raise_if (leb_ℤ p.out_of_range_grace (pos 0)) validation_error
  raise_if (ltb p.reference_open_position_max_age_seconds p.reference_max_age_seconds)
      validation_error

-- `LOCKED_POLICY_PARAMETERS`
abbrev minutes : ℕ → Span
minutes n = pos (n * 60_000_000)

abbrev pub locked_policy_parameters : PolicyParameters
locked_policy_parameters = record {
  target_net_daily_yield = literal 1 2;
  min_range_half_width_fraction = literal 1 3;
  max_range_half_width_fraction = literal 3 3;
  range_width_policy = adaptive_band;
  dilution_reentry_margin_fraction = literal 30 2;
  tick_spacing = 10;
  recenter_wait = minutes 15;
  out_of_range_grace = minutes 10;
  downside_recenter_min_distance_fraction = literal 1 3;
  downside_recenter_max_payback_days = whole 1;
  stop_buffer_fraction = literal 5 3;
  reentry_cooldown = minutes 15;
  min_entry_emissions_apr = literal 15 1;
  max_position_equity_fraction = literal 80 2;
  max_position_depth_fraction = literal 1 2;
  daily_loss_halt_fraction = literal 5 2;
  reference_max_age_seconds = 300;
  reference_open_position_max_age_seconds = 900;
  dislocation_threshold_fraction = literal 15 4;
  convergence_timeout = minutes 5;
  swap_impact_ceiling_fraction = literal 1 3;
  swap_impact_tranche_fraction = literal 5 4;
  gas_price_ceiling_gwei = literal 5 1;
  gas_cost_max_gross_yield_fraction = literal 5 2;
  safe_overhead_gas_per_batch = 100_000;
  enter_batch_gas_units = 650_000;
  recenter_batch_gas_units = 550_000;
  exit_batch_gas_units = 350_000;
  inventory_sell_gas_units = 180_000;
  eth_price_assumption_usd = whole 3000;
}
