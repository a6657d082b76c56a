-- ===== src/Policy/Examples.antt =====
-- Observations and states of a small book for the runs of Policy/Tests.antt: the locked parameters
-- of src/aero_bot/policy.py, a pool price of about 100 USDC and days of 24 hours from the epoch.
use aero_bot.Prelude.{◌≡◌, refl, ℕ, ◌*◌, ◌/◌, none, some, Bool, true, false, []}
use aero_bot.Prelude.Int.{ℤ, pos, negsuc}
use aero_bot.Prelude.Results.{Result, ok, err}
use aero_bot.Decimal.{whole, literal}
use aero_bot.Ranging.Types.{
  Instant, RangeSolver, WidthSolution, WidthSolveMode, AlignedBound, RangingEvidence,
}
use aero_bot.Policy.Parameters.{locked_policy_parameters}
use aero_bot.Policy.Types.{
  Day, PolicyObservation, PolicyPosition, PolicyState, PolicyOutcome, HeldInventory,
  InventoryOrigin, AlignedPriceRange, SwapPlan, SwapDirection, PolicyReason,
}
use aero_bot.Policy.Day.{PolicyEngine}
use aero_bot.Policy.Exits.{hold}

abbrev pub day_of : Instant → Day
day_of (pos n) = n / 86_400_000_000
day_of (negsuc n) = 0

abbrev pub seconds : ℕ → Instant
seconds n = pos (n * 1_000_000)

abbrev bound : ℤ → ℕ → AlignedBound
bound tick price = record { tick = tick; price = literal price 1; distance_fraction = literal 2 3 }

abbrev pub solution : WidthSolution
solution = record {
  mode = WidthSolveMode.solved;
  lower_bound = some (bound (pos 100) 998);
  upper_bound = some (bound (pos 140) 1002);
  tick_spacing = 10;
  target_net_daily_yield = literal 1 2;
  implied_average_half_width_fraction = some (literal 2 3);
  evaluations = [];
}

abbrev solver : RangeSolver
solver = record {
  ceiling_width_solution = λ _ _ _ _. ok solution;
  solve_range_width = λ _. ok solution;
}

abbrev pub engine : PolicyEngine
engine = record { parameters = locked_policy_parameters; new_york_day = day_of; solver = solver }

abbrev evidence : RangingEvidence
evidence = record {
  gauge_liquidity_raw = 1_000_000;
  staked_tvl_usd = whole 400_000;
  active_liquidity_raw = 900_000;
  fee_window_seconds = 3_600;
  fee_window_notional_usd = whole 10_000;
  pool_fee_ppm = 500;
  realized_daily_volatility = some (literal 2 2);
  trailing_path = [];
  stock_decimals = 18;
  quote_decimals = 6;
  pool_tick_raw = some (pos 120);
  stock_is_token0 = some true;
}

-- An observation at a time, with a pool price in tenths of a USDC.
abbrev pub observed : Instant → ℕ → PolicyObservation
observed at price = record {
  observed_at = at;
  pool_address = 1;
  token_address = 2;
  amm_price_usdc = literal price 1;
  emissions_apr = whole 2;
  conservative_income_apr = none;
  fee_apr = whole 0;
  pool_depth_usd = whole 50_000;
  equity_usd = whole 1_000;
  portfolio_equity_usd = none;
  reference_price_usdc = none;
  reference_age_seconds = none;
  reference_enforcement_enabled = false;
  oracle_stale = false;
  registry_paused = false;
  gas_price_gwei = some (literal 5 2);
  ranging = some evidence;
}

abbrev pub in_range : PolicyObservation
in_range = observed (seconds 1_000) 1_000

abbrev pub fresh_state : PolicyState
fresh_state = record {
  day = none;
  day_start_equity_usd = whole 0;
  peak_equity_usd = none;
  halted_day = none;
  position = none;
  held_inventory = none;
  reentry_blocked_until = none;
  dilution_exit_pending = false;
}

abbrev pub range : AlignedPriceRange
range = record {
  lower_tick = pos 100;
  upper_tick = pos 140;
  lower_price = literal 998 1;
  upper_price = literal 1_002 1;
  exact_bounds = true;
}

abbrev pub position : PolicyPosition
position = record {
  pool_address = 1;
  token_address = 2;
  price_range = range;
  committed_usd = whole 500;
  entered_at = seconds 10;
  out_of_range_since = some (seconds 100);
  out_of_range_side = none;
}

abbrev pub open_state : PolicyState
open_state = record fresh_state { position = some position }

abbrev pub inventory : HeldInventory
inventory = record {
  pool_address = 1;
  token_address = 2;
  stock_quantity = whole 2;
  held_since = seconds 100;
  origin = InventoryOrigin.failed_entry;
}

abbrev pub holding_state : PolicyState
holding_state = record fresh_state { held_inventory = some inventory }

abbrev pub halted_state : PolicyState
halted_state = record fresh_state { day = some 0; halted_day = some 0 }

-- What a run returned.
abbrev pub outcome_of : Result PolicyOutcome → PolicyOutcome
outcome_of (ok out) = out
outcome_of (err _) = hold fresh_state PolicyReason.flat_awaiting_entry

abbrev pub result_or : {A : Type 0} → A → Result A → A
result_or a (ok b) = b
result_or a (err _) = a

abbrev pub empty_plan : SwapPlan
empty_plan = record {
  direction = SwapDirection.buy_stock;
  total_usd = whole 0;
  route_depth_usd = whole 0;
  tranches = [];
  max_modeled_impact_fraction = none;
}

abbrev pub is_ok : {A : Type 0} → Result A → Bool
is_ok (ok _) = true
is_ok (err _) = false

pub result_or-ok :
    {A : Type 0} (a : A) (result : Result A)
    → is_ok result ≡ true
    → result ≡ ok (result_or a result)
result_or-ok a (ok b) h = refl
result_or-ok a (err e) h = cc
