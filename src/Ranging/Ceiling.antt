-- ===== src/Ranging/Ceiling.antt =====
-- `ceiling_width_solution` of src/aero_bot/ranging.py, and the solver as the policy engine takes it.
use aero_bot.Prelude.{ℕ, not, none, some, []}
use aero_bot.Prelude.Int.{pos, ◌*ℤ◌}
use aero_bot.Prelude.Results.{Result, ok, Error, raise_if, ◌>>=◌, ◌>>◌}
use aero_bot.Decimal.{Decimal, whole}
use aero_bot.Decimal.Root.{ceiling, floor}
use aero_bot.Ranging.Types.{WidthSolution, WidthSolveMode, RangeSolver}
use aero_bot.Ranging.Math.{
  DecimalMath, ◌⊕◌, ◌⊖◌, ◌⊗◌, ratio, plus, is_positive, integer, tick_price_ratio,
}
use aero_bot.Ranging.Grid.{aligned_bound}
use aero_bot.Ranging.Solve.{solve_range_width}

-- How many steps of the grid a price lies above one, before it is rounded.
abbrev pub steps_of : DecimalMath → ℕ → Decimal → Result Decimal
steps_of math tick_spacing price = do
  tick_log ← math.ln tick_price_ratio
  price_log ← math.ln price
  raw_tick ← ratio price_log tick_log
  ratio raw_tick (whole tick_spacing)

unfoldable pub ceiling_width_solution :
    DecimalMath
    → (pool_price_usdc : Decimal) (tick_spacing : ℕ)
      (max_range_half_width_fraction target_net_daily_yield : Decimal)
    → Result WidthSolution
ceiling_width_solution math pool_price_usdc tick_spacing width target_net_daily_yield = do
  raise_if (not (is_positive pool_price_usdc)) Error.value_error
  lower_steps ← steps_of math tick_spacing (pool_price_usdc ⊗ (whole 1 ⊖ width))
  upper_steps ← steps_of math tick_spacing (pool_price_usdc ⊗ (whole 1 ⊕ width))
  let lower_tick = floor lower_steps *ℤ pos tick_spacing
  let upper_tick = ceiling upper_steps *ℤ pos tick_spacing
  lower_price ← math.power tick_price_ratio (integer lower_tick)
  upper_price ← math.power tick_price_ratio (integer upper_tick)
  below ← ratio lower_price pool_price_usdc
  above ← ratio upper_price pool_price_usdc
  lower ← aligned_bound lower_tick (plus lower_price) (plus (whole 1 ⊖ below))
  upper ← aligned_bound upper_tick (plus upper_price) (plus (above ⊖ whole 1))
  ok (record {
    mode = WidthSolveMode.fallback_ceiling;
    lower_bound = some lower;
    upper_bound = some upper;
    tick_spacing = tick_spacing;
    target_net_daily_yield = target_net_daily_yield;
    implied_average_half_width_fraction = none;
    evaluations = [];
  })

abbrev pub range_solver : DecimalMath → RangeSolver
range_solver math = record {
  ceiling_width_solution = ceiling_width_solution math;
  solve_range_width = solve_range_width math;
}
