-- ===== src/Ranging/Solve.antt =====
-- `solve_range_width` of src/aero_bot/ranging.py.
use aero_bot.Prelude.{Bool, ◌||◌, Option, none, some, List, [], ◌∷◌, ◌++◌, if◌then◌else◌}
use aero_bot.Prelude.Int.{ℤ}
use aero_bot.Prelude.Results.{Result, ok, ◌>>=◌}
use aero_bot.Decimal.{Decimal, whole, lt, sub, checked_div, default_precision}
use aero_bot.Ranging.Types.{
  RangingObservations, WidthSolution, WidthSolveMode, AlignedBound, ExecutableRangeEvaluation,
}
use aero_bot.Ranging.Math.{DecimalMath, is_positive, human_price_from_raw_tick, tick_price_ratio}
use aero_bot.Ranging.Implied.{implied_average_half_width_fraction}
use aero_bot.Ranging.Grid.{Grid, enumerate_aligned_bounds, with_found}
use aero_bot.Ranging.Score.{SolveTerms, score_pair}
use aero_bot.Ranging.Choice.{sort, best_of}
use aero_bot.Ranging.Evidence.{path_unusable, liquidity_unusable, solve_terms}

unfoldable pub deferred_solution : RangingObservations → WidthSolution
deferred_solution observations = record {
  mode = WidthSolveMode.deferred;
  lower_bound = none;
  upper_bound = none;
  tick_spacing = observations.tick_spacing;
  target_net_daily_yield = observations.target_net_daily_yield;
  implied_average_half_width_fraction = none;
  evaluations = [];
}

abbrev pub grid_of : RangingObservations → ℤ → Bool → Grid
grid_of observations tick stock_is_token0 = record {
  pool_price_usdc = observations.pool_price_usdc;
  tick_spacing = observations.tick_spacing;
  min_distance_fraction = observations.min_range_half_width_fraction;
  max_distance_fraction = observations.max_range_half_width_fraction;
  pool_tick_raw = tick;
  stock_is_token0 = stock_is_token0;
  stock_decimals = observations.evidence.stock_decimals;
  quote_decimals = observations.evidence.quote_decimals;
}

-- `abs(x) > bound` for a bound that is not negative.
abbrev pub exceeds : (bound x : Decimal) → Bool
exceeds bound x = lt bound x || lt x (sub default_precision (whole 0) bound)

-- Whether the raw tick's price disagrees with the observed price, in the default context.
unfoldable pub tick_incoherent : DecimalMath → Grid → Result Bool
tick_incoherent math grid = do
  tick_price ←
      human_price_from_raw_tick math grid.pool_tick_raw grid.stock_is_token0 grid.stock_decimals
        grid.quote_decimals
  relative ← checked_div default_precision tick_price grid.pool_price_usdc
  ok (
      exceeds (sub default_precision tick_price_ratio (whole 1))
        (sub default_precision relative (whole 1)))

-- One lower bound with every upper bound, and then every pair, in the order of the loops.
unfoldable pub score_uppers :
    DecimalMath
    → RangingObservations
    → SolveTerms
    → AlignedBound
    → List AlignedBound
    → Result (List ExecutableRangeEvaluation)
score_uppers math observations terms lower [] = ok []
score_uppers math observations terms lower (upper ∷ uppers) = do
  scored ← score_pair math observations terms lower upper
  rest ← score_uppers math observations terms lower uppers
  ok (with_found scored rest)

unfoldable pub score_pairs :
    DecimalMath
    → RangingObservations
    → SolveTerms
    → (lowers uppers : List AlignedBound) → Result (List ExecutableRangeEvaluation)
score_pairs math observations terms [] uppers = ok []
score_pairs math observations terms (lower ∷ lowers) uppers = do
  scored ← score_uppers math observations terms lower uppers
  rest ← score_pairs math observations terms lowers uppers
  ok (scored ++ rest)

-- The solution of the sorted evaluations.
unfoldable pub choose :
    RangingObservations → Option Decimal → List ExecutableRangeEvaluation → WidthSolution
choose observations implied_width [] = deferred_solution observations
choose observations implied_width (first ∷ rows) =
    let best = best_of first rows in
    if is_positive best.net_yield_per_day
    then record {
      mode = WidthSolveMode.solved;
      lower_bound = some best.lower_bound;
      upper_bound = some best.upper_bound;
      tick_spacing = observations.tick_spacing;
      target_net_daily_yield = observations.target_net_daily_yield;
      implied_average_half_width_fraction = implied_width;
      evaluations = first ∷ rows;
    }
    else record {
      mode = WidthSolveMode.cash_hold;
      lower_bound = none;
      upper_bound = none;
      tick_spacing = observations.tick_spacing;
      target_net_daily_yield = observations.target_net_daily_yield;
      implied_average_half_width_fraction = implied_width;
      evaluations = first ∷ rows;
    }

-- The solve once its evidence is usable.
unfoldable pub solve_grid :
    DecimalMath → RangingObservations → Decimal → Grid → Result WidthSolution
solve_grid math observations volatility grid = do
  implied_width ←
      implied_average_half_width_fraction math observations.pool_price_usdc
        observations.evidence.gauge_liquidity_raw observations.evidence.staked_tvl_usd
        observations.evidence.stock_decimals observations.evidence.quote_decimals
  terms ← solve_terms math observations volatility
  bounds ← enumerate_aligned_bounds math grid
  rows ← score_pairs math observations terms bounds.0 bounds.1
  ok (choose observations implied_width (sort rows))

abbrev pub tick_and_orientation : RangingObservations → Option (ℤ × Bool)
tick_and_orientation observations = elim observations.evidence.pool_tick_raw [
  | none ↦ none
  | some tick ↦ elim observations.evidence.stock_is_token0 [
    | none ↦ none
    | some stock_is_token0 ↦ some (tick, stock_is_token0)
  ]
]

unfoldable pub solve_anchored :
    DecimalMath → RangingObservations → Decimal → Option (ℤ × Bool) → Result WidthSolution
solve_anchored math observations volatility none = ok (deferred_solution observations)
solve_anchored math observations volatility (some anchor) = do
  let grid = grid_of observations anchor.0 anchor.1
  incoherent ← tick_incoherent math grid
  if incoherent
      then ok (deferred_solution observations)
      else solve_grid math observations volatility grid

unfoldable pub solve_measured :
    DecimalMath → RangingObservations → Option Decimal → Result WidthSolution
solve_measured math observations none = ok (deferred_solution observations)
solve_measured math observations (some volatility) =
    if path_unusable observations observations.evidence.trailing_path
      || liquidity_unusable observations
    then ok (deferred_solution observations)
    else solve_anchored math observations volatility (tick_and_orientation observations)

unfoldable pub solve_range_width : DecimalMath → RangingObservations → Result WidthSolution
solve_range_width math observations =
    solve_measured math observations observations.evidence.realized_daily_volatility
