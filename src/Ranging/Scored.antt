-- ===== src/Ranging/Scored.antt =====
-- What every evaluation of `solve_range_width` of src/aero_bot/ranging.py records.
use aero_bot.Prelude.{
  ℕ, ◌==◌, true, not, ◌||◌, Option, none, some, List, [], ◌∷◌, ◌≡◌, arith, AllOf, AllOf-append,
}
use aero_bot.Prelude.Results.{
  ok, Error, Ensures, Ensures-bind, Ensures-ok, Ensures-guard, Ensures-if, ◌>>=◌,
}
use aero_bot.Decimal.{Decimal, le, whole, min, max}
use aero_bot.Ranging.Types.{AlignedBound, RangingObservations, ExecutableRangeEvaluation}
use aero_bot.Ranging.Math.{
  DecimalMath, ◌⊖◌, ratio, is_positive, tick_price_ratio, position_liquidity_at_price,
  band_dwell_fraction,
}
use aero_bot.Ranging.Grid.{Grid, enumerate_aligned_bounds, cell_of}
use aero_bot.Ranging.Score.{
  SolveTerms, score_pair, evaluate_pair, evaluation_fits, added_of, score_measured,
}
use aero_bot.Ranging.Solve.{score_uppers, score_pairs}
use aero_bot.Ranging.Found.{OptionHas, with_found-AllOf, LiesBelow, LiesAbove, walk_outward-Lies}

pub enumerate_aligned_bounds-Lies :
    (math : DecimalMath) (grid : Grid)
    → let anchor = cell_of grid.pool_tick_raw grid.tick_spacing in
      Ensures (enumerate_aligned_bounds math grid) (λ bounds.
        AllOf (LiesBelow math grid anchor) bounds.0 × AllOf (LiesAbove math grid anchor) bounds.1)
unfolding enumerate_aligned_bounds
enumerate_aligned_bounds-Lies math grid =
    Ensures-guard (not (is_positive grid.pool_price_usdc)) Error.value_error _ _ (λ _.
      Ensures-guard (grid.tick_spacing == 0) Error.value_error _ _ (λ spaced.
        Ensures-guard
          (not (is_positive grid.min_distance_fraction)
            || le grid.max_distance_fraction grid.min_distance_fraction)
          Error.value_error _ _
          (λ _.
            Ensures-bind (math.power tick_price_ratio (whole grid.tick_spacing)) _ _ (λ raised _.
              Ensures-bind (ratio grid.max_distance_fraction (raised ⊖ whole 1)) _ _ (λ widths _.
                walk_outward-Lies math grid (cell_of grid.pool_tick_raw grid.tick_spacing)
                  (ground arith) _ 1 (omega arith))))))

-- The evaluation of a pair carries the pair, and passes its model's checks.
abbrev pub Records : (lower upper : AlignedBound) → ExecutableRangeEvaluation → Type 0
Records lower upper row =
    (row.lower_bound ≡ lower) × (row.upper_bound ≡ upper) × (evaluation_fits row ≡ true)

evaluate_pair-Records :
    (math : DecimalMath) (observations : RangingObservations) (terms : SolveTerms)
    (lower upper : AlignedBound) (dwell liquidity : Decimal) (added : ℕ)
    → Ensures
        (evaluate_pair math observations terms lower upper dwell liquidity added)
        (Records lower upper)
unfolding evaluate_pair
evaluate_pair-Records math observations terms lower upper dwell liquidity added = ground arith

score_measured-Records :
    (math : DecimalMath) (observations : RangingObservations) (terms : SolveTerms)
    (lower upper : AlignedBound) (measured : Option Decimal)
    → Ensures
        (score_measured math observations terms lower upper measured)
        (OptionHas (Records lower upper))
unfolding score_measured
score_measured-Records math observations terms lower upper none = tt
score_measured-Records math observations terms lower upper (some dwell) =
    Ensures-bind
      (position_liquidity_at_price observations.pool_price_usdc (min lower.price upper.price)
        (max lower.price upper.price))
      _ _
      (λ liquidity _.
        let added = added_of observations terms liquidity in
        let evaluated = evaluate_pair math observations terms lower upper dwell liquidity added in
        Ensures-if (added == 0) (ok none) (evaluated >>= λ row. ok (some row)) _ (λ _. tt)
          (λ _. Ensures-bind evaluated _ _ (λ row found.
            Ensures-ok _ _ found
              (evaluate_pair-Records math observations terms lower upper dwell liquidity added))))

score_pair-Records :
    (math : DecimalMath) (observations : RangingObservations) (terms : SolveTerms)
    (lower upper : AlignedBound)
    → Ensures (score_pair math observations terms lower upper) (OptionHas (Records lower upper))
unfolding score_pair
score_pair-Records math observations terms lower upper =
    Ensures-bind
      (band_dwell_fraction observations.evidence.trailing_path lower.distance_fraction
        upper.distance_fraction)
      _ _ (λ measured _. score_measured-Records math observations terms lower upper measured)

-- What the grid and the scores say of every evaluation: its bounds are bounds of the grid on
-- either side of the anchor, and its fields pass their checks.
pub record Scores (math : DecimalMath) (grid : Grid) (row : ExecutableRangeEvaluation)
    : Type 0 where
  pub below : LiesBelow math grid (cell_of grid.pool_tick_raw grid.tick_spacing) row.lower_bound
  pub above : LiesAbove math grid (cell_of grid.pool_tick_raw grid.tick_spacing) row.upper_bound
  pub fits : evaluation_fits row ≡ true

module _ (math : DecimalMath) (observations : RangingObservations) (terms : SolveTerms)
    (grid : Grid) where
  scored-Scores :
      (lower upper : AlignedBound) (scored : Option ExecutableRangeEvaluation)
      → LiesBelow math grid (cell_of grid.pool_tick_raw grid.tick_spacing) lower
      → LiesAbove math grid (cell_of grid.pool_tick_raw grid.tick_spacing) upper
      → OptionHas (Records lower upper) scored
      → OptionHas (Scores math grid) scored
  scored-Scores lower upper none _ _ _ = tt
  scored-Scores lower upper (some row) below above (same_lower, same_upper, fits) = record {
    below = rw same_lower below;
    above = rw same_upper above;
    fits = fits;
  }

  score_uppers-Scores :
      (lower : AlignedBound) (uppers : List AlignedBound)
      → LiesBelow math grid (cell_of grid.pool_tick_raw grid.tick_spacing) lower
      → AllOf (LiesAbove math grid (cell_of grid.pool_tick_raw grid.tick_spacing)) uppers
      → Ensures (score_uppers math observations terms lower uppers) (AllOf (Scores math grid))
  unfolding score_uppers
  score_uppers-Scores lower [] below above = tt
  score_uppers-Scores lower (upper ∷ uppers) below (first, above) =
      Ensures-bind (score_pair math observations terms lower upper) _ _ (λ scored found.
        Ensures-bind (score_uppers math observations terms lower uppers) _ _ (λ rest others.
          with_found-AllOf (Scores math grid) scored rest
            (scored-Scores lower upper scored below first
              (Ensures-ok _ _ found (score_pair-Records math observations terms lower upper)))
            (Ensures-ok _ _ others (score_uppers-Scores lower uppers below above))))

  pub score_pairs-Scores :
      (lowers uppers : List AlignedBound)
      → AllOf (LiesBelow math grid (cell_of grid.pool_tick_raw grid.tick_spacing)) lowers
      → AllOf (LiesAbove math grid (cell_of grid.pool_tick_raw grid.tick_spacing)) uppers
      → Ensures (score_pairs math observations terms lowers uppers) (AllOf (Scores math grid))
  unfolding score_pairs
  score_pairs-Scores [] uppers below above = tt
  score_pairs-Scores (lower ∷ lowers) uppers (first, below) above =
      Ensures-bind (score_uppers math observations terms lower uppers) _ _ (λ scored found.
        Ensures-bind (score_pairs math observations terms lowers uppers) _ _ (λ rest others.
          AllOf-append (Scores math grid) scored rest
            (Ensures-ok _ _ found (score_uppers-Scores lower uppers first above))
            (Ensures-ok _ _ others (score_pairs-Scores lowers uppers below above))))
