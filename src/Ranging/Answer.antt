-- ===== src/Ranging/Answer.antt =====
-- The answers of `solve_range_width` of src/aero_bot/ranging.py, and what warrants each.
use aero_bot.Prelude.{◌<◌, Bool, true, none, some, List, [], ◌≡◌, AllOf, length, ◌⊎◌}
use aero_bot.Prelude.Int.{ℤ}
use aero_bot.Prelude.Results.{ok}
use aero_bot.Decimal.{Decimal, le, whole}
use aero_bot.Ranging.Types.{
  RangingObservations, WidthSolution, WidthSolveMode, ExecutableRangeEvaluation, AlignedBound,
}
use aero_bot.Ranging.Math.{DecimalMath, is_positive}
use aero_bot.Ranging.Grid.{enumerate_aligned_bounds}
use aero_bot.Ranging.Choice.{HasRow, NetAtMost}
use mathlib.Core.List.{Perm}
use aero_bot.Ranging.Order.{IsSorted, YieldsTo}
use aero_bot.Ranging.Score.{SolveTerms}
use aero_bot.Ranging.Evidence.{solve_terms, path_unusable, liquidity_unusable}
use aero_bot.Ranging.Solve.{score_pairs, grid_of, tick_and_orientation, tick_incoherent}
use aero_bot.Ranging.Scored.{Scores}

-- The scored pairs of the grid at its anchor.
pub record Explored (math : DecimalMath) (observations : RangingObservations)
    (rows : List ExecutableRangeEvaluation) : Type 0 where
  pub anchor : ℤ × Bool
  pub anchored : tick_and_orientation observations ≡ some anchor
  pub volatility : Decimal
  pub measured : observations.evidence.realized_daily_volatility ≡ some volatility
  pub terms : SolveTerms
  pub costed : solve_terms math observations volatility ≡ ok terms
  pub bounds : List AlignedBound × List AlignedBound
  pub enumerated :
      enumerate_aligned_bounds math (grid_of observations anchor.0 anchor.1) ≡ ok bounds
  pub found : score_pairs math observations terms bounds.0 bounds.1 ≡ ok rows
  pub scored : AllOf (Scores math (grid_of observations anchor.0 anchor.1)) rows

-- The evaluations of a solution are all the scored pairs, sorted.
pub record Lists (math : DecimalMath) (observations : RangingObservations)
    (evaluations : List ExecutableRangeEvaluation) : Type 0 where
  pub rows : List ExecutableRangeEvaluation
  pub explored : Explored math observations rows
  pub complete : Perm rows evaluations
  pub ordered : IsSorted evaluations

-- A solved range is that of a listed evaluation that gains, that no listed one exceeds, and that no
-- equally good one sorts before.
pub record Solves (math : DecimalMath) (observations : RangingObservations)
    (solution : WidthSolution) : Type 0 where
  pub lists : Lists math observations solution.evaluations
  pub best : ExecutableRangeEvaluation
  pub listed : HasRow best solution.evaluations
  pub lower : solution.lower_bound ≡ some best.lower_bound
  pub upper : solution.upper_bound ≡ some best.upper_bound
  pub gains : is_positive best.net_yield_per_day ≡ true
  pub argmax : AllOf (NetAtMost best) solution.evaluations
  pub tightest : AllOf (YieldsTo best) solution.evaluations

abbrev pub NetsNothing : ExecutableRangeEvaluation → Type 0
NetsNothing row = le row.net_yield_per_day (whole 0) ≡ true

-- Cash is held if there are evaluations and none gains.
pub record HoldsCash (math : DecimalMath) (observations : RangingObservations)
    (solution : WidthSolution) : Type 0 where
  pub lists : Lists math observations solution.evaluations
  pub no_lower : solution.lower_bound ≡ none
  pub no_upper : solution.upper_bound ≡ none
  pub some_row : 0 < length solution.evaluations
  pub no_gain : AllOf NetsNothing solution.evaluations

-- Why a solve defers.
abbrev pub Excused : DecimalMath → RangingObservations → Type 0
Excused math observations =
    (observations.evidence.realized_daily_volatility ≡ none)
    ⊎ ((path_unusable observations observations.evidence.trailing_path ≡ true)
        ⊎ ((liquidity_unusable observations ≡ true)
            ⊎ ((tick_and_orientation observations ≡ none)
                ⊎ (((anchor : ℤ × Bool) × (tick_and_orientation observations ≡ some anchor)
                      × (tick_incoherent math (grid_of observations anchor.0 anchor.1) ≡ ok true))
                    ⊎ Explored math observations []))))

pub record Defers (math : DecimalMath) (observations : RangingObservations)
    (solution : WidthSolution) : Type 0 where
  pub no_lower : solution.lower_bound ≡ none
  pub no_upper : solution.upper_bound ≡ none
  pub no_row : solution.evaluations ≡ []
  pub excused : Excused math observations

abbrev pub AnswersAs : DecimalMath → RangingObservations → WidthSolution → WidthSolveMode → Type 0
AnswersAs math observations solution WidthSolveMode.solved = Solves math observations solution
AnswersAs math observations solution WidthSolveMode.cash_hold = HoldsCash math observations solution
AnswersAs math observations solution WidthSolveMode.deferred = Defers math observations solution
AnswersAs math observations solution WidthSolveMode.fallback_ceiling = ⊥

abbrev pub Answers : DecimalMath → RangingObservations → WidthSolution → Type 0
Answers math observations solution = AnswersAs math observations solution solution.mode
