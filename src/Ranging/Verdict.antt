-- ===== src/Ranging/Verdict.antt =====
-- What `solve_range_width` of src/aero_bot/ranging.py answers.
use aero_bot.Prelude.{
  Bool, true, ◌||◌, Option, none, some, List, [], ◌∷◌, ◌≡◌, refl, arith, AllOf-map, Bool-cases, inl,
  inr, ◌⊎◌, ap, ◌∙◌, subst,
}
use aero_bot.Prelude.Int.{ℤ, pos, ◌-ℤ◌, ◌<ℤ◌, -ℤ_parts}
use aero_bot.Prelude.Results.{ok, Ensures, Ensures-bind, Ensures-if, Ensures-ok}
use aero_bot.Decimal.{Decimal, whole}
use aero_bot.Decimal.Order.{le_trans, le_of_not_lt}
use aero_bot.Ranging.Types.{RangingObservations, ExecutableRangeEvaluation, PoolPricePoint}
use aero_bot.Ranging.Math.{DecimalMath, is_positive, last_point}
use aero_bot.Ranging.Implied.{implied_average_half_width_fraction}
use aero_bot.Ranging.Grid.{enumerate_aligned_bounds}
use aero_bot.Ranging.Choice.{sort, best_of, best_of-NetAtMost, best_of-HasRow, NetAtMost}
use mathlib.Core.List.{Perm}
use aero_bot.Ranging.Order.{IsSorted, sort-IsSorted, sort-Perm, sort-is_empty, best_of-YieldsTo}
use aero_bot.Ranging.Evidence.{solve_terms, path_unusable, liquidity_unusable}
use aero_bot.Ranging.Solve.{
  solve_range_width, solve_measured, solve_anchored, solve_grid, score_pairs, choose,
  deferred_solution, grid_of, tick_and_orientation, tick_incoherent,
}
use aero_bot.Ranging.Scored.{score_pairs-Scores, enumerate_aligned_bounds-Lies}
use aero_bot.Ranging.Answer.{Explored, Lists, NetsNothing, Excused, Answers}

or-true : (a b : Bool) → a || b ≡ true → (a ≡ true) ⊎ (b ≡ true)
or-true a b h = ground arith

module _ (math : DecimalMath) (observations : RangingObservations) where
  deferred-Answers :
      Excused math observations → Answers math observations (deferred_solution observations)
  unfolding deferred_solution
  deferred-Answers excused = record {
    no_lower = refl;
    no_upper = refl;
    no_row = refl;
    excused = excused;
  }

  choose-Answers :
      (implied : Option Decimal) (rows sorted : List ExecutableRangeEvaluation)
      → Explored math observations rows
      → sort rows ≡ sorted
      → Answers math observations (choose observations implied sorted)
  unfolding choose
  choose-Answers implied rows [] explored e = deferred-Answers (
      inr (
        inr (inr (inr (inr (subst (Explored math observations) (sort-is_empty rows e) explored))))))
  choose-Answers implied rows (first ∷ rest) explored e =
      let best = best_of first rest in
      let ordered : IsSorted (first ∷ rest) = subst IsSorted e (sort-IsSorted rows) in
      let lists : Lists math observations (first ∷ rest) = record {
        rows = rows;
        explored = explored;
        complete = subst (Perm rows) e (sort-Perm rows);
        ordered = ordered;
      } in
      elim (Bool-cases (is_positive best.net_yield_per_day)) [
        | inl gains ↦
            rw (gains, Answers)
              (record {
                lists = lists;
                best = best;
                listed = best_of-HasRow first rest;
                lower = refl;
                upper = refl;
                gains = gains;
                argmax = best_of-NetAtMost first rest;
                tightest = best_of-YieldsTo first rest ordered;
              })
        | inr no_gain ↦
            rw (no_gain, Answers)
              (record {
                lists = lists;
                no_lower = refl;
                no_upper = refl;
                some_row = omega arith;
                no_gain =
                    AllOf-map (NetAtMost best) NetsNothing (first ∷ rest)
                      (λ row at_most.
                        le_trans row.net_yield_per_day best.net_yield_per_day (whole 0) at_most
                          (le_of_not_lt (whole 0) best.net_yield_per_day no_gain))
                      (best_of-NetAtMost first rest);
              })
      ]

  solve_grid-Answers :
      (volatility : Decimal) (anchor : ℤ × Bool)
      → observations.evidence.realized_daily_volatility ≡ some volatility
      → tick_and_orientation observations ≡ some anchor
      → Ensures
          (solve_grid math observations volatility (grid_of observations anchor.0 anchor.1))
          (Answers math observations)
  unfolding solve_grid
  solve_grid-Answers volatility anchor measured anchored =
      let grid = grid_of observations anchor.0 anchor.1 in
      Ensures-bind
        (implied_average_half_width_fraction math observations.pool_price_usdc
          observations.evidence.gauge_liquidity_raw observations.evidence.staked_tvl_usd
          observations.evidence.stock_decimals observations.evidence.quote_decimals)
        _ _
        (λ implied _. Ensures-bind (solve_terms math observations volatility) _ _ (λ terms costed.
          Ensures-bind (enumerate_aligned_bounds math grid) _ _ (λ bounds enumerated.
            Ensures-bind (score_pairs math observations terms bounds.0 bounds.1) _ _ (λ rows found.
              let (below, above) =
                Ensures-ok _ _ enumerated (enumerate_aligned_bounds-Lies math grid) in
              let scored =
                Ensures-ok _ _ found
                  (score_pairs-Scores math observations terms grid bounds.0 bounds.1 below above) in
              let explored : Explored math observations rows = record {
                anchor = anchor;
                anchored = anchored;
                volatility = volatility;
                measured = measured;
                terms = terms;
                costed = costed;
                bounds = bounds;
                enumerated = enumerated;
                found = found;
                scored = scored;
              } in
              choose-Answers implied rows (sort rows) explored refl))))

  solve_anchored-Answers :
      (volatility : Decimal) (anchor : Option (ℤ × Bool))
      → observations.evidence.realized_daily_volatility ≡ some volatility
      → tick_and_orientation observations ≡ anchor
      → Ensures (solve_anchored math observations volatility anchor) (Answers math observations)
  unfolding solve_anchored
  solve_anchored-Answers volatility none measured anchored =
      deferred-Answers (inr (inr (inr (inl anchored))))
  solve_anchored-Answers volatility (some anchor) measured anchored =
      Ensures-bind (tick_incoherent math (grid_of observations anchor.0 anchor.1)) _ _
        (λ incoherent tested.
          Ensures-if incoherent (ok (deferred_solution observations))
            (solve_grid math observations volatility (grid_of observations anchor.0 anchor.1)) _
            (λ yes_incoherent.
              deferred-Answers
                (inr (inr (inr (inr (inl (anchor, anchored, tested ∙ ap ok yes_incoherent)))))))
            (λ _. solve_grid-Answers volatility anchor measured anchored))

  solve_measured-Answers :
      (volatility : Option Decimal)
      → observations.evidence.realized_daily_volatility ≡ volatility
      → Ensures (solve_measured math observations volatility) (Answers math observations)
  unfolding solve_measured
  solve_measured-Answers none measured = deferred-Answers (inl measured)
  solve_measured-Answers (some volatility) measured =
      let path = path_unusable observations observations.evidence.trailing_path in
      Ensures-if (path || liquidity_unusable observations) (ok (deferred_solution observations))
        (solve_anchored math observations volatility (tick_and_orientation observations)) _
        (λ unusable. elim (or-true path (liquidity_unusable observations) unusable) [
          | inl old ↦ deferred-Answers (inr (inl old))
          | inr thin ↦ deferred-Answers (inr (inr (inl thin)))
        ])
        (λ _. solve_anchored-Answers volatility (tick_and_orientation observations) measured refl)

  pub solve_range_width-Answers :
      Ensures (solve_range_width math observations) (Answers math observations)
  unfolding solve_range_width
  solve_range_width-Answers =
      solve_measured-Answers observations.evidence.realized_daily_volatility refl

  path_defers :
      (volatility : Option Decimal)
      → path_unusable observations observations.evidence.trailing_path ≡ true
      → solve_measured math observations volatility ≡ ok (deferred_solution observations)
  unfolding solve_measured
  path_defers none unusable = refl
  path_defers (some volatility) unusable = rw unusable refl

unusable_by_age :
    (observations : RangingObservations) (first second : PoolPricePoint)
    (points : List PoolPricePoint)
    → (observations.observed_at <ℤ (last_point second points).timestamp)
      ⊎ (pos 1_800_000_000 <ℤ observations.observed_at -ℤ (last_point second points).timestamp)
    → path_unusable observations (first ∷ second ∷ points) ≡ true
unusable_by_age observations first second points old =
    grind (arith, -ℤ_parts observations.observed_at (last_point second points).timestamp)

-- Evidence whose newest point lies after the observation, or more than 1800 seconds before it,
-- defers, whatever the rest of the evidence says and whatever the decimal functions return.
pub solve_range_width-stale :
    (math : DecimalMath) (observations : RangingObservations) (first second : PoolPricePoint)
    (points : List PoolPricePoint)
    → observations.evidence.trailing_path ≡ first ∷ second ∷ points
    → (observations.observed_at <ℤ (last_point second points).timestamp)
      ⊎ (pos 1_800_000_000 <ℤ observations.observed_at -ℤ (last_point second points).timestamp)
    → solve_range_width math observations ≡ ok (deferred_solution observations)
unfolding solve_range_width
solve_range_width-stale math observations first second points path old =
    path_defers math observations observations.evidence.realized_daily_volatility
      (ap (path_unusable observations) path ∙ unusable_by_age observations first second points old)
