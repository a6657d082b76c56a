-- ===== src/Ranging/Tests.antt =====
-- Runs of the solve of src/aero_bot/ranging.py.
use aero_bot.Prelude.{[], ◌∷◌, ◌≡◌, refl, inr, arith}
use aero_bot.Prelude.Int.{◌-ℤ◌}
use aero_bot.Prelude.Results.{ok}
use aero_bot.Ranging.Types.{RangingObservations}
use aero_bot.Ranging.Solve.{solve_range_width, deferred_solution}
use aero_bot.Ranging.Verdict.{solve_range_width-stale}
use aero_bot.Ranging.Examples.{whole_powers, observations, flat_evidence, point_at}

-- Two points, the later of which is 1860 seconds old.
abbrev stale : RangingObservations
stale = record observations {
  evidence = record flat_evidence { trailing_path = point_at 6_000 ∷ point_at 7_200 ∷ [] };
}

solve_range_width-stale_example :
    solve_range_width whole_powers stale ≡ ok (deferred_solution stale)
unfolding ◌-ℤ◌
solve_range_width-stale_example =
    solve_range_width-stale whole_powers stale (point_at 6_000) (point_at 7_200) [] refl
      (inr (omega arith))
