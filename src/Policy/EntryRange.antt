-- ===== src/Policy/EntryRange.antt =====
-- The range of an entry of src/aero_bot/policy.py, from the solve of src/aero_bot/ranging.py.
use aero_bot.Prelude.{none, some, ◌≡◌, ◌≢◌, refl, sym, ◌∙◌, inl, inr, ◌⊎◌, Option-cases, arith}
use aero_bot.Prelude.Results.{ok, Ensures, Ensures-bind, Ensures-map, Ensures-ok}
use aero_bot.Decimal.{div, whole, default_precision}
use aero_bot.Policy.Swap.{swap_plan}
use aero_bot.Ranging.Types.{WidthSolution, WidthSolveMode, RangingObservations}
use aero_bot.Ranging.Math.{DecimalMath}
use aero_bot.Ranging.Solve
use aero_bot.Ranging.Ceiling.{range_solver}
use aero_bot.Ranging.Answer.{Solves}
use aero_bot.Policy.Parameters.{RangeWidthPolicy}
use aero_bot.Policy.Types.{
  PolicyObservation, PolicyState, PolicyActionKind, PolicyOutcome, AlignedPriceRange, SwapDirection,
}
use aero_bot.Policy.Day.{PolicyEngine, observe_day}
use aero_bot.Policy.Width.{solve_range_width, range_for_solution}
use aero_bot.Policy.Flat.{
  decide_flat, enter, enter_by_solution, entry_refusal, entry_size, flat_required,
}
use aero_bot.Policy.Engine.{decide}
use aero_bot.Policy.Posture.Decide.{observe_day_keeps}
use aero_bot.Policy.Entry.Verdicts.{dispatch-flat}
use aero_bot.Policy.RangeAnswers.{
  adaptive-solve, adaptive_width-Solved, AsksFor, allowed-Solves, deferred_is_not_allowed,
}

-- The solution that an entry mints.
pub record Mints (engine : PolicyEngine) (observation : PolicyObservation) (out : PolicyOutcome)
    (solution : WidthSolution) (range : AlignedPriceRange) : Type 0 where
  pub solved :
      solve_range_width engine observation (entry_size engine.parameters observation) ≡ ok solution
  pub bounds : range_for_solution solution ≡ ok range
  pub minted : out.decision.price_range ≡ some range
  pub allowed :
      (solution.mode ≡ WidthSolveMode.solved) ⊎ (solution.mode ≡ WidthSolveMode.fallback_ceiling)

mode-cases :
    (mode : WidthSolveMode)
    → ((mode ≡ WidthSolveMode.solved) ⊎ (mode ≡ WidthSolveMode.fallback_ceiling))
      ⊎ ((mode ≡ WidthSolveMode.cash_hold) ⊎ (mode ≡ WidthSolveMode.deferred))
mode-cases WidthSolveMode.solved = inl (inl refl)
mode-cases WidthSolveMode.cash_hold = inr (inl refl)
mode-cases WidthSolveMode.deferred = inr (inr refl)
mode-cases WidthSolveMode.fallback_ceiling = inl (inr refl)

hold_is_not_enter : PolicyActionKind.hold ≢ PolicyActionKind.enter
hold_is_not_enter e = cc

-- Nothing is entered, or a solution is minted.
abbrev EntersOver : PolicyEngine → PolicyObservation → PolicyOutcome → Type 0
EntersOver engine observation out =
    (out.decision.action ≡ PolicyActionKind.hold)
    ⊎ ((solution : WidthSolution) × (range : AlignedPriceRange) × Mints engine observation out
          solution range)

module _ (engine : PolicyEngine) (s : PolicyState) (observation : PolicyObservation) where
  enter-Mints :
      (solution : WidthSolution)
      → solve_range_width engine observation (entry_size engine.parameters observation)
        ≡ ok solution
      → (solution.mode ≡ WidthSolveMode.solved) ⊎ (solution.mode ≡ WidthSolveMode.fallback_ceiling)
      → Ensures (enter engine s observation solution) (EntersOver engine observation)
  unfolding enter
  enter-Mints solution solved allowed =
      Ensures-bind (range_for_solution solution) _ _ (λ range bounds.
        Ensures-bind
          (swap_plan engine.parameters SwapDirection.buy_stock
            (div default_precision (entry_size engine.parameters observation) (whole 2))
            observation.pool_depth_usd)
          _ _
          (λ plan _. inr (
            solution,
            range,
            record { solved = solved; bounds = bounds; minted = refl; allowed = allowed },
          )))

  enter_by_solution-allowed :
      (solution : WidthSolution)
      → (solution.mode ≡ WidthSolveMode.solved) ⊎ (solution.mode ≡ WidthSolveMode.fallback_ceiling)
      → enter_by_solution engine s observation solution ≡ enter engine s observation solution
  unfolding enter_by_solution
  enter_by_solution-allowed solution allowed = ground arith

  enter_by_solution-holds :
      (solution : WidthSolution)
      → (solution.mode ≡ WidthSolveMode.cash_hold) ⊎ (solution.mode ≡ WidthSolveMode.deferred)
      → Ensures
          (enter_by_solution engine s observation solution)
          (λ out. out.decision.action ≡ PolicyActionKind.hold)
  unfolding enter_by_solution
  enter_by_solution-holds solution refused = ground arith

  by_mode :
      (solution : WidthSolution)
      → solve_range_width engine observation (entry_size engine.parameters observation)
        ≡ ok solution
      → Ensures (enter_by_solution engine s observation solution) (EntersOver engine observation)
  by_mode solution solved = elim (mode-cases solution.mode) [
    | inl allowed ↦
        rw (enter_by_solution-allowed solution allowed) (enter-Mints solution solved allowed)
    | inr refused ↦
        Ensures-map (enter_by_solution engine s observation solution) _ _ (λ _. inl)
          (enter_by_solution-holds solution refused)
  ]

  decide_flat-Mints :
      Ensures
        (decide_flat engine s observation (flat_required observation))
        (EntersOver engine observation)
  unfolding decide_flat
  decide_flat-Mints =
      elim (Option-cases
        (entry_refusal engine.parameters s observation (flat_required observation))) [
          | inr (reason, e) ↦ rw (e, Ensures) (inl refl)
          | inl e ↦
              rw (e, Ensures)
                (Ensures-bind
                  (solve_range_width engine observation (entry_size engine.parameters observation))
                  _ _ (λ solution solved. by_mode solution solved))
        ]

-- From a flat book, with the adaptive band and the solver of ranging.py at any decimal functions,
-- an entry mints the range of the solver's answer to what the engine asks it: the observation with
-- its own evidence and gas price, the entry size, the income basis and the locked parameters. That
-- answer is a solved one: the bounds, ordered by price, of an evaluation of the grid whose net
-- yield is positive, that none exceeds and that no equally good one sorts before.
pub entry-Solves :
    (math : DecimalMath) (engine : PolicyEngine) (state : PolicyState)
    (observation : PolicyObservation) (out : PolicyOutcome)
    → engine.parameters.range_width_policy ≡ RangeWidthPolicy.adaptive_band
    → engine.solver ≡ range_solver math
    → state.position ≡ none
    → state.held_inventory ≡ none
    → decide engine state observation ≡ ok out
    → out.decision.action ≡ PolicyActionKind.enter
    → (asked : RangingObservations) × (solution : WidthSolution) × (range : AlignedPriceRange)
      × AsksFor engine.parameters observation (entry_size engine.parameters observation) asked
      × (aero_bot.Ranging.Solve.solve_range_width math asked ≡ ok solution)
      × Solves math asked solution
      × (range_for_solution solution ≡ ok range)
      × (out.decision.price_range ≡ some range)
unfolding decide
entry-Solves math engine state observation out adaptive solver flat empty decided enters =
    let working = observe_day engine state observation in
    let kept = observe_day_keeps engine state observation in
    let flatly = dispatch-flat engine working observation (kept.1 ∙ empty) (kept.0 ∙ flat) in
    elim (Ensures-ok _ _ (sym flatly ∙ decided) (decide_flat-Mints engine working observation)) [
      | inl holds ↦ absurd (hold_is_not_enter (sym holds ∙ enters))
      | inr (solution, range, mints) ↦
          let size = entry_size engine.parameters observation in
          elim (Ensures-ok _ _
            (sym (adaptive-solve engine observation size adaptive) ∙ mints.solved)
            (adaptive_width-Solved math engine observation size solver)) [
              | inl deferred ↦ absurd (deferred_is_not_allowed solution.mode deferred mints.allowed)
              | inr (asked, asks, solved, answers) ↦ (
                asked,
                solution,
                range,
                asks,
                solved,
                allowed-Solves math asked solution mints.allowed answers,
                mints.bounds,
                mints.minted,
              )
            ]
    ]
