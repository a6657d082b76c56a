-- ===== src/Policy/RangeAnswers.antt =====
-- What the engine of src/aero_bot/policy.py is told by the solver of src/aero_bot/ranging.py.
use aero_bot.Prelude.{
  true, none, some, ◌≡◌, refl, sym, inl, inr, ◌⊎◌, Option-cases, Bool-cases, subst, arith,
}
use aero_bot.Prelude.Results.{
  ok, err, Result, Ensures, Ensures-bind, Ensures-ok, Ensures-map, ◌>>=◌,
}
use aero_bot.Decimal.{Decimal, lt, le}
use aero_bot.Decimal.Order.{le_refl, le_of_lt}
use aero_bot.Ranging.Solve
use aero_bot.Policy.Gas.{income_expectation_apr}
use aero_bot.Ranging.Types.{WidthSolution, WidthSolveMode, RangingObservations, RangingEvidence}
use aero_bot.Ranging.Math.{DecimalMath}
use aero_bot.Ranging.Ceiling.{range_solver}
use aero_bot.Ranging.Answer.{Solves, Answers, AnswersAs}
use aero_bot.Ranging.Verdict.{solve_range_width-Answers}
use aero_bot.Policy.Parameters.{PolicyParameters, RangeWidthPolicy}
use aero_bot.Policy.Types.{PolicyObservation}
use aero_bot.Policy.Day.{PolicyEngine}
use aero_bot.Policy.Width.{
  solve_range_width, adaptive_width, ranging_observations, whole_seconds, deferred_solution,
}

Ensures-self :
    {A : Type 0} (m : Result A) (P : A → Type 0) → ((a : A) → m ≡ ok a → P a) → Ensures m P
Ensures-self (ok a) P h = h a refl
Ensures-self (err e) P h = tt

module _ (engine : PolicyEngine) (observation : PolicyObservation) (size : Decimal) where
  pub adaptive-solve :
      engine.parameters.range_width_policy ≡ RangeWidthPolicy.adaptive_band
      → solve_range_width engine observation size ≡ adaptive_width engine observation size
  unfolding solve_range_width
  adaptive-solve adaptive = ground arith

  without_evidence :
      observation.ranging ≡ none
      → adaptive_width engine observation size ≡ ok (deferred_solution engine.parameters)
  unfolding adaptive_width
  without_evidence missing = ground arith

  without_gas_price :
      (evidence : RangingEvidence)
      → observation.ranging ≡ some evidence
      → observation.gas_price_gwei ≡ none
      → adaptive_width engine observation size ≡ ok (deferred_solution engine.parameters)
  unfolding adaptive_width
  without_gas_price evidence carried missing = ground arith

  with_evidence :
      (evidence : RangingEvidence) (gas_price : Decimal)
      → observation.ranging ≡ some evidence
      → observation.gas_price_gwei ≡ some gas_price
      → adaptive_width engine observation size ≡ (
          ranging_observations engine.parameters observation evidence gas_price size
          >>= engine.solver.solve_range_width)
  unfolding adaptive_width
  with_evidence evidence gas_price carried known = ground arith

-- What the engine asks the solver: the observation, its evidence and its gas price, the size, the
-- income basis, which is at most the yield read, and the locked parameters.
pub record AsksFor (p : PolicyParameters) (observation : PolicyObservation) (size : Decimal)
    (asked : RangingObservations) : Type 0 where
  pub priced : asked.pool_price_usdc ≡ observation.amm_price_usdc
  pub timed : asked.observed_at ≡ observation.observed_at
  pub based : asked.emissions_apr ≡ income_expectation_apr observation
  pub cautious : le asked.emissions_apr observation.emissions_apr ≡ true
  pub evidenced : observation.ranging ≡ some asked.evidence
  pub deep : asked.pool_depth_usd ≡ observation.pool_depth_usd
  pub sized : asked.position_size_usd ≡ size
  pub gas_known : observation.gas_price_gwei ≡ some asked.gas_price_gwei
  pub targets : asked.target_net_daily_yield ≡ p.target_net_daily_yield
  pub narrowest : asked.min_range_half_width_fraction ≡ p.min_range_half_width_fraction
  pub widest : asked.max_range_half_width_fraction ≡ p.max_range_half_width_fraction
  pub spaced : asked.tick_spacing ≡ p.tick_spacing
  pub buffered : asked.stop_buffer_fraction ≡ p.stop_buffer_fraction
  pub waits : whole_seconds p.recenter_wait ≡ ok asked.recenter_wait_seconds
  pub graces : whole_seconds p.out_of_range_grace ≡ ok asked.out_of_range_grace_seconds
  pub cools : whole_seconds p.reentry_cooldown ≡ ok asked.reentry_cooldown_seconds
  pub enters_for : asked.enter_batch_gas_units ≡ p.enter_batch_gas_units
  pub recenters_for : asked.recenter_batch_gas_units ≡ p.recenter_batch_gas_units
  pub exits_for : asked.exit_batch_gas_units ≡ p.exit_batch_gas_units
  pub overhead : asked.safe_overhead_gas_per_batch ≡ p.safe_overhead_gas_per_batch
  pub eth_priced : asked.eth_price_assumption_usd ≡ p.eth_price_assumption_usd

income_expectation_apr-le :
    (observation : PolicyObservation)
    → le (income_expectation_apr observation) observation.emissions_apr ≡ true
unfolding income_expectation_apr
income_expectation_apr-le observation =
    let same = le_refl observation.emissions_apr in
    elim (Option-cases observation.conservative_income_apr) [
      | inl missing ↦ rw missing same
      | inr (basis, carried) ↦ elim (Bool-cases (lt basis observation.emissions_apr)) [
        | inl less ↦ rw (carried, less) (le_of_lt basis observation.emissions_apr less)
        | inr not_less ↦ rw (carried, not_less) same
      ]
    ]

module _ (p : PolicyParameters) (observation : PolicyObservation) (size gas_price : Decimal)
    (evidence : RangingEvidence) (carried : observation.ranging ≡ some evidence)
    (known : observation.gas_price_gwei ≡ some gas_price) where
  ranging_observations-AsksFor :
      Ensures
        (ranging_observations p observation evidence gas_price size)
        (AsksFor p observation size)
  unfolding ranging_observations
  ranging_observations-AsksFor = Ensures-bind (whole_seconds p.recenter_wait) _ _ (λ wait waited.
      Ensures-bind (whole_seconds p.out_of_range_grace) _ _ (λ grace graced.
        Ensures-bind (whole_seconds p.reentry_cooldown) _ _ (λ cooldown cooled. record {
          priced = refl;
          timed = refl;
          based = refl;
          cautious = income_expectation_apr-le observation;
          evidenced = carried;
          deep = refl;
          sized = refl;
          gas_known = known;
          targets = refl;
          narrowest = refl;
          widest = refl;
          spaced = refl;
          buffered = refl;
          waits = waited;
          graces = graced;
          cools = cooled;
          enters_for = refl;
          recenters_for = refl;
          exits_for = refl;
          overhead = refl;
          eth_priced = refl;
        })))

module _ (math : DecimalMath) (engine : PolicyEngine) (observation : PolicyObservation)
    (size : Decimal) (solver : engine.solver ≡ range_solver math) where
  -- The solver's own answer to what the engine asks.
  abbrev pub Solved : WidthSolution → Type 0
  Solved solution =
      (asked : RangingObservations) × AsksFor engine.parameters observation size asked
      × (aero_bot.Ranging.Solve.solve_range_width math asked ≡ ok solution)
      × Answers math asked solution

  solver-Solved :
      (asked : RangingObservations)
      → AsksFor engine.parameters observation size asked
      → Ensures (engine.solver.solve_range_width asked) Solved
  solver-Solved asked asks =
      subst (λ found. Ensures (found.solve_range_width asked) Solved) (sym solver)
        (Ensures-self (aero_bot.Ranging.Solve.solve_range_width math asked) Solved
          (λ solution solved.
            (asked, asks, solved, Ensures-ok _ _ solved (solve_range_width-Answers math asked))))

  -- An adaptive answer defers, or it is the solver's.
  pub adaptive_width-Solved :
      Ensures
        (adaptive_width engine observation size)
        (λ solution. (solution.mode ≡ WidthSolveMode.deferred) ⊎ Solved solution)
  adaptive_width-Solved = elim (Option-cases observation.ranging) [
    | inl missing ↦ rw (without_evidence engine observation size missing, Ensures) (inl refl)
    | inr (evidence, carried) ↦ elim (Option-cases observation.gas_price_gwei) [
      | inl missing ↦
          rw (without_gas_price engine observation size evidence carried missing, Ensures)
            (inl refl)
      | inr (gas_price, known) ↦
          rw (with_evidence engine observation size evidence gas_price carried known) (
            Ensures-bind
              (ranging_observations engine.parameters observation evidence gas_price size) _ _
              (λ asked built.
                let asks = Ensures-ok _ _ built (
                  ranging_observations-AsksFor engine.parameters observation size gas_price evidence
                    carried known) in
                Ensures-map (engine.solver.solve_range_width asked) _ _ (λ _ solved. inr solved)
                  (solver-Solved asked asks)))
    ]
  ]

-- What a minted solution of the adaptive band is.
pub allowed-Solves :
    (math : DecimalMath) (asked : RangingObservations) (solution : WidthSolution)
    → (solution.mode ≡ WidthSolveMode.solved) ⊎ (solution.mode ≡ WidthSolveMode.fallback_ceiling)
    → Answers math asked solution
    → Solves math asked solution
allowed-Solves math asked solution (inl solved) answers =
    subst (AnswersAs math asked solution) solved answers
allowed-Solves math asked solution (inr ceiling) answers =
    absurd (subst (AnswersAs math asked solution) ceiling answers)

pub deferred_is_not_allowed :
    (mode : WidthSolveMode)
    → mode ≡ WidthSolveMode.deferred
    → ¬ ((mode ≡ WidthSolveMode.solved) ⊎ (mode ≡ WidthSolveMode.fallback_ceiling))
deferred_is_not_allowed mode deferred (inl solved) = cc
deferred_is_not_allowed mode deferred (inr ceiling) = cc
