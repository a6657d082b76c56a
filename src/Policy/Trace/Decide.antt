-- ===== src/Policy/Trace/Decide.antt =====
-- `entry_gate_trace` of src/aero_bot/policy.py as a forecast of `decide` for a flat book.
use aero_bot.Prelude.{
  true, Option, none, some, List, [], ◌∷◌, ◌++◌, ◌≡◌, refl, inl, inr, Bool-cases, if◌then◌else◌,
  arith,
}
use aero_bot.Prelude.Results.{ok, Ensures, Ensures-bind, Ensures-ok}
use aero_bot.Decimal.{le}
use aero_bot.Policy.Types.{PolicyObservation, PolicyState, PolicyReason}
use aero_bot.Policy.Day.{PolicyEngine, observe_day}
use aero_bot.Policy.Flat.{decide_flat, entry_refusal, flat_required, margin_bound}
use aero_bot.Policy.Engine.{decide}
use aero_bot.Policy.Posture.Decide.{observe_day_keeps}
use aero_bot.Policy.Entry.Verdicts.{dispatch-flat}
use aero_bot.Policy.Trace.{
  Gate, GateLine, measured_gates, solve_gate, entry_gate_trace, flat_basis_of,
}
use aero_bot.Policy.Trace.Agreement.{
  first_failure, Foretells, Blames, measured_gates-Blames, solve_gate-Foretells, gate_of,
  one_gas_gate,
}

first_failure-append_none :
    (xs ys : List GateLine) → first_failure xs ≡ none → first_failure (xs ++ ys) ≡ first_failure ys
first_failure-append_none [] ys e = refl
first_failure-append_none (x ∷ xs) ys e = elim (Bool-cases x.passes) [
  | inl passes ↦ rw (passes, if◌then◌else◌) (first_failure-append_none xs ys (ground arith))
  | inr fails ↦ cc
]

first_failure-append_some :
    (xs ys : List GateLine) (gate : Gate)
    → first_failure xs ≡ some gate
    → first_failure (xs ++ ys) ≡ some gate
first_failure-append_some [] ys gate e = cc
first_failure-append_some (x ∷ xs) ys gate e = elim (Bool-cases x.passes) [
  | inl passes ↦ rw (passes, if◌then◌else◌) (first_failure-append_some xs ys gate (ground arith))
  | inr fails ↦ ground arith
]

abbrev measured : PolicyEngine → PolicyState → PolicyObservation → List GateLine
measured engine state observation =
    measured_gates engine.parameters (flat_basis_of state)
      (observe_day engine (flat_basis_of state) observation) observation

module _ (engine : PolicyEngine) (state : PolicyState) (observation : PolicyObservation) where
  decide-flat_basis :
      decide engine (flat_basis_of state) observation
      ≡ decide_flat engine
          (observe_day engine (flat_basis_of state) observation)
          observation
          (flat_required observation)
  unfolding decide
  decide-flat_basis =
      let kept = observe_day_keeps engine (flat_basis_of state) observation in
      dispatch-flat engine (observe_day engine (flat_basis_of state) observation) observation kept.1
        kept.0

  refused-Foretells :
      (reason : PolicyReason) (lines : List GateLine) (gate : Gate)
      → entry_refusal engine.parameters
          (observe_day engine (flat_basis_of state) observation)
          observation
          (flat_required observation)
        ≡ some reason
      → first_failure lines ≡ some gate
      → gate_of reason ≡ some (one_gas_gate gate)
      → Ensures (decide engine (flat_basis_of state) observation) (Foretells (first_failure lines))
  unfolding decide_flat
  refused-Foretells reason lines gate refused failed same =
      rw (decide-flat_basis, refused, Ensures, failed, Foretells) (refl, same)

  module _
      (raised : le engine.parameters.min_entry_emissions_apr (margin_bound engine.parameters)
        ≡ true) where
    verdict :
        (refusal : Option PolicyReason) (failure : Option Gate)
        → entry_refusal engine.parameters
            (observe_day engine (flat_basis_of state) observation)
            observation
            (flat_required observation)
          ≡ refusal
        → first_failure (measured engine state observation) ≡ failure
        → Blames refusal failure
        → (last : GateLine) → solve_gate engine observation ≡ ok last
        → Ensures
            (decide engine (flat_basis_of state) observation)
            (Foretells (first_failure (measured engine state observation ++ last ∷ [])))
    verdict none none passes all _ last solved =
        rw
          (
            decide-flat_basis,
            first_failure-append_none (measured engine state observation) (last ∷ []) all,
          )
          (Ensures-ok _ _ solved (solve_gate-Foretells engine state observation raised) passes)
    verdict none (some _) _ _ blamed _ _ = absurd blamed
    verdict (some _) none _ _ blamed _ _ = absurd blamed
    verdict (some reason) (some gate) refused fails blamed last _ =
        refused-Foretells reason (measured engine state observation ++ last ∷ []) gate refused
          (first_failure-append_some (measured engine state observation) (last ∷ []) gate fails)
          blamed

    trace-Foretells : Ensures (entry_gate_trace engine state observation) (λ lines.
        Ensures (decide engine (flat_basis_of state) observation) (Foretells (first_failure lines)))
    unfolding entry_gate_trace
    trace-Foretells = Ensures-bind (solve_gate engine observation) _ _ (λ last solved.
        verdict _ _ refl refl (measured_gates-Blames engine state observation raised) last solved)

-- Where the dilution margin does not lie below the entry floor, a returned trace foretells the
-- verdict of `decide` on the same state with its position and inventory taken out, whenever that
-- returns: with no failed line it enters, and otherwise it holds, for the reason of the first
-- failed gate; the two gas gates share one reason.
pub entry_gate_trace-decide :
    (engine : PolicyEngine) (state : PolicyState) (observation : PolicyObservation)
    (lines : List GateLine)
    → le engine.parameters.min_entry_emissions_apr (margin_bound engine.parameters) ≡ true
    → entry_gate_trace engine state observation ≡ ok lines
    → Ensures (decide engine (flat_basis_of state) observation) (Foretells (first_failure lines))
entry_gate_trace-decide engine state observation lines raised traced =
    Ensures-ok _ _ traced (trace-Foretells engine state observation raised)
