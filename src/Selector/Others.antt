-- ===== src/Selector/Others.antt =====
-- The pools other than the held one, in `evaluate_switch` of src/aero_bot/selector.py.
use aero_bot.Prelude.{
  Bool, true, false, List, [], ◌∷◌, ◌≡◌, ◌⊎◌, inl, inr, AllOf, ap, Bool-cases, ◌∙◌, subst,
  if◌then◌else◌,
}
use aero_bot.Audit.Text.{Text, same_text}
use aero_bot.Selector.Board.{PoolEntryEvaluation}
use aero_bot.Selector.Best.{Among, OutrankedBy}
use aero_bot.Selector.Switch.{others}

-- The held pool's, not qualified, or not better.
abbrev pub NoBetterThan : Text → PoolEntryEvaluation → PoolEntryEvaluation → Type 0
NoBetterThan held_symbol chosen evaluation =
    (same_text evaluation.symbol held_symbol ≡ true) ⊎ OutrankedBy chosen evaluation

module _ (held_symbol : Text) where
  others-kept :
      (evaluation : PoolEntryEvaluation) (evaluations : List PoolEntryEvaluation) (same : Bool)
      → same_text evaluation.symbol held_symbol ≡ same
      → others held_symbol (evaluation ∷ evaluations) ≡ (
          if same
          then others held_symbol evaluations
          else evaluation ∷ others held_symbol evaluations)
  unfolding others
  others-kept evaluation evaluations same e =
      ap
        (λ b.
          if b then others held_symbol evaluations else evaluation ∷ others held_symbol evaluations)
        e

  pub others-Among :
      (found : PoolEntryEvaluation) (evaluations : List PoolEntryEvaluation)
      → Among found (others held_symbol evaluations)
      → Among found evaluations × (same_text found.symbol held_symbol ≡ false)
  unfolding others
  others-Among found [] h = absurd h
  others-Among found (evaluation ∷ evaluations) h =
      elim (Bool-cases (same_text evaluation.symbol held_symbol)) [
        | inl e ↦
            let (a, b) =
              others-Among found evaluations
                (subst (Among found) (others-kept evaluation evaluations true e) h) in
            (inr a, b)
        | inr e ↦ elim (subst (Among found) (others-kept evaluation evaluations false e) h) [
          | inl same ↦ (inl same, ap (λ x. same_text x.symbol held_symbol) same ∙ e)
          | inr later ↦ let (a, b) = others-Among found evaluations later in (inr a, b)
        ]
      ]

  pub others-NoBetterThan :
      (chosen : PoolEntryEvaluation) (evaluations : List PoolEntryEvaluation)
      → AllOf (OutrankedBy chosen) (others held_symbol evaluations)
      → AllOf (NoBetterThan held_symbol chosen) evaluations
  others-NoBetterThan chosen [] h = tt
  others-NoBetterThan chosen (evaluation ∷ evaluations) h =
      elim (Bool-cases (same_text evaluation.symbol held_symbol)) [
        | inl e ↦ (
          inl e,
          others-NoBetterThan chosen evaluations
              (subst (AllOf (OutrankedBy chosen)) (others-kept evaluation evaluations true e) h),
        )
        | inr e ↦
            let k =
              subst (AllOf (OutrankedBy chosen)) (others-kept evaluation evaluations false e) h in
            (inr k.0, others-NoBetterThan chosen evaluations k.1)
      ]
