-- ===== src/Selector/Best.antt =====
-- What `select_best_entry` of src/aero_bot/selector.py selects.
use aero_bot.Prelude.{
  Bool, true, false, Option, none, some, List, [], ◌∷◌, ◌≡◌, refl, ◌⊎◌, inl, inr, AllOf, ap,
  Bool-cases, ◌&&◌, sym, ◌∙◌, subst, if◌then◌else◌,
}
use mathlib.Core.Bool.{false≢true}
use aero_bot.Selector.Board.{
  PoolEntryEvaluation, rank_better, better_of, best_entry_from, select_best_entry,
}
use aero_bot.Selector.Rank.{rank_better-asymm, rank_better-negtrans}

-- Some evaluation of the board is this one.
abbrev pub Among : PoolEntryEvaluation → List PoolEntryEvaluation → Type 0
Among found [] = ⊥
Among found (evaluation ∷ evaluations) = (found ≡ evaluation) ⊎ Among found evaluations

-- The evaluation does not qualify, or does not outrank this one.
abbrev pub OutrankedBy : PoolEntryEvaluation → PoolEntryEvaluation → Type 0
OutrankedBy best evaluation = (evaluation.qualifies && rank_better evaluation best) ≡ false

abbrev pub IsBlocked : PoolEntryEvaluation → Type 0
IsBlocked evaluation = evaluation.qualifies ≡ false

-- The best of a board, or that there is none.
abbrev pub IsBestOf : List PoolEntryEvaluation → Option PoolEntryEvaluation → Type 0
IsBestOf evaluations none = AllOf IsBlocked evaluations
IsBestOf evaluations (some best) =
    Among best evaluations × (best.qualifies ≡ true) × AllOf (OutrankedBy best) evaluations

OutrankedBy-intro :
    (best evaluation : PoolEntryEvaluation)
    → (evaluation.qualifies ≡ true → rank_better evaluation best ≡ false)
    → OutrankedBy best evaluation
OutrankedBy-intro best evaluation h = elim (Bool-cases evaluation.qualifies) [
  | inl e ↦ ap (λ q. q && rank_better evaluation best) e ∙ h e
  | inr e ↦ ap (λ q. q && rank_better evaluation best) e
]

OutrankedBy-use :
    (best evaluation : PoolEntryEvaluation)
    → OutrankedBy best evaluation
    → evaluation.qualifies ≡ true
    → rank_better evaluation best ≡ false
OutrankedBy-use best evaluation h e = sym (ap (λ q. q && rank_better evaluation best) e) ∙ h

rank_better_irrefl : (x : PoolEntryEvaluation) → rank_better x x ≡ false
rank_better_irrefl x = elim (Bool-cases (rank_better x x)) [
  | inl e ↦ rank_better-asymm x x e
  | inr e ↦ e
]

-- What the newcomer replaces is outranked by whatever outranks the newcomer.
skip_second :
    (first second : PoolEntryEvaluation) (rest : List PoolEntryEvaluation)
    (best : Option PoolEntryEvaluation)
    → ((b : PoolEntryEvaluation) → OutrankedBy b first → OutrankedBy b second)
    → IsBestOf (first ∷ rest) best
    → first.qualifies ≡ true
    → IsBestOf (first ∷ second ∷ rest) best
skip_second first second rest none covers h q = absurd (false≢true (sym h.0 ∙ q))
skip_second first second rest (some b) covers (inl e, c, (f, all)) q =
    (inl e, c, (f, (covers b f, all)))
skip_second first second rest (some b) covers (inr a, c, (f, all)) q =
    (inr (inr a), c, (f, (covers b f, all)))

skip_first :
    (first second : PoolEntryEvaluation) (rest : List PoolEntryEvaluation)
    (best : Option PoolEntryEvaluation)
    → ((b : PoolEntryEvaluation) → OutrankedBy b second → OutrankedBy b first)
    → IsBestOf (second ∷ rest) best
    → second.qualifies ≡ true
    → IsBestOf (first ∷ second ∷ rest) best
skip_first first second rest none covers h q = absurd (false≢true (sym h.0 ∙ q))
skip_first first second rest (some b) covers (a, c, (f, all)) q = (inr a, c, (covers b f, (f, all)))

-- A step of the loop.
module _ (next : PoolEntryEvaluation) (rest : List PoolEntryEvaluation) where
  best_entry_from-blocked :
      (best : Option PoolEntryEvaluation)
      → next.qualifies ≡ false
      → best_entry_from best (next ∷ rest) ≡ best_entry_from best rest
  unfolding best_entry_from
  best_entry_from-blocked best blocked =
      ap (λ q. best_entry_from (if q then some (better_of best next) else best) rest) blocked

  best_entry_from-step :
      (best : Option PoolEntryEvaluation)
      → next.qualifies ≡ true
      → best_entry_from best (next ∷ rest) ≡ best_entry_from (some (better_of best next)) rest
  unfolding best_entry_from
  best_entry_from-step best n =
      ap (λ q. best_entry_from (if q then some (better_of best next) else best) rest) n

  best_entry_from-first :
      next.qualifies ≡ true → best_entry_from none (next ∷ rest) ≡ best_entry_from (some next) rest
  unfolding better_of
  best_entry_from-first n = best_entry_from-step none n

  best_entry_from-compared :
      (first : PoolEntryEvaluation) (over : Bool)
      → next.qualifies ≡ true
      → rank_better next first ≡ over
      → best_entry_from (some first) (next ∷ rest)
        ≡ best_entry_from (some (if over then next else first)) rest
  unfolding better_of
  best_entry_from-compared first over n e =
      best_entry_from-step (some first) n
      ∙ ap (λ b. best_entry_from (some (if b then next else first)) rest) e

best_entry_from-qualified :
    (first : PoolEntryEvaluation) (evaluations : List PoolEntryEvaluation)
    → first.qualifies ≡ true
    → IsBestOf (first ∷ evaluations) (best_entry_from (some first) evaluations)
unfolding best_entry_from
best_entry_from-qualified first [] q =
    (inl refl, q, (OutrankedBy-intro first first (λ _. rank_better_irrefl first), tt))
best_entry_from-qualified first (next ∷ rest) q =
    let kept = best_entry_from-qualified first rest q in
    let Goal = IsBestOf (first ∷ next ∷ rest) in
    elim (Bool-cases next.qualifies) [
      | inr blocked ↦ subst Goal (sym (best_entry_from-blocked next rest (some first) blocked)) (
          skip_second first next rest _
            (λ b f. OutrankedBy-intro b next (λ n. absurd (false≢true (sym blocked ∙ n)))) kept q)
      | inl n ↦ elim (Bool-cases (rank_better next first)) [
        | inl over ↦ subst Goal (sym (best_entry_from-compared next rest first true n over)) (
            skip_first first next rest _
              (λ b f. OutrankedBy-intro b first (λ _.
                rank_better-negtrans first next b (rank_better-asymm next first over)
                  (OutrankedBy-use b next f n)))
              (best_entry_from-qualified next rest n) n)
        | inr under ↦ subst Goal (sym (best_entry_from-compared next rest first false n under)) (
            skip_second first next rest _
              (λ b f.
                OutrankedBy-intro b next
                  (λ _. rank_better-negtrans next first b under (OutrankedBy-use b first f q)))
              kept q)
      ]
    ]

blocked_before :
    (next : PoolEntryEvaluation) (rest : List PoolEntryEvaluation)
    (best : Option PoolEntryEvaluation)
    → next.qualifies ≡ false
    → IsBestOf rest best
    → IsBestOf (next ∷ rest) best
blocked_before next rest none blocked h = (blocked, h)
blocked_before next rest (some b) blocked (a, c, all) =
    (inr a, c, (OutrankedBy-intro b next (λ n. absurd (false≢true (sym blocked ∙ n))), all))

none_selected : IsBestOf [] (best_entry_from none [])
unfolding best_entry_from
none_selected = tt

-- Where no evaluation of the board qualifies nothing is selected. Otherwise the selected evaluation
-- is one of the board's, it qualifies, and no evaluation that qualifies ranks better.
pub select_best_entry-IsBestOf :
    (evaluations : List PoolEntryEvaluation) → IsBestOf evaluations (select_best_entry evaluations)
unfolding select_best_entry
select_best_entry-IsBestOf [] = none_selected
select_best_entry-IsBestOf (next ∷ rest) = elim (Bool-cases next.qualifies) [
  | inl n ↦
      subst (IsBestOf (next ∷ rest)) (sym (best_entry_from-first next rest n))
        (best_entry_from-qualified next rest n)
  | inr blocked ↦
      subst (IsBestOf (next ∷ rest)) (sym (best_entry_from-blocked next rest none blocked))
        (blocked_before next rest _ blocked (select_best_entry-IsBestOf rest))
]
