-- ===== src/Ranging/Choice.antt =====
-- The order and the choice of the evaluations in `solve_range_width` of src/aero_bot/ranging.py.
use aero_bot.Prelude.{
  Bool, true, false, not, ◌&&◌, ◌||◌, List, [], ◌∷◌, ◌≡◌, refl, AllOf, if◌then◌else◌, inl, inr,
  subst, sym, ◌⊎◌, Bool-cases,
}
use aero_bot.Prelude.Int.{ltb_ℤ}
use aero_bot.Decimal.{lt, le}
use aero_bot.Decimal.Order.{le_trans, le_refl, le_of_lt, le_of_not_lt}
use aero_bot.Ranging.Types.{ExecutableRangeEvaluation}

-- The comparison of the keys `(total_span_fraction, lower_bound.tick)`.
unfoldable pub sorts_before : ExecutableRangeEvaluation → ExecutableRangeEvaluation → Bool
sorts_before a b =
    lt a.total_span_fraction b.total_span_fraction
    || (not (lt b.total_span_fraction a.total_span_fraction)
        && ltb_ℤ a.lower_bound.tick b.lower_bound.tick)

-- `list.sort`, which keeps the order of equal keys.
abbrev pub insert :
    ExecutableRangeEvaluation → List ExecutableRangeEvaluation → List ExecutableRangeEvaluation
insert row [] = row ∷ []
insert row (other ∷ rows) =
    if sorts_before other row then other ∷ insert row rows else row ∷ other ∷ rows

unfoldable pub sort : List ExecutableRangeEvaluation → List ExecutableRangeEvaluation
sort [] = []
sort (row ∷ rows) = insert row (sort rows)

-- `max(rows, key=…)` keeps the first of the best.
unfoldable pub best_of :
    ExecutableRangeEvaluation → List ExecutableRangeEvaluation → ExecutableRangeEvaluation
best_of best [] = best
best_of best (row ∷ rows) =
    if lt best.net_yield_per_day row.net_yield_per_day then best_of row rows else best_of best rows

-- Some row is this one.
abbrev pub HasRow : ExecutableRangeEvaluation → List ExecutableRangeEvaluation → Type 0
HasRow found [] = ⊥
HasRow found (row ∷ rows) = (found ≡ row) ⊎ HasRow found rows

pub insert-AllOf :
    (P : ExecutableRangeEvaluation → Type 0) (row : ExecutableRangeEvaluation)
    (rows : List ExecutableRangeEvaluation)
    → P row
    → AllOf P rows
    → AllOf P (insert row rows)
insert-AllOf P row [] h k = (h, tt)
insert-AllOf P row (other ∷ rows) h k = elim (Bool-cases (sorts_before other row)) [
  | inl e ↦ rw (e, AllOf) (k.0, insert-AllOf P row rows h k.1)
  | inr e ↦ rw (e, AllOf) (h, k)
]

abbrev pub NetAtMost : ExecutableRangeEvaluation → ExecutableRangeEvaluation → Type 0
NetAtMost best row = le row.net_yield_per_day best.net_yield_per_day ≡ true

pub best_of-replaced :
    (best row : ExecutableRangeEvaluation) (rows : List ExecutableRangeEvaluation)
    → lt best.net_yield_per_day row.net_yield_per_day ≡ true
    → best_of best (row ∷ rows) ≡ best_of row rows
unfolding best_of
best_of-replaced best row rows e = rw e refl

pub best_of-kept :
    (best row : ExecutableRangeEvaluation) (rows : List ExecutableRangeEvaluation)
    → lt best.net_yield_per_day row.net_yield_per_day ≡ false
    → best_of best (row ∷ rows) ≡ best_of best rows
unfolding best_of
best_of-kept best row rows e = rw e refl

NetAtMost-trans :
    (a b c : ExecutableRangeEvaluation) → NetAtMost b a → NetAtMost c b → NetAtMost c a
NetAtMost-trans a b c h k = le_trans a.net_yield_per_day b.net_yield_per_day c.net_yield_per_day h k

pub best_of-NetAtMost :
    (best : ExecutableRangeEvaluation) (rows : List ExecutableRangeEvaluation)
    → AllOf (NetAtMost (best_of best rows)) (best ∷ rows)
unfolding best_of
best_of-NetAtMost best [] = (le_refl best.net_yield_per_day, tt)
best_of-NetAtMost best (row ∷ rows) =
    elim (Bool-cases (lt best.net_yield_per_day row.net_yield_per_day)) [
      | inl e ↦
          subst (λ chosen. AllOf (NetAtMost chosen) (best ∷ row ∷ rows))
            (sym (best_of-replaced best row rows e))
            (
              NetAtMost-trans best row (best_of row rows)
                  (le_of_lt best.net_yield_per_day row.net_yield_per_day e)
                  ((best_of-NetAtMost row rows).0),
              best_of-NetAtMost row rows,
            )
      | inr e ↦
          subst (λ chosen. AllOf (NetAtMost chosen) (best ∷ row ∷ rows))
            (sym (best_of-kept best row rows e))
            (
              (best_of-NetAtMost best rows).0,
              (
                NetAtMost-trans row best (best_of best rows)
                    (le_of_not_lt best.net_yield_per_day row.net_yield_per_day e)
                    ((best_of-NetAtMost best rows).0),
                (best_of-NetAtMost best rows).1,
              ),
            )
    ]

keeps :
    (found best row : ExecutableRangeEvaluation) (rows : List ExecutableRangeEvaluation)
    → HasRow found (best ∷ rows)
    → HasRow found (best ∷ row ∷ rows)
keeps found best row rows (inl e) = inl e
keeps found best row rows (inr h) = inr (inr h)

pub best_of-HasRow :
    (best : ExecutableRangeEvaluation) (rows : List ExecutableRangeEvaluation)
    → HasRow (best_of best rows) (best ∷ rows)
unfolding best_of
best_of-HasRow best [] = inl refl
best_of-HasRow best (row ∷ rows) =
    elim (Bool-cases (lt best.net_yield_per_day row.net_yield_per_day)) [
      | inl e ↦
          subst (λ chosen. HasRow chosen (best ∷ row ∷ rows))
            (sym (best_of-replaced best row rows e)) (inr (best_of-HasRow row rows))
      | inr e ↦
          subst (λ chosen. HasRow chosen (best ∷ row ∷ rows)) (sym (best_of-kept best row rows e))
            (keeps (best_of best rows) best row rows (best_of-HasRow best rows))
    ]
