-- ===== src/Ranging/Order.antt =====
-- The order of the evaluations in `solve_range_width` of src/aero_bot/ranging.py, and which of equal
-- ones its `max` keeps.
use aero_bot.Prelude.{
  Bool, true, false, not, ◌&&◌, ◌||◌, List, [], ◌∷◌, ◌≡◌, AllOf, AllOf-map, inl, inr, subst, sym,
  ◌⊎◌, Bool-cases, arith, if◌then◌else◌,
}
use mathlib.Core.List.{Perm}
use mathlib.Core.List.Perm
use aero_bot.Prelude.Int.{ℤ, ltb_ℤ}
use aero_bot.Decimal.{lt}
use aero_bot.Decimal.Order.{le_trans, lt-asymm, lt-le_trans, le-lt_trans, le_of_not_lt}
use aero_bot.Ranging.Types.{ExecutableRangeEvaluation}
use aero_bot.Ranging.Choice.{
  sorts_before, insert, sort, best_of, insert-AllOf, best_of-replaced, best_of-kept,
  best_of-NetAtMost,
}

sorts_before-asymm :
    (a b : ExecutableRangeEvaluation) → sorts_before a b ≡ true → sorts_before b a ≡ false
unfolding sorts_before
sorts_before-asymm a b h =
    let forth = lt-asymm a.total_span_fraction b.total_span_fraction in ground arith

ltb_negtrans : (i j k : ℤ) → ltb_ℤ i j ≡ false → ltb_ℤ j k ≡ false → ltb_ℤ i k ≡ false
ltb_negtrans i j k h l = ground arith

-- The comparison of two keys, by the comparisons of their parts.
abbrev keyed : (less more tick : Bool) → Bool
keyed less more tick = less || (not more && tick)

keyed_negtrans :
    (xy yx yz zy xz zx s t u : Bool)
    → (not yx ≡ true → not zy ≡ true → not zx ≡ true)
    → (not zx ≡ true → not yz ≡ true → not yx ≡ true)
    → (not xy ≡ true → not zx ≡ true → not zy ≡ true)
    → (not zy ≡ true → not xz ≡ true → not xy ≡ true)
    → (not xz ≡ true → not yx ≡ true → not yz ≡ true)
    → (not yz ≡ true → not xy ≡ true → not xz ≡ true)
    → (s ≡ false → t ≡ false → u ≡ false)
    → keyed xy yx s ≡ false
    → keyed yz zy t ≡ false
    → keyed xz zx u ≡ false
keyed_negtrans xy yx yz zy xz zx s t u p1 p2 p3 p4 p5 p6 ticks h k = ground arith

pub sorts_before-negtrans :
    (a b c : ExecutableRangeEvaluation)
    → sorts_before a b ≡ false
    → sorts_before b c ≡ false
    → sorts_before a c ≡ false
unfolding sorts_before
sorts_before-negtrans a b c h k =
    let x = a.total_span_fraction in
    let y = b.total_span_fraction in
    let z = c.total_span_fraction in
    keyed_negtrans (lt x y) (lt y x) (lt y z) (lt z y) (lt x z) (lt z x) _ _ _ (le_trans x y z)
      (le_trans x z y) (le_trans y x z) (le_trans y z x) (le_trans z x y) (le_trans z y x)
      (ltb_negtrans a.lower_bound.tick b.lower_bound.tick c.lower_bound.tick) h k

-- The row does not sort before this one.
abbrev pub NotBefore : ExecutableRangeEvaluation → ExecutableRangeEvaluation → Type 0
NotBefore a row = sorts_before row a ≡ false

-- No row sorts before an earlier one.
abbrev pub IsSorted : List ExecutableRangeEvaluation → Type 0
IsSorted [] = Unit
IsSorted (row ∷ rows) = AllOf (NotBefore row) rows × IsSorted rows

insert-IsSorted :
    (row : ExecutableRangeEvaluation) (rows : List ExecutableRangeEvaluation)
    → IsSorted rows
    → IsSorted (insert row rows)
insert-IsSorted row [] h = (tt, tt)
insert-IsSorted row (other ∷ rows) (first, rest) = elim (Bool-cases (sorts_before other row)) [
  | inl e ↦
      rw (e, IsSorted)
        (
          insert-AllOf (NotBefore other) row rows (sorts_before-asymm other row e) first,
          insert-IsSorted row rows rest,
        )
  | inr e ↦
      rw (e, IsSorted)
        (
          (
            e,
            AllOf-map (NotBefore other) (NotBefore row) rows
                (λ later h. sorts_before-negtrans later other row h e) first,
          ),
          (first, rest),
        )
]

pub sort-IsSorted : (rows : List ExecutableRangeEvaluation) → IsSorted (sort rows)
unfolding sort
sort-IsSorted [] = tt
sort-IsSorted (row ∷ rows) = insert-IsSorted row (sort rows) (sort-IsSorted rows)

insert-Perm :
    (row : ExecutableRangeEvaluation) (rows : List ExecutableRangeEvaluation)
    → Perm (row ∷ rows) (insert row rows)
insert-Perm row [] = Perm.refl (row ∷ [])
insert-Perm row (other ∷ rows) = elim (Bool-cases (sorts_before other row)) [
  | inl e ↦
      subst
        (λ b. Perm (row ∷ other ∷ rows) (if b then other ∷ insert row rows else row ∷ other ∷ rows))
        (sym e) (Perm.trans (Perm.swap other row rows) (Perm.cons other (insert-Perm row rows)))
  | inr e ↦
      subst
        (λ b. Perm (row ∷ other ∷ rows) (if b then other ∷ insert row rows else row ∷ other ∷ rows))
        (sym e) (Perm.refl (row ∷ other ∷ rows))
]

pub sort-Perm : (rows : List ExecutableRangeEvaluation) → Perm rows (sort rows)
unfolding sort
sort-Perm [] = Perm.refl []
sort-Perm (row ∷ rows) = Perm.trans (Perm.cons row (sort-Perm rows)) (insert-Perm row (sort rows))

pub sort-is_empty : (rows : List ExecutableRangeEvaluation) → sort rows ≡ [] → rows ≡ []
sort-is_empty rows e = Perm.eq-nil (subst (Perm rows) e (sort-Perm rows))

-- The row nets strictly less, or it does not sort before this one.
abbrev pub YieldsTo : ExecutableRangeEvaluation → ExecutableRangeEvaluation → Type 0
YieldsTo best row =
    (lt row.net_yield_per_day best.net_yield_per_day ≡ true) ⊎ (sorts_before row best ≡ false)

sorts_before_irrefl : (row : ExecutableRangeEvaluation) → sorts_before row row ≡ false
sorts_before_irrefl row = elim (Bool-cases (sorts_before row row)) [
  | inl e ↦ sorts_before-asymm row row e
  | inr e ↦ e
]

-- What the kept best yields to, the row that it outlives yields to.
kept_over :
    (best row chosen : ExecutableRangeEvaluation)
    → lt best.net_yield_per_day row.net_yield_per_day ≡ false
    → sorts_before row best ≡ false
    → YieldsTo chosen best
    → YieldsTo chosen row
kept_over best row chosen e later (inl less) = inl (
    le-lt_trans row.net_yield_per_day best.net_yield_per_day chosen.net_yield_per_day
      (le_of_not_lt best.net_yield_per_day row.net_yield_per_day e) less)
kept_over best row chosen e later (inr after) =
    inr (sorts_before-negtrans row best chosen later after)

pub best_of-YieldsTo :
    (best : ExecutableRangeEvaluation) (rows : List ExecutableRangeEvaluation)
    → IsSorted (best ∷ rows)
    → AllOf (YieldsTo (best_of best rows)) (best ∷ rows)
unfolding best_of
best_of-YieldsTo best [] sorted = (inr (sorts_before_irrefl best), tt)
best_of-YieldsTo best (row ∷ rows) ((later, laters), (nexts, rest)) =
    let Goal =
      λ (chosen : ExecutableRangeEvaluation). AllOf (YieldsTo chosen) (best ∷ row ∷ rows) in
    elim (Bool-cases (lt best.net_yield_per_day row.net_yield_per_day)) [
      | inl e ↦ subst Goal (sym (best_of-replaced best row rows e)) (
        inl (
            lt-le_trans best.net_yield_per_day row.net_yield_per_day
              (best_of row rows).net_yield_per_day e ((best_of-NetAtMost row rows).0)),
        best_of-YieldsTo row rows (nexts, rest),
      )
      | inr e ↦
          let (first, others) = best_of-YieldsTo best rows (laters, rest) in
          subst Goal (sym (best_of-kept best row rows e))
            (first, (kept_over best row (best_of best rows) e later first, others))
    ]
