-- ===== src/Selector/Rank.antt =====
-- The ranking of src/aero_bot/selector.py is an order.
use aero_bot.Prelude.{true, false, [], ◌∷◌, ◌≡◌, refl, arith}
use aero_bot.Decimal.Order.{le_trans, lt-asymm}
use aero_bot.Audit.Text.{Text}
use aero_bot.Selector.Board.{PoolEntryEvaluation, text_before, rank_better}

pub text_before-asymm : (x y : Text) → text_before x y ≡ true → text_before y x ≡ false
unfolding text_before
text_before-asymm [] [] h = refl
text_before-asymm [] (y ∷ ys) h = refl
text_before-asymm (x ∷ xs) [] h = cc
text_before-asymm (x ∷ xs) (y ∷ ys) h = let tail = text_before-asymm xs ys in ground arith

pub text_before-negtrans :
    (x y z : Text) → text_before x y ≡ false → text_before y z ≡ false → text_before x z ≡ false
unfolding text_before
text_before-negtrans [] [] z h k = k
text_before-negtrans [] (y ∷ ys) z h k = cc
text_before-negtrans (x ∷ xs) y [] h k = refl
text_before-negtrans (x ∷ xs) [] (z ∷ zs) h k = cc
text_before-negtrans (x ∷ xs) (y ∷ ys) (z ∷ zs) h k =
    let tail = text_before-negtrans xs ys zs in ground arith

module _ (x y : PoolEntryEvaluation) where
  pub rank_better-asymm : rank_better x y ≡ true → rank_better y x ≡ false
  unfolding rank_better
  rank_better-asymm h =
      let forth = lt-asymm x.emissions_apr y.emissions_apr in
      let back = lt-asymm y.emissions_apr x.emissions_apr in
      let symbols = text_before-asymm x.symbol y.symbol in ground arith

pub rank_better-negtrans :
    (x y z : PoolEntryEvaluation)
    → rank_better x y ≡ false
    → rank_better y z ≡ false
    → rank_better x z ≡ false
unfolding rank_better
rank_better-negtrans x y z h k =
    let up = le_trans x.emissions_apr y.emissions_apr z.emissions_apr in
    let down = le_trans z.emissions_apr y.emissions_apr x.emissions_apr in
    let beyond = le_trans y.emissions_apr z.emissions_apr x.emissions_apr in
    let before = le_trans z.emissions_apr x.emissions_apr y.emissions_apr in
    let symbols = text_before-negtrans x.symbol y.symbol z.symbol in
    let a = lt-asymm x.emissions_apr y.emissions_apr in
    let b = lt-asymm y.emissions_apr z.emissions_apr in
    let c = lt-asymm x.emissions_apr z.emissions_apr in ground arith
