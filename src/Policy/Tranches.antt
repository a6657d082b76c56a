-- ===== src/Policy/Tranches.antt =====
-- What a modelled swap of src/aero_bot/policy.py looks like.
use aero_bot.Prelude.{
  ℕ, ◌+◌, ◌-◌, ◌≤◌, true, false, none, some, [], ◌∷◌, ◌≡◌, arith, inl, inr, length, length-append,
  replicate, length-replicate, if◌then◌else◌, Bool-cases,
}
use aero_bot.Prelude.Int.{ℤ, pos, pos_part, ltb_ℤ}
use aero_bot.Prelude.Results.{Ensures, Ensures-bind}
use aero_bot.Decimal.{Decimal, whole, le, sum, mul, div, math_precision}
use aero_bot.Policy.Parameters.{PolicyParameters}
use aero_bot.Policy.Types.{SwapPlan, SwapDirection}
use aero_bot.Policy.Swap.{
  swap_plan, whole_swap_plan, sliced_swap_plan, build_swap_plan, slices, slice, tranche_count,
  tranche_size, all_valid, usd_sizes, max_swap_tranches,
}

-- A plan that covers its total, in the direction and of the size asked for: at least one and at most
-- a thousand tranches, each positive and with an impact that is not negative, that add up to the
-- total.
pub record Covers (direction : SwapDirection) (total_usd : Decimal) (plan : SwapPlan) : Type 0 where
  pub directed : plan.direction ≡ direction
  pub sized : plan.total_usd ≡ total_usd
  pub some_tranche : 1 ≤ length plan.tranches
  pub few_tranches : length plan.tranches ≤ max_swap_tranches
  pub positive : all_valid plan.tranches ≡ true
  pub at_least : le total_usd (sum math_precision (usd_sizes plan.tranches)) ≡ true
  pub at_most : le (sum math_precision (usd_sizes plan.tranches)) total_usd ≡ true

build_swap_plan-Covers :
    (plan : SwapPlan)
    → 1 ≤ length plan.tranches
    → length plan.tranches ≤ max_swap_tranches
    → Ensures (build_swap_plan plan) (Covers plan.direction plan.total_usd)
unfolding build_swap_plan
build_swap_plan-Covers plan some_tranche few = ground arith

length-slices :
    (total_usd route_depth_usd size : Decimal) (count : ℕ)
    → length (slices total_usd route_depth_usd size count) ≡ (count - 1) + 1
unfolding slices
length-slices total_usd route_depth_usd size count = omega (
  arith,
  length-append (replicate (count - 1) (slice route_depth_usd size)) (_ ∷ []),
  length-replicate (count - 1) (slice route_depth_usd size),
)

whole_swap_plan-Covers :
    (direction : SwapDirection) (total_usd route_depth_usd : Decimal)
    → Ensures (whole_swap_plan direction total_usd route_depth_usd) (Covers direction total_usd)
unfolding whole_swap_plan
whole_swap_plan-Covers direction total_usd route_depth_usd =
    let impact =
      (if le route_depth_usd (whole 0)
        then none
        else some (div math_precision total_usd route_depth_usd)) in
    build_swap_plan-Covers
      (record {
        direction = direction;
        total_usd = total_usd;
        route_depth_usd = route_depth_usd;
        tranches = record { usd_size = total_usd; modeled_impact_fraction = impact } ∷ [];
        max_modeled_impact_fraction = impact;
      })
      (omega arith) (omega arith)

sliced_swap_plan-Covers :
    (direction : SwapDirection) (total_usd route_depth_usd size : Decimal) (count : ℕ)
    → count ≤ max_swap_tranches
    → Ensures
        (sliced_swap_plan direction total_usd route_depth_usd size count)
        (Covers direction total_usd)
unfolding sliced_swap_plan
sliced_swap_plan-Covers direction total_usd route_depth_usd size count few =
    let long = length-slices total_usd route_depth_usd size count in
    build_swap_plan-Covers _ (omega (arith, long)) (omega (arith, long, few))

few_of :
    (count : ℤ) → ltb_ℤ (pos max_swap_tranches) count ≡ false → pos_part count ≤ max_swap_tranches
few_of count h = ground arith

-- Every plan that `_swap_plan` returns covers the swap: it goes in the direction asked for, has
-- between one and a thousand tranches, each positive with an impact that is not negative, and the
-- tranches add up to exactly the total.
pub swap_plan-Covers :
    (p : PolicyParameters) (direction : SwapDirection) (total_usd route_depth_usd : Decimal)
    → Ensures (swap_plan p direction total_usd route_depth_usd) (Covers direction total_usd)
unfolding swap_plan
swap_plan-Covers p direction total_usd route_depth_usd =
    let bound = mul math_precision route_depth_usd p.swap_impact_tranche_fraction in
    let count = tranche_count total_usd bound in
    let whole_plan = whole_swap_plan-Covers direction total_usd route_depth_usd in
    Ensures-bind (tranche_size total_usd count) _ _ (λ size _.
      elim (Bool-cases (ltb_ℤ (pos max_swap_tranches) count)) [
        | inl many ↦ rw many whole_plan
        | inr few ↦ rw few (elim (Bool-cases (le size (whole 0))) [
          | inl empty ↦ rw empty whole_plan
          | inr positive ↦ rw positive (
              sliced_swap_plan-Covers direction total_usd route_depth_usd size (pos_part count)
                (few_of count few))
        ])
      ])
