-- ===== src/Policy/Swap.antt =====
-- The composition of a position and the modelled swaps of src/aero_bot/policy.py:
-- `position_composition`, `_stock_quantity`, `_swap_plan` and the validator of `SwapPlan`.
use aero_bot.Prelude.{
  ℕ, ◌-◌, Bool, true, false, not, ◌&&◌, ◌||◌, Option, none, some, List, [], ◌∷◌, ◌++◌, map,
  if◌then◌else◌, replicate, leb,
}
use aero_bot.Prelude.Int.{ℤ, pos, pos_part, ltb_ℤ, abs_ℤ}
use aero_bot.Prelude.Results.{
  Result, ok, value_error, validation_error, invalid_operation, raise_if, checked, ◌>>=◌, ◌>>◌,
}
use aero_bot.Decimal.{
  Decimal, whole, lt, le, sub, mul, div, fix, checked_div, sum, max, math_precision, digit_count,
}
use aero_bot.Decimal.Root.{checked_sqrt, ceiling, quantize_floor}
use aero_bot.Policy.Parameters.{PolicyParameters}
use aero_bot.Policy.Types.{PolicyPosition, SwapPlan, SwapTranche, SwapDirection}

-- The stock and USDC quantities of a position at one pool price.
unfoldable pub position_composition : PolicyPosition → Decimal → Result (Decimal × Decimal)
position_composition position amm_price = do
  let m = math_precision
  let lower = position.price_range.lower_price
  let upper = position.price_range.upper_price
  raise_if (le amm_price (whole 0)) value_error
  sqrt_lower ← checked_sqrt m lower
  sqrt_upper ← checked_sqrt m upper
  sqrt_center ← checked_sqrt m (mul m sqrt_lower sqrt_upper)
  liquidity ← checked_div m position.committed_usd (mul m (whole 2) (sub m sqrt_center sqrt_lower))
  sqrt_price ← checked_sqrt m amm_price
  if le amm_price lower
      then (do
        inverse_lower ← checked_div m (whole 1) sqrt_lower
        inverse_upper ← checked_div m (whole 1) sqrt_upper
        ok (fix m (mul m liquidity (sub m inverse_lower inverse_upper)), whole 0))
      else if lt amm_price upper
      then (do
        inverse_price ← checked_div m (whole 1) sqrt_price
        inverse_upper ← checked_div m (whole 1) sqrt_upper
        ok (
          fix m (mul m liquidity (sub m inverse_price inverse_upper)),
          fix m (mul m liquidity (sub m sqrt_price sqrt_lower)),
        ))
      else ok (whole 0, fix m (mul m liquidity (sub m sqrt_upper sqrt_lower)))

unfoldable pub stock_quantity : PolicyPosition → Decimal → Result Decimal
unfolding position_composition
stock_quantity position amm_price = position_composition position amm_price >>= λ c. ok c.0

-- `MAX_SWAP_TRANCHES`, and the places of `USDC_QUANTUM`.
abbrev pub max_swap_tranches : ℕ
max_swap_tranches = 1_000

abbrev pub usdc_places : ℕ
usdc_places = 6

-- What the fields and the validator of `SwapPlan` demand.
abbrev pub is_valid_tranche : SwapTranche → Bool
is_valid_tranche tranche =
    lt (whole 0) tranche.usd_size
    && elim tranche.modeled_impact_fraction [ none ↦ true | some impact ↦ le (whole 0) impact ]

abbrev pub all_valid : List SwapTranche → Bool
all_valid [] = true
all_valid (tranche ∷ tranches) = is_valid_tranche tranche && all_valid tranches

abbrev pub is_empty : List SwapTranche → Bool
is_empty [] = true
is_empty (_ ∷ _) = false

abbrev pub usd_sizes : List SwapTranche → List Decimal
usd_sizes = map λ tranche. tranche.usd_size

unfoldable pub build_swap_plan : SwapPlan → Result SwapPlan
build_swap_plan plan = do
  let total = sum math_precision (usd_sizes plan.tranches)
  raise_if (le plan.total_usd (whole 0) || lt plan.route_depth_usd (whole 0)) validation_error
  raise_if (is_empty plan.tranches || not (all_valid plan.tranches)) validation_error
  raise_if (lt total plan.total_usd || lt plan.total_usd total) validation_error
  ok plan

-- The number of slices, none of them above the split bound; zero without any depth.
unfoldable pub tranche_count : Decimal → Decimal → ℤ
unfolding ceiling div
tranche_count total_usd max_tranche_usd =
    if lt (whole 0) max_tranche_usd
    then ceiling (div math_precision total_usd max_tranche_usd)
    else pos 0

-- One slice, floored to USDC's six decimals; `quantize` raises where the result has more digits than
-- the precision.
unfoldable pub tranche_size : Decimal → ℤ → Result Decimal
tranche_size total_usd count =
    let floored =
      quantize_floor usdc_places (div math_precision total_usd (whole (pos_part count))) in
    if ltb_ℤ (pos 0) count
    then checked (leb (digit_count (abs_ℤ floored.coefficient)) math_precision) invalid_operation
        floored
    else ok (whole 0)

-- The whole swap as one slice.
unfoldable pub whole_swap_plan : SwapDirection → Decimal → Decimal → Result SwapPlan
unfolding build_swap_plan
whole_swap_plan direction total_usd route_depth_usd =
    let impact =
      (if le route_depth_usd (whole 0)
        then none
        else some (div math_precision total_usd route_depth_usd)) in
    build_swap_plan (record {
      direction = direction;
      total_usd = total_usd;
      route_depth_usd = route_depth_usd;
      tranches = record { usd_size = total_usd; modeled_impact_fraction = impact } ∷ [];
      max_modeled_impact_fraction = impact;
    })

-- `max(impacts)`: the first of the greatest.
abbrev pub largest : Decimal → List Decimal → Decimal
largest x [] = x
largest x (y ∷ ys) = largest (max x y) ys

abbrev pub slice : Decimal → Decimal → SwapTranche
slice route_depth_usd size = record {
  usd_size = size;
  modeled_impact_fraction = some (div math_precision size route_depth_usd);
}

-- `count` slices, of which the last absorbs what the flooring left.
unfoldable pub slices : Decimal → Decimal → Decimal → ℕ → List SwapTranche
slices total_usd route_depth_usd size count =
    let rest = sub math_precision total_usd (mul math_precision size (whole (count - 1))) in
    replicate (count - 1) (slice route_depth_usd size) ++ slice route_depth_usd rest ∷ []

abbrev pub impacts : List SwapTranche → List Decimal
impacts [] = []
impacts (tranche ∷ tranches) = elim tranche.modeled_impact_fraction [
  | none ↦ impacts tranches
  | some impact ↦ impact ∷ impacts tranches
]

abbrev pub largest_of : List Decimal → Option Decimal
largest_of [] = none
largest_of (x ∷ xs) = some (largest x xs)

unfoldable pub sliced_swap_plan : SwapDirection → Decimal → Decimal → Decimal → ℕ → Result SwapPlan
unfolding build_swap_plan slices max
sliced_swap_plan direction total_usd route_depth_usd size count =
    let tranches = slices total_usd route_depth_usd size count in
    build_swap_plan (record {
      direction = direction;
      total_usd = total_usd;
      route_depth_usd = route_depth_usd;
      tranches = tranches;
      max_modeled_impact_fraction = largest_of (impacts tranches);
    })

unfoldable pub swap_plan : PolicyParameters → SwapDirection → Decimal → Decimal → Result SwapPlan
swap_plan p direction total_usd route_depth_usd =
    let count =
      tranche_count total_usd (mul math_precision route_depth_usd p.swap_impact_tranche_fraction) in
    tranche_size total_usd count >>= λ size.
    if ltb_ℤ (pos max_swap_tranches) count || le size (whole 0)
    then whole_swap_plan direction total_usd route_depth_usd
    else sliced_swap_plan direction total_usd route_depth_usd size (pos_part count)
