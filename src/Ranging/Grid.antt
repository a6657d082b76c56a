-- ===== src/Ranging/Grid.antt =====
-- `enumerate_aligned_bounds` of src/aero_bot/ranging.py.
use aero_bot.Prelude.{
  ℕ, zero, suc, ◌+◌, ◌*◌, ◌/◌, ◌==◌, Bool, not, ◌&&◌, ◌||◌, Option, none, some, List, [], ◌∷◌,
  if◌then◌else◌,
}
use aero_bot.Prelude.Int.{ℤ, pos, negsuc, pos_part, min_ℤ, ◌+ℤ◌, ◌-ℤ◌, ◌*ℤ◌}
use aero_bot.Prelude.Results.{Result, ok, Error, raise_if, checked, ◌>>=◌, ◌>>◌}
use aero_bot.Decimal.{Decimal, whole, le}
use aero_bot.Decimal.Root.{ceiling}
use aero_bot.Ranging.Types.{AlignedBound}
use aero_bot.Ranging.Math.{
  DecimalMath, ◌⊖◌, ratio, plus, is_positive, tick_price_ratio, human_price_from_raw_tick,
}

abbrev pub max_aligned_bounds_per_side : ℕ
max_aligned_bounds_per_side = 8

-- `(tick // spacing) * spacing`, which rounds down.
abbrev pub cell_of : ℤ → ℕ → ℤ
cell_of (pos n) spacing = pos (n / spacing) *ℤ pos spacing
cell_of (negsuc n) spacing = negsuc (n / spacing) *ℤ pos spacing

-- What the enumeration reads.
pub record Grid : Type 0 where
  pub pool_price_usdc : Decimal
  pub tick_spacing : ℕ
  pub min_distance_fraction : Decimal
  pub max_distance_fraction : Decimal
  pub pool_tick_raw : ℤ
  pub stock_is_token0 : Bool
  pub stock_decimals : ℕ
  pub quote_decimals : ℕ

-- `AlignedBound(...)` demands a positive distance.
abbrev pub aligned_bound : ℤ → Decimal → Decimal → Result AlignedBound
aligned_bound tick price distance =
    checked (is_positive distance) Error.validation_error
      (record { tick = tick; price = price; distance_fraction = distance })

abbrev pub real_distance : (human_price pool_price_usdc : Decimal) → Result Decimal
real_distance human_price pool_price_usdc = do
  relative ← ratio human_price pool_price_usdc
  if le human_price pool_price_usdc then ok (whole 1 ⊖ relative) else ok (relative ⊖ whole 1)

abbrev pub in_band : Grid → Decimal → Bool
in_band grid distance =
    le grid.min_distance_fraction distance && le distance grid.max_distance_fraction

-- The bound at a raw tick, if its real distance lies in the band.
unfoldable pub bound_at : DecimalMath → Grid → ℤ → Result (Option AlignedBound)
bound_at math grid raw_tick = do
  human_price ←
      human_price_from_raw_tick math raw_tick grid.stock_is_token0 grid.stock_decimals
        grid.quote_decimals
  distance ← real_distance human_price grid.pool_price_usdc
  if in_band grid distance
      then (aligned_bound raw_tick (plus human_price) (plus distance) >>= λ bound. ok (some bound))
      else ok none

abbrev pub with_found : {A : Type 0} → Option A → List A → List A
with_found none rest = rest
with_found (some found) rest = found ∷ rest

-- The steps outward from the anchor: the raw-lower and the raw-upper bounds, nearest first.
unfoldable pub walk_outward :
    (count step : ℕ) → DecimalMath → Grid → ℤ → Result (List AlignedBound × List AlignedBound)
walk_outward zero step math grid anchor = ok ([], [])
walk_outward (suc count) step math grid anchor = do
  lower ← bound_at math grid (anchor -ℤ pos (step * grid.tick_spacing))
  upper ← bound_at math grid (anchor +ℤ pos (step * grid.tick_spacing))
  rest ← walk_outward count (step + 1) math grid anchor
  ok (with_found lower rest.0, with_found upper rest.1)

unfoldable pub enumerate_aligned_bounds :
    DecimalMath → Grid → Result (List AlignedBound × List AlignedBound)
enumerate_aligned_bounds math grid = do
  raise_if (not (is_positive grid.pool_price_usdc)) Error.value_error
  raise_if (grid.tick_spacing == 0) Error.value_error
  raise_if
      (not (is_positive grid.min_distance_fraction)
        || le grid.max_distance_fraction grid.min_distance_fraction)
      Error.value_error
  raised_ratio ← math.power tick_price_ratio (whole grid.tick_spacing)
  widths ← ratio grid.max_distance_fraction (raised_ratio ⊖ whole 1)
  let max_steps = ceiling widths +ℤ pos 2
  let count = pos_part (min_ℤ max_steps (pos max_aligned_bounds_per_side))
  walk_outward count 1 math grid (cell_of grid.pool_tick_raw grid.tick_spacing)
