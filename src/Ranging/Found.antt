-- ===== src/Ranging/Found.antt =====
-- Where the bounds that src/aero_bot/ranging.py scores come from.
use aero_bot.Prelude.{
  ℕ, zero, suc, ◌+◌, ◌*◌, ◌<◌, Option, none, some, List, ◌≡◌, arith, ap, ◌∙◌, AllOf,
}
use aero_bot.Prelude.Int.{ℤ, pos, ◌+ℤ◌, ◌-ℤ◌, ◌<ℤ◌, int_laws}
use aero_bot.Prelude.Results.{ok, Ensures, Ensures-bind, Ensures-ok}
use aero_bot.Ranging.Types.{AlignedBound}
use aero_bot.Ranging.Math.{DecimalMath, human_price_from_raw_tick}
use aero_bot.Ranging.Grid.{Grid, bound_at, walk_outward, with_found, real_distance}

abbrev pub OptionHas : {A : Type 0} → (A → Type 0) → Option A → Type 0
OptionHas P none = Unit
OptionHas P (some a) = P a

pub with_found-AllOf :
    {A : Type 0} (P : A → Type 0) (found : Option A) (rest : List A)
    → OptionHas P found
    → AllOf P rest
    → AllOf P (with_found found rest)
with_found-AllOf P none rest h k = k
with_found-AllOf P (some a) rest h k = (h, k)

-- A bound that the grid yields at its own tick.
abbrev pub OnGrid : DecimalMath → Grid → AlignedBound → Type 0
OnGrid math grid bound = bound_at math grid bound.tick ≡ ok (some bound)

bound_at-tick :
    (math : DecimalMath) (grid : Grid) (tick : ℤ)
    → Ensures (bound_at math grid tick) (OptionHas (λ bound. bound.tick ≡ tick))
unfolding bound_at
bound_at-tick math grid tick =
    Ensures-bind
      (human_price_from_raw_tick math tick grid.stock_is_token0 grid.stock_decimals
        grid.quote_decimals)
      _ _
      (λ price _.
        Ensures-bind (real_distance price grid.pool_price_usdc) _ _ (λ distance _. ground arith))

bound_at-OnGrid :
    (math : DecimalMath) (grid : Grid) (tick : ℤ) (found : Option AlignedBound)
    → bound_at math grid tick ≡ ok found
    → OptionHas (λ bound. (bound.tick ≡ tick) × OnGrid math grid bound) found
bound_at-OnGrid math grid tick none e = tt
bound_at-OnGrid math grid tick (some bound) e =
    let same : bound.tick ≡ tick = Ensures-ok _ _ e (bound_at-tick math grid tick) in
    (same, ap (bound_at math grid) same ∙ e)

-- The bounds below and above the anchor.
abbrev pub LiesBelow : DecimalMath → Grid → ℤ → AlignedBound → Type 0
LiesBelow math grid anchor bound = OnGrid math grid bound × (bound.tick <ℤ anchor)

abbrev pub LiesAbove : DecimalMath → Grid → ℤ → AlignedBound → Type 0
LiesAbove math grid anchor bound = OnGrid math grid bound × (anchor <ℤ bound.tick)

module _ (math : DecimalMath) (grid : Grid) (anchor : ℤ) (spaced : 0 < grid.tick_spacing) where
  found_below :
      (step : ℕ) (found : Option AlignedBound)
      → 0 < step
      → bound_at math grid (anchor -ℤ pos (step * grid.tick_spacing)) ≡ ok found
      → OptionHas (LiesBelow math grid anchor) found
  found_below step none _ e = tt
  found_below step (some bound) positive e =
      let (same, on_grid) = bound_at-OnGrid math grid _ (some bound) e in
      let moved : 0 < step * grid.tick_spacing = grind arith in
      (on_grid, rw same (omega (int_laws)))

  found_above :
      (step : ℕ) (found : Option AlignedBound)
      → 0 < step
      → bound_at math grid (anchor +ℤ pos (step * grid.tick_spacing)) ≡ ok found
      → OptionHas (LiesAbove math grid anchor) found
  found_above step none _ e = tt
  found_above step (some bound) positive e =
      let (same, on_grid) = bound_at-OnGrid math grid _ (some bound) e in
      let moved : 0 < step * grid.tick_spacing = grind arith in
      (on_grid, rw same (omega (int_laws)))

  pub walk_outward-Lies :
      (count step : ℕ)
      → 0 < step
      → Ensures (walk_outward count step math grid anchor) (λ bounds.
        AllOf (LiesBelow math grid anchor) bounds.0 × AllOf (LiesAbove math grid anchor) bounds.1)
  unfolding walk_outward
  walk_outward-Lies zero step positive = (tt, tt)
  walk_outward-Lies (suc count) step positive =
      Ensures-bind (bound_at math grid (anchor -ℤ pos (step * grid.tick_spacing))) _ _
        (λ lower is_lower.
          Ensures-bind (bound_at math grid (anchor +ℤ pos (step * grid.tick_spacing))) _ _
            (λ upper is_upper.
              Ensures-bind (walk_outward count (step + 1) math grid anchor) _ _ (λ rest is_rest.
                let (below, above) =
                  Ensures-ok _ _ is_rest (walk_outward-Lies count (step + 1) (omega arith)) in
                (
                  with_found-AllOf (LiesBelow math grid anchor) lower rest.0
                      (found_below step lower positive is_lower) below,
                  with_found-AllOf (LiesAbove math grid anchor) upper rest.1
                      (found_above step upper positive is_upper) above,
                ))))
