-- ===== src/Decimal/Order.antt =====
-- The order of decimals: `<` is a strict weak order whatever the exponents are.
use aero_bot.Prelude.{
  ℕ, zero, suc, ◌+◌, ◌*◌, ◌^◌, ◌≤◌, ◌<◌, ◌≡◌, inl, inr, ◌↔◌, true, false, arith, ltb→lt, lt→ltb,
  Bool-cases, ◌∙◌, sym,
}
use mathlib.Core.Bool.{false≢true}
use native.Mathlib.Nat.{add-zero, add-suc, pow-suc}
use aero_bot.Prelude.Int.{ℤ, ◌-ℤ◌, ◌≤ℤ◌, min_ℤ}
use aero_bot.Decimal.{Decimal, gap, upper_part, lower_part, common_exponent, lt, le}

pow-add_ten : (j k : ℕ) → 10 ^ (j + k) ≡ 10 ^ j * 10 ^ k
pow-add_ten j zero = rw add-zero (omega arith)
pow-add_ten j (suc k) = rw (add-suc, pow-suc, pow-suc, pow-add_ten j k) (omega arith)

pos_pow : (k : ℕ) → 0 < 10 ^ k
pos_pow zero = omega arith
pos_pow (suc k) = rw pow-suc (omega (arith, pos_pow k))

gap-split : (e m n : ℤ) → m ≤ℤ e → n ≤ℤ m → gap e n ≡ gap e m + gap m n
unfolding gap ◌-ℤ◌
gap-split e m n h k = ground arith

module _ (a : Decimal) (m n : ℤ) (below : m ≤ℤ a.exponent) (lower : n ≤ℤ m) where
  upper_part-lift : upper_part a n ≡ upper_part a m * 10 ^ gap m n
  unfolding upper_part
  upper_part-lift = rw (gap-split a.exponent m n below lower, pow-add_ten) (omega arith)

  lower_part-lift : lower_part a n ≡ lower_part a m * 10 ^ gap m n
  unfolding lower_part
  lower_part-lift = rw (gap-split a.exponent m n below lower, pow-add_ten) (omega arith)

-- `a < b` read at the exponent `n`.
abbrev IsLess : Decimal → Decimal → ℤ → Type 0
IsLess a b n = upper_part a n + lower_part b n < upper_part b n + lower_part a n

lt_iff_scaled : (x y c : ℕ) → 0 < c → (x < y) ↔ (x * c < y * c)
lt_iff_scaled x y c h = ((λ p. grind arith), (λ p. grind arith))

module _ (a b : Decimal) (n : ℤ) (under_a : n ≤ℤ a.exponent) (under_b : n ≤ℤ b.exponent) where
  common_exponent_bounds :
      (common_exponent a b ≤ℤ a.exponent)
      × (common_exponent a b ≤ℤ b.exponent)
      × (n ≤ℤ common_exponent a b)
  common_exponent_bounds = ground arith

  -- The comparison may be made at any exponent that both values can be written with.
  lt_iff_IsLess : (lt a b ≡ true) ↔ IsLess a b n
  unfolding lt
  lt_iff_IsLess =
      let m = common_exponent a b in
      let c = 10 ^ gap m n in
      let (at_a, at_b, below) = common_exponent_bounds in
      let scaled =
        lt_iff_scaled (upper_part a m + lower_part b m) (upper_part b m + lower_part a m) c
          (pos_pow (gap m n)) in
      let lifts : (upper_part a n + lower_part b n ≡ (upper_part a m + lower_part b m) * c)
          × (upper_part b n + lower_part a n ≡ (upper_part b m + lower_part a m) * c) =
        (
          omega (arith, upper_part-lift a m n at_a below, lower_part-lift b m n at_b below),
          omega (arith, upper_part-lift b m n at_b below, lower_part-lift a m n at_a below),
        ) in
      (
        (λ h. rw (lifts.0, lifts.1) (scaled.0 (ltb→lt _ _ h))),
        (λ h. lt→ltb _ _ (scaled.1 (rw (lifts.0, lifts.1) at h))),
      )

-- `a <= b` read at the exponent `n`.
abbrev IsAtMost : Decimal → Decimal → ℤ → Type 0
IsAtMost a b n = upper_part a n + lower_part b n ≤ upper_part b n + lower_part a n

module _ (a b : Decimal) (n : ℤ) (under_a : n ≤ℤ a.exponent) (under_b : n ≤ℤ b.exponent) where
  le_iff_IsAtMost : (le a b ≡ true) ↔ IsAtMost a b n
  le_iff_IsAtMost =
      let (less, less_back) = lt_iff_IsLess b a n under_b under_a in
      elim (Bool-cases (lt b a)) [
        | inl above ↦
            (λ h. absurd (false≢true (rw above at h)), λ h. absurd (omega (arith, less above)))
        | inr not_above ↦
            let not_less : ¬ (IsLess b a n) = λ p. false≢true (sym not_above ∙ less_back p) in
            (λ h. omega (arith, not_less), λ h. rw not_above)
      ]

pub lt_irrefl : (a : Decimal) → lt a a ≡ false
unfolding lt
lt_irrefl a = ground arith

abbrev lowest : Decimal → Decimal → Decimal → ℤ
lowest a b c = min_ℤ a.exponent (min_ℤ b.exponent c.exponent)

module _ (a b c : Decimal) where
  lowest_bounds :
      (lowest a b c ≤ℤ a.exponent) × (lowest a b c ≤ℤ b.exponent) × (lowest a b c ≤ℤ c.exponent)
  lowest_bounds = ground arith

  pub lt_trans : lt a b ≡ true → lt b c ≡ true → lt a c ≡ true
  lt_trans h k =
      let (x, y, z) = lowest_bounds in
      (lt_iff_IsLess a c _ x z).1
        (omega (arith, (lt_iff_IsLess a b _ x y).0 h, (lt_iff_IsLess b c _ y z).0 k))

  pub le_trans : le a b ≡ true → le b c ≡ true → le a c ≡ true
  le_trans h k =
      let (x, y, z) = lowest_bounds in
      (le_iff_IsAtMost a c _ x z).1
        (omega (arith, (le_iff_IsAtMost a b _ x y).0 h, (le_iff_IsAtMost b c _ y z).0 k))

  pub lt-le_trans : lt a b ≡ true → le b c ≡ true → lt a c ≡ true
  lt-le_trans h k =
      let (x, y, z) = lowest_bounds in
      (lt_iff_IsLess a c _ x z).1
        (omega (arith, (lt_iff_IsLess a b _ x y).0 h, (le_iff_IsAtMost b c _ y z).0 k))

  pub le-lt_trans : le a b ≡ true → lt b c ≡ true → lt a c ≡ true
  le-lt_trans h k =
      let (x, y, z) = lowest_bounds in
      (lt_iff_IsLess a c _ x z).1
        (omega (arith, (le_iff_IsAtMost a b _ x y).0 h, (lt_iff_IsLess b c _ y z).0 k))

pub le_refl : (a : Decimal) → le a a ≡ true
le_refl a = rw (lt_irrefl a)

pub lt-asymm : (a b : Decimal) → lt a b ≡ true → lt b a ≡ false
lt-asymm a b h = elim (Bool-cases (lt b a)) [
  | inl back ↦ absurd (false≢true (sym (lt_irrefl a) ∙ lt_trans a b a h back))
  | inr none_back ↦ none_back
]

pub le_of_lt : (a b : Decimal) → lt a b ≡ true → le a b ≡ true
le_of_lt a b h = rw (lt-asymm a b h)

pub le_of_not_lt : (a b : Decimal) → lt a b ≡ false → le b a ≡ true
le_of_not_lt a b h = rw h
