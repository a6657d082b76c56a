-- ===== src/History/Boundary.antt =====
-- What the block search of src/aero_bot/history.py finds, and that its probes suffice.
use aero_bot.Prelude.{
  ℕ, zero, suc, ◌+◌, ◌-◌, ◌^◌, ◌<◌, ◌≤◌, true, false, ltb, ◌≡◌, ap, sym, subst, arith, ◌⊎◌, inl,
  inr, Bool-cases, ◌∙◌,
}
use aero_bot.Prelude.Int.{leb_ℤ, ◌≤ℤ◌, ◌<ℤ◌}
use aero_bot.Prelude.Results.{Result, ok, err, Error, ok-injective}
use aero_bot.Ranging.Types.{Instant}
use aero_bot.History.Search.{probe_between, first_block_at_or_after, middle_block}

ok_is_not_raised : (n : ℕ) → ¬ (ok n ≡ err Error.history_unavailable_error)
ok_is_not_raised n e = cc

module _ (header_timestamp : ℕ → Result Instant) (timestamp : ℕ → Instant)
    (reads : (block : ℕ) → header_timestamp block ≡ ok (timestamp block)) (target : Instant) where
  -- The steps of the loop.
  probe_between-closed :
      (left low high : ℕ)
      → ltb low high ≡ false
      → probe_between left header_timestamp target low high ≡ ok low
  unfolding probe_between
  probe_between-closed zero low high closed = ground arith
  probe_between-closed (suc left) low high closed = ground arith

  probe_between-lower :
      (left low high : ℕ)
      → ltb low high ≡ true
      → leb_ℤ target (timestamp (middle_block low high)) ≡ true
      → probe_between (suc left) header_timestamp target low high
        ≡ probe_between left header_timestamp target low (middle_block low high)
  unfolding probe_between
  probe_between-lower left low high unsettled reached =
      ground (arith, reads (middle_block low high))

  probe_between-upper :
      (left low high : ℕ)
      → ltb low high ≡ true
      → leb_ℤ target (timestamp (middle_block low high)) ≡ false
      → probe_between (suc left) header_timestamp target low high
        ≡ probe_between left header_timestamp target (middle_block low high + 1) high
  unfolding probe_between
  probe_between-upper left low high unsettled missed = ground (arith, reads (middle_block low high))

  probe_between-spent :
      (low high : ℕ)
      → ltb low high ≡ true
      → probe_between 0 header_timestamp target low high ≡ err Error.history_unavailable_error
  unfolding probe_between
  probe_between-spent low high unsettled = ground arith

  missed_before :
      (monotone : (a b : ℕ) → a ≤ b → timestamp a ≤ℤ timestamp b)
      → (block middle : ℕ) → block ≤ middle
      → leb_ℤ target (timestamp middle) ≡ false
      → timestamp block <ℤ target
  missed_before monotone block middle before missed =
      let order = monotone block middle before in ground arith

  -- Enough probes find a block of the interval that reaches the target, or the interval's end.
  probe_between-found :
      (left low high : ℕ)
      → low ≤ high
      → high - low < 2 ^ left
      → (found : ℕ) × (probe_between left header_timestamp target low high ≡ ok found)
        × (low ≤ found)
        × (found ≤ high)
        × ((found ≡ high) ⊎ (target ≤ℤ timestamp found))
  probe_between-found zero low high ordered near =
      let closed : ltb low high ≡ false = ground arith in
      (low, probe_between-closed zero low high closed, omega arith, ordered, inl (omega arith))
  probe_between-found (suc left) low high ordered near = elim (Bool-cases (ltb low high)) [
    | inr closed ↦ (
      low,
      probe_between-closed (suc left) low high closed,
      omega arith,
      ordered,
      inl (ground arith),
    )
    | inl unsettled ↦ elim (Bool-cases (leb_ℤ target (timestamp (middle_block low high)))) [
      | inl reached ↦
          let (found, run, above, below, stops) =
            probe_between-found left low (middle_block low high) (ground arith) (ground arith) in
          (
            found,
            probe_between-lower left low high unsettled reached ∙ run,
            above,
            ground arith,
            ground (arith, ap timestamp),
          )
      | inr missed ↦
          let (found, run, above, below, stops) =
            probe_between-found left (middle_block low high + 1) high (ground arith)
              (ground arith) in
          (
            found,
            probe_between-upper left low high unsettled missed ∙ run,
            ground arith,
            below,
            stops,
          )
    ]
  ]

  -- A block before the one found misses the target, if it does below the interval.
  before_found :
      (monotone : (a b : ℕ) → a ≤ b → timestamp a ≤ℤ timestamp b)
      → (left low high found block : ℕ) → (block < low → timestamp block <ℤ target)
      → probe_between left header_timestamp target low high ≡ ok found
      → block < found
      → timestamp block <ℤ target
  before_found monotone zero low high found block earlier run before =
      elim (Bool-cases (ltb low high)) [
        | inr closed ↦ earlier (
            subst (λ n. block < n)
              (sym (ok-injective (sym (probe_between-closed zero low high closed) ∙ run))) before)
        | inl unsettled ↦
            absurd (ok_is_not_raised found (sym run ∙ probe_between-spent low high unsettled))
      ]
  before_found monotone (suc left) low high found block earlier run before =
      elim (Bool-cases (ltb low high)) [
        | inr closed ↦ earlier (
            subst (λ n. block < n)
              (sym (ok-injective (sym (probe_between-closed (suc left) low high closed) ∙ run)))
              before)
        | inl unsettled ↦ elim (Bool-cases (leb_ℤ target (timestamp (middle_block low high)))) [
          | inl reached ↦
              before_found monotone left low (middle_block low high) found block earlier
                (sym (probe_between-lower left low high unsettled reached) ∙ run) before
          | inr missed ↦
              before_found monotone left (middle_block low high + 1) high found block
                (λ lower. missed_before monotone block (middle_block low high) (omega arith) missed)
                (sym (probe_between-upper left low high unsettled missed) ∙ run) before
        ]
      ]

-- If every header can be read, the search returns: 128 probes are enough for every head below
-- 2 ^ 128, in whatever order the timestamps stand. What it returns is at most the head, and it is
-- the head or a block that reaches the target.
pub first_block_at_or_after-found :
    (header_timestamp : ℕ → Result Instant) (timestamp : ℕ → Instant) (target : Instant)
    (head_block : ℕ)
    → ((block : ℕ) → header_timestamp block ≡ ok (timestamp block))
    → head_block < 2 ^ 128
    → (found : ℕ) × (first_block_at_or_after header_timestamp target head_block ≡ ok found)
      × (found ≤ head_block)
      × ((found ≡ head_block) ⊎ (target ≤ℤ timestamp found))
unfolding first_block_at_or_after
first_block_at_or_after-found header_timestamp timestamp target head_block reads near =
    let (found, run, _, below, stops) =
      probe_between-found header_timestamp timestamp reads target 128 0 head_block (omega arith)
        (omega arith) in
    (found, run, below, stops)

-- If every header can be read and no timestamp falls from one block to a later one, then every
-- block before the one that the search returns lies before the target.
pub first_block_at_or_after-least :
    (header_timestamp : ℕ → Result Instant) (timestamp : ℕ → Instant) (target : Instant)
    (head_block found block : ℕ)
    → ((number : ℕ) → header_timestamp number ≡ ok (timestamp number))
    → ((a b : ℕ) → a ≤ b → timestamp a ≤ℤ timestamp b)
    → first_block_at_or_after header_timestamp target head_block ≡ ok found
    → block < found
    → timestamp block <ℤ target
unfolding first_block_at_or_after
first_block_at_or_after-least header_timestamp timestamp target head_block found block reads
      monotone run before =
    before_found header_timestamp timestamp reads target monotone 128 0 head_block found block
      (λ none_lower. absurd (omega arith)) run before
