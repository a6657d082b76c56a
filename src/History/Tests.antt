-- ===== src/History/Tests.antt =====
-- Runs of the block search of src/aero_bot/history.py on a chain with a block every two seconds.
use aero_bot.Prelude.{ℕ, ◌*◌, ◌≤◌, ◌≡◌, refl, arith, ◌⊎◌}
use aero_bot.Prelude.Int.{pos, ◌≤ℤ◌, ◌<ℤ◌}
use aero_bot.Prelude.Results.{Result, ok}
use aero_bot.Ranging.Types.{Instant}
use aero_bot.History.Search.{first_block_at_or_after, probe_between}
use aero_bot.History.Boundary.{first_block_at_or_after-found, first_block_at_or_after-least}

abbrev timestamp : ℕ → Instant
timestamp block = pos (block * 2_000_000)

abbrev header_timestamp : ℕ → Result Instant
header_timestamp block = ok (timestamp block)

run_to_nine_seconds : first_block_at_or_after header_timestamp (pos 9_000_000) 100 ≡ ok 5
unfolding first_block_at_or_after probe_between
run_to_nine_seconds = refl

first_block_at_or_after-found_example :
    (found : ℕ) × (first_block_at_or_after header_timestamp (pos 9_000_000) 100 ≡ ok found)
    × (found ≤ 100)
    × ((found ≡ 100) ⊎ (pos 9_000_000 ≤ℤ timestamp found))
first_block_at_or_after-found_example =
    first_block_at_or_after-found header_timestamp timestamp (pos 9_000_000) 100 (λ block. refl)
      (omega arith)

first_block_at_or_after-least_example : timestamp 4 <ℤ pos 9_000_000
first_block_at_or_after-least_example =
    first_block_at_or_after-least header_timestamp timestamp (pos 9_000_000) 100 5 4 (λ block. refl)
      (λ a b h. omega arith) run_to_nine_seconds (omega arith)
