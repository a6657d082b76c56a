-- ===== src/History/Search.antt =====
-- `_first_block_at_or_after` of src/aero_bot/history.py. The read of a block's header, with its
-- cache and the network behind it, is a parameter.
use aero_bot.Prelude.{ℕ, zero, suc, ◌+◌, ◌/◌, true, false, ltb}
use aero_bot.Prelude.Int.{leb_ℤ}
use aero_bot.Prelude.Results.{Result, ok, err, Error, ◌>>=◌}
use aero_bot.Ranging.Types.{Instant}

abbrev pub max_binary_search_probes : ℕ
max_binary_search_probes = 128

abbrev pub middle_block : ℕ → ℕ → ℕ
middle_block low high = (low + high) / 2

-- The loop from `low` to `high`, with so many probes left.
unfoldable pub probe_between :
    (probes_left : ℕ) → (ℕ → Result Instant) → Instant → (low high : ℕ) → Result ℕ
probe_between zero header_timestamp target low high = elim (ltb low high) [
  | false ↦ ok low
  | true ↦ err Error.history_unavailable_error
]
probe_between (suc left) header_timestamp target low high = elim (ltb low high) [
  | false ↦ ok low
  | true ↦ header_timestamp (middle_block low high) >>= λ timestamp. elim (leb_ℤ target timestamp) [
    | true ↦ probe_between left header_timestamp target low (middle_block low high)
    | false ↦ probe_between left header_timestamp target (middle_block low high + 1) high
  ]
]

unfoldable pub first_block_at_or_after :
    (ℕ → Result Instant) → (target_timestamp : Instant) (head_block : ℕ) → Result ℕ
first_block_at_or_after header_timestamp target_timestamp head_block =
    probe_between max_binary_search_probes header_timestamp target_timestamp 0 head_block
