-- ===== src/Digest/Admission.antt =====
-- `claim_send_admission` and `record_send_outcome` of src/aero_bot/digest_admission.py, on the
-- contents of the marker file. Each runs under the exclusive lock of the file, so that operations
-- are a sequence. The text of a refusal is left out.
use aero_bot.Prelude.{Bool, true, false, Option, none, some, if◌then◌else◌}
use aero_bot.Prelude.Int.{pos, ◌+ℤ◌, ltb_ℤ}
use aero_bot.Prelude.Results.{Result, ok, err, state_error, value_error, ◌>>=◌}
use aero_bot.Ranging.Types.{Instant, Span}

pub data SendOutcome : Type 0 where
  ambiguous accepted rejected : SendOutcome

-- The document of a marker that parses.
pub record Marker : Type 0 where
  pub attempt_at : Instant
  pub outcome : SendOutcome

-- The marker's file: none, one that `_parse_state` refuses, or a marker.
pub data MarkerFile : Type 0 where
  missing unreadable : MarkerFile
  written : Marker → MarkerFile

pub record SendAdmission : Type 0 where
  pub admitted : Bool
  pub attempt_at : Instant

-- `DIGEST_SEND_INTERVAL`
abbrev pub digest_send_interval : Span
digest_send_interval = pos 86_400_000_000

-- `_read_state`
abbrev pub read_state : MarkerFile → Result (Option Marker)
read_state missing = ok none
read_state unreadable = err state_error
read_state (written marker) = ok (some marker)

abbrev pub write_state : Instant → SendOutcome → MarkerFile
write_state attempt_at outcome = written (record { attempt_at = attempt_at; outcome = outcome })

abbrev pub is_rejected : SendOutcome → Bool
is_rejected SendOutcome.ambiguous = false
is_rejected SendOutcome.accepted = false
is_rejected SendOutcome.rejected = true

-- The reservation that stands at an instant, if one does.
abbrev pub standing : Option Marker → Instant → Option Instant
standing none now = none
standing (some marker) now =
    if is_rejected marker.outcome
    then none
    else if ltb_ℤ now (marker.attempt_at +ℤ digest_send_interval)
    then some marker.attempt_at
    else none

unfoldable pub claim_send_admission : MarkerFile → Instant → Result (SendAdmission × MarkerFile)
claim_send_admission file now = do
  state ← read_state file
  elim (standing state now) [
    | some attempt_at ↦ ok (record { admitted = false; attempt_at = attempt_at }, file)
    | none ↦
        ok (record { admitted = true; attempt_at = now }, write_state now SendOutcome.ambiguous)
  ]

-- An outcome that is none of the three constants is `none`. The file is written, not read.
unfoldable pub record_send_outcome : MarkerFile → Instant → Option SendOutcome → Result MarkerFile
record_send_outcome file attempt_at outcome = elim outcome [
  | none ↦ err value_error
  | some outcome ↦ ok (write_state attempt_at outcome)
]
