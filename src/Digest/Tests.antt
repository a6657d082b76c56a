-- ===== src/Digest/Tests.antt =====
-- Runs of the digest admission of src/aero_bot/digest_admission.py.
use aero_bot.Prelude.{◌≡◌, ◌↔◌, ◌⊎◌, refl, true, false, [], ◌∷◌, List, arith}
use aero_bot.Prelude.Int.{pos, ◌+ℤ◌}
use aero_bot.Prelude.Results.{Returns}
use aero_bot.Ranging.Types.{Instant}
use aero_bot.Digest.Admission.{SendOutcome, missing, write_state, claim_send_admission}
use aero_bot.Digest.Window.{
  Operation, claim, settle, run, AllRefused, Reserves, WithinWindow, IsOpen, admission_at,
  admission-AllRefused, claim_send_admission-admitted_iff, late_settlement-reopens,
}

-- An hour, in microseconds.
abbrev hour : Instant
hour = pos 3_600_000_000

abbrev day_later : Instant
day_later = pos 90_000_000_000

abbrev operations : List Operation
operations = settle hour SendOutcome.accepted ∷ claim (pos 80_000_000_000) ∷ []

within : WithinWindow hour operations
unfolding ◌+ℤ◌
within = (refl, refl, (ground arith, tt))

admission-AllRefused_example :
    Returns
      (run (write_state hour SendOutcome.ambiguous) operations)
      (λ result. AllRefused result.0 × Reserves hour result.1)
unfolding claim_send_admission
admission-AllRefused_example =
    admission-AllRefused missing (write_state hour SendOutcome.ambiguous) hour (admission_at hour)
      operations refl refl within

claim_send_admission-admitted_iff_example :
    Returns (claim_send_admission (write_state hour SendOutcome.accepted) day_later) (λ result.
      ((result.0.admitted ≡ true) ↔ IsOpen (write_state hour SendOutcome.accepted) day_later)
      × (((result.0.admitted ≡ true) × (result.1 ≡ write_state day_later SendOutcome.ambiguous))
          ⊎ ((result.0.admitted ≡ false) × (result.1 ≡ write_state hour SendOutcome.accepted))))
claim_send_admission-admitted_iff_example =
    claim_send_admission-admitted_iff (write_state hour SendOutcome.accepted) day_later (λ e. cc)

late_settlement-reopens_example :
    Returns
      (run missing (claim day_later ∷ settle hour SendOutcome.accepted ∷ claim day_later ∷ []))
      (λ result. result.0 ≡ admission_at day_later ∷ admission_at day_later ∷ [])
unfolding ◌+ℤ◌
late_settlement-reopens_example =
    late_settlement-reopens missing hour day_later day_later SendOutcome.accepted tt (ground arith)
      (ground arith)
