-- ===== src/Digest/Window.antt =====
-- The rolling window of src/aero_bot/digest_admission.py over sequences of claims and settlements.
use aero_bot.Prelude.{true, false, some, ◌≡◌, ◌≢◌, arith, List, [], ◌∷◌, ◌⊎◌, ◌↔◌}
use aero_bot.Prelude.Int.{◌+ℤ◌, ◌<ℤ◌, ◌≤ℤ◌}
use aero_bot.Prelude.Results.{Result, ok, Returns, ◌>>=◌}
use aero_bot.Ranging.Types.{Instant}
use aero_bot.Digest.Admission.{
  SendOutcome, MarkerFile, missing, unreadable, written, SendAdmission, digest_send_interval,
  claim_send_admission, record_send_outcome, is_rejected, write_state,
}

-- What callers do with the marker: claim the window at an instant, or settle a claim's outcome.
pub data Operation : Type 0 where
  claim : Instant → Operation
  settle : Instant → SendOutcome → Operation

-- The admissions of a sequence of operations, in order, and the file that it leaves.
unfoldable pub run : MarkerFile → List Operation → Result (List SendAdmission × MarkerFile)
run file [] = ok ([], file)
run file (claim now ∷ rest) = do
  (admission, next) ← claim_send_admission file now
  (admissions, last) ← run next rest
  ok (admission ∷ admissions, last)
run file (settle attempt_at outcome ∷ rest) = do
  next ← record_send_outcome file attempt_at (some outcome)
  run next rest

abbrev pub AllRefused : List SendAdmission → Type 0
AllRefused [] = Unit
AllRefused (admission ∷ admissions) = (admission.admitted ≡ false) × AllRefused admissions

-- Claims before the window of `at` closes, and settlements of that claim as sent or unknown.
abbrev pub WithinWindow : Instant → List Operation → Type 0
WithinWindow at [] = Unit
WithinWindow at (claim now ∷ rest) = (now <ℤ at +ℤ digest_send_interval) × WithinWindow at rest
WithinWindow at (settle attempt_at outcome ∷ rest) =
    (attempt_at ≡ at) × (is_rejected outcome ≡ false) × WithinWindow at rest

-- The marker reserves the window of `at`.
abbrev pub Reserves : Instant → MarkerFile → Type 0
Reserves at missing = ⊥
Reserves at unreadable = ⊥
Reserves at (written marker) = (marker.attempt_at ≡ at) × (is_rejected marker.outcome ≡ false)

reserved-AllRefused :
    (at : Instant) (file : MarkerFile) (operations : List Operation)
    → Reserves at file
    → WithinWindow at operations
    → Returns (run file operations) (λ result. AllRefused result.0 × Reserves at result.1)
unfolding run claim_send_admission record_send_outcome
reserved-AllRefused at file [] reserved within = (tt, reserved)
reserved-AllRefused at missing (_ ∷ _) reserved within = absurd reserved
reserved-AllRefused at unreadable (_ ∷ _) reserved within = absurd reserved
reserved-AllRefused at (written marker) (claim now ∷ rest) reserved within =
    let again = reserved-AllRefused at (written marker) rest reserved within.1 in ground arith
reserved-AllRefused at (written marker) (settle attempt_at outcome ∷ rest) reserved within =
    reserved-AllRefused at (write_state attempt_at outcome) rest (within.0, within.1) within.2

-- After an admitted claim, whatever claims are made before 24 hours have passed, and however often
-- the claim is settled as accepted or ambiguous in between, every one of them is refused and none
-- raises; the file still reserves the window of the admitted claim. This includes a process that
-- stops between its claim and its settlement.
pub admission-AllRefused :
    (file next : MarkerFile) (now : Instant) (admission : SendAdmission)
    (operations : List Operation)
    → claim_send_admission file now ≡ ok (admission, next)
    → admission.admitted ≡ true
    → WithinWindow now operations
    → Returns (run next operations) (λ result. AllRefused result.0 × Reserves now result.1)
unfolding claim_send_admission
admission-AllRefused file next now admission operations claimed admitted within =
    reserved-AllRefused now next operations (reserves file claimed admitted) within
  where
    reserves :
        (file : MarkerFile)
        → claim_send_admission file now ≡ ok (admission, next)
        → admission.admitted ≡ true
        → Reserves now next
    reserves file claimed admitted = ground arith

-- What opens the window: no marker, a rejected one, or one whose 24 hours have passed.
abbrev pub IsOpen : MarkerFile → Instant → Type 0
IsOpen missing now = Unit
IsOpen unreadable now = ⊥
IsOpen (written marker) now =
    (marker.outcome ≡ SendOutcome.rejected) ⊎ (marker.attempt_at +ℤ digest_send_interval ≤ℤ now)

-- A claim on a file that can be read returns; it is admitted exactly if the window is open, and it
-- then reserves the window from its own instant; a refused claim leaves the file as it was.
pub claim_send_admission-admitted_iff :
    (file : MarkerFile) (now : Instant)
    → file ≢ unreadable
    → Returns (claim_send_admission file now) (λ result.
      ((result.0.admitted ≡ true) ↔ IsOpen file now)
      × (((result.0.admitted ≡ true) × (result.1 ≡ write_state now SendOutcome.ambiguous))
          ⊎ ((result.0.admitted ≡ false) × (result.1 ≡ file))))
unfolding claim_send_admission
claim_send_admission-admitted_iff file now readable = ground arith

abbrev pub admission_at : Instant → SendAdmission
admission_at now = record { admitted = true; attempt_at = now }

-- A settlement that comes late reopens a window that a later claim reserved: when the first claim's
-- 24 hours have passed and a second claim finds the window open, settling the first one, with any
-- outcome, lets a third claim be admitted in the window of the second.
pub late_settlement-reopens :
    (file : MarkerFile) (first second third : Instant) (outcome : SendOutcome)
    → IsOpen file second
    → first +ℤ digest_send_interval ≤ℤ second
    → second ≤ℤ third
    → Returns
        (run file (claim second ∷ settle first outcome ∷ claim third ∷ []))
        (λ result. result.0 ≡ admission_at second ∷ admission_at third ∷ [])
unfolding run record_send_outcome claim_send_admission
late_settlement-reopens file first second third outcome opened late ordered = ground arith
