-- ===== src/Audit/Append.antt =====
-- What `append` of src/aero_bot/audit.py keeps.
use aero_bot.Prelude.{
  ◌+◌, false, some, List, [], ◌∷◌, ◌++◌, ◌≡◌, inl, inr, length, Bool-cases, ap, ◌∙◌,
}
use aero_bot.Prelude.Int.{ℤ, pos, ◌-ℤ◌}
use aero_bot.Prelude.Results.{err, Error, raise_if, integrity_error, ◌>>◌}
use aero_bot.Audit.Text.{Text}
use aero_bot.Audit.Json.{Json, DateTime, Stdlib, has_sensitive_field}
use aero_bot.Audit.Events.{AuditEventType}
use aero_bot.Audit.Store.{
  canonical, genesis_hash, Row, verification_from_rows, is_corrupt, AuditRecord, append,
}
use aero_bot.Audit.Chain.{IsChain, verification_from_rows-IsChain_iff}
use aero_bot.Audit.Writer.{append-durable, durable, append_durable-unfolded}

-- What `append` gives back, and what it leaves in the table.
pub record Appends (stdlib : Stdlib) (rows : List Row) (event_type : AuditEventType)
    (payload : Json) (instant : ℤ) (result : AuditRecord × List Row) : Type 0 where
  pub row : Row
  pub kept : result.1 ≡ rows ++ row ∷ []
  pub numbered : result.0.sequence ≡ 1 + length rows
  pub same_number : row.sequence ≡ result.0.sequence
  pub typed : result.0.event_type ≡ event_type
  pub timed : result.0.created_at ≡ (record { local = instant; utc_offset = some (pos 0) })
  pub carries : stdlib.loads result.0.payload_json ≡ some payload
  pub same_digest : row.record_hash ≡ result.0.record_hash
  pub verifies : IsChain stdlib 1 genesis_hash result.1

-- On a table that does not verify, an append of an aware time and of a payload with no sensitive
-- name raises `AuditIntegrityError`, so that no row is added to corrupt history.
pub append-err :
    (stdlib : Stdlib) (rows : List Row) (event_type : AuditEventType) (payload : Json)
    (created_at : DateTime) (offset : ℤ)
    → ¬ (IsChain stdlib 1 genesis_hash rows)
    → has_sensitive_field stdlib payload ≡ false
    → created_at.utc_offset ≡ some offset
    → append stdlib rows event_type payload created_at ≡ err integrity_error
append-err stdlib rows event_type payload created_at offset broken harmless aware =
    let time = stdlib.isoformat (created_at.local -ℤ offset) in
    let json = stdlib.dumps canonical payload in
    elim (Bool-cases (is_corrupt (verification_from_rows stdlib rows).status)) [
      | inl e ↦
          append-durable stdlib payload created_at offset harmless aware rows event_type
          ∙ append_durable-unfolded stdlib rows event_type time json
          ∙ ap (λ b. raise_if b Error.integrity_error >> durable stdlib rows event_type time json) e
      | inr e ↦ absurd (broken ((verification_from_rows-IsChain_iff stdlib rows).0 e))
    ]
