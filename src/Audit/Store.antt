-- ===== src/Audit/Store.antt =====
-- `AuditStore` of src/aero_bot/audit.py on the rows of its table: `_verification_from_rows` and
-- `append`. A writer holds the lock of the database for its whole transaction. That a digest is
-- no other row's, the table checks itself.
use aero_bot.Prelude.{
  ℕ, suc, ◌+◌, Bool, true, false, not, ◌&&◌, ◌||◌, Option, none, some, List, [], ◌∷◌, ◌++◌, ◌==◌,
  leb, if◌then◌else◌, is_none, length,
}
use aero_bot.Prelude.Int.{pos, ◌-ℤ◌}
use aero_bot.Prelude.Results.{Result, ok, err, Error, or_raise, raise_if, ◌>>=◌, ◌>>◌}
use aero_bot.Audit.Text.{Text, codes, same_text}
use aero_bot.Audit.Json.{Json, Fields, DateTime, DumpOptions, Stdlib, has_sensitive_field}
use aero_bot.Audit.Events.{AuditEventType, value, event_type_of}

pub record Row : Type 0 where
  pub sequence : ℕ
  pub created_at : Text
  pub event_type : Text
  pub payload_json : Text
  pub previous_hash : Text
  pub record_hash : Text

-- `sort_keys=True, separators=(",", ":"), ensure_ascii=True`
abbrev pub canonical : DumpOptions
canonical = record { sort_keys = true; compact_separators = true; ensure_ascii = true }

-- `GENESIS_HASH`
abbrev pub genesis_hash : Text
genesis_hash = codes "0000000000000000000000000000000000000000000000000000000000000000"

-- `_normalize_datetime`
unfoldable pub normalize_datetime : Stdlib → DateTime → Result Text
normalize_datetime stdlib value = elim value.utc_offset [
  | none ↦ err Error.value_error
  | some offset ↦ ok (stdlib.isoformat (value.local -ℤ offset))
]

-- `_canonical_payload` of the object that `model_dump` gives.
unfoldable pub canonical_payload : Stdlib → Json → Result Text
canonical_payload stdlib payload_object =
    raise_if (has_sensitive_field stdlib payload_object) Error.value_error
    >> ok (stdlib.dumps canonical payload_object)

-- The dictionary that is hashed.
unfoldable pub record_material :
    ℕ → (created_at : Text) → AuditEventType → Json → (previous_hash : Text) → Json
record_material sequence created_at event_type payload previous_hash = Json.object (
    Fields.field (codes "created_at") (Json.string created_at) (
      Fields.field (codes "event_type") (Json.string (value event_type)) (
        Fields.field (codes "payload") payload (
          Fields.field (codes "previous_hash") (Json.string previous_hash)
            (Fields.field (codes "sequence") (Json.integer (pos sequence)) Fields.no_field)))))

-- `_calculate_hash`
unfoldable pub calculate_hash :
    Stdlib
    → ℕ
    → (created_at : Text) → AuditEventType
    → (payload_json previous_hash : Text) → Result Text
calculate_hash stdlib sequence created_at event_type payload_json previous_hash =
    or_raise (stdlib.loads payload_json) Error.value_error >>= λ payload. ok (
      stdlib.sha256 (
        stdlib.dumps canonical
          (record_material sequence created_at event_type payload previous_hash)))

-- Whether a computed text is this one.
abbrev pub spells : Result Text → Text → Bool
spells (err _) text = false
spells (ok computed) text = same_text computed text

-- `fromisoformat`, and `_normalize_datetime` of what it gives.
abbrev pub respelled_time : Stdlib → Text → Result Text
respelled_time stdlib text =
    or_raise (stdlib.fromisoformat text) Error.value_error >>= normalize_datetime stdlib

-- The checks of a row after its number, by its event type and its payload where they are legible.
unfoldable pub content_verifies :
    Stdlib → (expected_previous_hash : Text) → Row → Option AuditEventType → Option Json → Bool
content_verifies stdlib expected_previous_hash row none payload_object = false
content_verifies stdlib expected_previous_hash row (some event_type) none = false
content_verifies stdlib expected_previous_hash row (some event_type) (some payload_object) =
    not (has_sensitive_field stdlib payload_object)
    && (spells (respelled_time stdlib row.created_at) row.created_at
        && (same_text (stdlib.dumps canonical payload_object) row.payload_json
            && (same_text row.previous_hash expected_previous_hash
                && spells
                    (calculate_hash stdlib row.sequence row.created_at event_type row.payload_json
                      row.previous_hash)
                    row.record_hash)))

-- The checks of one row, at its place and after its predecessor's hash.
unfoldable pub row_verifies : Stdlib → ℕ → Text → Row → Bool
row_verifies stdlib row_index expected_previous_hash row =
    (row.sequence == row_index)
    && content_verifies stdlib expected_previous_hash row (event_type_of row.event_type)
        (stdlib.loads row.payload_json)

-- The first row that fails, by its sequence.
unfoldable pub first_bad : Stdlib → ℕ → Text → List Row → Option ℕ
first_bad stdlib row_index expected_previous_hash [] = none
first_bad stdlib row_index expected_previous_hash (row ∷ rows) =
    let later = first_bad stdlib (suc row_index) row.record_hash rows in
    if row_verifies stdlib row_index expected_previous_hash row then later else some row.sequence

pub data AuditVerificationStatus : Type 0 where
  empty verified corrupt : AuditVerificationStatus

pub record AuditVerification : Type 0 where
  pub status : AuditVerificationStatus
  pub record_count : ℕ
  pub first_bad_sequence : Option ℕ

unfoldable pub verification_from_rows : Stdlib → List Row → AuditVerification
verification_from_rows stdlib [] = record {
  status = AuditVerificationStatus.empty;
  record_count = 0;
  first_bad_sequence = none;
}
verification_from_rows stdlib (row ∷ rows) =
    let bad = first_bad stdlib 1 genesis_hash (row ∷ rows) in
    record {
      status =
          (if is_none bad
            then AuditVerificationStatus.verified
            else AuditVerificationStatus.corrupt);
      record_count = length (row ∷ rows);
      first_bad_sequence = bad;
    }

abbrev pub is_corrupt : AuditVerificationStatus → Bool
is_corrupt AuditVerificationStatus.empty = false
is_corrupt AuditVerificationStatus.verified = false
is_corrupt AuditVerificationStatus.corrupt = true

-- `existing_rows[-1] if existing_rows else None`
abbrev pub last : List Row → Option Row
last [] = none
last (row ∷ []) = some row
last (_ ∷ row ∷ rows) = last (row ∷ rows)

abbrev pub next_sequence : Option Row → ℕ
next_sequence none = 1
next_sequence (some row) = row.sequence + 1

abbrev pub predecessor_hash : Option Row → Text
predecessor_hash none = genesis_hash
predecessor_hash (some row) = row.record_hash

pub record AuditRecord : Type 0 where
  pub sequence : ℕ
  pub created_at : DateTime
  pub event_type : AuditEventType
  pub payload_json : Text
  pub previous_hash : Text
  pub record_hash : Text

-- `^[0-9a-f]{64}$`
abbrev pub are_digits : Text → Bool
are_digits [] = true
are_digits (c ∷ text) = ((leb 48 c && leb c 57) || (leb 97 c && leb c 102)) && are_digits text

unfoldable pub is_digest : Text → Bool
is_digest text = (length text == 64) && are_digits text

-- `AuditRecord(…)` of a row.
unfoldable pub audit_record : Stdlib → AuditEventType → Row → Result AuditRecord
audit_record stdlib event_type row = do
  created_at ← or_raise (stdlib.fromisoformat row.created_at) Error.value_error
  raise_if (row.sequence == 0) Error.validation_error
  raise_if (not (is_digest row.previous_hash)) Error.validation_error
  raise_if (not (is_digest row.record_hash)) Error.validation_error
  ok (record {
    sequence = row.sequence;
    created_at = created_at;
    event_type = event_type;
    payload_json = row.payload_json;
    previous_hash = row.previous_hash;
    record_hash = row.record_hash;
  })

-- The row that is linked to a predecessor.
unfoldable pub linked :
    Stdlib → Option Row → AuditEventType → (created_at payload_json : Text) → Result Row
linked stdlib predecessor event_type created_at payload_json = do
  let sequence = next_sequence predecessor
  let previous_hash = predecessor_hash predecessor
  record_hash ← calculate_hash stdlib sequence created_at event_type payload_json previous_hash
  ok (record {
    sequence = sequence;
    created_at = created_at;
    event_type = value event_type;
    payload_json = payload_json;
    previous_hash = previous_hash;
    record_hash = record_hash;
  })

-- `_append_durable`: the record, and the rows after it.
unfoldable pub append_durable :
    Stdlib
    → List Row
    → AuditEventType
    → (created_at_text payload_json : Text) → Result (AuditRecord × List Row)
append_durable stdlib rows event_type created_at_text payload_json = do
  raise_if (is_corrupt (verification_from_rows stdlib rows).status) Error.integrity_error
  row ← linked stdlib (last rows) event_type created_at_text payload_json
  appended ← audit_record stdlib event_type row
  ok (appended, rows ++ row ∷ [])

-- `append`
unfoldable pub append :
    Stdlib
    → List Row
    → AuditEventType
    → (payload : Json) → (created_at : DateTime) → Result (AuditRecord × List Row)
append stdlib rows event_type payload created_at = do
  created_at_text ← normalize_datetime stdlib created_at
  payload_json ← canonical_payload stdlib payload
  append_durable stdlib rows event_type created_at_text payload_json
