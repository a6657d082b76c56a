-- ===== src/Audit/Writer.antt =====
-- What the steps of `append` of src/aero_bot/audit.py compute.
use aero_bot.Prelude.{
  ℕ, suc, true, false, not, ◌==◌, Option, none, some, List, [], ◌∷◌, ◌++◌, ◌≡◌, refl, ap, sym, ◌∙◌,
}
use aero_bot.Prelude.Int.{ℤ, ◌-ℤ◌}
use aero_bot.Prelude.Results.{Result, ok, err, Error, or_raise, raise_if, ok-injective, ◌>>=◌, ◌>>◌}
use aero_bot.Audit.Text.{Text}
use aero_bot.Audit.Json.{Json, DateTime, Stdlib, has_sensitive_field}
use aero_bot.Audit.Events.{AuditEventType, value}
use aero_bot.Audit.Store.{
  canonical, genesis_hash, normalize_datetime, canonical_payload, record_material, calculate_hash,
  Row, verification_from_rows, is_corrupt, last, next_sequence, predecessor_hash, AuditRecord,
  is_digest, audit_record, linked, append_durable, append,
}
use aero_bot.Audit.Growth.{end_hash}
use aero_bot.Audit.Chain.{IsLinked, IsChain}

bind-ok : {A B : Type 0} (m : Result A) (a : A) (f : A → Result B) → m ≡ ok a → (m >>= f) ≡ f a
bind-ok m a f e = ap (λ x. x >>= f) e

pub calculate_hash-loaded :
    (stdlib : Stdlib) (sequence : ℕ) (time : Text) (event_type : AuditEventType)
    (json before : Text) (payload : Json)
    → stdlib.loads json ≡ some payload
    → calculate_hash stdlib sequence time event_type json before
      ≡ ok (
          stdlib.sha256
            (stdlib.dumps canonical (record_material sequence time event_type payload before)))
unfolding calculate_hash
calculate_hash-loaded stdlib sequence time event_type json before payload e =
    ap
      (λ o. or_raise o Error.value_error >>= λ object. ok (
        stdlib.sha256
          (stdlib.dumps canonical (record_material sequence time event_type object before))))
      e

module _ (stdlib : Stdlib) (digests : (text : Text) → is_digest (stdlib.sha256 text) ≡ true) where
  pub IsLinked-is_digest :
      (place : ℕ) (before : Text) (row : Row)
      → IsLinked stdlib place before row
      → is_digest row.record_hash ≡ true
  IsLinked-is_digest place before row fits =
      let computed =
        calculate_hash-loaded stdlib row.sequence row.created_at fits.event_type row.payload_json
          row.previous_hash fits.payload fits.decoded in
      ap is_digest (sym (ok-injective (sym computed ∙ fits.hashed))) ∙ digests _

  pub end_hash-is_digest :
      (place : ℕ) (before : Text) (rows : List Row)
      → is_digest before ≡ true
      → IsChain stdlib place before rows
      → is_digest (end_hash before rows) ≡ true
  end_hash-is_digest place before [] h chain = h
  end_hash-is_digest place before (row ∷ rows) h chain =
      end_hash-is_digest (suc place) row.record_hash rows
        (IsLinked-is_digest place before row chain.0) chain.1

pub is_digest-genesis : is_digest genesis_hash ≡ true
unfolding is_digest
is_digest-genesis = refl

-- The spellings of a time and a payload that `append` accepts.
module _ (stdlib : Stdlib) (payload : Json) (created_at : DateTime) (offset : ℤ)
    (harmless : has_sensitive_field stdlib payload ≡ false)
    (aware : created_at.utc_offset ≡ some offset) where
  abbrev pub time_text : Text
  time_text = stdlib.isoformat (created_at.local -ℤ offset)

  abbrev pub payload_text : Text
  payload_text = stdlib.dumps canonical payload

  pub append-durable :
      (rows : List Row) (event_type : AuditEventType)
      → append stdlib rows event_type payload created_at
        ≡ append_durable stdlib rows event_type time_text payload_text
  unfolding append normalize_datetime canonical_payload
  append-durable rows event_type =
      bind-ok (normalize_datetime stdlib created_at) time_text _ (
        ap
          (λ (o : Option ℤ). elim o as (λ _. Result Text) [
            | none ↦ err Error.value_error
            | some z ↦ ok (stdlib.isoformat (created_at.local -ℤ z))
          ])
          aware)
      ∙ bind-ok (canonical_payload stdlib payload) payload_text _
          (ap (λ b. raise_if b Error.value_error >> ok payload_text) harmless)

-- `_append_durable` after its check of the chain.
module _ (stdlib : Stdlib) (rows : List Row) (event_type : AuditEventType) (time json : Text) where
  abbrev pub durable : Result (AuditRecord × List Row)
  durable = linked stdlib (last rows) event_type time json >>= λ row.
      audit_record stdlib event_type row >>= λ appended. ok (appended, rows ++ row ∷ [])

  pub append_durable-unfolded : append_durable stdlib rows event_type time json ≡ (
      raise_if (is_corrupt (verification_from_rows stdlib rows).status) Error.integrity_error
      >> durable)
  unfolding append_durable
  append_durable-unfolded = refl

module _ (stdlib : Stdlib) (rows : List Row) (event_type : AuditEventType) (time : Text)
    (payload : Json) where
  -- The row that is added.
  abbrev pub new_row : Row
  new_row =
      let json = stdlib.dumps canonical payload in
      let sequence = next_sequence (last rows) in
      let before = predecessor_hash (last rows) in
      record {
        sequence = sequence;
        created_at = time;
        event_type = value event_type;
        payload_json = json;
        previous_hash = before;
        record_hash =
            stdlib.sha256
              (stdlib.dumps canonical (record_material sequence time event_type payload before));
      }

  abbrev pub new_record : DateTime → AuditRecord
  new_record moment = record {
    sequence = new_row.sequence;
    created_at = moment;
    event_type = event_type;
    payload_json = new_row.payload_json;
    previous_hash = new_row.previous_hash;
    record_hash = new_row.record_hash;
  }

  module _ (loads_dumps : stdlib.loads (stdlib.dumps canonical payload) ≡ some payload) where
    linked-new_row :
        linked stdlib (last rows) event_type time (stdlib.dumps canonical payload) ≡ ok new_row
    unfolding linked
    linked-new_row =
        bind-ok _ new_row.record_hash _
          (calculate_hash-loaded stdlib _ time event_type _ _ payload loads_dumps)

    pub audit_record-new_row :
        (moment : DateTime)
        → stdlib.fromisoformat time ≡ some moment
        → (new_row.sequence == 0) ≡ false
        → is_digest new_row.previous_hash ≡ true
        → is_digest new_row.record_hash ≡ true
        → audit_record stdlib event_type new_row ≡ ok (new_record moment)
    unfolding audit_record
    audit_record-new_row moment parsed counted before_digest row_digest =
        bind-ok (or_raise (stdlib.fromisoformat time) Error.value_error) moment _
          (ap (λ o. or_raise o Error.value_error) parsed)
        ∙ ap
            (λ b.
              raise_if b Error.validation_error
              >> (raise_if (not (is_digest new_row.previous_hash)) Error.validation_error
                  >> (raise_if (not (is_digest new_row.record_hash)) Error.validation_error
                      >> ok (new_record moment))))
            counted
        ∙ ap
            (λ b.
              raise_if (not b) Error.validation_error
              >> (raise_if (not (is_digest new_row.record_hash)) Error.validation_error
                  >> ok (new_record moment)))
            before_digest
        ∙ ap (λ b. raise_if (not b) Error.validation_error >> ok (new_record moment)) row_digest

    pub append_durable-new_row :
        (moment : DateTime)
        → is_corrupt (verification_from_rows stdlib rows).status ≡ false
        → audit_record stdlib event_type new_row ≡ ok (new_record moment)
        → append_durable stdlib rows event_type time (stdlib.dumps canonical payload)
          ≡ ok (new_record moment, rows ++ new_row ∷ [])
    append_durable-new_row moment clean recorded =
        let json = stdlib.dumps canonical payload in
        append_durable-unfolded stdlib rows event_type time json
        ∙ ap (λ b. raise_if b Error.integrity_error >> durable stdlib rows event_type time json)
            clean
        ∙ bind-ok (linked stdlib (last rows) event_type time json) new_row
            (λ row.
              audit_record stdlib event_type row >>= λ appended. ok (appended, rows ++ row ∷ []))
            linked-new_row
        ∙ bind-ok (audit_record stdlib event_type new_row) (new_record moment)
            (λ appended. ok (appended, rows ++ new_row ∷ [])) recorded
