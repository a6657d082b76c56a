-- ===== src/Audit/Chain.antt =====
-- The chain of src/aero_bot/audit.py, and what its verification accepts.
use aero_bot.Prelude.{
  ℕ, suc, Bool, true, false, not, ◌&&◌, ◌==◌, Option, none, some, List, [], ◌∷◌, ◌≡◌, ◌↔◌, refl,
  inl, inr, arith, is_none, Bool-cases, ap, ◌∙◌,
}
use aero_bot.Prelude.Results.{Result, ok, err, ok-injective}
use aero_bot.Audit.Text.{Text, same_text, same_text-true_iff}
use aero_bot.Audit.Json.{Json, Stdlib, has_sensitive_field}
use aero_bot.Audit.Events.{
  AuditEventType, value, event_type_of, event_type_of-some, event_type_of-value,
}
use aero_bot.Audit.Store.{
  canonical, genesis_hash, calculate_hash, Row, spells, respelled_time, content_verifies,
  row_verifies, first_bad, verification_from_rows, is_corrupt,
}

pub spells-true_iff :
    (computed : Result Text) (text : Text) → (spells computed text ≡ true) ↔ (computed ≡ ok text)
spells-true_iff (ok c) text =
    let same = same_text-true_iff c text in (λ h. ap ok (same.0 h), λ e. same.1 (ok-injective e))
spells-true_iff (err raised) text = (λ e. cc, λ e. cc)

-- A row at its place, after its predecessor's hash: its number, a reviewed type, a payload with no
-- sensitive name, canonical spellings, the link to the predecessor, and the digest of its content.
pub record IsLinked (stdlib : Stdlib) (place : ℕ) (before : Text) (row : Row) : Type 0 where
  pub numbered : row.sequence ≡ place
  pub event_type : AuditEventType
  pub reviewed : row.event_type ≡ value event_type
  pub payload : Json
  pub decoded : stdlib.loads row.payload_json ≡ some payload
  pub harmless : has_sensitive_field stdlib payload ≡ false
  pub timed : respelled_time stdlib row.created_at ≡ ok row.created_at
  pub spelled : stdlib.dumps canonical payload ≡ row.payload_json
  pub follows : row.previous_hash ≡ before
  pub hashed :
      calculate_hash stdlib row.sequence row.created_at event_type row.payload_json
        row.previous_hash
      ≡ ok row.record_hash

five_hold :
    (a b c d e : Bool)
    → not a && (b && (c && (d && e))) ≡ true
    → (a ≡ false) × (b ≡ true) × (c ≡ true) × (d ≡ true) × (e ≡ true)
five_hold a b c d e h = ground arith

hold_five :
    (a b c d e : Bool)
    → a ≡ false
    → b ≡ true
    → c ≡ true
    → d ≡ true
    → e ≡ true
    → not a && (b && (c && (d && e))) ≡ true
hold_five a b c d e p q r s t = ground arith

both_hold : (m n : ℕ) (b : Bool) → (m == n) && b ≡ true → (m ≡ n) × (b ≡ true)
both_hold m n b h = ground arith

hold_both : (m n : ℕ) (b : Bool) → m ≡ n → b ≡ true → (m == n) && b ≡ true
hold_both m n b p q = ground arith

-- Every row is linked to the one before it, from a place and a hash on.
abbrev pub IsChain : Stdlib → ℕ → Text → List Row → Type 0
IsChain stdlib place before [] = Unit
IsChain stdlib place before (row ∷ rows) =
    IsLinked stdlib place before row × IsChain stdlib (suc place) row.record_hash rows

module _ (stdlib : Stdlib) where
  content_verifies-IsLinked :
      (place : ℕ) (before : Text) (row : Row) (event_type : Option AuditEventType)
      (payload : Option Json)
      → row.sequence ≡ place
      → event_type_of row.event_type ≡ event_type
      → stdlib.loads row.payload_json ≡ payload
      → content_verifies stdlib before row event_type payload ≡ true
      → IsLinked stdlib place before row
  unfolding content_verifies
  content_verifies-IsLinked place before row none payload n e d h = cc
  content_verifies-IsLinked place before row (some event_type) none n e d h = cc
  content_verifies-IsLinked place before row (some event_type) (some payload) n e d h =
      let timed = spells-true_iff (respelled_time stdlib row.created_at) row.created_at in
      let spelled = same_text-true_iff (stdlib.dumps canonical payload) row.payload_json in
      let follows = same_text-true_iff row.previous_hash before in
      let hashed =
        spells-true_iff
          (calculate_hash stdlib row.sequence row.created_at event_type row.payload_json
            row.previous_hash)
          row.record_hash in
      let (harmless, t, s, f, k) =
        five_hold (has_sensitive_field stdlib payload)
          (spells (respelled_time stdlib row.created_at) row.created_at)
          (same_text (stdlib.dumps canonical payload) row.payload_json)
          (same_text row.previous_hash before) _ h in
      record {
        numbered = n;
        event_type = event_type;
        reviewed = event_type_of-some row.event_type event_type e;
        payload = payload;
        decoded = d;
        harmless = harmless;
        timed = timed.0 t;
        spelled = spelled.0 s;
        follows = follows.0 f;
        hashed = hashed.0 k;
      }

  content_verifies-holds :
      (place : ℕ) (before : Text) (row : Row)
      → (fits : IsLinked stdlib place before row)
      → content_verifies stdlib before row (some fits.event_type) (some fits.payload) ≡ true
  unfolding content_verifies
  content_verifies-holds place before row fits =
      let timed = spells-true_iff (respelled_time stdlib row.created_at) row.created_at in
      let spelled = same_text-true_iff (stdlib.dumps canonical fits.payload) row.payload_json in
      let follows = same_text-true_iff row.previous_hash before in
      let hashed =
        spells-true_iff
          (calculate_hash stdlib row.sequence row.created_at fits.event_type row.payload_json
            row.previous_hash)
          row.record_hash in
      hold_five (has_sensitive_field stdlib fits.payload) _ _ _ _ fits.harmless (timed.1 fits.timed)
        (spelled.1 fits.spelled) (follows.1 fits.follows) (hashed.1 fits.hashed)

  row_verifies-IsLinked_iff :
      (place : ℕ) (before : Text) (row : Row)
      → (row_verifies stdlib place before row ≡ true) ↔ IsLinked stdlib place before row
  unfolding row_verifies
  row_verifies-IsLinked_iff place before row =
      let content = content_verifies stdlib before row in
      (
        λ h.
            let (n, c) =
              both_hold row.sequence place
                (content (event_type_of row.event_type) (stdlib.loads row.payload_json)) h in
            content_verifies-IsLinked place before row (event_type_of row.event_type)
              (stdlib.loads row.payload_json) n refl refl c,
        λ fits.
            let typed : event_type_of row.event_type ≡ some fits.event_type =
              ap event_type_of fits.reviewed ∙ event_type_of-value fits.event_type in
            hold_both row.sequence place _ fits.numbered (
              ap (λ e. content e (stdlib.loads row.payload_json)) typed
              ∙ ap (content (some fits.event_type)) fits.decoded
              ∙ content_verifies-holds place before row fits),
      )

  first_bad-IsChain_iff :
      (place : ℕ) (before : Text) (rows : List Row)
      → (is_none (first_bad stdlib place before rows) ≡ true) ↔ IsChain stdlib place before rows
  unfolding first_bad
  first_bad-IsChain_iff place before [] = (λ e. tt, λ e. refl)
  first_bad-IsChain_iff place before (row ∷ rows) =
      let linked = row_verifies-IsLinked_iff place before row in
      let later = first_bad-IsChain_iff (suc place) row.record_hash rows in
      elim (Bool-cases (row_verifies stdlib place before row)) [
        | inl e ↦ rw e (λ h. (linked.0 e, later.0 h), λ (_, h). later.1 h)
        | inr e ↦ rw e (λ h. cc, λ (h, _). absurd (differ (linked.1 h) e))
      ]
    where
      differ : {b : Bool} → b ≡ true → b ≡ false → ⊥
      differ h k = cc

  -- Verification finds no corruption exactly in the tables whose every row, from the first on, bears
  -- its number, a reviewed type, a canonical time, a canonical payload with no sensitive name, the
  -- hash of the row before it (the genesis hash for the first) and the digest of its own content.
  pub verification_from_rows-IsChain_iff :
      (rows : List Row)
      → (is_corrupt (verification_from_rows stdlib rows).status ≡ false)
        ↔ IsChain stdlib 1 genesis_hash rows
  unfolding verification_from_rows
  verification_from_rows-IsChain_iff [] = (λ e. tt, λ e. refl)
  verification_from_rows-IsChain_iff (row ∷ rows) =
      let accepted = first_bad-IsChain_iff 1 genesis_hash (row ∷ rows) in
      elim (Bool-cases (is_none (first_bad stdlib 1 genesis_hash (row ∷ rows)))) [
        | inl e ↦ rw e (λ _. accepted.0 e, λ _. refl)
        | inr e ↦ rw e (λ h. cc, λ h. absurd (differ (accepted.1 h) e))
      ]
    where
      differ : {b : Bool} → b ≡ true → b ≡ false → ⊥
      differ h k = cc
