-- ===== src/Audit/Tests.antt =====
-- Runs of the audit store of src/aero_bot/audit.py, with a spelling of JSON values that is injective
-- and a digest that is the same for every text.
use aero_bot.Prelude.{
  true, false, none, some, List, Option, [], ◌∷◌, ◌≡◌, ◌↔◌, refl, if◌then◌else◌, arith, zero, suc,
}
use aero_bot.Prelude.Int.{ℤ, pos, negsuc}
use aero_bot.Prelude.Results.{err, integrity_error}
use aero_bot.Audit.Text.{Text, codes, same_text}
use aero_bot.Audit.Json.{
  Json, Fields, DateTime, Stdlib, is_among, only_alnum, is_sensitive_name, has_sensitive_field,
}
use aero_bot.Audit.Events.{AuditEventType}
use aero_bot.Audit.Spelling.{spell}
use aero_bot.Audit.Store.{genesis_hash, Row, verification_from_rows, is_corrupt, append}
use aero_bot.Audit.Chain.{IsChain, verification_from_rows-IsChain_iff}
use aero_bot.Audit.Append.{append-err}

abbrev counted : Json
counted = Json.object (Fields.field (codes "count") (Json.integer (pos 3)) Fields.no_field)

abbrev bare : Json
bare = Json.object Fields.no_field

abbrev secret : Json
secret = Json.object (Fields.field (codes "secret") (Json.integer (pos 3)) Fields.no_field)

abbrev signed_spelling : ℤ → Text
signed_spelling (pos n) = 0 ∷ n ∷ []
signed_spelling (negsuc n) = 1 ∷ n ∷ []

abbrev in_utc : ℤ → Option DateTime
in_utc instant = some (record { local = instant; utc_offset = some (pos 0) })

abbrev parsed_spelling : Text → Option DateTime
parsed_spelling (zero ∷ n ∷ []) = in_utc (pos n)
parsed_spelling (suc _ ∷ n ∷ []) = in_utc (negsuc n)
parsed_spelling _ = none

abbrev stdlib : Stdlib
stdlib = record {
  dumps = λ options json. spell json [];
  loads = λ text. if same_text text (spell counted []) then some counted else some bare;
  sha256 = λ text. genesis_hash;
  isoformat = signed_spelling;
  fromisoformat = parsed_spelling;
  casefold = λ text. text;
  isalnum = λ c. true;
}

secret_is_sensitive : has_sensitive_field stdlib secret ≡ true
unfolding has_sensitive_field is_sensitive_name only_alnum is_among same_text
secret_is_sensitive = refl

abbrev row_of : Json → Row
row_of payload = record {
  sequence = 1;
  created_at = signed_spelling (pos 5);
  event_type = codes "risk_decision";
  payload_json = spell payload [];
  previous_hash = genesis_hash;
  record_hash = genesis_hash;
}

abbrev table : List Row
table = row_of counted ∷ []

-- The same table with another payload, which the constant digest does not tell apart.
abbrev rewritten : List Row
rewritten = row_of bare ∷ []

-- A table whose row bears the wrong number.
abbrev misnumbered : List Row
misnumbered = record (row_of counted) { sequence = 2 } ∷ []

-- An aware time, two hours ahead of UTC.
abbrev moment : DateTime
moment = record { local = pos 7_200_000_009; utc_offset = some (pos 7_200_000_000) }

counted_is_harmless : has_sensitive_field stdlib counted ≡ false
unfolding has_sensitive_field is_sensitive_name only_alnum is_among same_text
counted_is_harmless = refl

misnumbered_fails : ¬ (IsChain stdlib 1 genesis_hash misnumbered)
misnumbered_fails (fits, _) = let numbered = fits.numbered in absurd (omega (arith, numbered))

append-err_example :
    append stdlib misnumbered AuditEventType.system_state counted moment ≡ err integrity_error
append-err_example =
    append-err stdlib misnumbered AuditEventType.system_state counted moment (pos 7_200_000_000)
      misnumbered_fails counted_is_harmless refl

verification_from_rows-IsChain_iff_example :
    (is_corrupt (verification_from_rows stdlib table).status ≡ false)
    ↔ IsChain stdlib 1 genesis_hash table
verification_from_rows-IsChain_iff_example = verification_from_rows-IsChain_iff stdlib table
