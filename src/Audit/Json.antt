-- ===== src/Audit/Json.antt =====
-- The payloads of src/aero_bot/audit.py, and what the store calls of Python's own library.
use aero_bot.Prelude.{ℕ, Bool, false, ◌||◌, Option, List, [], ◌∷◌, if◌then◌else◌}
use aero_bot.Prelude.Int.{ℤ}
use aero_bot.Audit.Text.{Text, codes, same_text}

-- A JSON value. A dictionary lists its fields by name, since dictionaries compare whatever their
-- order; a float is its shortest spelling.
mutual
  pub data Json : Type 0 where
    null : Json
    boolean : Bool → Json
    integer : ℤ → Json
    float : Text → Json
    string : Text → Json
    array : Items → Json
    object : Fields → Json

  pub data Items : Type 0 where
    no_item : Items
    item : Json → Items → Items

  pub data Fields : Type 0 where
    no_field : Fields
    field : Text → Json → Fields → Fields

-- A `datetime`: microseconds of its own clock, and `utcoffset()`, none for a naive one.
pub record DateTime : Type 0 where
  pub local : ℤ
  pub utc_offset : Option ℤ

pub record DumpOptions : Type 0 where
  pub sort_keys : Bool
  pub compact_separators : Bool
  pub ensure_ascii : Bool

-- What the store calls of Python: `json.dumps` and `json.loads` (`none` where it raises);
-- `hashlib.sha256(…).hexdigest()`; `isoformat(timespec="microseconds")` of a time in UTC, with its
-- `+00:00` written `Z`, and `fromisoformat` of a text with its `Z` written `+00:00`; `casefold` and
-- `isalnum`.
pub record Stdlib : Type 0 where
  pub dumps : DumpOptions → Json → Text
  pub loads : Text → Option Json
  pub sha256 : Text → Text
  pub isoformat : ℤ → Text
  pub fromisoformat : Text → Option DateTime
  pub casefold : Text → Text
  pub isalnum : ℕ → Bool

-- `SENSITIVE_FIELD_NAMES`
abbrev pub sensitive_field_names : List Text
sensitive_field_names =
    codes "keystore"
    ∷ codes "mnemonic"
    ∷ codes "password"
    ∷ codes "privatekey"
    ∷ codes "rawtransaction"
    ∷ codes "secret"
    ∷ codes "seedphrase"
    ∷ codes "signature"
    ∷ codes "signedtransaction"
    ∷ []

unfoldable pub is_among : Text → List Text → Bool
is_among text [] = false
is_among text (first ∷ rest) = same_text text first || is_among text rest

unfoldable pub only_alnum : Stdlib → Text → Text
only_alnum stdlib [] = []
only_alnum stdlib (c ∷ text) =
    let rest = only_alnum stdlib text in if stdlib.isalnum c then c ∷ rest else rest

unfoldable pub is_sensitive_name : Stdlib → Text → Bool
is_sensitive_name stdlib name =
    is_among (only_alnum stdlib (stdlib.casefold name)) sensitive_field_names

-- Whether `_reject_sensitive_fields` raises.
unfoldable mutual
  pub has_sensitive_field : Stdlib → Json → Bool
  has_sensitive_field stdlib Json.null = false
  has_sensitive_field stdlib (Json.boolean _) = false
  has_sensitive_field stdlib (Json.integer _) = false
  has_sensitive_field stdlib (Json.float _) = false
  has_sensitive_field stdlib (Json.string _) = false
  has_sensitive_field stdlib (Json.array items) = sensitive_in_items stdlib items
  has_sensitive_field stdlib (Json.object fields) = sensitive_in_fields stdlib fields

  pub sensitive_in_items : Stdlib → Items → Bool
  sensitive_in_items stdlib Items.no_item = false
  sensitive_in_items stdlib (Items.item value items) =
      has_sensitive_field stdlib value || sensitive_in_items stdlib items

  pub sensitive_in_fields : Stdlib → Fields → Bool
  sensitive_in_fields stdlib Fields.no_field = false
  sensitive_in_fields stdlib (Fields.field name value fields) =
      is_sensitive_name stdlib name
      || (has_sensitive_field stdlib value || sensitive_in_fields stdlib fields)
