-- ===== src/Audit/Tamper.antt =====
-- Tamper evidence of the chain of src/aero_bot/audit.py.
use aero_bot.Prelude.{ℕ, some, List, [], ◌∷◌, ◌≡◌, ◌≢◌, ◌⊎◌}
use aero_bot.Audit.Text.{Text}
use aero_bot.Audit.Json.{Json, Stdlib}
use aero_bot.Audit.Events.{AuditEventType, value}
use aero_bot.Audit.Store.{canonical, record_material, Row}
use aero_bot.Audit.Chain.{IsLinked}

-- The text that a row's digest is taken of.
pub record IsMaterial (stdlib : Stdlib) (row : Row) (material : Text) : Type 0 where
  pub event_type : AuditEventType
  pub typed : row.event_type ≡ value event_type
  pub payload : Json
  pub decoded : stdlib.loads row.payload_json ≡ some payload
  pub dumped :
      material
      ≡ stdlib.dumps canonical
          (record_material row.sequence row.created_at event_type payload row.previous_hash)

-- A row of one table and the row at its place in another have different materials with one digest.
abbrev pub Collide : Stdlib → List Row → List Row → Type 0
Collide stdlib [] others = ⊥
Collide stdlib (row ∷ rows) [] = ⊥
Collide stdlib (row ∷ rows) (other ∷ others) =
    ((a : Text) × (b : Text) × IsMaterial stdlib row a
      × IsMaterial stdlib other b
      × (a ≢ b)
      × (stdlib.sha256 a ≡ stdlib.sha256 b))
    ⊎ Collide stdlib rows others

module _ (stdlib : Stdlib) where
  abbrev material_of :
      (place : ℕ) (before : Text) (row : Row) → IsLinked stdlib place before row → Text
  material_of place before row fits =
      stdlib.dumps canonical
        (record_material row.sequence row.created_at fits.event_type fits.payload row.previous_hash)
