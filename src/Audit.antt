-- ===== src/Audit.antt =====
-- src/aero_bot/audit.py: the append-only chain of audit records.
pub mod Text
pub mod Events
pub mod Json
pub mod Store
pub mod Chain
pub mod Growth
pub mod Writer
pub mod Append
pub mod Tamper
mod Spelling
mod Tests
