-- ===== src/History.antt =====
-- The block search of src/aero_bot/history.py.
pub mod Search
pub mod Boundary
mod Tests
