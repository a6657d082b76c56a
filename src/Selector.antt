-- ===== src/Selector.antt =====
-- The choice of a pool in src/aero_bot/selector.py.
pub mod Board
pub mod Rank
pub mod Best
pub mod Switch
pub mod Others
pub mod Warranted
mod Tests
