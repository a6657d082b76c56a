-- ===== src/Ranging.antt =====
-- src/aero_bot/ranging.py: the data of the range-width solver, and the solver as the policy engine
-- sees it. Instants and spans of time are microseconds.
pub mod Types
pub mod Math
pub mod Implied
pub mod Grid
pub mod Score
pub mod Choice
pub mod Order
pub mod Evidence
pub mod Solve
pub mod Volatility
pub mod Found
pub mod Scored
pub mod Answer
pub mod Verdict
pub mod Ceiling
pub mod Examples
mod Tests
