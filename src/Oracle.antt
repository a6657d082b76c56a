-- ===== src/Oracle.antt =====
-- src/aero_bot/oracles.py: the health of a Chainlink feed, and the coverage report.
pub mod Health
pub mod Gates
pub mod Coverage
mod Tests
