-- ===== src/Risk.antt =====
-- src/aero_bot/risk.py and src/aero_bot/domain.py: the fail-closed gates of one opportunity.
pub mod Domain
pub mod Engine
pub mod Verdict
mod Tests
