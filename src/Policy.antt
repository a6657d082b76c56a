-- ===== src/Policy.antt =====
-- src/aero_bot/policy.py: the policy engine, a pure fold over observations of one pool.
pub mod Parameters
pub mod Types
pub mod Day
pub mod Gas
pub mod Swap
pub mod Exits
pub mod Width
pub mod Flat
pub mod Maintain
pub mod Engine
pub mod Posture
pub mod Entry
pub mod Halt
pub mod Session
pub mod Deadlines
pub mod Stops
pub mod Tranches
pub mod Trace
pub mod RangeAnswers
pub mod EntryRange
mod RangeRuns
pub mod Examples
mod Tests
mod Runs
