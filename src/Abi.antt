-- ===== src/Abi.antt =====
-- The ABI layer of src/aero_bot/lp_calldata.py.
pub mod Bytes
pub mod Address
pub mod Words
pub mod Params
pub mod Position
pub mod Gauge
pub mod Pool
pub mod Views
pub mod Joined
pub mod PositionTrip
pub mod Calls
pub mod Structs
pub mod ViewTrip
pub mod TickTrip
pub mod MintErrors
mod Tests
