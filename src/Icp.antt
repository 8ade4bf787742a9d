-- ===== src/Icp.antt =====
-- The Internet Computer bridge, programs/icp-bridge/src/knt_bridge.rs. `State` has its statics and
-- events, `Canister` its functions; the other children prove what holds of them.
pub mod State
pub mod Canister
pub mod Inbound
pub mod Log
pub mod Events
mod Tests
mod UnitTests
