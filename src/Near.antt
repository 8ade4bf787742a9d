-- ===== src/Near.antt =====
-- The NEAR bridge, programs/near-bridge/src/lib.rs. `State` has its state and events, `Contract` its
-- methods; the other children prove what holds of them.
pub mod State
pub mod Contract
pub mod Inbound
pub mod Replay
pub mod Spending
pub mod Books
pub mod Rules
pub mod Orders
pub mod Liveness
pub mod Threshold
mod Tests
mod UnitTests
