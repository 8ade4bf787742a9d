-- ===== src/Polkadot.antt =====
-- The Polkadot bridge, programs/polkadot-bridge/lib.rs. `State` has its storage, events and errors,
-- `Contract` its messages; the other children prove what holds of them.
pub mod State
pub mod Contract
pub mod Inbound
pub mod Replay
pub mod Books
pub mod Rules
mod Tests
mod UnitTests
