-- ===== src/Stellar.antt =====
-- The Stellar bridge, programs/stellar-bridge/src/lib.rs. `State` has its storage, events and what
-- it takes from Soroban, `Contract` its functions; the other children prove what holds of them.
pub mod State
pub mod Contract
pub mod Inbound
pub mod Redirect
pub mod Replay
mod Tests
mod UnitTests
