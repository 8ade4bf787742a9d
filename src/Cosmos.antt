-- ===== src/Cosmos.antt =====
-- The CosmWasm bridge, programs/cosmos-bridge/contracts/knt-bridge/src/contract.rs. `State` has its
-- storage and messages, `Limit` the daily limit, `Contract` the entry points; the other children
-- prove what holds of them.
pub mod State
pub mod Limit
pub mod Contract
pub mod Payments
pub mod Liveness
mod Tests
mod UnitTests
pub mod Authorize
pub mod Inbound
pub mod Replay
pub mod Spending
pub mod Admin
pub mod Outbound
pub mod LimitLaws
pub mod Booked
pub mod Metered
pub mod Messages
