-- ===== src/Solana.antt =====
-- The Solana bridge, programs/solana-bridge/programs/knt-bridge/src. `State` has the accounts of
-- state/ and the tracker's bitmap, `Runtime` what the program takes from the chain and from the SPL
-- token program, `Ed25519` the signature checks, `Admin` and `Transfers` the instructions.
pub mod State
pub mod Bitmap
pub mod Runtime
pub mod Ed25519
pub mod Admin
pub mod Transfers
pub mod Program
pub mod Replay
pub mod Spending
pub mod Config
pub mod Pending
pub mod Rotation
pub mod LimitLaws
pub mod Booked
pub mod Allowance
pub mod Authenticity
pub mod Recipient
pub mod Messages
pub mod Accepted
pub mod Exact
pub mod Metered
pub mod Client
pub mod Custody
pub mod Lifeless
pub mod Indices
pub mod Outbound
mod Samples
mod Tests
mod Witnesses
mod Rotations
mod Runs
