-- ===== src/Lib.antt =====
-- The Knt bridges in Rust: one program for each chain, under programs/. A user locks or burns tokens
-- on one chain, an event reports it under a fresh nonce, and the bridge of another chain mints or
-- releases the amount against a signature of a configured signer over the source chain, the nonce,
-- the recipient and the amount. Each program keeps a configuration (admin, signers, threshold, fee,
-- pause), the totals locked and burned, the next outbound nonce and the inbound nonces already
-- used. The programs share no code; they meet in the messages that their signers sign.
--
-- Which module models which program, function by function under the source's names:
-- - Solana: programs/solana-bridge/programs/knt-bridge/src. `Solana.State` has the accounts of
--   state/ with their methods, errors.rs and events.rs; `Solana.Ed25519` the reading of the Ed25519
--   instruction in mint_bridged.rs, release.rs and admin.rs; `Solana.Admin` initialize.rs,
--   register_token.rs and admin.rs; `Solana.Transfers` lock_and_bridge.rs, mint_bridged.rs,
--   burn_bridged.rs and release.rs; `Solana.Program` the entry points of lib.rs.
-- - Cosmos: programs/cosmos-bridge/contracts/knt-bridge/src/contract.rs. `Cosmos.State` has the
--   storage and messages, `Cosmos.Limit` check_daily_limit, `Cosmos.Contract` instantiate, execute
--   and query.
-- - Near: programs/near-bridge/src/lib.rs. `Near.State` has the state and the events,
--   `Near.Contract` the methods and what #[near_bindgen] makes of them.
-- - Stellar: programs/stellar-bridge/src/lib.rs. `Stellar.State` has the storage and the host,
--   `Stellar.Contract` the functions.
-- - Polkadot: programs/polkadot-bridge/lib.rs. `Polkadot.State` has the storage, events and errors,
--   `Polkadot.Contract` the constructor and the messages.
-- - Icp: programs/icp-bridge/src/knt_bridge.rs. `Icp.State` has the statics, `Icp.Canister` the
--   functions.
-- - `UnitTests` beside each of these five has the unit tests of its Rust file, as what they assert of
--   the model.
-- - Crossing sets a message of one bridge against another bridge, and `Crossing.Settled` runs the
--   NEAR and the CosmWasm bridge together, step by step in any order, with the signers between them.
-- - Spec has what the bridges promise, over any step function: replay protection (`Replay`) and the
--   set of used transfers (`Spending`), growing outbound nonces (`Outbound`), a daily quota (`Quota`),
--   what it leaves (`Allowance`) and the same inside a whole contract (`Metered`), orders that two
--   bridges and their signers settle (`Transit`, `Settlement`), what the calls of
--   a run answer (`Answers`), a part of a state that nothing reads (`Erasure`), and runs with their
--   logs (`Run`).
--   The programs' modules fill these interfaces.
-- - `Solana.Client` has the helpers of programs/solana-bridge/tests/bridge.ts with which a relayer
--   builds the instruction before a mint.
-- - Shared has lists, byte strings, decimal texts, words, signed integers, maps and results.
--
-- A call is a function from a state and its arguments to a new state and its outcome, or to an
-- error; the chains undo what a failed call wrote. A run is a list of calls in the order in which
-- the chain makes them, with what each sees of the chain: its sender, the time, the value sent, and
-- the balances as they then are. All recursion is on lists, so there is no fuel; decimal digits recur
-- on accessibility. Words are numbers with their bounds written out. The build profiles of Solana,
-- NEAR and Stellar check overflow, and the model panics; that of the CosmWasm contract does not, and
-- its u64 wraps; for Polkadot and the Internet Computer the repository has no profile, and a
-- parameter says whether overflow panics or wraps.
--
-- Parameters, since their code is not here: signature checks and hashes, token programs and
-- transfers of balance, derived addresses, address validation and hex. Where a theorem relies on
-- one, its documented behaviour is a hypothesis. Of NEAR account ids only the documented lengths are
-- kept. Not modelled: the JSON or SCALE encoding of
-- messages and events, gas and storage rent, upgrades of a canister, the programs in other
-- languages, and the Solidity contracts.
mod Shared
pub mod Spec
pub mod Cosmos
pub mod Solana
pub mod Near
pub mod Stellar
pub mod Polkadot
pub mod Icp
pub mod Crossing
