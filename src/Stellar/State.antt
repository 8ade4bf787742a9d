-- ===== src/Stellar/State.antt =====
-- The storage, events and panics of stellar-bridge/src/lib.rs, and what the contract takes from
-- Soroban. Addresses and keys are their bytes, an i128 is an integer, and the release profile checks
-- overflow.
use kinet_std.Shared.{ℕ, Bool, Option, List, Bytes, Key}
use kinet_std.Shared.Int.{ℤ}

-- One constructor for each message of an `assert!` and one for those that have none; then a missing
-- authorization, a storage entry that is not there, a signature that does not verify, a token call
-- that fails, and an overflow.
pub data Panic : Type 0 where
  fee_too_high paused zero_amount zero unauthorized nonce_processed assertion : Panic
  not_authorized missing bad_signature token_failure overflow : Panic

pub record BridgeConfig : Type 0 where
  pub admin : Bytes
  pub mpc_signers : List Bytes  -- BytesN<32>
  pub threshold : ℕ  -- u32
  pub fee_bps : ℕ  -- u32
  pub paused : Bool
  pub outbound_nonce : ℕ  -- u64
  pub total_locked : ℤ  -- i128
  pub total_burned : ℤ  -- i128

-- The host's functions. A token contract is whatever stands at its address; Soroban lets no call
-- enter the bridge again, so a transfer changes the ledger alone. It fails with `none`.
pub record Host : Type 1 where
  pub Ledger : Type 0
  pub transfer : Ledger → (token from to : Bytes) → (amount : ℤ) → Option Ledger
  pub contract_address : Bytes
  pub sha256 : Bytes → Bytes
  pub ed25519_verify : (pubkey message signature : Bytes) → Bool

-- The storage under `DataKey::Config` and under each `DataKey::Nonce`, and the tokens.
pub record Storage (host : Host) : Type 0 where
  pub config : Option BridgeConfig
  pub nonces : Key → Option Bool
  pub ledger : host.Ledger

-- The published topics and data.
pub data Event : Type 0 where
  lock : (dest_chain_id nonce : ℕ) (sender recipient : Bytes) (amount : ℤ) → Event
  mint : (source_chain_id nonce : ℕ) (recipient : Bytes) (amount : ℤ) → Event
  burn : (dest_chain_id nonce : ℕ) (sender recipient : Bytes) (amount : ℤ) → Event

-- The arguments of `lock_and_bridge` and of `burn_bridged`, which are the same.
pub record Outbound : Type 0 where
  pub sender : Bytes
  pub token_addr : Bytes
  pub amount : ℤ
  pub dest_chain_id : ℕ
  pub recipient : Bytes

-- The arguments of `mint_bridged`.
pub record Inbound : Type 0 where
  pub token_addr : Bytes
  pub source_chain_id : ℕ
  pub nonce : ℕ
  pub recipient : Bytes
  pub amount : ℤ
  pub signature : Bytes
  pub signer_pubkey : Bytes

-- What a call returns and publishes.
pub record Outcome : Type 0 where
  pub returned : Option ℕ
  pub events : List Event

pub data Call : Type 0 where
  initialize : (admin : Bytes) (mpc_signers : List Bytes) (threshold fee_bps : ℕ) → Call
  lock_and_bridge : Outbound → Call
  mint_bridged : Inbound → Call
  burn_bridged : Outbound → Call
  pause : (admin : Bytes) → Call
  unpause : (admin : Bytes) → Call
