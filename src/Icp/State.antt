-- ===== src/Icp/State.antt =====
-- The statics, events and traps of icp-bridge/src/knt_bridge.rs, and what a call sees of the chain.
-- Principals and keys are their bytes, words are numbers. The repository has no build profile for
-- this canister, so whether overflow is checked is a parameter.
use kinet_std.Shared.{ℕ, Bool, Option, List, Bytes, Key}

-- The assertions, a canister without configuration, and an overflow.
pub data Trap : Type 0 where
  fee_too_high not_initialized bridge_paused zero_amount unauthorized_signer : Trap
  nonce_processed not_admin overflow : Trap

pub record BridgeConfig : Type 0 where
  pub admin : Bytes
  pub mpc_signers : List Bytes
  pub threshold : ℕ  -- u8
  pub fee_bps : ℕ  -- u16
  pub paused : Bool
  pub outbound_nonce : ℕ  -- u64
  pub total_locked : ℕ  -- u128
  pub total_burned : ℕ  -- u128

pub record LockEvent : Type 0 where
  pub source_chain : ℕ
  pub dest_chain : ℕ
  pub nonce : ℕ
  pub sender : Bytes
  pub recipient : Bytes
  pub amount : ℕ
  pub fee : ℕ
  pub timestamp : ℕ

-- CONFIG, PROCESSED_NONCES and EVENT_LOG
pub record Statics : Type 0 where
  pub config : Option BridgeConfig
  pub processed_nonces : Key → Bool
  pub event_log : List LockEvent

-- `ic_cdk::caller()` and `time()`
pub record Context : Type 0 where
  pub caller : Bytes
  pub time : ℕ

-- The arguments of `mint_bridged`.
pub record Inbound : Type 0 where
  pub source_chain_id : ℕ
  pub nonce : ℕ
  pub recipient : Bytes
  pub amount : ℕ
  pub signature : Bytes
  pub signer_pubkey : Bytes

-- The update calls.
pub data Call : Type 0 where
  lock_and_bridge : (amount dest_chain_id : ℕ) (recipient : Bytes) → Call
  mint_bridged : Inbound → Call
  burn_bridged : (amount dest_chain_id : ℕ) (recipient : Bytes) → Call
  pause : Call
  unpause : Call
