-- ===== src/Polkadot/State.antt =====
-- The storage, events and errors of polkadot-bridge/lib.rs, and what its messages take from the
-- chain. Account ids and keys are their bytes, words are numbers. The repository has no build
-- profile for this contract, so whether overflow is checked is a parameter.
use kinet_std.Shared.{ℕ, Bool, true, false, Option, List, Bytes, Key}

pub record TokenConfig : Type 0 where
  pub daily_mint_limit : ℕ  -- Balance
  pub daily_minted : ℕ  -- Balance
  pub period_start : ℕ  -- Timestamp
  pub active : Bool

pub record KntBridge : Type 0 where
  pub admin : Bytes
  pub mpc_signers : List Bytes  -- [u8; 32]
  pub threshold : ℕ  -- u8
  pub fee_bps : ℕ  -- u16
  pub paused : Bool
  pub outbound_nonce : ℕ  -- u64
  pub total_locked : ℕ  -- Balance, a u128
  pub total_burned : ℕ  -- Balance
  pub processed_nonces : Key → Option Bool
  pub token_configs : Bytes → Option TokenConfig

-- The source's `LockEvent`, `MintEvent`, `BurnEvent` and `ReleaseEvent`.
pub data Event : Type 0 where
  lock : (source_chain dest_chain nonce : ℕ) (sender recipient : Bytes) (amount fee : ℕ) → Event
  mint : (source_chain nonce : ℕ) (recipient : Bytes) (amount : ℕ) → Event
  burn : (source_chain dest_chain nonce : ℕ) (sender recipient : Bytes) (amount : ℕ) → Event
  release : (source_chain nonce : ℕ) (recipient : Bytes) (amount : ℕ) → Event

-- The source's errors, and those that trap: the assertion of the constructor, an overflow, and
-- value sent to a message that is not payable.
pub data Error : Type 0 where
  paused not_admin invalid_signature nonce_processed daily_limit_exceeded : Error
  amount_zero fee_too_high insufficient_balance unauthorized_signer : Error
  assertion overflow value_refused : Error

-- `transfer` moves the contract's own balance; it fails with `none`.
pub record Chain : Type 1 where
  pub Ledger : Type 0
  pub transfer : Ledger → (to : Bytes) → (amount : ℕ) → Option Ledger

-- The contract's storage and the chain's balances.
pub record State (chain : Chain) : Type 0 where
  pub bridge : KntBridge
  pub ledger : chain.Ledger

-- `self.env().caller()` and `self.env().transferred_value()`
pub record Context : Type 0 where
  pub caller : Bytes
  pub transferred_value : ℕ

-- The arguments of `mint_bridged` and of `release`, which are the same.
pub record Inbound : Type 0 where
  pub source_chain_id : ℕ
  pub nonce : ℕ
  pub recipient : Bytes
  pub amount : ℕ
  pub signature : Bytes
  pub signer_pubkey : Bytes

-- What a message returns and emits.
pub record Outcome : Type 0 where
  pub returned : Option ℕ
  pub events : List Event

pub data Call : Type 0 where
  lock_and_bridge : (dest_chain_id : ℕ) (recipient : Bytes) → Call
  mint_bridged : Inbound → Call
  burn_bridged : (dest_chain_id : ℕ) (recipient : Bytes) → Call
  release : Inbound → Call
  pause : Call
  unpause : Call
  set_signers : (signers : List Bytes) (threshold : ℕ) → Call
  set_fee : (fee_bps : ℕ) → Call

-- `#[ink(message, payable)]`
abbrev pub is_payable : Call → Bool
is_payable (Call.lock_and_bridge d r) = true
is_payable (Call.burn_bridged d r) = true
is_payable _ = false
