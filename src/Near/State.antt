-- ===== src/Near/State.antt =====
-- The state, events and panics of near-bridge/src/lib.rs, and what a call sees of the chain. Keys,
-- texts and the account ids that are only compared or reported are their bytes; a word is a number, and the release profile checks overflow.
use kinet_std.Shared.{ℕ, ◌≤◌, Bool, true, false, Option, List, Bytes, length}

-- One constructor for each message of an `assert!`, one for those that have none, and those of the
-- libraries: a slice of the wrong length, an overflow, the state that `#[near_bindgen]` misses or
-- finds, and the deposit that a method that is not payable refuses.
pub data Panic : Type 0 where
  fee_too_high paused zero_amount unauthorized_signer unauthorized nonce_processed : Panic
  invalid_signature invalid_sig not_admin assertion : Panic
  slice_length overflow not_initialized already_initialized deposit_refused : Panic

pub record KntBridge : Type 0 where
  pub admin : Bytes
  pub mpc_signers : List Bytes  -- [u8; 32] each
  pub threshold : ℕ  -- u8
  pub fee_bps : ℕ  -- u16
  pub paused : Bool
  pub outbound_nonce : ℕ  -- u64
  pub total_locked : ℕ  -- u128
  pub total_burned : ℕ  -- u128
  pub processed_nonces : Bytes → Option Bool

pub record BridgeEvent : Type 0 where
  pub event_type : Bytes
  pub source_chain : ℕ
  pub dest_chain : ℕ
  pub nonce : ℕ
  pub sender : Bytes
  pub recipient : Bytes
  pub amount : Bytes

-- `env::predecessor_account_id()` and `env::attached_deposit()`
pub record Context : Type 0 where
  pub predecessor : Bytes
  pub deposit : ℕ

-- `AccountId` of the SDK, whose text has 2 to 64 bytes, as its documentation says; no deserialized
-- argument is of other lengths. Its rules for the characters are not modelled.
pub record AccountId : Type 0 where
  pub text : Bytes
  pub shortest : 2 ≤ length text
  pub longest : length text ≤ 64

-- The arguments of `mint_bridged` and of `release`, which are the same.
pub record Inbound : Type 0 where
  pub source_chain_id : ℕ
  pub nonce : ℕ
  pub recipient : AccountId
  pub amount : ℕ
  pub signature : Bytes
  pub signer_pubkey : Bytes

-- A promise that transfers NEAR; it runs after the call, and nothing reads its result.
pub record Transfer : Type 0 where
  pub receiver : AccountId
  pub amount : ℕ

-- What a call returns, logs and promises. The logged text is the event's JSON.
pub record Outcome : Type 0 where
  pub returned : Option ℕ
  pub logs : List BridgeEvent
  pub promises : List Transfer

pub data Call : Type 0 where
  new : (mpc_signers : List Bytes) (threshold fee_bps : ℕ) → Call
  lock_and_bridge : (dest_chain_id : ℕ) (recipient : Bytes) → Call
  mint_bridged : Inbound → Call
  burn_bridged : (dest_chain_id : ℕ) (recipient : Bytes) → Call
  release : Inbound → Call
  pause : Call
  unpause : Call
  set_signers : (signers : List Bytes) (threshold : ℕ) → Call
  set_fee : (fee_bps : ℕ) → Call

-- `#[payable]`
abbrev pub is_payable : Call → Bool
is_payable (Call.lock_and_bridge d r) = true
is_payable (Call.burn_bridged d r) = true
is_payable _ = false
