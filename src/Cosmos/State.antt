-- ===== src/Cosmos/State.antt =====
-- Storage, messages, responses and errors of contract.rs, and what it takes from the libraries.
-- A u64 is a number that wraps as the release profile does; a Uint128 is a number, and its
-- arithmetic is cosmwasm-std's, a field of `Runtime`. Texts are their bytes.
use kinet_std.Shared.{
  ℕ, ◌+◌, ◌-◌, ◌*◌, ◌/◌, ◌%◌, ◌^◌, ◌<◌, ◌≡◌, Bool, Option, some, none, List, Bytes, Key, ltb, leb,
  if◌then◌else◌,
}

pub record Config : Type 0 where
  pub admin : Bytes
  pub mpc_signers : List Bytes
  pub threshold : ℕ  -- u8
  pub fee_bps : ℕ  -- u64
  pub fee_collector : Bytes
  pub paused : Bool
  pub outbound_nonce : ℕ  -- u64
  pub chain_id : ℕ  -- u64
  pub total_locked : ℕ  -- Uint128
  pub total_burned : ℕ  -- Uint128

pub record TokenConfig : Type 0 where
  pub denom : Bytes
  pub is_native : Bool
  pub daily_mint_limit : ℕ  -- Uint128
  pub daily_minted : ℕ  -- Uint128
  pub period_start : ℕ  -- u64
  pub active : Bool

-- The items CONFIG, TOKEN_CONFIGS and PROCESSED_NONCES.
pub record Storage : Type 0 where
  pub config : Option Config
  pub token_configs : Bytes → Option TokenConfig
  pub processed_nonces : Key → Option Bool

pub record InstantiateMsg : Type 0 where
  pub mpc_signers : List Bytes
  pub threshold : ℕ
  pub fee_bps : ℕ
  pub chain_id : ℕ

-- The fields of `MintBridged` and of `Release`, which are the same.
pub record Inbound : Type 0 where
  pub source_chain_id : ℕ
  pub nonce : ℕ
  pub recipient : Bytes
  pub amount : ℕ
  pub denom : Bytes
  pub signature : Bytes
  pub signer_pubkey : Bytes

pub data ExecuteMsg : Type 0 where
  lock_and_bridge : (dest_chain_id : ℕ) (recipient : Bytes) → ExecuteMsg
  mint_bridged : Inbound → ExecuteMsg
  burn_bridged : (dest_chain_id : ℕ) (recipient denom : Bytes) (amount : ℕ) → ExecuteMsg
  release : Inbound → ExecuteMsg
  register_token : (denom : Bytes) (is_native : Bool) (daily_limit : ℕ) → ExecuteMsg
  update_signers : (signers : List Bytes) (threshold : ℕ) → ExecuteMsg
  update_fee : (fee_bps : ℕ) → ExecuteMsg
  pause : ExecuteMsg
  unpause : ExecuteMsg

pub data QueryMsg : Type 0 where
  config : QueryMsg
  token_config : (denom : Bytes) → QueryMsg
  is_nonce_processed : (source_chain_id nonce : ℕ) → QueryMsg
  total_locked : QueryMsg
  total_burned : QueryMsg

pub record Coin : Type 0 where
  pub denom : Bytes
  pub amount : ℕ

pub record MessageInfo : Type 0 where
  pub sender : Bytes
  pub funds : List Coin

pub data BankMsg : Type 0 where
  send : (to_address : Bytes) (amount : List Coin) → BankMsg
  burn : (amount : List Coin) → BankMsg

-- The attributes of each event, as values and not as the texts that `to_string` makes of them.
pub data Event : Type 0 where
  lock :
      (source_chain dest_chain nonce : ℕ) (denom sender recipient : Bytes) (amount fee : ℕ) → Event
  mint : (source_chain nonce : ℕ) (recipient : Bytes) (amount : ℕ) (denom : Bytes) → Event
  burn : (source_chain dest_chain nonce : ℕ) (denom sender recipient : Bytes) (amount : ℕ) → Event
  release : (source_chain nonce : ℕ) (recipient : Bytes) (amount : ℕ) → Event

pub record Response : Type 0 where
  pub messages : List BankMsg
  pub events : List Event
  pub attributes : List (Bytes × Bytes)

-- What a query answers, before its JSON encoding.
pub data Reply : Type 0 where
  config : Config → Reply
  token_config : TokenConfig → Reply
  processed : Bool → Reply
  total : ℕ → Reply

-- One constructor for each text of `StdError::generic_err`, then those of the libraries: a missing
-- item, an invalid address, and the panic of a Uint128 that overflows.
pub data StdError : Type 0 where
  paused one_coin fee_exceeds_amount nonce_processed unauthorized_signer : StdError
  signature_hex pubkey_hex verification_failed invalid_signature : StdError
  invalid_sig invalid_pk sig_verify_failed : StdError
  unauthorized fee_too_high daily_limit_exceeded : StdError
  not_found invalid_address overflow : StdError

-- What the contract takes from cosmwasm-std and hex. The laws are the documented behaviour of
-- Uint128: `+` and `multiply_ratio` panic when the result does not fit, `checked_sub` reports it.
pub record Runtime : Type 0 where
  pub ed25519_verify : (message signature pubkey : Bytes) → Option Bool
  pub addr_validate : Bytes → Option Bytes
  pub hex_decode : Bytes → Option Bytes
  pub add : ℕ → ℕ → Option ℕ
  pub checked_sub : ℕ → ℕ → Option ℕ
  pub multiply_ratio : ℕ → ℕ → ℕ → Option ℕ
  pub add_law : (a b : ℕ) → add a b ≡ (if ltb (a + b) (2 ^ 128) then some (a + b) else none)
  pub sub_law : (a b : ℕ) → checked_sub a b ≡ (if leb b a then some (a - b) else none)
  pub ratio_law :
      (a n d : ℕ)
      → 0 < d
      → multiply_ratio a n d ≡ (if ltb (a * n / d) (2 ^ 128) then some (a * n / d) else none)

-- The release profile of the contract's Cargo.toml has no overflow checks.
abbrev pub wrap_u64 : ℕ → ℕ
wrap_u64 n = n % 2 ^ 64
