-- ===== src/Solana/Transfers.antt =====
-- instructions/lock_and_bridge.rs, mint_bridged.rs, burn_bridged.rs and release.rs. Anchor loads the
-- accounts first, then checks their constraints in the order of the account structs, then calls the
-- handler. A transaction that fails leaves every account as it was.
use kinet_std.Shared.{
  ℕ, ◌-◌, ◌*◌, ◌/◌, ◌^◌, Bool, false, Option, some, none, Bytes, bytes_eq, Result, ok, ◌>>=◌, ◌>>◌,
  require, fail_if, ok_or, ltb, insert_bytes, insert_nat, if◌then◌else◌,
}
use kinet_std.Shared.Int.{ℤ}
use kinet_std.Solana.State.{
  Pubkey, Fault, Event, BridgeConfig, next_nonce, TokenConfig, check_daily_limit, is_processed,
  mark_processed,
}
use kinet_std.Solana.Runtime.{Spl, Addresses, Accounts, Instruction}
use kinet_std.Solana.Ed25519.{verify_ed25519_signature, verify_release_signature}

-- `!bridge_config.paused`
unfoldable pub live_config : BridgeConfig → Result Fault (Unit {0})
live_config config = do fail_if config.paused Fault.paused

-- `token_config.active`
unfoldable pub active_token : TokenConfig → Result Fault (Unit {0})
active_token token = do require token.active Fault.token_not_registered

-- A token account of the given mint.
abbrev pub has_mint : {spl : Spl} → Accounts spl → Pubkey → Pubkey → Bool
has_mint {spl} a account mint = elim (spl.mint_of a.ledger account) [
  | none ↦ false
  | some m ↦ bytes_eq m mint
]

-- The accounts and arguments of `lock_and_bridge`; `mint` is that of the token configuration.
pub record LockAndBridge : Type 0 where
  pub mint : Pubkey
  pub user_token : Pubkey
  pub vault : Pubkey
  pub fee_account : Option Pubkey
  pub sender : Pubkey
  pub amount : ℕ
  pub dest_chain_id : ℕ
  pub recipient : Bytes

pub record BurnBridged : Type 0 where
  pub mint : Pubkey
  pub wrapped_mint : Pubkey
  pub user_token : Pubkey
  pub sender : Pubkey
  pub amount : ℕ
  pub dest_chain_id : ℕ
  pub recipient : Bytes

-- `previous` is the instruction before this one in the transaction.
pub record MintBridged : Type 0 where
  pub mint : Pubkey
  pub wrapped_mint : Pubkey
  pub recipient_token : Pubkey
  pub previous : Option Instruction
  pub source_chain_id : ℕ
  pub nonce : ℕ
  pub recipient : Pubkey
  pub amount : ℕ

pub record Release : Type 0 where
  pub mint : Pubkey
  pub vault : Pubkey
  pub recipient_token : Pubkey
  pub previous : Option Instruction
  pub source_chain_id : ℕ
  pub nonce : ℕ
  pub recipient : Pubkey
  pub amount : ℕ

-- The transfer of the fee, where there is one and an account for it was passed.
unfoldable pub pay_fee :
    (spl : Spl) → spl.Ledger → Pubkey → Option Pubkey → Pubkey → ℕ → Result Fault spl.Ledger
pay_fee spl l from none authority fee = ok l
pay_fee spl l from (some fee_account) authority fee =
    if ltb 0 fee
    then ok_or (spl.transfer l from fee_account authority fee) Fault.token_failure
    else ok l

module _ {spl : Spl} (at : Addresses) where
  unfoldable pub lock_and_bridge :
      Accounts spl → (now : ℤ) → LockAndBridge → Result Fault (Accounts spl × Event)
  lock_and_bridge a now x = do
    config ← ok_or a.config Fault.account_missing
    token ← ok_or (a.tokens x.mint) Fault.account_missing
    live_config config
    active_token token
    require (has_mint a x.user_token token.mint) Fault.constraint
    require (bytes_eq x.vault token.vault) Fault.constraint
    require (ltb 0 x.amount) Fault.amount_too_small
    require (ltb (x.amount * config.fee_bps) (2 ^ 64)) Fault.panic
    let fee = x.amount * config.fee_bps / 10000
    fail_if (ltb x.amount fee) Fault.panic
    let bridge_amount = x.amount - fee
    l ←
        ok_or (spl.transfer a.ledger x.user_token x.vault x.sender bridge_amount)
          Fault.token_failure
    l' ← pay_fee spl l x.user_token x.fee_account x.sender fee
    (nonce, config') ← next_nonce config
    ok (
      record a { config = some config'; ledger = l' },
      Event.lock config.chain_id x.dest_chain_id nonce token.mint x.sender x.recipient bridge_amount
          fee now,
    )

  unfoldable pub burn_bridged :
      Accounts spl → (now : ℤ) → BurnBridged → Result Fault (Accounts spl × Event)
  burn_bridged a now x = do
    config ← ok_or a.config Fault.account_missing
    token ← ok_or (a.tokens x.mint) Fault.account_missing
    live_config config
    active_token token
    require (bytes_eq x.wrapped_mint token.wrapped_mint) Fault.constraint
    require (has_mint a x.user_token x.wrapped_mint) Fault.constraint
    require (ltb 0 x.amount) Fault.amount_too_small
    l ← ok_or (spl.burn a.ledger x.wrapped_mint x.user_token x.sender x.amount) Fault.token_failure
    (nonce, config') ← next_nonce config
    ok (
      record a { config = some config'; ledger = l },
      Event.burn config.chain_id x.dest_chain_id nonce token.mint x.sender x.recipient x.amount now,
    )

  unfoldable pub mint_bridged :
      Accounts spl → (now : ℤ) → MintBridged → Result Fault (Accounts spl × Event)
  mint_bridged a now x = do
    config ← ok_or a.config Fault.account_missing
    token ← ok_or (a.tokens x.mint) Fault.account_missing
    tracker ← ok_or (a.trackers x.source_chain_id) Fault.account_missing
    live_config config
    active_token token
    require (bytes_eq x.wrapped_mint token.wrapped_mint) Fault.constraint
    fail_if (is_processed tracker x.nonce) Fault.nonce_already_processed
    verify_ed25519_signature at x.previous config x.source_chain_id x.nonce x.recipient token.mint
        x.amount
    token' ← check_daily_limit token x.amount now
    l ←
        ok_or (spl.mint_to a.ledger x.wrapped_mint x.recipient_token at.mint_authority x.amount)
          Fault.token_failure
    tracker' ← mark_processed tracker x.nonce
    ok (
      record a {
        tokens = insert_bytes a.tokens x.mint token';
        trackers = insert_nat a.trackers x.source_chain_id tracker';
        ledger = l;
      },
      Event.mint x.source_chain_id x.nonce token.mint x.recipient x.amount now,
    )

  unfoldable pub release : Accounts spl → (now : ℤ) → Release → Result Fault (Accounts spl × Event)
  release a now x = do
    config ← ok_or a.config Fault.account_missing
    token ← ok_or (a.tokens x.mint) Fault.account_missing
    tracker ← ok_or (a.trackers x.source_chain_id) Fault.account_missing
    live_config config
    active_token token
    require token.is_native Fault.token_not_registered
    require (bytes_eq x.vault token.vault) Fault.constraint
    fail_if (is_processed tracker x.nonce) Fault.nonce_already_processed
    verify_release_signature at x.previous config x.source_chain_id x.nonce x.recipient token.mint
        x.amount
    l ←
        ok_or (spl.transfer a.ledger x.vault x.recipient_token at.vault_authority x.amount)
          Fault.token_failure
    tracker' ← mark_processed tracker x.nonce
    ok (
      record a { trackers = insert_nat a.trackers x.source_chain_id tracker'; ledger = l },
      Event.release x.source_chain_id x.nonce token.mint x.recipient x.amount now,
    )
