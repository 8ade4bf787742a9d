-- ===== src/Solana/Admin.antt =====
-- instructions/initialize.rs, instructions/register_token.rs and instructions/admin.rs. The
-- accounts that an instruction names are found by their seeds; `signer` is the `admin: Signer`.
use kinet_std.Shared.{
  ℕ, Bool, true, false, ◌&&◌, Option, some, none, Bytes, bytes_eq, Result, ok, ◌>>=◌, ◌>>◌, require,
  fail_if, ok_or, leb, unwrap_or, is_some, insert_bytes,
}
use kinet_std.Shared.Int.{ℤ, pos, add_i64, leb_ℤ}
use kinet_std.Solana.State.{
  Pubkey, Fault, Signers, default_signers, max_rotation_delay, BridgeConfig, has_pending_rotation,
}
use kinet_std.Solana.Runtime.{Spl, Addresses, Accounts, Instruction}
use kinet_std.Solana.Ed25519.{verify_propose_signers_signature}

-- `threshold >= 1 && threshold <= 3`
abbrev pub valid_threshold : ℕ → Bool
valid_threshold threshold = leb 1 threshold && leb threshold 3

module _ {spl : Spl} (at : Addresses) where
  -- `init` gives an account of zero bytes, so what the handler does not set is zero.
  unfoldable pub initialize :
      Accounts spl
      → Pubkey
      → Signers
      → (threshold fee_bps chain_id : ℕ) → Result Fault (Accounts spl)
  initialize a signer mpc_signers threshold fee_bps chain_id = do
    fail_if (is_some a.config) Fault.account_exists
    require (valid_threshold threshold) Fault.unauthorized_signer
    require (leb fee_bps 500) Fault.fee_rate_exceeds_max
    ok (record a {
      config = some (record {
        admin = signer;
        mpc_signers = mpc_signers;
        threshold = threshold;
        fee_bps = fee_bps;
        fee_collector = signer;
        paused = false;
        outbound_nonce = 0;
        chain_id = chain_id;
        bump = at.config_bump;
        rotation_delay = pos 0;
        pending_signers = default_signers;
        pending_threshold = 0;
        pending_signers_eta = pos 0;
      });
    })

-- The configuration, under `has_one = admin` and the admin's signature.
unfoldable pub as_admin : {spl : Spl} → Accounts spl → Pubkey → Result Fault BridgeConfig
as_admin a signer = do
  config ← ok_or a.config Fault.account_missing
  require (bytes_eq config.admin signer) Fault.constraint
  ok config

abbrev pub with_config : {spl : Spl} → Accounts spl → BridgeConfig → Accounts spl
with_config a c = record a { config = some c }

-- `Option<Account<'info, Mint>>`: an account that is passed is a mint.
abbrev pub given_mint : {spl : Spl} → Accounts spl → Option Pubkey → Bool
given_mint {spl} a account = elim account [ none ↦ true | some m ↦ spl.is_mint a.ledger m ]

module _ {spl : Spl} (at : Addresses) where
  unfoldable pub register_token :
      Accounts spl
      → Pubkey
      → (now : ℤ) (mint : Pubkey) (wrapped_mint : Option Pubkey) (is_native : Bool)
        (daily_mint_limit : ℕ)
      → Result Fault (Accounts spl)
  register_token a signer now mint wrapped_mint is_native daily_mint_limit = do
    config ← as_admin a signer
    fail_if (is_some (a.tokens mint)) Fault.account_exists
    require (spl.is_mint a.ledger mint) Fault.constraint
    ledger ←
        ok_or (spl.open_account a.ledger (at.vault_of mint) mint at.vault_authority)
          Fault.token_failure
    require (given_mint a wrapped_mint) Fault.constraint
    ok (record a {
      tokens = insert_bytes a.tokens mint (record {
        mint = mint;
        vault = at.vault_of mint;
        wrapped_mint = unwrap_or wrapped_mint mint;
        is_native = is_native;
        daily_mint_limit = daily_mint_limit;
        daily_minted = 0;
        period_start = now;
        active = true;
        bump = at.token_bump mint;
      });
      ledger = ledger;
    })

  unfoldable pub propose_signers :
      Accounts spl
      → Pubkey
      → (now : ℤ) (previous : Option Instruction) (new_signers : Signers) (threshold : ℕ)
        (message : Bytes)
      → Result Fault (Accounts spl)
  propose_signers a signer now previous new_signers threshold message = do
    config ← as_admin a signer
    require (valid_threshold threshold) Fault.unauthorized_signer
    verify_propose_signers_signature at previous config new_signers threshold message
    eta ← ok_or (add_i64 now config.rotation_delay) Fault.panic
    ok (
        with_config a (record config {
          pending_signers = new_signers;
          pending_threshold = threshold;
          pending_signers_eta = eta;
        }))

module _ {spl : Spl} (a : Accounts spl) (signer : Pubkey) where
  unfoldable pub pause : Result Fault (Accounts spl)
  pause = do config ← as_admin a signer; ok (with_config a (record config { paused = true }))

  unfoldable pub unpause : Result Fault (Accounts spl)
  unpause = do config ← as_admin a signer; ok (with_config a (record config { paused = false }))

  unfoldable pub execute_signers : (now : ℤ) → Result Fault (Accounts spl)
  execute_signers now = do
    config ← as_admin a signer
    require (has_pending_rotation config) Fault.no_pending_rotation
    require (leb_ℤ config.pending_signers_eta now) Fault.timelock_not_elapsed
    ok (
        with_config a (record config {
          mpc_signers = config.pending_signers;
          threshold = config.pending_threshold;
          pending_signers = default_signers;
          pending_threshold = 0;
          pending_signers_eta = pos 0;
        }))

  unfoldable pub cancel_signers : Result Fault (Accounts spl)
  cancel_signers = do
    config ← as_admin a signer
    require (has_pending_rotation config) Fault.no_pending_rotation
    ok (
        with_config a (record config {
          pending_signers = default_signers;
          pending_threshold = 0;
          pending_signers_eta = pos 0;
        }))

  unfoldable pub update_fee : (fee_bps : ℕ) → Result Fault (Accounts spl)
  update_fee fee_bps = do
    config ← as_admin a signer
    require (leb fee_bps 500) Fault.fee_rate_exceeds_max
    ok (with_config a (record config { fee_bps = fee_bps }))

  unfoldable pub set_rotation_delay : (delay_seconds : ℤ) → Result Fault (Accounts spl)
  set_rotation_delay delay_seconds = do
    config ← as_admin a signer
    require (leb_ℤ (pos 0) delay_seconds && leb_ℤ delay_seconds (pos max_rotation_delay))
        Fault.fee_rate_exceeds_max
    ok (with_config a (record config { rotation_delay = delay_seconds }))
