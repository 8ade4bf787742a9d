-- ===== src/Solana/State.antt =====
-- errors.rs, events.rs, state/bridge_config.rs and state/token_config.rs. Keys are their bytes;
-- `[Pubkey; 3]` is a record of three. An i64 is an integer, a u64 a number, and the release profile
-- checks overflow, which panics.
use Prim.Native.Nat.{bit_and, bit_or}
use kinet_std.Shared.{
  ℕ, ◌+◌, ◌*◌, ◌/◌, ◌%◌, ◌^◌, Bool, false, Bytes, Result, ok, err, ◌>>=◌, ◌>>◌, require, fail_if,
  ok_or, ltb, leb, ◌==◌, if◌then◌else◌, length, get_or, set, replicate, ◌||◌, bytes_eq,
}
use kinet_std.Shared.Int.{ℤ, pos, add_i64, leb_ℤ, ltb_ℤ}

abbrev pub Pubkey : Type 0
Pubkey = Bytes

-- The errors of errors.rs, and those that are not the program's own: an account constraint of
-- Anchor that fails, an account that does not exist or exists already, a token program call that
-- fails, and a panic.
pub data Fault : Type 0 where
  paused invalid_signature nonce_already_processed daily_mint_limit_exceeded : Fault
  unauthorized_signer invalid_source_chain amount_too_small fee_rate_exceeds_max : Fault
  token_not_registered insufficient_vault_balance ed25519_instruction_missing : Fault
  ed25519_verification_failed overflow no_pending_rotation timelock_not_elapsed : Fault
  constraint account_missing account_exists token_failure panic : Fault

pub data Event : Type 0 where
  lock :
      (source_chain dest_chain nonce : ℕ) (token sender recipient : Bytes) (amount fee : ℕ)
      (timestamp : ℤ)
      → Event
  mint : (source_chain nonce : ℕ) (token recipient : Bytes) (amount : ℕ) (timestamp : ℤ) → Event
  burn :
      (source_chain dest_chain nonce : ℕ) (token sender recipient : Bytes) (amount : ℕ)
      (timestamp : ℤ)
      → Event
  release : (source_chain nonce : ℕ) (token recipient : Bytes) (amount : ℕ) (timestamp : ℤ) → Event

pub record Signers : Type 0 where
  pub first : Pubkey
  pub second : Pubkey
  pub third : Pubkey

-- `[Pubkey::default(); 3]`
abbrev pub default_signers : Signers
default_signers = record { first = replicate 32 0; second = replicate 32 0; third = replicate 32 0 }

-- `config.mpc_signers.iter().any(|s| *s == signer_pubkey)`
unfoldable pub is_authorized : Signers → Pubkey → Bool
is_authorized s k = bytes_eq s.first k || (bytes_eq s.second k || bytes_eq s.third k)

abbrev pub max_rotation_delay : ℕ
max_rotation_delay = 7 * 24 * 60 * 60

abbrev pub default_rotation_delay : ℕ
default_rotation_delay = 24 * 60 * 60

pub record BridgeConfig : Type 0 where
  pub admin : Pubkey
  pub mpc_signers : Signers
  pub threshold : ℕ  -- u8
  pub fee_bps : ℕ  -- u16
  pub fee_collector : Pubkey
  pub paused : Bool
  pub outbound_nonce : ℕ  -- u64
  pub chain_id : ℕ  -- u64
  pub bump : ℕ  -- u8
  pub rotation_delay : ℤ  -- i64
  pub pending_signers : Signers
  pub pending_threshold : ℕ  -- u8
  pub pending_signers_eta : ℤ  -- i64

-- The nonce that is used up, and the account with the next one.
unfoldable pub next_nonce : BridgeConfig → Result Fault (ℕ × BridgeConfig)
next_nonce c = do
  require (ltb (c.outbound_nonce + 1) (2 ^ 64)) Fault.panic
  ok (c.outbound_nonce, record c { outbound_nonce = c.outbound_nonce + 1 })

unfoldable pub has_pending_rotation : BridgeConfig → Bool
has_pending_rotation c = ltb_ℤ (pos 0) c.pending_signers_eta

pub record TokenConfig : Type 0 where
  pub mint : Pubkey
  pub vault : Pubkey
  pub wrapped_mint : Pubkey
  pub is_native : Bool
  pub daily_mint_limit : ℕ  -- u64
  pub daily_minted : ℕ  -- u64
  pub period_start : ℤ  -- i64
  pub active : Bool
  pub bump : ℕ  -- u8

-- The period after the reset that is due when a day has passed.
abbrev pub roll_period : TokenConfig → ℤ → ℤ → TokenConfig
roll_period c period_end now =
    if leb_ℤ period_end now then record c { daily_minted = 0; period_start = now } else c

unfoldable pub check_daily_limit : TokenConfig → ℕ → ℤ → Result Fault TokenConfig
check_daily_limit c amount now = if c.daily_mint_limit == 0 then ok c else do
  period_end ← ok_or (add_i64 c.period_start (pos 86400)) Fault.panic
  let rolled = roll_period c period_end now
  let new_total = rolled.daily_minted + amount
  require (ltb new_total (2 ^ 64)) Fault.overflow
  fail_if (ltb rolled.daily_mint_limit new_total) Fault.daily_mint_limit_exceeded
  ok (record rolled { daily_minted = new_total })

pub record NonceTracker : Type 0 where
  pub source_chain_id : ℕ  -- u64
  pub bitmap : Bytes  -- [u8; 1024]
  pub bump : ℕ  -- u8

-- `(byte >> bit) & 1 == 1`
unfoldable pub test_bit : ℕ → ℕ → Bool
test_bit byte bit = bit_and (byte / 2 ^ bit) 1 == 1

-- `byte | (1 << bit)`
unfoldable pub set_bit : ℕ → ℕ → ℕ
set_bit byte bit = bit_or byte (2 ^ bit)

unfoldable pub is_processed : NonceTracker → ℕ → Bool
is_processed t nonce =
    if leb (length t.bitmap) (nonce / 8)
    then false
    else test_bit (get_or t.bitmap (nonce / 8) 0) (nonce % 8)

unfoldable pub mark_processed : NonceTracker → ℕ → Result Fault NonceTracker
mark_processed t nonce =
    if leb (length t.bitmap) (nonce / 8)
    then err Fault.overflow
    else ok (record t {
      bitmap = set t.bitmap (nonce / 8) (set_bit (get_or t.bitmap (nonce / 8) 0) (nonce % 8));
    })
