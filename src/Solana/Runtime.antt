-- ===== src/Solana/Runtime.antt =====
-- What the program takes from the chain, from Anchor and from the SPL token program, and the
-- accounts that it keeps.
use kinet_std.Shared.{ℕ, Bool, ◌+◌, ◌≡◌, ◌≢◌, Option, some, Bytes}
use kinet_std.Solana.State.{Pubkey, BridgeConfig, TokenConfig, NonceTracker}

-- An instruction as the instructions sysvar shows it.
pub record Instruction : Type 0 where
  pub program_id : Pubkey
  pub data' : Bytes

-- The SPL token program on a ledger of token accounts. A call fails with `none`.
pub record Spl : Type 1 where
  pub Ledger : Type 0
  pub is_mint : Ledger → (account : Pubkey) → Bool
  pub mint_of : Ledger → (account : Pubkey) → Option Pubkey
  pub balance : Ledger → (account : Pubkey) → ℕ
  pub open_account : Ledger → (address mint authority : Pubkey) → Option Ledger
  pub transfer : Ledger → (from to authority : Pubkey) (amount : ℕ) → Option Ledger
  pub burn : Ledger → (mint from authority : Pubkey) (amount : ℕ) → Option Ledger
  pub mint_to : Ledger → (mint to authority : Pubkey) (amount : ℕ) → Option Ledger

-- The documented effect of the transfer on balances: the amount leaves one account and reaches
-- the other, and no third account changes.
pub record SplLaws (spl : Spl) : Type 0 where
  pub transfer_from :
      (l : spl.Ledger) (from to authority : Pubkey) (amount : ℕ) (k : spl.Ledger)
      → spl.transfer l from to authority amount ≡ some k
      → from ≢ to
      → spl.balance k from + amount ≡ spl.balance l from
  pub transfer_to :
      (l : spl.Ledger) (from to authority : Pubkey) (amount : ℕ) (k : spl.Ledger)
      → spl.transfer l from to authority amount ≡ some k
      → from ≢ to
      → spl.balance k to ≡ spl.balance l to + amount
  pub transfer_other :
      (l : spl.Ledger) (from to authority : Pubkey) (amount : ℕ) (k : spl.Ledger) (a : Pubkey)
      → spl.transfer l from to authority amount ≡ some k
      → a ≢ from
      → a ≢ to
      → spl.balance k a ≡ spl.balance l a

-- The addresses that the chain derives from the seeds in the source, with their bumps, and the id
-- of the chain's Ed25519 program.
pub record Addresses : Type 0 where
  pub ed25519_program : Pubkey
  pub vault_authority : Pubkey
  pub mint_authority : Pubkey
  pub vault_of : (mint : Pubkey) → Pubkey
  pub config_bump : ℕ
  pub token_bump : (mint : Pubkey) → ℕ

-- The accounts at the program's derived addresses: one configuration, a token configuration for
-- each mint, a nonce tracker for each source chain; and the token accounts.
pub record Accounts (spl : Spl) : Type 0 where
  pub config : Option BridgeConfig
  pub tokens : (mint : Pubkey) → Option TokenConfig
  pub trackers : (source_chain_id : ℕ) → Option NonceTracker
  pub ledger : spl.Ledger
