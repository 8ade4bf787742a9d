-- ===== src/Solana/Samples.antt =====
-- Sample accounts and instructions of the Solana bridge, and a token program of plain balances.
use kinet_std.Shared.{
  ℕ, ◌+◌, ◌-◌, ◌≡◌, refl, true, false, some, none, [], ◌∷◌, ◌++◌, Bytes, codes, bytes_eq,
  bytes_eq_iff, arith, replicate, if◌then◌else◌, leb, ◌==◌, Bool-cases, inl, inr, length,
  insert_nat, insert_bytes, set,
}
use kinet_std.Shared.Int.{pos}
use kinet_std.Solana.State.{
  Pubkey, Signers, default_signers, BridgeConfig, TokenConfig, NonceTracker, Event,
}
use kinet_std.Solana.Runtime.{Spl, SplLaws, Addresses, Accounts, Instruction}
use kinet_std.Solana.Bitmap.{IsTracker}
use kinet_std.Solana.Ed25519.{mint_message, release_message}
use kinet_std.Solana.Transfers.{LockAndBridge, MintBridged, Release}

-- 32 times the same byte
abbrev pub key : ℕ → Pubkey
key b = replicate 32 b

abbrev Balances : Type 0
Balances = Pubkey → ℕ

abbrev pub credit : Balances → Pubkey → ℕ → Balances
credit l to amount = λ k. if bytes_eq k to then l k + amount else l k

abbrev pub debit : Balances → Pubkey → ℕ → Balances
debit l from amount = λ k. if bytes_eq k from then l k - amount else l k

-- Every account is a mint and of the mint `key 3`, and the owner always signs.
abbrev pub plain_spl : Spl
plain_spl = record {
  Ledger = Balances;
  is_mint = λ l k. true;
  mint_of = λ l k. some (key 3);
  balance = λ l k. l k;
  open_account = λ l a m u. some l;
  transfer = λ l from to u amount.
      if leb amount (l from) then some (credit (debit l from amount) to amount) else none;
  burn = λ l m from u amount. if leb amount (l from) then some (debit l from amount) else none;
  mint_to = λ l m to u amount. some (credit l to amount);
}

pub plain_laws : SplLaws plain_spl
plain_laws = record {
  transfer_from =
      λ l from to u amount k h apart. ground (arith, bytes_eq_iff from to, bytes_eq_iff from from);
  transfer_to =
      λ l from to u amount k h apart. ground (arith, bytes_eq_iff to from, bytes_eq_iff to to);
  transfer_other =
      λ l from to u amount k a h p q. ground (arith, bytes_eq_iff a from, bytes_eq_iff a to);
}

abbrev pub addresses : Addresses
addresses = record {
  ed25519_program = codes "Ed25519";
  vault_authority = key 11;
  mint_authority = key 12;
  vault_of = λ m. key 4;
  config_bump = 255;
  token_bump = λ m. 254;
}

abbrev pub signers : Signers
signers = record { first = key 7; second = key 8; third = key 9 }

abbrev pub config : BridgeConfig
config = record {
  admin = key 1;
  mpc_signers = signers;
  threshold = 2;
  fee_bps = 30;
  fee_collector = key 1;
  paused = false;
  outbound_nonce = 0;
  chain_id = 900;
  bump = 255;
  rotation_delay = pos 100;
  pending_signers = default_signers;
  pending_threshold = 0;
  pending_signers_eta = pos 0;
}

abbrev pub token : TokenConfig
token = record {
  mint = key 3;
  vault = key 4;
  wrapped_mint = key 5;
  is_native = true;
  daily_mint_limit = 1000;
  daily_minted = 0;
  period_start = pos 0;
  active = true;
  bump = 254;
}

abbrev pub tracker : NonceTracker
tracker = record { source_chain_id = 5; bitmap = replicate 1024 0; bump = 253 }

pub tracker-IsTracker : IsTracker tracker
tracker-IsTracker = record { size = refl; bytes = omega arith }

abbrev pub accounts : Accounts plain_spl
accounts = record {
  config = some config;
  tokens = λ m. if bytes_eq (key 3) m then some token else none;
  trackers = λ c. if 5 == c then some tracker else none;
  ledger = λ k. 50000;
}

pub accounts-IsTracker : (c : ℕ) (t : NonceTracker) → accounts.trackers c ≡ some t → IsTracker t
accounts-IsTracker c t found = elim (Bool-cases (5 == c)) [
  | inl here ↦ let same : tracker ≡ t = ground arith in rw same at tracker-IsTracker
  | inr other ↦ absurd (ground arith)
]

-- An Ed25519 instruction with one signature: the header, the key, 64 bytes of signature, and a
-- message, which is shorter than 256 bytes.
abbrev pub signed_data : Bytes → Bytes
signed_data message =
    (1
      ∷ 0
      ∷ 48
      ∷ 0
      ∷ 255
      ∷ 255
      ∷ 16
      ∷ 0
      ∷ 255
      ∷ 255
      ∷ 112
      ∷ 0
      ∷ length message
      ∷ 0
      ∷ 255
      ∷ 255
      ∷ [])
    ++ (key 7 ++ (replicate 64 0 ++ message))

abbrev pub signed : Bytes → Instruction
signed message = record { program_id = codes "Ed25519"; data' = signed_data message }

abbrev pub mint_call : MintBridged
mint_call = record {
  mint = key 3;
  wrapped_mint = key 5;
  recipient_token = key 20;
  previous = some (signed (mint_message 5 9 (key 21) (key 3) 700));
  source_chain_id = 5;
  nonce = 9;
  recipient = key 21;
  amount = 700;
}

abbrev pub release_call : Release
release_call = record {
  mint = key 3;
  vault = key 4;
  recipient_token = key 20;
  previous = some (signed (release_message 5 10 (key 21) (key 3) 700));
  source_chain_id = 5;
  nonce = 10;
  recipient = key 21;
  amount = 700;
}

abbrev pub lock_call : LockAndBridge
lock_call = record {
  mint = key 3;
  user_token = key 20;
  vault = key 4;
  fee_account = none;
  sender = key 21;
  amount = 10000;
  dest_chain_id = 5;
  recipient = key 22;
}

abbrev pub minted_accounts : Accounts plain_spl
minted_accounts = record accounts {
  tokens =
      insert_bytes accounts.tokens (key 3)
        (record token { daily_minted = 700; period_start = pos 90000 });
  trackers =
      insert_nat accounts.trackers 5 (record tracker { bitmap = set (replicate 1024 0) 1 2 });
  ledger = credit accounts.ledger (key 20) 700;
}

abbrev pub mint_event : Event
mint_event = Event.mint 5 9 (key 3) (key 21) 700 (pos 90000)
