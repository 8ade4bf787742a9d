-- ===== src/Solana/Authenticity.antt =====
-- What stands behind a mint of the Solana bridge that went through.
use kinet_std.Shared.{
  ℕ, ◌≤◌, ◌≡◌, true, false, Option, some, Bytes, ok, arith, Option-cases, Result-cases, inl, inr,
  bytes_eq, bytes_eq_sound, bytes_eq_refl, sym, u16_at, get_or, codes, to_le_bytes, ◌++◌,
}
use kinet_std.Shared.Int.{ℤ}
use kinet_std.Solana.State.{
  Pubkey, Event, is_authorized, Signers, BridgeConfig, TokenConfig, check_daily_limit,
}
use kinet_std.Solana.Runtime.{Spl, Addresses, Accounts, Instruction}
use kinet_std.Solana.Ed25519.{
  slice, mint_message, load_instruction, check_indices, check_content, verify_ed25519_signature,
}
use kinet_std.Solana.Booked.{Booked, check_daily_limit-Booked}
use kinet_std.Solana.Transfers
use kinet_std.Solana.Transfers.{MintBridged}

-- What a check of the Ed25519 instruction that passes establishes: it names a signer's key and the
-- expected message.
pub record Names (at : Addresses) (previous : Option Instruction) (signers : Signers)
    (message : Bytes) : Type 0 where
  pub instruction : Instruction
  pub found : previous ≡ some instruction
  pub program : instruction.program_id ≡ at.ed25519_program
  pub signer :
      is_authorized signers (slice instruction.data' (u16_at instruction.data' 6) 32) ≡ true
  pub text :
      slice instruction.data' (u16_at instruction.data' 10) (u16_at instruction.data' 12) ≡ message

-- What the three index fields of an Ed25519 instruction must be so that the chain's program
-- verified the key and the message that stand in its own data.
pub record Own (bytes : Bytes) : Type 0 where
  pub count : 1 ≤ get_or bytes 0 0
  pub signature_index : u16_at bytes 4 ≡ 0xFFFF
  pub key_index : u16_at bytes 8 ≡ 0xFFFF
  pub message_index : u16_at bytes 14 ≡ 0xFFFF

check_indices-Own : (bytes : Bytes) → check_indices bytes ≡ ok tt → Own bytes
unfolding check_indices
check_indices-Own bytes h = ground arith

check_content-text :
    (bytes : Bytes) (signers : Signers) (message : Bytes)
    → check_content bytes signers message ≡ ok tt
    → (is_authorized signers (slice bytes (u16_at bytes 6) 32) ≡ true)
      × (bytes_eq (slice bytes (u16_at bytes 10) (u16_at bytes 12)) message ≡ true)
unfolding check_content
check_content-text bytes signers message h = ground arith

module _ (at : Addresses) (previous : Option Instruction) (signers : Signers)
    (message : Bytes) where
  named :
      (bytes : Bytes)
      → load_instruction at previous ≡ ok bytes
      → check_content bytes signers message ≡ ok tt
      → Names at previous signers message
  unfolding load_instruction
  named bytes loaded passed = elim (Option-cases previous) [
    | inl missing ↦ absurd (ground arith)
    | inr (ix, found) ↦
        let same : ix.data' ≡ bytes = ground arith in
        let program : bytes_eq ix.program_id at.ed25519_program ≡ true = ground arith in
        let content = check_content-text bytes signers message passed in
        record {
          instruction = ix;
          found = found;
          program = bytes_eq_sound _ _ program;
          signer = rw same content.0;
          text = rw same (bytes_eq_sound _ _ content.1);
        }
  ]

-- A mint that went through: the bridge was live, the token registered and active; a configured
-- signer's key signed the bytes of this very transfer; the counter of the daily limit is as `Booked`
-- says; and the amount was minted.
pub record Authentic {spl : Spl} (at : Addresses) (Signed : Bytes → Bytes → Type 0)
    (a : Accounts spl) (now : ℤ) (x : MintBridged) (b : Accounts spl) : Type 0 where
  pub config : BridgeConfig
  pub configured : a.config ≡ some config
  pub live : config.paused ≡ false
  pub token : TokenConfig
  pub registered : a.tokens x.mint ≡ some token
  pub active : token.active ≡ true
  pub key : Pubkey
  pub authorized : is_authorized config.mpc_signers key ≡ true
  pub signed : Signed key (
      codes "KNT_BRIDGE_MINT"
      ++ (to_le_bytes 8 x.source_chain_id
          ++ (to_le_bytes 8 x.nonce ++ (x.recipient ++ (token.mint ++ to_le_bytes 8 x.amount)))))
  pub charged : TokenConfig
  pub booked : Booked token x.amount now charged
  pub stored : b.tokens x.mint ≡ some charged
  pub paid :
      spl.mint_to a.ledger token.wrapped_mint x.recipient_token at.mint_authority x.amount
      ≡ some b.ledger

verify_ed25519_signature-checks :
    (at : Addresses) (previous : Option Instruction) (c : BridgeConfig) (s n : ℕ) (r m : Pubkey)
    (v : ℕ)
    → verify_ed25519_signature at previous c s n r m v ≡ ok tt
    → (bytes : Bytes) × (load_instruction at previous ≡ ok bytes)
      × Own bytes
      × (check_content bytes c.mpc_signers (mint_message s n r m v) ≡ ok tt)
unfolding verify_ed25519_signature
verify_ed25519_signature-checks at previous c s n r m v h =
    elim (Result-cases (load_instruction at previous)) [
      | inr (f, failed) ↦ absurd (ground arith)
      | inl (bytes, loaded) ↦ elim (Result-cases (check_indices bytes)) [
        | inr (f, failed) ↦ absurd (ground arith)
        | inl (u, passed) ↦ (bytes, loaded, check_indices-Own bytes (ground arith), ground arith)
      ]
    ]

load_instruction-data :
    (at : Addresses) (ix : Instruction) (bytes : Bytes)
    → load_instruction at (some ix) ≡ ok bytes
    → ix.data' ≡ bytes
unfolding load_instruction
load_instruction-data at ix bytes h = ground arith

module _ {spl : Spl} (at : Addresses) (Signed : Bytes → Bytes → Type 0) (a : Accounts spl) (now : ℤ)
    (x : MintBridged) where
  signature_of :
      (c : BridgeConfig) (m : Pubkey)
      → ((ix : Instruction)
          → x.previous ≡ some ix
          → ix.program_id ≡ at.ed25519_program
          → Own ix.data'
          → Signed
              (slice ix.data' (u16_at ix.data' 6) 32)
              (slice ix.data' (u16_at ix.data' 10) (u16_at ix.data' 12)))
      → verify_ed25519_signature at x.previous c x.source_chain_id x.nonce x.recipient m x.amount
        ≡ ok tt
      → (key : Pubkey) × (is_authorized c.mpc_signers key ≡ true)
        × Signed key (mint_message x.source_chain_id x.nonce x.recipient m x.amount)
  signature_of c m precompile h =
      let message = mint_message x.source_chain_id x.nonce x.recipient m x.amount in
      let (bytes, loaded, own, passed) =
        verify_ed25519_signature-checks at x.previous c x.source_chain_id x.nonce x.recipient m
          x.amount h in
      let n : Names at x.previous c.mpc_signers message =
        named at x.previous c.mpc_signers message bytes loaded passed in
      let same : n.instruction.data' ≡ bytes =
        load_instruction-data at n.instruction bytes (rw n.found at loaded) in
      (
        slice n.instruction.data' (u16_at n.instruction.data' 6) 32,
        n.signer,
        rw n.text at (precompile n.instruction n.found n.program (rw same own)),
      )

  -- Where the Ed25519 program verifies the key and message that an instruction with its own three
  -- indices holds, every mint of the Solana bridge that goes through was on a live bridge, of an
  -- active token, and a configured signer's key signed exactly the tag of a mint and its chain,
  -- nonce, recipient, token and amount; the amount is minted to the account passed. A token with no
  -- daily limit keeps its record; else the amount and what its period has used, which is nothing
  -- once 86400 seconds are over, stay within the limit, and the record is stored with their sum.
  pub mint_bridged-Authentic :
      (precompile : (ix : Instruction)
        → x.previous ≡ some ix
        → ix.program_id ≡ at.ed25519_program
        → Own ix.data'
        → Signed
            (slice ix.data' (u16_at ix.data' 6) 32)
            (slice ix.data' (u16_at ix.data' 10) (u16_at ix.data' 12)))
      (b : Accounts spl) (e : Event)
      → Transfers.mint_bridged at a now x ≡ ok (b, e)
      → Authentic at Signed a now x b
  unfolding Transfers.mint_bridged Transfers.live_config Transfers.active_token
  mint_bridged-Authentic precompile b e h = elim (Option-cases a.config) [
    | inl missing ↦ absurd (ground arith)
    | inr (c, configured) ↦ elim (Option-cases (a.tokens x.mint)) [
      | inl unknown ↦ absurd (ground arith)
      | inr (t, registered) ↦ elim (Result-cases (check_daily_limit t x.amount now)) [
        | inr (f, failed) ↦ absurd (ground arith)
        | inl (u, limited) ↦
            let (key, authorized, signed) = signature_of c t.mint precompile (ground arith) in
            let wrapped : bytes_eq x.wrapped_mint t.wrapped_mint ≡ true = ground arith in
            record {
              config = c;
              configured = configured;
              live = ground arith;
              token = t;
              registered = registered;
              active = ground arith;
              key = key;
              authorized = authorized;
              signed = unfold mint_message in signed;
              charged = u;
              booked = check_daily_limit-Booked t x.amount now u limited;
              stored = ground (arith, bytes_eq_refl x.mint);
              paid = rw (sym (bytes_eq_sound _ _ wrapped)) (ground arith);
            }
      ]
    ]
  ]
