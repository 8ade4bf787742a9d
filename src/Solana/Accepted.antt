-- ===== src/Solana/Accepted.antt =====
-- What a mint of the Solana bridge checks, step by step, and what it leaves behind.
use kinet_std.Shared.{
  ℕ, ◌+◌, ◌≤◌, ◌≡◌, true, false, Option, some, Bytes, ok, arith, Option-cases, Result-cases, inl,
  inr, bytes_eq, bytes_eq_sound, bytes_eq_refl, u16_at, length, insert_bytes, insert_nat,
}
use kinet_std.Shared.Int.{ℤ}
use kinet_std.Solana.State.{
  Pubkey, Event, Signers, is_authorized, BridgeConfig, TokenConfig, NonceTracker, is_processed,
  mark_processed, check_daily_limit,
}
use kinet_std.Solana.Runtime.{Spl, Addresses, Accounts, Instruction}
use kinet_std.Solana.Ed25519.{
  slice, mint_message, load_instruction, check_indices, check_content, verify_ed25519_signature,
}
use kinet_std.Solana.Authenticity.{Own}
use kinet_std.Solana.Transfers
use kinet_std.Solana.Transfers.{MintBridged}

-- The instruction before is the Ed25519 program's, with its own three indices, and its data hold a
-- signer's key and the message at the offsets they give.
pub record Carries (at : Addresses) (previous : Option Instruction) (signers : Signers)
    (message : Bytes) : Type 0 where
  pub instruction : Instruction
  pub found : previous ≡ some instruction
  pub program : instruction.program_id ≡ at.ed25519_program
  pub long : 112 ≤ length instruction.data'
  pub own : Own instruction.data'
  pub key_inside : u16_at instruction.data' 6 + 32 ≤ length instruction.data'
  pub signer :
      is_authorized signers (slice instruction.data' (u16_at instruction.data' 6) 32) ≡ true
  pub text_inside :
      u16_at instruction.data' 10 + u16_at instruction.data' 12 ≤ length instruction.data'
  pub text :
      slice instruction.data' (u16_at instruction.data' 10) (u16_at instruction.data' 12) ≡ message

module _ (at : Addresses) (previous : Option Instruction) (c : BridgeConfig) (s n : ℕ)
    (r m : Pubkey) (v : ℕ) where
  verify_ed25519_signature-Carries :
      verify_ed25519_signature at previous c s n r m v ≡ ok tt
      → Carries at previous c.mpc_signers (mint_message s n r m v)
  unfolding verify_ed25519_signature load_instruction check_indices check_content
  verify_ed25519_signature-Carries h = elim (Option-cases previous) [
    | inl missing ↦ absurd (ground arith)
    | inr (ix, found) ↦ record {
      instruction = ix;
      found = found;
      program = bytes_eq_sound _ _ (ground arith);
      long = ground arith;
      own = record {
        count = ground arith;
        signature_index = ground arith;
        key_index = ground arith;
        message_index = ground arith;
      };
      key_inside = ground arith;
      signer = ground arith;
      text_inside = ground arith;
      text = bytes_eq_sound _ _ (ground arith);
    }
  ]

  Carries-verify_ed25519_signature :
      Carries at previous c.mpc_signers (mint_message s n r m v)
      → verify_ed25519_signature at previous c s n r m v ≡ ok tt
  unfolding verify_ed25519_signature load_instruction check_indices check_content
  Carries-verify_ed25519_signature p =
      let program : bytes_eq p.instruction.program_id at.ed25519_program ≡ true =
        rw p.program (bytes_eq_refl at.ed25519_program) in
      let bytes = p.instruction.data' in
      let text : bytes_eq (slice bytes (u16_at bytes 10) (u16_at bytes 12)) (mint_message s n r m v)
          ≡ true =
        rw p.text (bytes_eq_refl (mint_message s n r m v)) in
      let own = p.own in
      ground (
        arith, p.found, program, p.long, own.count, own.signature_index, own.key_index,
        own.message_index, p.key_inside, p.signer, p.text_inside, text,
      )

-- A mint: on a live bridge, of an active token by its wrapped mint, under a nonce that the tracker
-- of its source chain has not marked, signed, within the limit, and paid by the token program. The
-- nonce is marked, the counter of the token updated, and the event says the signed arguments.
pub record Accepted {spl : Spl} (at : Addresses) (a : Accounts spl) (now : ℤ) (x : MintBridged)
    (b : Accounts spl) (e : Event) : Type 0 where
  pub config : BridgeConfig
  pub configured : a.config ≡ some config
  pub live : config.paused ≡ false
  pub token : TokenConfig
  pub registered : a.tokens x.mint ≡ some token
  pub active : token.active ≡ true
  pub wrapped : x.wrapped_mint ≡ token.wrapped_mint
  pub tracker : NonceTracker
  pub tracked : a.trackers x.source_chain_id ≡ some tracker
  pub fresh : is_processed tracker x.nonce ≡ false
  pub carried :
      Carries at x.previous config.mpc_signers
        (mint_message x.source_chain_id x.nonce x.recipient token.mint x.amount)
  pub charged : TokenConfig
  pub limited : check_daily_limit token x.amount now ≡ ok charged
  pub ledger : spl.Ledger
  pub paid :
      spl.mint_to a.ledger x.wrapped_mint x.recipient_token at.mint_authority x.amount ≡ some ledger
  pub marked : NonceTracker
  pub marks : mark_processed tracker x.nonce ≡ ok marked
  pub accounts_after : b ≡ record a {
    tokens = insert_bytes a.tokens x.mint charged;
    trackers = insert_nat a.trackers x.source_chain_id marked;
    ledger = ledger;
  }
  pub event : e ≡ Event.mint x.source_chain_id x.nonce token.mint x.recipient x.amount now

module _ {spl : Spl} (at : Addresses) (a : Accounts spl) (now : ℤ) (x : MintBridged)
    (b : Accounts spl) (e : Event) where
  pub mint_bridged-Accepted :
      Transfers.mint_bridged at a now x ≡ ok (b, e) → Accepted at a now x b e
  unfolding Transfers.mint_bridged Transfers.live_config Transfers.active_token
  mint_bridged-Accepted h = elim (Option-cases a.config) [
    | inl missing ↦ absurd (ground arith)
    | inr (c, configured) ↦ elim (Option-cases (a.tokens x.mint)) [
      | inl unknown ↦ absurd (ground arith)
      | inr (t, registered) ↦ elim (Option-cases (a.trackers x.source_chain_id)) [
        | inl untracked ↦ absurd (ground arith)
        | inr (k, tracked) ↦ elim (Result-cases (check_daily_limit t x.amount now)) [
          | inr (f, over) ↦ absurd (ground arith)
          | inl (u, limited) ↦
              elim (Option-cases (
                spl.mint_to a.ledger x.wrapped_mint x.recipient_token at.mint_authority x.amount)) [
                  | inl refused ↦ absurd (ground arith)
                  | inr (l, paid) ↦ elim (Result-cases (mark_processed k x.nonce)) [
                    | inr (f, full) ↦ absurd (ground arith)
                    | inl (k', marks) ↦ record {
                      config = c;
                      configured = configured;
                      live = ground arith;
                      token = t;
                      registered = registered;
                      active = ground arith;
                      wrapped = bytes_eq_sound _ _ (ground arith);
                      tracker = k;
                      tracked = tracked;
                      fresh = ground arith;
                      carried =
                          verify_ed25519_signature-Carries at x.previous c x.source_chain_id x.nonce
                            x.recipient t.mint x.amount (ground arith);
                      charged = u;
                      limited = limited;
                      ledger = l;
                      paid = paid;
                      marked = k';
                      marks = marks;
                      accounts_after = ground arith;
                      event = ground arith;
                    }
                  ]
                ]
        ]
      ]
    ]
  ]

  pub Accepted-mint_bridged :
      Accepted at a now x b e → Transfers.mint_bridged at a now x ≡ ok (b, e)
  unfolding Transfers.mint_bridged Transfers.live_config Transfers.active_token
  Accepted-mint_bridged p =
      let verified =
        Carries-verify_ed25519_signature at x.previous p.config x.source_chain_id x.nonce
          x.recipient p.token.mint x.amount p.carried in
      let wrapped : bytes_eq x.wrapped_mint p.token.wrapped_mint ≡ true =
        rw p.wrapped (bytes_eq_refl p.token.wrapped_mint) in
      ground (
        arith, p.configured, p.live, p.registered, p.active, wrapped, p.tracked, p.fresh, verified,
        p.limited, p.paid, p.marks, p.accounts_after, p.event,
      )
