-- ===== src/Solana/Tests.antt =====
-- The Solana bridge on concrete inputs, and the theorems at concrete inputs.
use kinet_std.Shared.{
  insert_bytes, ◌<◌, ◌^◌, length, codes, replicate, true, ◌≡◌, ◌↔◌, refl, false, some, List, [],
  ◌∷◌, Bytes, ok, arith, All, sym, bytes_eq, to_le_bytes, u16_at,
}
use kinet_std.Shared.Int.{pos, add_i64}
use kinet_std.Spec.Replay.{Distinct, accepted}
use kinet_std.Solana.State
use kinet_std.Solana.State.{Event}
use kinet_std.Solana.Runtime.{Accounts, Instruction}
use kinet_std.Solana.Samples
use kinet_std.Solana.Ed25519
use kinet_std.Solana.Transfers
use kinet_std.Solana.Transfers.{MintBridged}
use kinet_std.Solana.Program.{Call}
use kinet_std.Solana.Replay
use kinet_std.Solana.Authenticity
use kinet_std.Solana.Recipient
use kinet_std.Solana.Messages
use kinet_std.Solana.Exact
use kinet_std.Solana.Client

minted :
    Transfers.mint_bridged Samples.addresses Samples.accounts (pos 90000) Samples.mint_call
    ≡ ok (Samples.minted_accounts, Samples.mint_event)
unfolding Transfers.mint_bridged Transfers.live_config Transfers.active_token
    Ed25519.verify_ed25519_signature Ed25519.load_instruction Ed25519.check_indices
    Ed25519.check_content Ed25519.mint_message State.is_authorized State.is_processed
    State.mark_processed State.test_bit State.set_bit State.check_daily_limit add_i64 bytes_eq
    to_le_bytes u16_at
minted = refl

-- Here `key 7` signs everything, and no other key signs anything.
abbrev SignedBySeven : Bytes → Bytes → Type 0
SignedBySeven k m = k ≡ Samples.key 7

own_key :
    (ix : Instruction)
    → Samples.mint_call.previous ≡ some ix
    → SignedBySeven
        (Ed25519.slice ix.data' (u16_at ix.data' 6) 32)
        (Ed25519.slice ix.data' (u16_at ix.data' 10) (u16_at ix.data' 12))
unfolding u16_at
own_key ix previous =
    let same : Samples.signed (Ed25519.mint_message 5 9 (Samples.key 21) (Samples.key 3) 700) ≡ ix =
      ground arith in
    rw (sym same) refl

mint_bridged-Authentic_example :
    Authenticity.Authentic Samples.addresses SignedBySeven Samples.accounts
      (pos 90000)
      Samples.mint_call
      Samples.minted_accounts
mint_bridged-Authentic_example =
    Authenticity.mint_bridged-Authentic Samples.addresses SignedBySeven Samples.accounts (pos 90000)
      Samples.mint_call (λ ix previous program own. own_key ix previous) Samples.minted_accounts
      Samples.mint_event minted

solana_mint_bridged_iff_example :
    (Transfers.mint_bridged Samples.addresses Samples.accounts (pos 90000) Samples.mint_call
      ≡ ok (Samples.minted_accounts, Samples.mint_event))
    ↔ Exact.Exactly Samples.addresses Samples.accounts
        (pos 90000)
        Samples.mint_call
        Samples.minted_accounts
        Samples.mint_event
solana_mint_bridged_iff_example =
    Exact.solana_mint_bridged_iff Samples.addresses Samples.accounts (pos 90000) Samples.mint_call
      Samples.minted_accounts Samples.mint_event Samples.accounts-IsTracker

-- The conditions of that mint hold.
minted-Exactly :
    Exact.Exactly Samples.addresses Samples.accounts
      (pos 90000)
      Samples.mint_call
      Samples.minted_accounts
      Samples.mint_event
minted-Exactly =
    (Exact.solana_mint_bridged_iff Samples.addresses Samples.accounts (pos 90000) Samples.mint_call
        Samples.minted_accounts Samples.mint_event Samples.accounts-IsTracker).0
      minted

-- The signed recipient is `key 21`; the relayer passes the account `key 66` of its own.
mint_bridged-recipient_unbound_example :
    Transfers.mint_bridged Samples.addresses Samples.accounts
      (pos 90000)
      (record Samples.mint_call { recipient_token = Samples.key 66 })
    ≡ ok (
      record Samples.minted_accounts {
        ledger = Samples.credit Samples.accounts.ledger (Samples.key 66) 700;
      },
      Samples.mint_event,
    )
mint_bridged-recipient_unbound_example =
    Recipient.mint_bridged-recipient_unbound Samples.addresses Samples.accounts (pos 90000)
      (Samples.key 66) Samples.mint_call Samples.minted_accounts Samples.mint_event minted
      (Samples.credit Samples.accounts.ledger (Samples.key 66) 700) refl

-- The same mint to another account, a while later.
abbrev later_call : MintBridged
later_call = record Samples.mint_call { recipient_token = Samples.key 66 }

abbrev later_accounts : Accounts Samples.plain_spl
later_accounts = record Samples.minted_accounts {
  tokens =
      insert_bytes Samples.accounts.tokens (Samples.key 3)
        (record Samples.token { daily_minted = 700; period_start = pos 95000 });
  ledger = Samples.credit Samples.accounts.ledger (Samples.key 66) 700;
}

abbrev later_event : Event
later_event = Event.mint 5 9 (Samples.key 3) (Samples.key 21) 700 (pos 95000)

minted_later :
    Transfers.mint_bridged Samples.addresses Samples.accounts (pos 95000) later_call
    ≡ ok (later_accounts, later_event)
unfolding Transfers.mint_bridged Transfers.live_config Transfers.active_token
    Ed25519.verify_ed25519_signature Ed25519.load_instruction Ed25519.check_indices
    Ed25519.check_content Ed25519.mint_message State.is_authorized State.is_processed
    State.mark_processed State.test_bit State.set_bit State.check_daily_limit add_i64 bytes_eq
    to_le_bytes u16_at
minted_later = refl

mint_call-InRange : Messages.InRange 5 9 (Samples.key 21) 700
mint_call-InRange = record {
  chain_u64 = omega arith;
  nonce_u64 = omega arith;
  recipient_32 = refl;
  amount_u64 = omega arith;
}

solana_one_meaning_example : Messages.untimed Samples.mint_event ≡ Messages.untimed later_event
solana_one_meaning_example =
    Messages.solana_one_meaning Samples.addresses Samples.accounts Samples.accounts (pos 90000)
      (pos 95000) (Messages.Inbound.mint Samples.mint_call) (Messages.Inbound.mint later_call)
      Samples.minted_accounts later_accounts Samples.mint_event later_event mint_call-InRange
      mint_call-InRange refl minted minted_later

-- The second transaction repeats the first.
abbrev pub transactions : List (Replay.Transaction Samples.plain_spl)
transactions =
    record {
      signer = Samples.key 21;
      now = pos 90000;
      ledger = Samples.accounts.ledger;
      call = Call.mint_bridged Samples.mint_call;
    }
    ∷ record {
      signer = Samples.key 21;
      now = pos 90001;
      ledger = Samples.accounts.ledger;
      call = Call.mint_bridged Samples.mint_call;
    }
    ∷ record {
      signer = Samples.key 21;
      now = pos 90002;
      ledger = Samples.accounts.ledger;
      call = Call.release Samples.release_call;
    }
    ∷ []

solana_no_replay_example :
    let keys =
      accepted
        (Replay.step Samples.addresses)
        Replay.transaction_key
        Samples.accounts
        transactions in
    Distinct keys × All (λ k. Replay.processed Samples.accounts k ≡ false) keys
solana_no_replay_example =
    Replay.solana_no_replay Samples.addresses Samples.accounts transactions
      Samples.accounts-IsTracker

-- What the client sends before the mint of `Samples.mint_call`, but with the signature of zeros.
abbrev message : Bytes
message = Ed25519.mint_message 5 9 (Samples.key 21) (Samples.key 3) 700

message_is_short : length message < 2 ^ 16
unfolding Ed25519.mint_message to_le_bytes
message_is_short = omega arith

build_ed25519_ix-verify_ed25519_signature_example :
    (Ed25519.verify_ed25519_signature Samples.addresses
        (some (Client.build_ed25519_ix Samples.addresses (Samples.key 7) message (replicate 64 0)))
        Samples.config
        5
        9
        (Samples.key 21)
        (Samples.key 3)
        700
      ≡ ok tt)
    ↔ ((State.is_authorized Samples.config.mpc_signers (Samples.key 7) ≡ true)
        × (message
            ≡ Client.build_bridge_message
                (codes "KNT_BRIDGE_MINT")
                5
                9
                (Samples.key 21)
                (Samples.key 3)
                700))
build_ed25519_ix-verify_ed25519_signature_example =
    Client.build_ed25519_ix-verify_ed25519_signature Samples.addresses (Samples.key 7) message
      (replicate 64 0) refl refl message_is_short Samples.config 5 9 (Samples.key 21)
      (Samples.key 3) 700
