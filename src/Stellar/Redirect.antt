-- ===== src/Stellar/Redirect.antt =====
-- What a signature and an event of the Stellar bridge leave open.
use kinet_std.Shared.{
  ℕ, ◌≤◌, ◌≡◌, refl, Bool, true, false, some, none, [], ◌∷◌, Bytes, contains, ok, arith, insert_key,
  bytes_eq_refl,
}
use kinet_std.Shared.Int.{pos, ◌<ℤ◌}
use kinet_std.Stellar.State.{BridgeConfig, Event, Host, Inbound, Outbound, Outcome, Storage}
use kinet_std.Stellar.Contract
use kinet_std.Stellar.Inbound.{
  key_of, Minted, mint_bridged-Minted, mint_bridged_complete, processed,
}

module _ {host : Host} where
  -- Where a mint of the Stellar bridge goes through, the same signature in its place also pays the
  -- same amount of any other token that the bridge can transfer, to any other recipient.
  pub mint_bridged-redirected :
      (s : Storage host) (m : Inbound) (t : Storage host) (o : Outcome) (token thief : Bytes)
      (l : host.Ledger)
      → Contract.mint_bridged s m ≡ ok (t, o)
      → host.transfer s.ledger token host.contract_address thief m.amount ≡ some l
      → Contract.mint_bridged s (record m { token_addr = token; recipient = thief })
        ≡ ok (
          record s { nonces = insert_key s.nonces (key_of m) true; ledger = l },
          record {
            returned = none;
            events = Event.mint m.source_chain_id m.nonce thief m.amount ∷ [];
          },
        )
  unfolding Contract.build_mint_message
  mint_bridged-redirected s m t o token thief l went paid =
      let p : Minted s m t o = mint_bridged-Minted s m t o went in
      mint_bridged_complete s (record m { token_addr = token; recipient = thief }) p.config l
        p.loaded p.live p.positive p.signer p.fresh p.signed paid

  -- Whatever the storage of the Stellar bridge, anyone makes a key of theirs the only signer by an
  -- `initialize`, and a signature of that key then mints any amount that the bridge can transfer,
  -- under any unused nonce.
  pub initialize-mint_bridged :
      (s : Storage host) (admin : Bytes) (threshold fee : ℕ) (m : Inbound) (l : host.Ledger)
      → fee ≤ 500
      → pos 0 <ℤ m.amount
      → processed s (key_of m) ≡ false
      → host.ed25519_verify m.signer_pubkey
          (host.sha256 (Contract.build_mint_message m.source_chain_id m.nonce m.recipient m.amount))
          m.signature
        ≡ true
      → host.transfer s.ledger m.token_addr host.contract_address m.recipient m.amount ≡ some l
      → (taken : Storage host) × (o : Outcome) × (t : Storage host) × (p : Outcome)
        × (Contract.initialize s admin (m.signer_pubkey ∷ []) threshold fee ≡ ok (taken, o))
        × (Contract.mint_bridged taken m ≡ ok (t, p))
        × (t.ledger ≡ l)
  unfolding Contract.initialize contains
  initialize-mint_bridged s admin threshold fee m l low positive fresh signed paid =
      let c : BridgeConfig = record {
        admin = admin;
        mpc_signers = m.signer_pubkey ∷ [];
        threshold = threshold;
        fee_bps = fee;
        paused = false;
        outbound_nonce = 0;
        total_locked = pos 0;
        total_burned = pos 0;
      } in
      let taken : Storage host = record s { config = some c } in
      (
        taken,
        record { returned = none; events = [] },
        record taken { nonces = insert_key s.nonces (key_of m) true; ledger = l },
        record {
          returned = none;
          events = Event.mint m.source_chain_id m.nonce m.recipient m.amount ∷ [];
        },
        ground arith,
        mint_bridged_complete taken m c l refl refl positive
            (ground (arith, bytes_eq_refl m.signer_pubkey)) fresh signed paid,
        refl,
      )

  -- Where a lock of the Stellar bridge goes through, one of any other token that the sender can
  -- transfer, a worthless one too, has the same effect on the totals and publishes the same event.
  pub lock_and_bridge-token_unnamed :
      (auth : Bytes → Bool) (s : Storage host) (x : Outbound) (t : Storage host) (o : Outcome)
      (token : Bytes) (l : host.Ledger)
      → Contract.lock_and_bridge auth s x ≡ ok (t, o)
      → host.transfer s.ledger token x.sender host.contract_address x.amount ≡ some l
      → Contract.lock_and_bridge auth s (record x { token_addr = token })
        ≡ ok (record t { ledger = l }, o)
  unfolding Contract.lock_and_bridge
  lock_and_bridge-token_unnamed auth s x t o token l went paid = ground arith
