-- ===== src/Polkadot/Inbound.antt =====
-- What a mint or a release of the Polkadot bridge needs, and what it does.
use kinet_std.Shared.{
  ◌≡◌, ◌≢◌, ◌↔◌, Bool, true, false, some, none, [], ◌∷◌, Bytes, contains, ok, arith, Key,
  insert_key, unwrap_or, Option-cases, inl, inr,
}
use kinet_std.Polkadot.State.{Chain, Event, Inbound, KntBridge, Outcome, State}
use kinet_std.Polkadot.Contract

abbrev pub processed : KntBridge → Key → Bool
processed b k = unwrap_or (b.processed_nonces k) false

abbrev pub key_of : Inbound → Key
key_of m = (m.source_chain_id, m.nonce)

module _ {chain : Chain} where
  -- What the code asks of an inbound transfer: live, unused, the name of a configured key, and a
  -- balance that covers the amount. The signature does not occur.
  pub record Payable (s : State chain) (m : Inbound) (l : chain.Ledger) : Type 0 where
    pub live : s.bridge.paused ≡ false
    pub listed : contains s.bridge.mpc_signers m.signer_pubkey ≡ true
    pub fresh : processed s.bridge (key_of m) ≡ false
    pub covered : chain.transfer s.ledger m.recipient m.amount ≡ some l

  -- What it does: the key is processed, the amount is paid, and nothing else changes.
  abbrev pub after : State chain → Inbound → chain.Ledger → State chain
  after s m l = record {
    bridge = record s.bridge {
      processed_nonces = insert_key s.bridge.processed_nonces (key_of m) true;
    };
    ledger = l;
  }

  pub mint_bridged-went :
      (s : State chain) (m : Inbound) (t : State chain) (o : Outcome)
      → Contract.mint_bridged s m ≡ ok (t, o)
      → (l : chain.Ledger) × Payable s m l
        × (m.amount ≢ 0)
        × (t ≡ after s m l)
        × (o.events ≡ Event.mint m.source_chain_id m.nonce m.recipient m.amount ∷ [])
  unfolding Contract.mint_bridged
  mint_bridged-went s m t o h = elim (Option-cases (chain.transfer s.ledger m.recipient m.amount)) [
    | inl refused ↦ absurd (ground arith)
    | inr (l, covered) ↦ (l, ground arith, ground arith, ground arith, ground arith)
  ]

  pub release-went :
      (s : State chain) (m : Inbound) (t : State chain) (o : Outcome)
      → Contract.release s m ≡ ok (t, o)
      → (l : chain.Ledger) × Payable s m l
        × (t ≡ after s m l)
        × (o.events ≡ Event.release m.source_chain_id m.nonce m.recipient m.amount ∷ [])
  unfolding Contract.release
  release-went s m t o h = elim (Option-cases (chain.transfer s.ledger m.recipient m.amount)) [
    | inl refused ↦ absurd (ground arith)
    | inr (l, covered) ↦ (l, ground arith, ground arith, ground arith)
  ]

  -- On a live Polkadot bridge a mint that names a configured key, an unused nonce and an amount that
  -- is not 0 and that the balance covers goes through, whatever its signature is.
  pub mint_bridged-unsigned :
      (s : State chain) (m : Inbound) (l : chain.Ledger) (forged : Bytes)
      → Payable s m l
      → m.amount ≢ 0
      → Contract.mint_bridged s (record m { signature = forged })
        ≡ ok (
          after s m l,
          record {
            returned = none;
            events = Event.mint m.source_chain_id m.nonce m.recipient m.amount ∷ [];
          },
        )
  unfolding Contract.mint_bridged
  mint_bridged-unsigned s m l forged p positive = ground arith

  -- A mint goes through exactly when it is payable and its amount is not 0, and then it does what
  -- `after` says.
  pub mint_bridged_iff :
      (s : State chain) (m : Inbound) (t : State chain)
      → ((o : Outcome) × (Contract.mint_bridged s m ≡ ok (t, o)))
        ↔ ((l : chain.Ledger) × Payable s m l × (m.amount ≢ 0) × (t ≡ after s m l))
  mint_bridged_iff s m t = (
    λ (o, went). let (l, p, n, e, _) = mint_bridged-went s m t o went in (l, p, n, e),
    λ (l, p, n, e). (
      record {
        returned = none;
        events = Event.mint m.source_chain_id m.nonce m.recipient m.amount ∷ [];
      },
      rw e (mint_bridged-unsigned s m l m.signature p n),
    ),
  )
