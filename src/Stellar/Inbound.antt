-- ===== src/Stellar/Inbound.antt =====
-- What a mint of the Stellar bridge needs and does, what its signature leaves open, and that it goes
-- through at most once.
use kinet_std.Shared.{
  ◌≡◌, Bool, true, false, some, none, [], ◌∷◌, contains, ok, arith, Key, insert_key, is_some,
  Option-cases, inl, inr,
}
use kinet_std.Shared.Int.{pos, ◌<ℤ◌}
use kinet_std.Stellar.State.{BridgeConfig, Event, Host, Inbound, Outcome, Storage}
use kinet_std.Stellar.Contract

abbrev pub processed : {host : Host} → Storage host → Key → Bool
processed s k = is_some (s.nonces k)

abbrev pub key_of : Inbound → Key
key_of m = (m.source_chain_id, m.nonce)

module _ {host : Host} where
  -- A mint: live, of a positive amount, under an unused nonce, with a configured key's signature
  -- over the hash of its message; it files the nonce and pays the amount from the bridge.
  pub record Minted (s : Storage host) (m : Inbound) (t : Storage host) (o : Outcome) : Type 0 where
    pub config : BridgeConfig
    pub loaded : s.config ≡ some config
    pub live : config.paused ≡ false
    pub positive : pos 0 <ℤ m.amount
    pub signer : contains config.mpc_signers m.signer_pubkey ≡ true
    pub fresh : processed s (key_of m) ≡ false
    pub signed :
        host.ed25519_verify m.signer_pubkey
          (host.sha256 (Contract.build_mint_message m.source_chain_id m.nonce m.recipient m.amount))
          m.signature
        ≡ true
    pub ledger : host.Ledger
    pub paid :
        host.transfer s.ledger m.token_addr host.contract_address m.recipient m.amount ≡ some ledger
    pub state_after : t ≡ record s { nonces = insert_key s.nonces (key_of m) true; ledger = ledger }
    pub published : o.events ≡ Event.mint m.source_chain_id m.nonce m.recipient m.amount ∷ []

  -- Every mint of the Stellar bridge that goes through is a `Minted` one.
  pub mint_bridged-Minted :
      (s : Storage host) (m : Inbound) (t : Storage host) (o : Outcome)
      → Contract.mint_bridged s m ≡ ok (t, o)
      → Minted s m t o
  unfolding Contract.mint_bridged
  mint_bridged-Minted s m t o h = elim (Option-cases s.config) [
    | inl missing ↦ absurd (ground arith)
    | inr (config, loaded) ↦
        elim (Option-cases
          (host.transfer s.ledger m.token_addr host.contract_address m.recipient m.amount)) [
            | inl refused ↦ absurd (ground arith)
            | inr (ledger, paid) ↦ record {
              config = config;
              loaded = loaded;
              live = ground arith;
              positive = ground arith;
              signer = ground arith;
              fresh = ground arith;
              signed = ground arith;
              ledger = ledger;
              paid = paid;
              state_after = ground arith;
              published = ground arith;
            }
          ]
  ]

  pub mint_bridged_complete :
      (s : Storage host) (m : Inbound) (c : BridgeConfig) (l : host.Ledger)
      → s.config ≡ some c
      → c.paused ≡ false
      → pos 0 <ℤ m.amount
      → contains c.mpc_signers m.signer_pubkey ≡ true
      → processed s (key_of m) ≡ false
      → host.ed25519_verify m.signer_pubkey
          (host.sha256 (Contract.build_mint_message m.source_chain_id m.nonce m.recipient m.amount))
          m.signature
        ≡ true
      → host.transfer s.ledger m.token_addr host.contract_address m.recipient m.amount ≡ some l
      → Contract.mint_bridged s m
        ≡ ok (
          record s { nonces = insert_key s.nonces (key_of m) true; ledger = l },
          record {
            returned = none;
            events = Event.mint m.source_chain_id m.nonce m.recipient m.amount ∷ [];
          },
        )
  unfolding Contract.mint_bridged
  mint_bridged_complete s m c l loaded live positive signer fresh signed paid = ground arith
