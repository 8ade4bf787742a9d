-- ===== src/Cosmos/Authorize.antt =====
-- What `authorize` asks of a mint or a release of the CosmWasm bridge.
use kinet_std.Shared.{
  ◌≡◌, Bool, true, false, some, ok, unwrap_or, arith, contains, Bytes, inl, inr, Key, Option-cases,
}
use kinet_std.Cosmos.State.{Config, Storage, Inbound, StdError, Runtime}
use kinet_std.Cosmos.Contract

abbrev pub processed : Storage → Key → Bool
processed s k = unwrap_or (s.processed_nonces k) false

abbrev pub key_of : Inbound → Key
key_of m = (m.source_chain_id, m.nonce)

-- The bridge is live, the nonce is unused, and one configured signer has signed the message.
pub record Authorized (rt : Runtime) (s : Storage) (m : Inbound) (message : Bytes) : Type 0 where
  pub config : Config
  pub loaded : s.config ≡ some config
  pub live : config.paused ≡ false
  pub fresh : processed s (key_of m) ≡ false
  pub signer : contains config.mpc_signers m.signer_pubkey ≡ true
  pub signature : Bytes
  pub sig_decoded : rt.hex_decode m.signature ≡ some signature
  pub pubkey : Bytes
  pub pk_decoded : rt.hex_decode m.signer_pubkey ≡ some pubkey
  pub verified : rt.ed25519_verify message signature pubkey ≡ some true

module _ (rt : Runtime) where
  pub authorize-Authorized :
      (s : Storage) (m : Inbound) (message : Bytes) (e f g : StdError)
      → Contract.authorize rt s m message e f g ≡ ok tt
      → Authorized rt s m message
  unfolding Contract.authorize
  authorize-Authorized s m message e f g h = elim (Option-cases s.config) [
    | inl missing ↦ absurd (ground arith)
    | inr (config, loaded) ↦ elim (Option-cases (rt.hex_decode m.signature)) [
      | inl bad_sig ↦ absurd (ground arith)
      | inr (signature, sig_decoded) ↦ elim (Option-cases (rt.hex_decode m.signer_pubkey)) [
        | inl bad_pk ↦ absurd (ground arith)
        | inr (pubkey, pk_decoded) ↦ record {
          config = config;
          loaded = loaded;
          live = ground arith;
          fresh = ground arith;
          signer = ground arith;
          signature = signature;
          sig_decoded = sig_decoded;
          pubkey = pubkey;
          pk_decoded = pk_decoded;
          verified = ground arith;
        }
      ]
    ]
  ]

  pub Authorized-authorize :
      (s : Storage) (m : Inbound) (message : Bytes) (e f g : StdError)
      → Authorized rt s m message
      → Contract.authorize rt s m message e f g ≡ ok tt
  unfolding Contract.authorize
  Authorized-authorize s m message e f g a = ground arith
