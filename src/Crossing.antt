-- ===== src/Crossing.antt =====
-- Signatures across bridges: programs/near-bridge/src/lib.rs beside
-- programs/cosmos-bridge/contracts/knt-bridge/src/contract.rs. Both lay their messages out alike, and
-- neither names the chain that is to pay.
pub mod Settled
mod Tests
mod Trips
use kinet_std.Shared.{
  ℕ, ◌<◌, ◌≡◌, refl, Bool, true, false, Bytes, contains, length, ok, some, [], ◌∷◌,
}
use kinet_std.Cosmos.State.{Inbound as CosmosTransfer, Response, Runtime, Storage}
use kinet_std.Cosmos.Contract as CosmosContract
use kinet_std.Cosmos.Authorize.{Authorized as CosmosAuthorized}
use kinet_std.Cosmos.Inbound.{mint_bridged-Minted as cosmos_mint-Minted}
use kinet_std.Near.State.{AccountId, Inbound, KntBridge, Outcome}
use kinet_std.Near.Contract
use kinet_std.Near.Inbound.{Authorized, mint_bridged-goes_through, mint_bridged-Minted, processed}

same_message :
    (chain nonce : ℕ) (recipient : AccountId) (amount : ℕ)
    → CosmosContract.build_mint_message chain nonce recipient.text amount
      ≡ Contract.build_mint_message chain nonce recipient amount
unfolding CosmosContract.build_mint_message Contract.build_mint_message
same_message chain nonce recipient amount = refl

-- The same transfer, as a call of the NEAR bridge for an account.
abbrev pub carried : CosmosTransfer → AccountId → (signature pubkey : Bytes) → Inbound
carried m recipient signature pubkey = record {
  source_chain_id = m.source_chain_id;
  nonce = m.nonce;
  recipient = recipient;
  amount = m.amount;
  signature = signature;
  signer_pubkey = pubkey;
}

module _ (rt : Runtime) (verify : (signature message pubkey : Bytes) → Bool)
    (agree : (message signature pubkey : Bytes)
      → rt.ed25519_verify message signature pubkey ≡ some true
      → verify signature message pubkey ≡ true) where
  -- Where both chains check the same signatures, one with which a mint of the CosmWasm bridge went
  -- through also mints on a live NEAR bridge that lists the same key and has not used the nonce, if
  -- the recipient's text is a NEAR account id, key and signature have the lengths of Ed25519 and the
  -- amount is not 0: it promises the amount once more, in NEAR, to the account of that id.
  pub mint_bridged-crosses :
      (s : Storage) (now : ℕ) (m : CosmosTransfer) (t : Storage) (r : Response) (b : KntBridge)
      (recipient : AccountId) (signature pubkey : Bytes)
      → recipient.text ≡ m.recipient
      → CosmosContract.mint_bridged rt s now m ≡ ok (t, r)
      → rt.hex_decode m.signature ≡ some signature
      → rt.hex_decode m.signer_pubkey ≡ some pubkey
      → b.paused ≡ false
      → 0 < m.amount
      → length signature ≡ 64
      → length pubkey ≡ 32
      → contains b.mpc_signers pubkey ≡ true
      → processed b (m.source_chain_id, m.nonce) ≡ false
      → (t' : KntBridge) × (o : Outcome) × (Contract.mint_bridged verify b
            (carried m recipient signature pubkey)
          ≡ ok (t', o))
        × (o.promises ≡ record { receiver = recipient; amount = m.amount } ∷ [])
  mint_bridged-crosses s now m t r b recipient signature pubkey named went sig pk live positive long
        key listed fresh =
      let x : Inbound = carried m recipient signature pubkey in
      let message : Bytes =
        Contract.build_mint_message m.source_chain_id m.nonce recipient m.amount in
      let p : CosmosAuthorized rt s m
          (CosmosContract.build_mint_message m.source_chain_id m.nonce m.recipient m.amount) =
        (cosmos_mint-Minted rt s now m t r went).authorized in
      let same_sig : p.signature ≡ signature = cc (p.sig_decoded, sig) in
      let same_pk : p.pubkey ≡ pubkey = cc (p.pk_decoded, pk) in
      let verified : rt.ed25519_verify message signature pubkey ≡ some true = cc (
        p.verified,
        same_sig,
        same_pk,
        rw named at (same_message m.source_chain_id m.nonce recipient m.amount),
      ) in
      let authorized : Authorized verify b x message = record {
        live = live;
        key_length = key;
        signer = listed;
        fresh = fresh;
        signature_length = long;
        signed = agree message signature pubkey verified;
      } in
      let (t', o, mints) = mint_bridged-goes_through verify b x authorized positive in
      (t', o, mints, (mint_bridged-Minted verify b x t' o mints).paid)
