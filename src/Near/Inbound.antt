-- ===== src/Near/Inbound.antt =====
-- What a mint or a release of the NEAR bridge needs, and what it does.
use kinet_std.Shared.{
  ℕ, ◌<◌, ◌≡◌, ◌↔◌, Bool, true, false, ◌||◌, none, [], ◌∷◌, Bytes, codes, bytes_eq, bytes_eq_refl,
  bytes_eq_sound, contains, insert_bytes, ok, unwrap_or, arith, length, Key, key_eq, to_string,
  to_string-injective, to_string-below_colon, split_at_colon, Result-cases, Bool-cases, inl, inr,
  key_eq_iff,
}
use kinet_std.Near.State.{KntBridge, Inbound, Outcome}
use kinet_std.Near.Contract

-- Whether a (source chain, nonce) stands among the processed ones.
abbrev pub processed : KntBridge → Key → Bool
processed b k = unwrap_or (b.processed_nonces (Contract.nonce_key k.0 k.1)) false

abbrev pub key_of : Inbound → Key
key_of m = (m.source_chain_id, m.nonce)

-- The text under which a nonce is filed determines it.
pub nonce_key-injective :
    (c n c' n' : ℕ) → Contract.nonce_key c n ≡ Contract.nonce_key c' n' → (c ≡ c') × (n ≡ n')
unfolding Contract.nonce_key
nonce_key-injective c n c' n' e =
    let (p, q) =
      split_at_colon (to_string c) (to_string c') (to_string-below_colon c)
        (to_string-below_colon c') e in
    (to_string-injective c c' p, to_string-injective n n' q)

bytes_eq-nonce_key :
    (j k : Key) → bytes_eq (Contract.nonce_key j.0 j.1) (Contract.nonce_key k.0 k.1) ≡ key_eq j k
bytes_eq-nonce_key j k = elim (Bool-cases (key_eq j k)) [
  | inl same ↦ rw (same, (key_eq_iff j k).0 same) (bytes_eq_refl _)
  | inr other ↦
      elim (Bool-cases (bytes_eq (Contract.nonce_key j.0 j.1) (Contract.nonce_key k.0 k.1))) [
        | inl equal ↦
            let (p, q) = nonce_key-injective j.0 j.1 k.0 k.1 (bytes_eq_sound _ _ equal) in
            ground arith
        | inr differs ↦ cc
      ]
]

-- After a key is filed, exactly it and those filed before are processed.
pub processed-insert_bytes :
    (b : KntBridge) (j k : Key)
    → let filed = insert_bytes b.processed_nonces (Contract.nonce_key j.0 j.1) true in
      processed (record b { processed_nonces = filed }) k ≡ key_eq j k || processed b k
processed-insert_bytes b j k = ground (arith, bytes_eq-nonce_key j k)

-- The conditions of an inbound transfer over a message: live, unused, and signed by one of the
-- configured keys.
pub record Authorized (verify : Bytes → Bytes → Bytes → Bool) (b : KntBridge) (m : Inbound)
    (message : Bytes) : Type 0 where
  pub live : b.paused ≡ false
  pub key_length : length m.signer_pubkey ≡ 32
  pub signer : contains b.mpc_signers m.signer_pubkey ≡ true
  pub fresh : processed b (key_of m) ≡ false
  pub signature_length : length m.signature ≡ 64
  pub signed : verify m.signature message m.signer_pubkey ≡ true

-- What an inbound transfer does to the state: its key is filed, so exactly it and those before are
-- processed, and nothing else changes.
pub record Consumed (b : KntBridge) (m : Inbound) (t : KntBridge) : Type 0 where
  pub marked : (k : Key) → processed t k ≡ key_eq (key_of m) k || processed b k
  pub stored : t ≡ record b {
    processed_nonces =
        insert_bytes b.processed_nonces (Contract.nonce_key m.source_chain_id m.nonce) true;
  }

-- A mint: authorized over its chain, nonce, recipient and amount, which is not 0; it consumes its
-- key, and promises and logs exactly the amount to the recipient.
pub record Minted (verify : Bytes → Bytes → Bytes → Bool) (b : KntBridge) (m : Inbound)
    (t : KntBridge) (o : Outcome) : Type 0 where
  pub authorized :
      Authorized verify b m
        (Contract.build_mint_message m.source_chain_id m.nonce m.recipient m.amount)
  pub positive : 0 < m.amount
  pub consumed : Consumed b m t
  pub silent : o.returned ≡ none
  pub paid : o.promises ≡ record { receiver = m.recipient; amount = m.amount } ∷ []
  pub logged :
      o.logs
      ≡ record {
        event_type = codes "mint";
        source_chain = m.source_chain_id;
        dest_chain = Contract.near_chain_id;
        nonce = m.nonce;
        sender = codes "bridge";
        recipient = m.recipient.text;
        amount = to_string m.amount;
      }
        ∷ []

-- A release, likewise: of any amount, and with nothing logged.
pub record Released (verify : Bytes → Bytes → Bytes → Bool) (b : KntBridge) (m : Inbound)
    (t : KntBridge) (o : Outcome) : Type 0 where
  pub authorized :
      Authorized verify b m
        (Contract.build_release_message m.source_chain_id m.nonce m.recipient m.amount)
  pub consumed : Consumed b m t
  pub silent : o.returned ≡ none
  pub paid : o.promises ≡ record { receiver = m.recipient; amount = m.amount } ∷ []
  pub logged : o.logs ≡ []

module _ (verify : (signature message pubkey : Bytes) → Bool) where
  consumed_lem :
      (b : KntBridge) (m : Inbound) (t : KntBridge)
      → t ≡ record b {
        processed_nonces =
            insert_bytes b.processed_nonces (Contract.nonce_key m.source_chain_id m.nonce) true;
      }
      → Consumed b m t
  consumed_lem b m t e = record {
    marked = λ k. rw e (processed-insert_bytes b (key_of m) k);
    stored = e;
  }

  -- Every mint that goes through is a `Minted` one.
  pub mint_bridged-Minted :
      (b : KntBridge) (m : Inbound) (t : KntBridge) (o : Outcome)
      → Contract.mint_bridged verify b m ≡ ok (t, o)
      → Minted verify b m t o
  unfolding Contract.mint_bridged Contract.copy_from_slice
  mint_bridged-Minted b m t o h = record {
    authorized = ground arith;
    positive = ground arith;
    consumed = consumed_lem b m t (ground arith);
    silent = ground arith;
    paid = ground arith;
    logged = ground arith;
  }

  -- Every release that goes through is a `Released` one.
  pub release-Released :
      (b : KntBridge) (m : Inbound) (t : KntBridge) (o : Outcome)
      → Contract.release verify b m ≡ ok (t, o)
      → Released verify b m t o
  unfolding Contract.release Contract.copy_from_slice
  release-Released b m t o h = record {
    authorized = ground arith;
    consumed = consumed_lem b m t (ground arith);
    silent = ground arith;
    paid = ground arith;
    logged = ground arith;
  }

  pub mint_bridged-goes_through :
      (b : KntBridge) (m : Inbound)
      → Authorized verify b m
          (Contract.build_mint_message m.source_chain_id m.nonce m.recipient m.amount)
      → 0 < m.amount
      → (t : KntBridge) × (o : Outcome) × (Contract.mint_bridged verify b m ≡ ok (t, o))
  unfolding Contract.mint_bridged Contract.copy_from_slice
  mint_bridged-goes_through b m a positive =
      elim (Result-cases (Contract.mint_bridged verify b m)) [
        | inl ((t, o), went) ↦ (t, o, went)
        | inr (e, failed) ↦ absurd (ground arith)
      ]

  Minted-mint_bridged :
      (b : KntBridge) (m : Inbound) (t : KntBridge) (o : Outcome)
      → Minted verify b m t o
      → Contract.mint_bridged verify b m ≡ ok (t, o)
  unfolding Contract.mint_bridged Contract.copy_from_slice
  Minted-mint_bridged b m t o p =
      let a = p.authorized in
      ground (
        arith, a.live, a.key_length, a.signer, a.fresh, a.signature_length, a.signed, p.positive,
        p.consumed.stored, p.silent, p.paid, p.logged,
      )

  Released-release :
      (b : KntBridge) (m : Inbound) (t : KntBridge) (o : Outcome)
      → Released verify b m t o
      → Contract.release verify b m ≡ ok (t, o)
  unfolding Contract.release Contract.copy_from_slice
  Released-release b m t o p =
      let a = p.authorized in
      ground (
        arith, a.live, a.key_length, a.signer, a.fresh, a.signature_length, a.signed,
        p.consumed.stored, p.silent, p.paid, p.logged,
      )

  -- A mint of the NEAR bridge goes through, with a given state and outcome, exactly when the bridge
  -- is live, the nonce is unused, a listed key of 32 bytes signed its chain, nonce, recipient and
  -- amount with 64 bytes, the amount is not 0, the state files just the key, and the outcome pays
  -- and logs just the amount to the recipient.
  pub near_mint_bridged_iff :
      (b : KntBridge) (m : Inbound) (t : KntBridge) (o : Outcome)
      → (Contract.mint_bridged verify b m ≡ ok (t, o)) ↔ Minted verify b m t o
  near_mint_bridged_iff b m t o = (mint_bridged-Minted b m t o, Minted-mint_bridged b m t o)

  pub near_release_iff :
      (b : KntBridge) (m : Inbound) (t : KntBridge) (o : Outcome)
      → (Contract.release verify b m ≡ ok (t, o)) ↔ Released verify b m t o
  near_release_iff b m t o = (release-Released b m t o, Released-release b m t o)
