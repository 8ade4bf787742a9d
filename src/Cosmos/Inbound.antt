-- ===== src/Cosmos/Inbound.antt =====
-- What a mint or a release of the CosmWasm bridge needs, and what it does.
use kinet_std.Shared.{
  ℕ, ◌≡◌, ◌↔◌, true, some, [], ◌∷◌, ok, arith, insert_key, insert_bytes, Bytes, inl, inr,
  Option-cases, Result-cases, ◌++◌, codes, to_le_bytes,
}
use kinet_std.Cosmos.State.{
  Storage, TokenConfig, Inbound, BankMsg, Event, Response, StdError, Runtime,
}
use kinet_std.Cosmos.Limit.{check_daily_limit}
use kinet_std.Cosmos.Booked.{Booked, check_daily_limit-Booked, Booked-check_daily_limit}
use kinet_std.Cosmos.Contract
use kinet_std.Cosmos.Authorize.{Authorized, authorize-Authorized, Authorized-authorize, key_of}

-- A mint: authorized by a signature over its chain, nonce, recipient and amount, of a registered
-- token, within the daily limit; it consumes the nonce and pays the amount to the recipient.
pub record Minted (rt : Runtime) (s : Storage) (now : ℕ) (m : Inbound) (t : Storage) (r : Response)
    : Type 0 where
  pub authorized :
      Authorized rt s m (Contract.build_mint_message m.source_chain_id m.nonce m.recipient m.amount)
  pub token : TokenConfig
  pub registered : s.token_configs m.denom ≡ some token
  pub checked : TokenConfig
  pub within_limit : check_daily_limit rt token m.amount now ≡ ok checked
  pub address : Bytes
  pub valid : rt.addr_validate m.recipient ≡ some address
  pub state_after : t ≡ record s {
    token_configs = insert_bytes s.token_configs m.denom checked;
    processed_nonces = insert_key s.processed_nonces (key_of m) true;
  }
  pub paid :
      r.messages ≡ BankMsg.send address (record { denom = m.denom; amount = m.amount } ∷ []) ∷ []
  pub published : r.events ≡ Event.mint m.source_chain_id m.nonce m.recipient m.amount m.denom ∷ []
  pub plain : r.attributes ≡ []

-- A mint as `Minted` has it, with the bytes of the message and the counter of the daily limit written out.
pub record Exactly (rt : Runtime) (s : Storage) (now : ℕ) (m : Inbound) (t : Storage) (r : Response)
    : Type 0 where
  pub authorized : Authorized rt s m (
      codes "KNT_BRIDGE_MINT"
      ++ (to_le_bytes 8 m.source_chain_id
          ++ (to_le_bytes 8 m.nonce ++ (m.recipient ++ to_le_bytes 16 m.amount))))
  pub token : TokenConfig
  pub registered : s.token_configs m.denom ≡ some token
  pub charged : TokenConfig
  pub booked : Booked token m.amount now charged
  pub address : Bytes
  pub valid : rt.addr_validate m.recipient ≡ some address
  pub state_after : t ≡ record s {
    token_configs = insert_bytes s.token_configs m.denom charged;
    processed_nonces = insert_key s.processed_nonces (key_of m) true;
  }
  pub paid :
      r.messages ≡ BankMsg.send address (record { denom = m.denom; amount = m.amount } ∷ []) ∷ []
  pub published : r.events ≡ Event.mint m.source_chain_id m.nonce m.recipient m.amount m.denom ∷ []
  pub plain : r.attributes ≡ []

-- A release, likewise, with no limit and no look at the token.
pub record Released (rt : Runtime) (s : Storage) (m : Inbound) (t : Storage) (r : Response)
    : Type 0 where
  pub authorized :
      Authorized rt s m
        (Contract.build_release_message m.source_chain_id m.nonce m.recipient m.amount)
  pub address : Bytes
  pub valid : rt.addr_validate m.recipient ≡ some address
  pub state_after :
      t ≡ record s { processed_nonces = insert_key s.processed_nonces (key_of m) true }
  pub paid :
      r.messages ≡ BankMsg.send address (record { denom = m.denom; amount = m.amount } ∷ []) ∷ []
  pub published : r.events ≡ Event.release m.source_chain_id m.nonce m.recipient m.amount ∷ []
  pub plain : r.attributes ≡ []

module _ (rt : Runtime) where
  -- Every mint that goes through is a `Minted` one.
  pub mint_bridged-Minted :
      (s : Storage) (now : ℕ) (m : Inbound) (t : Storage) (r : Response)
      → Contract.mint_bridged rt s now m ≡ ok (t, r)
      → Minted rt s now m t r
  unfolding Contract.mint_bridged
  mint_bridged-Minted s now m t r h = elim (Option-cases (s.token_configs m.denom)) [
    | inl unknown_token ↦ absurd (ground arith)
    | inr (token, registered) ↦ elim (Result-cases (check_daily_limit rt token m.amount now)) [
      | inr (e, over) ↦ absurd (ground arith)
      | inl (checked, within_limit) ↦ elim (Option-cases (rt.addr_validate m.recipient)) [
        | inl invalid ↦ absurd (ground arith)
        | inr (address, valid) ↦ record {
          authorized =
              authorize-Authorized rt s m
                (Contract.build_mint_message m.source_chain_id m.nonce m.recipient m.amount)
                StdError.signature_hex StdError.pubkey_hex StdError.verification_failed
                (ground arith);
          token = token;
          registered = registered;
          checked = checked;
          within_limit = within_limit;
          address = address;
          valid = valid;
          state_after = ground arith;
          paid = ground arith;
          published = ground arith;
          plain = ground arith;
        }
      ]
    ]
  ]

  -- Every release that goes through is a `Released` one.
  pub release-Released :
      (s : Storage) (m : Inbound) (t : Storage) (r : Response)
      → Contract.release rt s m ≡ ok (t, r)
      → Released rt s m t r
  unfolding Contract.release
  release-Released s m t r h = elim (Option-cases (rt.addr_validate m.recipient)) [
    | inl invalid ↦ absurd (ground arith)
    | inr (address, valid) ↦ record {
      authorized =
          authorize-Authorized rt s m
            (Contract.build_release_message m.source_chain_id m.nonce m.recipient m.amount)
            StdError.invalid_sig StdError.invalid_pk StdError.sig_verify_failed (ground arith);
      address = address;
      valid = valid;
      state_after = ground arith;
      paid = ground arith;
      published = ground arith;
      plain = ground arith;
    }
  ]

  -- And what `Minted` asks for is enough for a mint to go through.
  pub mint_bridged_complete :
      (s : Storage) (now : ℕ) (m : Inbound) (token checked : TokenConfig) (address : Bytes)
      → Authorized rt s m
          (Contract.build_mint_message m.source_chain_id m.nonce m.recipient m.amount)
      → s.token_configs m.denom ≡ some token
      → check_daily_limit rt token m.amount now ≡ ok checked
      → rt.addr_validate m.recipient ≡ some address
      → Contract.mint_bridged rt s now m
        ≡ ok (
          record s {
            token_configs = insert_bytes s.token_configs m.denom checked;
            processed_nonces = insert_key s.processed_nonces (key_of m) true;
          },
          record {
            messages =
                BankMsg.send address (record { denom = m.denom; amount = m.amount } ∷ []) ∷ [];
            events = Event.mint m.source_chain_id m.nonce m.recipient m.amount m.denom ∷ [];
            attributes = [];
          },
        )
  unfolding Contract.mint_bridged
  mint_bridged_complete s now m token checked address auth registered within valid = ground (
    arith,
    Authorized-authorize rt s m
        (Contract.build_mint_message m.source_chain_id m.nonce m.recipient m.amount)
        StdError.signature_hex StdError.pubkey_hex StdError.verification_failed auth,
  )

  Minted-mint_bridged :
      (s : Storage) (now : ℕ) (m : Inbound) (t : Storage) (r : Response)
      → Minted rt s now m t r
      → Contract.mint_bridged rt s now m ≡ ok (t, r)
  Minted-mint_bridged s now m t r p =
      let went =
        mint_bridged_complete s now m p.token p.checked p.address p.authorized p.registered
          p.within_limit p.valid in
      ground (arith, went, p.state_after, p.paid, p.published, p.plain)

  Released-release :
      (s : Storage) (m : Inbound) (t : Storage) (r : Response)
      → Released rt s m t r
      → Contract.release rt s m ≡ ok (t, r)
  unfolding Contract.release
  Released-release s m t r p =
      let passed =
        Authorized-authorize rt s m
          (Contract.build_release_message m.source_chain_id m.nonce m.recipient m.amount)
          StdError.invalid_sig StdError.invalid_pk StdError.sig_verify_failed p.authorized in
      ground (arith, passed, p.valid, p.state_after, p.paid, p.published, p.plain)

  Minted-Exactly :
      (s : Storage) (now : ℕ) (m : Inbound) (t : Storage) (r : Response)
      → Minted rt s now m t r
      → Exactly rt s now m t r
  unfolding Contract.build_mint_message
  Minted-Exactly s now m t r p = record {
    authorized = p.authorized;
    token = p.token;
    registered = p.registered;
    charged = p.checked;
    booked = check_daily_limit-Booked rt p.token m.amount now p.checked p.within_limit;
    address = p.address;
    valid = p.valid;
    state_after = p.state_after;
    paid = p.paid;
    published = p.published;
    plain = p.plain;
  }

  Exactly-Minted :
      (s : Storage) (now : ℕ) (m : Inbound) (t : Storage) (r : Response)
      → Exactly rt s now m t r
      → Minted rt s now m t r
  unfolding Contract.build_mint_message
  Exactly-Minted s now m t r p = record {
    authorized = p.authorized;
    token = p.token;
    registered = p.registered;
    checked = p.charged;
    within_limit = Booked-check_daily_limit rt p.token m.amount now p.charged p.booked;
    address = p.address;
    valid = p.valid;
    state_after = p.state_after;
    paid = p.paid;
    published = p.published;
    plain = p.plain;
  }

  -- A mint of the CosmWasm bridge goes through, with a given storage and response, exactly when the
  -- bridge is live, the nonce is unused, a configured signer signed the bytes of the tag, chain,
  -- nonce, recipient and amount, the token is registered, the amount within its daily limit, if it
  -- has one, and the recipient valid. The storage then files the nonce, and where the token has a
  -- limit its counter has the amount, with what its period had used, or alone once 86400 seconds
  -- were over; the response pays and reports the amount.
  pub cosmos_mint_bridged_iff :
      (s : Storage) (now : ℕ) (m : Inbound) (t : Storage) (r : Response)
      → (Contract.mint_bridged rt s now m ≡ ok (t, r)) ↔ Exactly rt s now m t r
  cosmos_mint_bridged_iff s now m t r = (
    λ h. Minted-Exactly s now m t r (mint_bridged-Minted s now m t r h),
    λ p. Minted-mint_bridged s now m t r (Exactly-Minted s now m t r p),
  )

  -- A release of the CosmWasm bridge goes through, with a given storage and response, exactly when
  -- the bridge is live, the nonce is unused, a configured signer signed the release of its chain,
  -- nonce, recipient and amount, and the recipient is valid; the storage then files the nonce, and
  -- the response pays the amount in the denomination of the call and reports it.
  pub cosmos_release_iff :
      (s : Storage) (m : Inbound) (t : Storage) (r : Response)
      → (Contract.release rt s m ≡ ok (t, r)) ↔ Released rt s m t r
  cosmos_release_iff s m t r = (release-Released s m t r, Released-release s m t r)
