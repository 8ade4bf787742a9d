-- ===== src/Cosmos/Payments.antt =====
-- The CosmWasm bridge as a payer of the orders of one source chain: the calls that claim one, what
-- they pay out, and the nonces used up.
use kinet_std.Shared.{
  ℕ, ◌^◌, ◌<◌, ◌≡◌, refl, Bool, false, ◌||◌, ◌==◌, Option, some, none, ok, err, Bytes, sym, ◌∙◌,
  if◌then◌else◌, arith, Bool-cases, Result-cases, inl, inr,
}
use kinet_std.Spec.Run.{sum_of}
use kinet_std.Spec.Transit.{FitsWords, Order, OrderKind, Payer}
use kinet_std.Cosmos.State.{
  BankMsg, Coin, ExecuteMsg, Inbound, MessageInfo, Response, Runtime, Storage,
}
use kinet_std.Cosmos.Contract
use kinet_std.Cosmos.Authorize.{Authorized, processed}
use kinet_std.Cosmos.Inbound.{Minted, mint_bridged-Minted, Released, release-Released}
use kinet_std.Cosmos.Messages.{
  build_mint_message-injective, build_release_message-injective,
  build_mint_message-ne-build_release_message,
}

-- What a message to the bank sends out of the contract.
abbrev pub sent : BankMsg → ℕ
sent (BankMsg.send to coins) = sum_of (λ (c : Coin). c.amount) coins
sent (BankMsg.burn coins) = 0

abbrev order_from : OrderKind → Inbound → Order
order_from kind m = record {
  kind = kind;
  nonce = m.nonce;
  recipient = m.recipient;
  amount = m.amount;
}

module _ (chain : ℕ) where
  -- The message of an order of the source chain, by its kind.
  abbrev message_at : OrderKind → ℕ → Bytes → ℕ → Bytes
  message_at OrderKind.mint nonce recipient amount =
      Contract.build_mint_message chain nonce recipient amount
  message_at OrderKind.release nonce recipient amount =
      Contract.build_release_message chain nonce recipient amount

  abbrev pub message_of : Order → Bytes
  message_of o = message_at o.kind o.nonce o.recipient o.amount

  abbrev claimed : ExecuteMsg → Option Order
  claimed (ExecuteMsg.mint_bridged m) =
      if m.source_chain_id == chain then some (order_from OrderKind.mint m) else none
  claimed (ExecuteMsg.release m) =
      if m.source_chain_id == chain then some (order_from OrderKind.release m) else none
  claimed _ = none

  -- The order that a call claims, if it claims one of the source chain.
  abbrev pub claim : Contract.Call → Option Order
  claim c = claimed c.msg

  -- The nonces of the source chain that are used up.
  abbrev pub used : Storage → ℕ → Bool
  used s nonce = processed s (chain, nonce)

  abbrev paid_on : Option Order → Response → ℕ
  paid_on none r = 0
  paid_on (some o) r = sum_of sent r.messages

module _ (rt : Runtime) (chain : ℕ) where
  -- A call and what it sends out on an order of the source chain.
  unfoldable pub payer_step : Storage → Contract.Call → Option (Storage × ℕ)
  payer_step s c = elim (Contract.execute rt s c) [
    | ok (t, r) ↦ some (t, paid_on chain (claim chain c) r)
    | err e ↦ none
  ]

  -- A call is taken to be signed over a message where `Authorized` holds of it.
  abbrev AcceptsMsg : Storage → ExecuteMsg → Bytes → Type 0
  AcceptsMsg s (ExecuteMsg.mint_bridged m) message = Authorized rt s m message
  AcceptsMsg s (ExecuteMsg.release m) message = Authorized rt s m message
  AcceptsMsg s _ message = ⊥

  abbrev pub Accepts : Storage → Contract.Call → Bytes → Type 0
  Accepts s c message = AcceptsMsg s c.msg message

  dispatch-signed :
      (s : Storage) (now : ℕ) (info : MessageInfo) (msg : ExecuteMsg) (t : Storage) (r : Response)
      (o : Order)
      → Contract.dispatch rt s now info msg ≡ ok (t, r)
      → claimed chain msg ≡ some o
      → AcceptsMsg s msg (message_of chain o)
  unfolding Contract.dispatch
  dispatch-signed s now info (ExecuteMsg.mint_bridged m) t r o h claims =
      let p : Minted rt s now m t r = mint_bridged-Minted rt s now m t r h in
      elim (Bool-cases (m.source_chain_id == chain)) [
        | inl here ↦
            let source : m.source_chain_id ≡ chain = ground arith in
            let same : order_from OrderKind.mint m ≡ o = ground arith in
            rw (← same, ← source) p.authorized
        | inr other ↦ absurd (ground arith)
      ]
  dispatch-signed s now info (ExecuteMsg.release m) t r o h claims =
      let p : Released rt s m t r = release-Released rt s m t r h in
      elim (Bool-cases (m.source_chain_id == chain)) [
        | inl here ↦
            let source : m.source_chain_id ≡ chain = ground arith in
            let same : order_from OrderKind.release m ≡ o = ground arith in
            rw (← same, ← source) p.authorized
        | inr other ↦ absurd (ground arith)
      ]
  dispatch-signed s now info msg t r o h claims = absurd (cc)

  dispatch-pays :
      (s : Storage) (now : ℕ) (info : MessageInfo) (msg : ExecuteMsg) (t : Storage) (r : Response)
      (o : Order)
      → Contract.dispatch rt s now info msg ≡ ok (t, r)
      → claimed chain msg ≡ some o
      → (sum_of sent r.messages ≡ o.amount)
        × (used chain s o.nonce ≡ false)
        × ((k : ℕ) → used chain t k ≡ (o.nonce == k || used chain s k))
  unfolding Contract.dispatch sum_of
  dispatch-pays s now info (ExecuteMsg.mint_bridged m) t r o h claims =
      let p : Minted rt s now m t r = mint_bridged-Minted rt s now m t r h in
      (
        ground (arith, p.paid),
        ground (arith, p.authorized.fresh),
        λ k. ground (arith, p.state_after),
      )
  dispatch-pays s now info (ExecuteMsg.release m) t r o h claims =
      let p : Released rt s m t r = release-Released rt s m t r h in
      (
        ground (arith, p.paid),
        ground (arith, p.authorized.fresh),
        λ k. ground (arith, p.state_after),
      )
  dispatch-pays s now info msg t r o h claims = absurd (cc)

  dispatch-idles :
      (s : Storage) (now : ℕ) (info : MessageInfo) (msg : ExecuteMsg) (t : Storage) (r : Response)
      → Contract.dispatch rt s now info msg ≡ ok (t, r)
      → claimed chain msg ≡ none
      → (k : ℕ) → used chain t k ≡ used chain s k
  unfolding Contract.dispatch Contract.lock_and_bridge Contract.burn_bridged Contract.register_token
      Contract.update_signers Contract.update_fee Contract.pause Contract.unpause
  dispatch-idles s now info (ExecuteMsg.mint_bridged m) t r h other k =
      let p : Minted rt s now m t r = mint_bridged-Minted rt s now m t r h in
      ground (arith, p.state_after)
  dispatch-idles s now info (ExecuteMsg.release m) t r h other k =
      let p : Released rt s m t r = release-Released rt s m t r h in ground (arith, p.state_after)
  dispatch-idles s now info msg t r h other k = ground arith

  payer_step-went :
      (s : Storage) (c : Contract.Call) (t : Storage) (v : ℕ)
      → payer_step s c ≡ some (t, v)
      → (r : Response) × (v ≡ paid_on chain (claim chain c) r)
        × (Contract.dispatch rt s c.now c.info c.msg ≡ ok (t, r))
  unfolding payer_step Contract.execute
  payer_step-went s c t v h = elim (Result-cases (Contract.dispatch rt s c.now c.info c.msg)) [
    | inl ((b, r), went) ↦ (r, ground arith, ground arith)
    | inr (e, failed) ↦ absurd (ground arith)
  ]

  pub cosmos_payer : Payer payer_step (claim chain) (used chain) Accepts (message_of chain)
  cosmos_payer = record {
    signed = λ s c t v o h claims.
        let (r, paid, went) = payer_step-went s c t v h in
        dispatch-signed s c.now c.info c.msg t r o went claims;
    pays = λ s c t v o h claims.
        let (r, paid, went) = payer_step-went s c t v h in
        let (whole, fresh, marks) = dispatch-pays s c.now c.info c.msg t r o went claims in
        (rw claims at paid ∙ whole, fresh, marks);
    idles = λ s c t v h other.
        let (r, paid, went) = payer_step-went s c t v h in
        (rw other at paid, dispatch-idles s c.now c.info c.msg t r went other);
  }

-- The message of an order determines it.
message_at-injective :
    (chain : ℕ) (k j : OrderKind) (n : ℕ) (r : Bytes) (a n' : ℕ) (r' : Bytes) (a' : ℕ)
    → chain < 2 ^ 64
    → n < 2 ^ 64
    → a < 2 ^ 128
    → n' < 2 ^ 64
    → a' < 2 ^ 128
    → message_at chain k n r a ≡ message_at chain j n' r' a'
    → (k ≡ j) × (n ≡ n') × (r ≡ r') × (a ≡ a')
message_at-injective chain OrderKind.mint OrderKind.mint n r a n' r' a' hc hn ha hn' ha' e =
    let (chains, nonces, recipients, amounts) =
      build_mint_message-injective chain n r a chain n' r' a' hc hn ha hc hn' ha' e in
    (refl, nonces, recipients, amounts)
message_at-injective chain OrderKind.mint OrderKind.release n r a n' r' a' hc hn ha hn' ha' e =
    absurd (build_mint_message-ne-build_release_message chain n r a chain n' r' a' e)
message_at-injective chain OrderKind.release OrderKind.mint n r a n' r' a' hc hn ha hn' ha' e =
    absurd (build_mint_message-ne-build_release_message chain n' r' a' chain n r a (sym e))
message_at-injective chain OrderKind.release OrderKind.release n r a n' r' a' hc hn ha hn' ha' e =
    let (chains, nonces, recipients, amounts) =
      build_release_message-injective chain n r a chain n' r' a' hc hn ha hc hn' ha' e in
    (refl, nonces, recipients, amounts)

pub message_of-injective :
    (chain : ℕ)
    → chain < 2 ^ 64
    → (o p : Order) → FitsWords o
    → FitsWords p
    → message_of chain o ≡ message_of chain p
    → o ≡ p
message_of-injective chain small o p ho hp e =
    let (kinds, nonces, recipients, amounts) =
      message_at-injective chain o.kind p.kind o.nonce o.recipient o.amount p.nonce p.recipient
        p.amount small ho.nonce_u64 ho.amount_u128 hp.nonce_u64 hp.amount_u128 e in
    cc (kinds, nonces, recipients, amounts)
