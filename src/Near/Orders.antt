-- ===== src/Near/Orders.antt =====
-- The NEAR bridge as the source of orders and as their payer: its lock and burn events as the signers
-- read them, and what it promises to pay on the transfers of one source chain.
use kinet_std.Shared.{
  ℕ, ◌+◌, ◌-◌, ◌*◌, ◌/◌, ◌≤◌, ◌<◌, ◌≡◌, Bool, Option, some, none, List, [], ◌∷◌, ok, err, Bytes,
  bytes_eq, codes, from_decimal, from_decimal-to_string, if◌then◌else◌, arith, Result-cases, inl,
  inr,
}
use kinet_std.Spec.Transit.{FitsWords, Order, OrderKind, Source}
use kinet_std.Near.State.{BridgeEvent, Call, Context, KntBridge, Outcome}
use kinet_std.Near.Contract
use kinet_std.Near.Books.{burned_of, locked_of}
use kinet_std.Near.Replay.{Transaction}
use kinet_std.Near.Rules.{next_free}

-- The order that an event stands for, its amount read from the text.
unfoldable pub order_of : BridgeEvent → Option Order
order_of e =
    if bytes_eq e.event_type (codes "lock")
    then some (record {
      kind = OrderKind.mint;
      nonce = e.nonce;
      recipient = e.recipient;
      amount = from_decimal e.amount;
    })
    else if bytes_eq e.event_type (codes "burn")
    then some (record {
      kind = OrderKind.release;
      nonce = e.nonce;
      recipient = e.recipient;
      amount = from_decimal e.amount;
    })
    else none

-- A call logs one event at most.
abbrev pub ordered : List BridgeEvent → Option Order
ordered [] = none
ordered (e ∷ es) = order_of e

-- What the bridge has taken in: the total locked and the total burned.
abbrev pub taken : Option KntBridge → ℕ
taken s = locked_of s + burned_of s

abbrev worth : Option Order → ℕ
worth none = 0
worth (some o) = o.amount

module _ (verify : (signature message pubkey : Bytes) → Bool) where
  -- The bridge as a step function with the order that a call reports.
  unfoldable pub source_step :
      Option KntBridge → Transaction → Option (Option KntBridge × Option Order)
  source_step s x = elim (Contract.run_call verify s x.context x.call) [
    | ok (t, o) ↦ some (some t, ordered o.logs)
    | err e ↦ none
  ]

  dispatch-ordered :
      (b : KntBridge) (cx : Context) (c : Call) (t : KntBridge) (o : Outcome) (r : Order)
      → Contract.dispatch verify b cx c ≡ ok (t, o)
      → ordered o.logs ≡ some r
      → (b.outbound_nonce + 1 ≤ r.nonce) × (r.nonce < t.outbound_nonce + 1) × FitsWords r
  unfolding Contract.dispatch Contract.lock_and_bridge Contract.burn_bridged Contract.pause
      Contract.unpause Contract.set_signers Contract.set_fee Contract.mint_bridged Contract.release
      order_of bytes_eq
  dispatch-ordered b cx (Call.lock_and_bridge dest recipient) t o r h e =
      ground (arith, from_decimal-to_string (cx.deposit - cx.deposit * b.fee_bps / 10000))
  dispatch-ordered b cx c t o r h e = ground (arith, from_decimal-to_string cx.deposit)

  dispatch-grows :
      (b : KntBridge) (cx : Context) (c : Call) (t : KntBridge) (o : Outcome)
      → Contract.dispatch verify b cx c ≡ ok (t, o)
      → b.outbound_nonce ≤ t.outbound_nonce
  unfolding Contract.dispatch Contract.lock_and_bridge Contract.burn_bridged Contract.pause
      Contract.unpause Contract.set_signers Contract.set_fee Contract.mint_bridged Contract.release
  dispatch-grows b cx c t o h = ground arith

  construct-ordered :
      (cx : Context) (c : Call) (t : KntBridge) (o : Outcome)
      → Contract.construct cx c ≡ ok (t, o)
      → ordered o.logs ≡ none
  unfolding Contract.construct Contract.new
  construct-ordered cx (Call.new signers threshold fee) t o h = ground arith
  construct-ordered cx c t o h = absurd (ground arith)

  run_call-ordered :
      (s : Option KntBridge) (cx : Context) (c : Call) (t : KntBridge) (o : Outcome) (r : Order)
      → Contract.run_call verify s cx c ≡ ok (t, o)
      → ordered o.logs ≡ some r
      → (next_free s ≤ r.nonce) × (r.nonce < next_free (some t)) × FitsWords r
  unfolding Contract.run_call
  run_call-ordered none cx c t o r h e = absurd (cc (construct-ordered cx c t o (ground arith), e))
  run_call-ordered (some b) cx c t o r h e = dispatch-ordered b cx c t o r (ground arith) e

  run_call-grows :
      (s : Option KntBridge) (cx : Context) (c : Call) (t : KntBridge) (o : Outcome)
      → Contract.run_call verify s cx c ≡ ok (t, o)
      → next_free s ≤ next_free (some t)
  unfolding Contract.run_call
  run_call-grows none cx c t o h = omega arith
  run_call-grows (some b) cx c t o h = omega (arith, dispatch-grows b cx c t o (ground arith))

  dispatch-taken :
      (b : KntBridge) (cx : Context) (c : Call) (t : KntBridge) (o : Outcome)
      → Contract.dispatch verify b cx c ≡ ok (t, o)
      → taken (some t) ≡ taken (some b) + worth (ordered o.logs)
  unfolding Contract.dispatch Contract.lock_and_bridge Contract.burn_bridged Contract.pause
      Contract.unpause Contract.set_signers Contract.set_fee Contract.mint_bridged Contract.release
      order_of bytes_eq
  dispatch-taken b cx (Call.lock_and_bridge dest recipient) t o h =
      ground (arith, from_decimal-to_string (cx.deposit - cx.deposit * b.fee_bps / 10000))
  dispatch-taken b cx c t o h = ground (arith, from_decimal-to_string cx.deposit)

  construct-taken :
      (cx : Context) (c : Call) (t : KntBridge) (o : Outcome)
      → Contract.construct cx c ≡ ok (t, o)
      → taken (some t) ≡ 0 + worth (ordered o.logs)
  unfolding Contract.construct Contract.new
  construct-taken cx (Call.new signers threshold fee) t o h = ground arith
  construct-taken cx c t o h = absurd (ground arith)

  run_call-taken :
      (s : Option KntBridge) (cx : Context) (c : Call) (t : KntBridge) (o : Outcome)
      → Contract.run_call verify s cx c ≡ ok (t, o)
      → taken (some t) ≡ taken s + worth (ordered o.logs)
  unfolding Contract.run_call
  run_call-taken none cx c t o h = construct-taken cx c t o (ground arith)
  run_call-taken (some b) cx c t o h = dispatch-taken b cx c t o (ground arith)

  source_step-went :
      (s : Option KntBridge) (x : Transaction) (t : Option KntBridge) (r : Option Order)
      → source_step s x ≡ some (t, r)
      → (b : KntBridge) × (o : Outcome) × (t ≡ some b)
        × (ordered o.logs ≡ r)
        × (Contract.run_call verify s x.context x.call ≡ ok (b, o))
  unfolding source_step
  source_step-went s x t r h = elim (Result-cases (Contract.run_call verify s x.context x.call)) [
    | inl ((b, o), went) ↦ (b, o, ground arith, ground arith, went)
    | inr (e, failed) ↦ absurd (ground arith)
  ]

  pub near_source : Source source_step next_free taken FitsWords
  near_source = record {
    emits = λ s x t r h.
        let (b, o, same, reported, went) = source_step-went s x t (some r) h in
        let (free, used, fits) = run_call-ordered s x.context x.call b o r went reported in
        let counted = rw reported at (run_call-taken s x.context x.call b o went) in
        (free, rw same used, fits, rw same counted);
    keeps = λ s x t h.
        let (b, o, same, reported, went) = source_step-went s x t none h in
        let counted = rw reported at (run_call-taken s x.context x.call b o went) in
        (rw same (run_call-grows s x.context x.call b o went), rw same (omega (arith, counted)));
  }
