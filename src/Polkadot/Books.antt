-- ===== src/Polkadot/Books.antt =====
-- Locks of the Polkadot bridge, its totals against its events, its nonces, and its fee.
use kinet_std.Shared.{
  ℕ, ◌+◌, ◌-◌, ◌*◌, ◌/◌, ◌%◌, ◌^◌, ◌≤◌, ◌<◌, ◌≡◌, Bool, true, false, Option, some, none, List, [],
  ◌∷◌, refl, Bytes, ok, err, arith, Result-cases, inl, inr, fee-le_amount,
}
use kinet_std.Spec.Run.{final, final-total, logged, sum_of}
use kinet_std.Polkadot.State.{Call, Chain, Context, Event, KntBridge, Outcome, State}
use kinet_std.Polkadot.Contract
use kinet_std.Polkadot.Inbound.{mint_bridged-went, release-went}
use kinet_std.Polkadot.Replay.{found, Transaction}

-- The amounts that a lock and a burn event report.
abbrev pub locked_amount : Event → ℕ
locked_amount (Event.lock s d n x r amount fee) = amount
locked_amount _ = 0

abbrev pub burned_amount : Event → ℕ
burned_amount (Event.burn s d n x r amount) = amount
burned_amount _ = 0

-- What a lock has done: the value sent is split with nothing lost, the fee is the rate's share of
-- it in 128 bits, rounded down, and the event reports both and the new nonce.
pub record Locked (b : KntBridge) (cx : Context) (dest : ℕ) (recipient : Bytes) (t : KntBridge)
    (o : Outcome) : Type 0 where
  pub live : b.paused ≡ false
  pub positive : 0 < cx.transferred_value
  pub bridged : ℕ
  pub fee : ℕ
  pub rate : fee ≡ cx.transferred_value * b.fee_bps % 2 ^ 128 / 10000
  pub split : bridged + fee ≡ cx.transferred_value
  pub total : t.total_locked ≡ (b.total_locked + bridged) % 2 ^ 128
  pub sequence : t.outbound_nonce ≡ (b.outbound_nonce + 1) % 2 ^ 64
  pub returned : o.returned ≡ some t.outbound_nonce
  pub emitted_lock :
      o.events
      ≡ Event.lock Contract.polkadot_chain_id dest t.outbound_nonce cx.caller recipient bridged fee
        ∷ []

reduced_fee-le : (amount bps : ℕ) → bps ≤ 500 → amount * bps % 2 ^ 128 / 10000 ≤ amount
reduced_fee-le amount bps h = omega (arith, fee-le_amount amount bps (omega arith))

-- Every lock of the Polkadot bridge at a fee of at most 5% that goes through is a `Locked` one,
-- whether the build checks overflow or not.
pub polkadot_lock-Locked :
    (checks : Bool) (b : KntBridge) (cx : Context) (dest : ℕ) (recipient : Bytes) (t : KntBridge)
    (o : Outcome)
    → b.fee_bps ≤ 500
    → Contract.lock_and_bridge checks b cx dest recipient ≡ ok (t, o)
    → Locked b cx dest recipient t o
unfolding Contract.lock_and_bridge
polkadot_lock-Locked true b cx dest recipient t o low h =
    let value = cx.transferred_value in
    let fee = value * b.fee_bps % 2 ^ 128 / 10000 in
    let q = reduced_fee-le value b.fee_bps low in
    record {
      live = ground arith;
      positive = ground arith;
      bridged = value - fee;
      fee = fee;
      rate = refl;
      split = omega (arith, q);
      total = ground (arith, q);
      sequence = ground (arith, q);
      returned = ground (arith, q);
      emitted_lock = ground (arith, q);
    }
polkadot_lock-Locked false b cx dest recipient t o low h =
    let value = cx.transferred_value in
    let fee = value * b.fee_bps % 2 ^ 128 / 10000 in
    let q = reduced_fee-le value b.fee_bps low in
    record {
      live = ground arith;
      positive = ground arith;
      bridged = value - fee;
      fee = fee;
      rate = refl;
      split = omega (arith, q);
      total = ground (arith, q);
      sequence = ground (arith, q);
      returned = ground (arith, q);
      emitted_lock = ground (arith, q);
    }

module _ {chain : Chain} where
  -- The contract, built with overflow checks, as a step function with what it emits.
  unfoldable pub logging_step : KntBridge → Transaction chain → Option (KntBridge × List Event)
  logging_step b x = elim (Contract.run_call true (found b x) x.context x.call) [
    | ok (t, o) ↦ some (t.bridge, o.events)
    | err e ↦ none
  ]

  dispatch-books :
      (s : State chain) (cx : Context) (c : Call) (t : State chain) (o : Outcome)
      → Contract.dispatch true s cx c ≡ ok (t, o)
      → (t.bridge.total_locked ≡ s.bridge.total_locked + sum_of locked_amount o.events)
        × (t.bridge.total_burned ≡ s.bridge.total_burned + sum_of burned_amount o.events)
  unfolding Contract.dispatch Contract.lock_and_bridge Contract.burn_bridged Contract.pause
      Contract.unpause Contract.set_signers Contract.set_fee sum_of
  dispatch-books s cx (Call.mint_bridged m) t o h =
      let (l, p, n, e, minted) = mint_bridged-went s m t o h in ground (arith, e, minted)
  dispatch-books s cx (Call.release m) t o h =
      let (l, p, e, released) = release-went s m t o h in ground (arith, e, released)
  dispatch-books s cx c t o h = ground arith

  logging_step-books :
      (b : KntBridge) (x : Transaction chain) (t : KntBridge) (es : List Event)
      → logging_step b x ≡ some (t, es)
      → (t.total_locked ≡ b.total_locked + sum_of locked_amount es)
        × (t.total_burned ≡ b.total_burned + sum_of burned_amount es)
  unfolding logging_step Contract.run_call
  logging_step-books b x t es h =
      elim (Result-cases (Contract.dispatch true (found b x) x.context x.call)) [
        | inl ((s, o), went) ↦ ground (arith, dispatch-books (found b x) x.context x.call s o went)
        | inr (e, failed) ↦ absurd (ground arith)
      ]

  -- Where the build checks overflow, over any sequence of messages to the Polkadot bridge, the total
  -- locked is what it was and the sum of the amounts of the emitted lock events, and the total
  -- burned likewise of the burn events.
  pub polkadot_totals :
      (b : KntBridge) (transactions : List (Transaction chain))
      → let t = final logging_step b transactions in
        let log = logged logging_step b transactions in
        (t.total_locked ≡ b.total_locked + sum_of locked_amount log)
        × (t.total_burned ≡ b.total_burned + sum_of burned_amount log)
  polkadot_totals b transactions = (
    final-total logging_step (λ b. b.total_locked) locked_amount
        (λ b x t es h. (logging_step-books b x t es h).0) b transactions,
    final-total logging_step (λ b. b.total_burned) burned_amount
        (λ b x t es h. (logging_step-books b x t es h).1) b transactions,
  )
