-- ===== src/Near/Books.antt =====
-- The totals of the NEAR bridge against the events that it logs, its outbound nonces, and what its
-- state keeps to.
use kinet_std.Shared.{
  ℕ, ◌+◌, ◌-◌, ◌*◌, ◌/◌, ◌≡◌, Bool, Option, some, none, List, ok, err, Bytes, bytes_eq, codes,
  from_decimal, from_decimal-to_string, if◌then◌else◌, arith, Result-cases, inl, inr,
}
use kinet_std.Spec.Run.{final, final-total, logged, sum_of}
use kinet_std.Near.State.{BridgeEvent, Call, Context, KntBridge, Outcome}
use kinet_std.Near.Contract
use kinet_std.Near.Replay.{Transaction}

-- The amount that an event of the given type reports, read back from its text.
unfoldable pub reported : Bytes → BridgeEvent → ℕ
reported event_type e = if bytes_eq e.event_type event_type then from_decimal e.amount else 0

abbrev pub locked_of : Option KntBridge → ℕ
locked_of none = 0
locked_of (some b) = b.total_locked

abbrev pub burned_of : Option KntBridge → ℕ
burned_of none = 0
burned_of (some b) = b.total_burned

module _ (verify : (signature message pubkey : Bytes) → Bool) where
  -- The contract as a step function with what it logs.
  unfoldable pub logging_step :
      Option KntBridge → Transaction → Option (Option KntBridge × List BridgeEvent)
  logging_step s x = elim (Contract.run_call verify s x.context x.call) [
    | ok (t, o) ↦ some (some t, o.logs)
    | err e ↦ none
  ]

  dispatch-books :
      (b : KntBridge) (cx : Context) (c : Call) (t : KntBridge) (o : Outcome)
      → Contract.dispatch verify b cx c ≡ ok (t, o)
      → (t.total_locked ≡ b.total_locked + sum_of (reported (codes "lock")) o.logs)
        × (t.total_burned ≡ b.total_burned + sum_of (reported (codes "burn")) o.logs)
  unfolding Contract.dispatch Contract.lock_and_bridge Contract.burn_bridged Contract.pause
      Contract.unpause Contract.set_signers Contract.set_fee Contract.mint_bridged Contract.release
      sum_of reported bytes_eq
  dispatch-books b cx (Call.lock_and_bridge dest recipient) t o h =
      ground (arith, from_decimal-to_string (cx.deposit - cx.deposit * b.fee_bps / 10000))
  dispatch-books b cx c t o h = ground (arith, from_decimal-to_string cx.deposit)

  construct-books :
      (cx : Context) (c : Call) (t : KntBridge) (o : Outcome)
      → Contract.construct cx c ≡ ok (t, o)
      → (t.total_locked ≡ 0 + sum_of (reported (codes "lock")) o.logs)
        × (t.total_burned ≡ 0 + sum_of (reported (codes "burn")) o.logs)
  unfolding Contract.construct Contract.new sum_of
  construct-books cx (Call.new signers threshold fee) t o h = ground arith
  construct-books cx c t o h = absurd (ground arith)

  run_call-books :
      (s : Option KntBridge) (cx : Context) (c : Call) (t : KntBridge) (o : Outcome)
      → Contract.run_call verify s cx c ≡ ok (t, o)
      → (t.total_locked ≡ locked_of s + sum_of (reported (codes "lock")) o.logs)
        × (t.total_burned ≡ burned_of s + sum_of (reported (codes "burn")) o.logs)
  unfolding Contract.run_call
  run_call-books none cx c t o h = construct-books cx c t o (ground arith)
  run_call-books (some b) cx c t o h = dispatch-books b cx c t o (ground arith)

  logging_step-books :
      (s : Option KntBridge) (x : Transaction) (t : Option KntBridge) (es : List BridgeEvent)
      → logging_step s x ≡ some (t, es)
      → (locked_of t ≡ locked_of s + sum_of (reported (codes "lock")) es)
        × (burned_of t ≡ burned_of s + sum_of (reported (codes "burn")) es)
  unfolding logging_step
  logging_step-books s x t es h =
      elim (Result-cases (Contract.run_call verify s x.context x.call)) [
        | inl ((b, o), went) ↦ ground (arith, run_call-books s x.context x.call b o went)
        | inr (e, failed) ↦ absurd (ground arith)
      ]

  -- Over any sequence of transactions of the NEAR bridge, from any state or none, the total locked
  -- is what it was and the sum of the amounts of the logged lock events, read back from their
  -- decimal texts, and the total burned likewise of the burn events.
  pub near_totals :
      (s : Option KntBridge) (transactions : List Transaction)
      → let after = final logging_step s transactions in
        let log = logged logging_step s transactions in
        (locked_of after ≡ locked_of s + sum_of (reported (codes "lock")) log)
        × (burned_of after ≡ burned_of s + sum_of (reported (codes "burn")) log)
  near_totals s transactions = (
    final-total logging_step locked_of (reported (codes "lock"))
        (λ s x t es h. (logging_step-books s x t es h).0) s transactions,
    final-total logging_step burned_of (reported (codes "burn"))
        (λ s x t es h. (logging_step-books s x t es h).1) s transactions,
  )
