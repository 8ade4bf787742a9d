-- ===== src/Polkadot/Replay.antt =====
-- An inbound transfer of the Polkadot bridge goes through at most once, as mint or as release.
use kinet_std.Shared.{
  ◌≡◌, Bool, true, false, Option, some, none, List, All, ok, err, arith, Key, key_eq_iff,
  Result-cases, inl, inr,
}
use kinet_std.Spec.Replay.{ReplayGuard, accepted, accepted-Distinct, accepted-unprocessed, Distinct}
use kinet_std.Polkadot.State.{Call, Chain, Context, KntBridge, Outcome, State}
use kinet_std.Polkadot.Contract
use kinet_std.Polkadot.Inbound.{key_of, mint_bridged-went, processed, release-went}

-- A message, and the balances as it finds them: between two calls of the bridge others move theirs,
-- and the value sent with a call has arrived.
pub record Transaction (chain : Chain) : Type 0 where
  pub context : Context
  pub ledger : chain.Ledger
  pub call : Call

abbrev pub inbound_key : Call → Option Key
inbound_key (Call.mint_bridged m) = some (key_of m)
inbound_key (Call.release m) = some (key_of m)
inbound_key _ = none

abbrev pub transaction_key : {chain : Chain} → Transaction chain → Option Key
transaction_key x = inbound_key x.call

module _ {chain : Chain} where
  -- The state as a transaction finds it.
  abbrev pub found : KntBridge → Transaction chain → State chain
  found b x = record { bridge = b; ledger = x.ledger }

module _ (checks : Bool) {chain : Chain} where
  dispatch-fresh :
      (s : State chain) (cx : Context) (c : Call) (t : State chain) (o : Outcome) (k : Key)
      → Contract.dispatch checks s cx c ≡ ok (t, o)
      → inbound_key c ≡ some k
      → (processed s.bridge k ≡ false) × (processed t.bridge k ≡ true)
  unfolding Contract.dispatch
  dispatch-fresh s cx (Call.mint_bridged m) t o k h inbound =
      let (l, p, n, e, logged) = mint_bridged-went s m t o h in
      ground (arith, p.fresh, e, key_eq_iff (key_of m) k)
  dispatch-fresh s cx (Call.release m) t o k h inbound =
      let (l, p, e, logged) = release-went s m t o h in
      ground (arith, p.fresh, e, key_eq_iff (key_of m) k)
  dispatch-fresh s cx c t o k h inbound = cc

  dispatch-kept :
      (s : State chain) (cx : Context) (c : Call) (t : State chain) (o : Outcome) (k : Key)
      → Contract.dispatch checks s cx c ≡ ok (t, o)
      → processed s.bridge k ≡ true
      → processed t.bridge k ≡ true
  unfolding Contract.dispatch Contract.lock_and_bridge Contract.burn_bridged Contract.pause
      Contract.unpause Contract.set_signers Contract.set_fee
  dispatch-kept s cx (Call.mint_bridged m) t o k h old =
      let (l, p, n, e, logged) = mint_bridged-went s m t o h in ground (arith, e)
  dispatch-kept s cx (Call.release m) t o k h old =
      let (l, p, e, logged) = release-went s m t o h in ground (arith, e)
  dispatch-kept s cx c t o k h old = ground arith

  -- The bridge after a transaction that goes through.
  unfoldable pub step : KntBridge → Transaction chain → Option KntBridge
  step b x = elim (Contract.run_call checks (found b x) x.context x.call) [
    | ok (t, o) ↦ some t.bridge
    | err e ↦ none
  ]

  step-went :
      (b : KntBridge) (x : Transaction chain) (b' : KntBridge)
      → step b x ≡ some b'
      → (t : State chain) × (o : Outcome) × (b' ≡ t.bridge)
        × (Contract.dispatch checks (found b x) x.context x.call ≡ ok (t, o))
  unfolding step Contract.run_call
  step-went b x b' h = elim (Result-cases (Contract.dispatch checks (found b x) x.context x.call)) [
    | inl ((t, o), went) ↦ (t, o, ground arith, went)
    | inr (e, failed) ↦ absurd (ground arith)
  ]

  replay_guard : ReplayGuard step transaction_key processed (λ b. Unit {0})
  replay_guard = record {
    stays = λ b x t v went. tt;
    fresh = λ b x b' k v went inbound.
        let (t, o, same, call) = step-went b x b' went in
        (dispatch-fresh (found b x) x.context x.call t o k call inbound).0;
    marked = λ b x b' k v went inbound.
        let (t, o, same, call) = step-went b x b' went in
        rw same ((dispatch-fresh (found b x) x.context x.call t o k call inbound).1);
    kept = λ b x b' k v went old.
        let (t, o, same, call) = step-went b x b' went in
        rw same (dispatch-kept (found b x) x.context x.call t o k call old);
  }

  -- Over any sequence of messages to the Polkadot bridge, from any storage, the keys of the mints
  -- and releases that go through are pairwise different, and none was processed before.
  pub polkadot_no_replay :
      (b : KntBridge) (transactions : List (Transaction chain))
      → let keys = accepted step transaction_key b transactions in
        Distinct keys × All (λ k. processed b k ≡ false) keys
  polkadot_no_replay b transactions = (
    accepted-Distinct replay_guard b transactions tt,
    accepted-unprocessed replay_guard b transactions tt,
  )
