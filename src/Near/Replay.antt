-- ===== src/Near/Replay.antt =====
-- An inbound transfer of the NEAR bridge goes through at most once, as mint or as release.
use kinet_std.Shared.{
  All, ◌≡◌, Bool, true, false, ◌||◌, Option, some, none, List, ok, err, Key, key_eq, key_eq_iff,
  Bytes, arith, Result-cases, inl, inr,
}
use kinet_std.Spec.Replay.{ReplayGuard, accepted, accepted-Distinct, accepted-unprocessed, Distinct}
use kinet_std.Near.State.{Call, Context, KntBridge, Outcome}
use kinet_std.Near.Contract
use kinet_std.Near.Inbound.{
  key_of, Minted, mint_bridged-Minted, processed, Released, release-Released,
}

pub record Transaction : Type 0 where
  pub context : Context
  pub call : Call

abbrev pub inbound_key : Call → Option Key
inbound_key (Call.mint_bridged m) = some (key_of m)
inbound_key (Call.release m) = some (key_of m)
inbound_key _ = none

-- What a call does to the processed keys: an inbound one adds its own, which was not among them.
pub record Marks (b : KntBridge) (j : Key) (t : KntBridge) : Type 0 where
  pub fresh : processed b j ≡ false
  pub marked : (k : Key) → processed t k ≡ key_eq j k || processed b k

unfoldable pub KeyEffect : KntBridge → Option Key → KntBridge → Type 0
KeyEffect b none t = t.processed_nonces ≡ b.processed_nonces
KeyEffect b (some j) t = Marks b j t

-- Before the state exists nothing is processed.
abbrev pub is_processed : Option KntBridge → Key → Bool
is_processed none k = false
is_processed (some b) k = processed b k

module _ (verify : (signature message pubkey : Bytes) → Bool) where
  pub dispatch-KeyEffect :
      (b : KntBridge) (cx : Context) (c : Call) (t : KntBridge) (o : Outcome)
      → Contract.dispatch verify b cx c ≡ ok (t, o)
      → KeyEffect b (inbound_key c) t
  unfolding Contract.dispatch Contract.lock_and_bridge Contract.burn_bridged Contract.pause
      Contract.unpause Contract.set_signers Contract.set_fee KeyEffect
  dispatch-KeyEffect b cx (Call.mint_bridged m) t o h =
      let minted : Minted verify b m t o = mint_bridged-Minted verify b m t o h in
      record { fresh = minted.authorized.fresh; marked = minted.consumed.marked }
  dispatch-KeyEffect b cx (Call.release m) t o h =
      let released : Released verify b m t o = release-Released verify b m t o h in
      record { fresh = released.authorized.fresh; marked = released.consumed.marked }
  dispatch-KeyEffect b cx c t o h = ground arith

  KeyEffect-fresh :
      (b : KntBridge) (o : Option Key) (t : KntBridge) (j : Key)
      → KeyEffect b o t
      → o ≡ some j
      → (processed b j ≡ false) × (processed t j ≡ true)
  unfolding KeyEffect
  KeyEffect-fresh b none t j e inbound = cc
  KeyEffect-fresh b (some i) t j e inbound = ground (arith, e.fresh, e.marked j, key_eq_iff i j)

  KeyEffect-kept :
      (b : KntBridge) (o : Option Key) (t : KntBridge) (k : Key)
      → KeyEffect b o t
      → processed b k ≡ true
      → processed t k ≡ true
  unfolding KeyEffect
  KeyEffect-kept b none t k e old = ground arith
  KeyEffect-kept b (some j) t k e old = ground (arith, e.marked k)

  -- The contract as a step function: the state after a call that goes through.
  unfoldable pub step : Option KntBridge → Transaction → Option (Option KntBridge)
  step s x = elim (Contract.run_call verify s x.context x.call) [
    | ok (t, o) ↦ some (some t)
    | err e ↦ none
  ]

  abbrev pub transaction_key : Transaction → Option Key
  transaction_key x = inbound_key x.call

  pub step-went :
      (s : Option KntBridge) (x : Transaction) (t : Option KntBridge)
      → step s x ≡ some t
      → (b : KntBridge) × (o : Outcome) × (t ≡ some b)
        × (Contract.run_call verify s x.context x.call ≡ ok (b, o))
  unfolding step
  step-went s x t h = elim (Result-cases (Contract.run_call verify s x.context x.call)) [
    | inl ((b, o), went) ↦ (b, o, ground arith, went)
    | inr (e, failed) ↦ absurd (ground arith)
  ]

  -- `new` files no key, and nothing else goes through before it.
  pub construct-KeyEffect :
      (cx : Context) (c : Call) (t : KntBridge) (o : Outcome) (k : Key)
      → Contract.construct cx c ≡ ok (t, o)
      → (inbound_key c ≡ none) × (processed t k ≡ false)
  unfolding Contract.construct Contract.new
  construct-KeyEffect cx (Call.new signers threshold fee) t o k h = ground arith
  construct-KeyEffect cx c t o k h = absurd (ground arith)

  run_call-fresh :
      (s : Option KntBridge) (cx : Context) (c : Call) (t : KntBridge) (o : Outcome) (j : Key)
      → Contract.run_call verify s cx c ≡ ok (t, o)
      → inbound_key c ≡ some j
      → (is_processed s j ≡ false) × (processed t j ≡ true)
  unfolding Contract.run_call
  run_call-fresh none cx c t o j h inbound = absurd (ground (arith, construct-KeyEffect cx c t o j))
  run_call-fresh (some b) cx c t o j h inbound =
      KeyEffect-fresh b (inbound_key c) t j (dispatch-KeyEffect b cx c t o (ground arith)) inbound

  run_call-kept :
      (s : Option KntBridge) (cx : Context) (c : Call) (t : KntBridge) (o : Outcome) (k : Key)
      → Contract.run_call verify s cx c ≡ ok (t, o)
      → is_processed s k ≡ true
      → processed t k ≡ true
  unfolding Contract.run_call
  run_call-kept none cx c t o k h old = absurd (cc)
  run_call-kept (some b) cx c t o k h old =
      KeyEffect-kept b (inbound_key c) t k (dispatch-KeyEffect b cx c t o (ground arith)) old

  replay_guard : ReplayGuard step transaction_key is_processed (λ s. Unit {0})
  replay_guard = record {
    stays = λ s x t v went. tt;
    fresh = λ s x t j v went inbound.
        let (b, o, same, call) = step-went s x t went in
        (run_call-fresh s x.context x.call b o j call inbound).0;
    marked = λ s x t j v went inbound.
        let (b, o, same, call) = step-went s x t went in
        rw same ((run_call-fresh s x.context x.call b o j call inbound).1);
    kept = λ s x t k v went old.
        let (b, o, same, call) = step-went s x t went in
        rw same (run_call-kept s x.context x.call b o k call old);
  }

  -- Over any sequence of transactions of the NEAR bridge, from any state or none, the keys of the
  -- mints and releases that go through are pairwise different, and none was processed before.
  pub near_no_replay :
      (s : Option KntBridge) (transactions : List Transaction)
      → let keys = accepted step transaction_key s transactions in
        Distinct keys × All (λ k. is_processed s k ≡ false) keys
  near_no_replay s transactions = (
    accepted-Distinct replay_guard s transactions tt,
    accepted-unprocessed replay_guard s transactions tt,
  )
