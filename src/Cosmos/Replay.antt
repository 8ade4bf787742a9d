-- ===== src/Cosmos/Replay.antt =====
-- An inbound transfer of the CosmWasm bridge goes through at most once, as mint or as release.
use kinet_std.Shared.{
  All, ℕ, ◌≡◌, true, false, Option, some, none, List, ok, Key, key_eq_iff, arith, insert_key,
  state_of, state_of-eq-some,
}
use kinet_std.Spec.Replay.{ReplayGuard, accepted, accepted-Distinct, accepted-unprocessed, Distinct}
use kinet_std.Cosmos.State.{Storage, ExecuteMsg, MessageInfo, Response, Runtime}
use kinet_std.Cosmos.Contract
use kinet_std.Cosmos.Authorize.{processed, key_of}
use kinet_std.Cosmos.Inbound.{Minted, Released, mint_bridged-Minted, release-Released}

abbrev pub inbound_key : ExecuteMsg → Option Key
inbound_key (ExecuteMsg.mint_bridged m) = some (key_of m)
inbound_key (ExecuteMsg.release m) = some (key_of m)
inbound_key _ = none

-- What a call does to the processed nonces: those of an inbound call gain its key, which was not
-- among them, and any other call leaves them alone.
pub record Marks (s : Storage) (k : Key) (t : Storage) : Type 0 where
  pub fresh : processed s k ≡ false
  pub marked : t.processed_nonces ≡ insert_key s.processed_nonces k true

unfoldable pub NonceEffect : Storage → Option Key → Storage → Type 0
NonceEffect s none t = t.processed_nonces ≡ s.processed_nonces
NonceEffect s (some k) t = Marks s k t

module _ (rt : Runtime) where
  dispatch-NonceEffect :
      (s : Storage) (now : ℕ) (info : MessageInfo) (msg : ExecuteMsg) (t : Storage) (r : Response)
      → Contract.dispatch rt s now info msg ≡ ok (t, r)
      → NonceEffect s (inbound_key msg) t
  unfolding Contract.dispatch NonceEffect
  dispatch-NonceEffect s now info (ExecuteMsg.lock_and_bridge d x) t r h =
      unfold Contract.lock_and_bridge in ground arith
  dispatch-NonceEffect s now info (ExecuteMsg.mint_bridged m) t r h =
      let minted : Minted rt s now m t r = mint_bridged-Minted rt s now m t r h in
      record { fresh = minted.authorized.fresh; marked = ground (arith, minted.state_after) }
  dispatch-NonceEffect s now info (ExecuteMsg.burn_bridged d x y a) t r h =
      unfold Contract.burn_bridged in ground arith
  dispatch-NonceEffect s now info (ExecuteMsg.release m) t r h =
      let released : Released rt s m t r = release-Released rt s m t r h in
      record { fresh = released.authorized.fresh; marked = ground (arith, released.state_after) }
  dispatch-NonceEffect s now info (ExecuteMsg.register_token d n l) t r h =
      unfold Contract.register_token in ground arith
  dispatch-NonceEffect s now info (ExecuteMsg.update_signers x n) t r h =
      unfold Contract.update_signers in ground arith
  dispatch-NonceEffect s now info (ExecuteMsg.update_fee f) t r h =
      unfold Contract.update_fee in ground arith
  dispatch-NonceEffect s now info ExecuteMsg.pause t r h = unfold Contract.pause in ground arith
  dispatch-NonceEffect s now info ExecuteMsg.unpause t r h = unfold Contract.unpause in ground arith

  -- The contract as a step function: the storage after a call that goes through.
  unfoldable pub step : Storage → Contract.Call → Option Storage
  step s c = state_of (Contract.execute rt s c)

  abbrev pub call_key : Contract.Call → Option Key
  call_key c = inbound_key c.msg

  pub step-NonceEffect :
      (s : Storage) (c : Contract.Call) (t : Storage)
      → step s c ≡ some t
      → NonceEffect s (call_key c) t
  unfolding step Contract.execute
  step-NonceEffect s c t h =
      let (r, e) = state_of-eq-some (Contract.dispatch rt s c.now c.info c.msg) h in
      dispatch-NonceEffect s c.now c.info c.msg t r e

NonceEffect-fresh :
    (s : Storage) (o : Option Key) (t : Storage) (k : Key)
    → NonceEffect s o t
    → o ≡ some k
    → (processed s k ≡ false) × (processed t k ≡ true)
unfolding NonceEffect
NonceEffect-fresh s none t k e p = cc
NonceEffect-fresh s (some j) t k e p = ground (arith, e.fresh, e.marked, key_eq_iff j k)

NonceEffect-kept :
    (s : Storage) (o : Option Key) (t : Storage) (k : Key)
    → NonceEffect s o t
    → processed s k ≡ true
    → processed t k ≡ true
unfolding NonceEffect
NonceEffect-kept s none t k e p = ground arith
NonceEffect-kept s (some j) t k e p = ground (arith, e.marked)

module _ (rt : Runtime) where
  replay_guard : ReplayGuard (step rt) (call_key rt) processed (λ s. Unit {0})
  replay_guard = record {
    stays = λ s c t v went. tt;
    fresh = λ s c t k v went key.
        (NonceEffect-fresh s (call_key rt c) t k (step-NonceEffect rt s c t went) key).0;
    marked = λ s c t k v went key.
        (NonceEffect-fresh s (call_key rt c) t k (step-NonceEffect rt s c t went) key).1;
    kept = λ s c t k v went old.
        NonceEffect-kept s (call_key rt c) t k (step-NonceEffect rt s c t went) old;
  }

  -- Over any sequence of messages to the CosmWasm bridge, from any storage, the keys of the mints
  -- and releases that go through are pairwise different, and none was processed before.
  pub cosmos_no_replay :
      (s : Storage) (calls : List Contract.Call)
      → let keys = accepted (step rt) (call_key rt) s calls in
        Distinct keys × All (λ k. processed s k ≡ false) keys
  cosmos_no_replay s calls =
      (accepted-Distinct replay_guard s calls tt, accepted-unprocessed replay_guard s calls tt)
