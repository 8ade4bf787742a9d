-- ===== src/Stellar/Replay.antt =====
-- An inbound transfer of the Stellar bridge goes through at most once, and its outbound nonces.
use kinet_std.Shared.{
  ◌≡◌, Bool, true, false, Option, some, none, List, All, Bytes, ok, err, arith, Key, key_eq_iff,
  Result-cases, inl, inr,
}
use kinet_std.Spec.Replay.{ReplayGuard, accepted, accepted-Distinct, accepted-unprocessed, Distinct}
use kinet_std.Stellar.State.{Call, Host, Outcome, Storage}
use kinet_std.Stellar.Contract
use kinet_std.Stellar.Inbound.{key_of, processed, Minted, mint_bridged-Minted}

-- A call, whose authorization it carries, and the tokens as it finds them: between two calls of the
-- bridge others move tokens.
pub record Transaction (host : Host) : Type 0 where
  pub auth : Bytes → Bool
  pub ledger : host.Ledger
  pub call : Call

abbrev pub inbound_key : Call → Option Key
inbound_key (Call.mint_bridged m) = some (key_of m)
inbound_key _ = none

abbrev pub transaction_key : {host : Host} → Transaction host → Option Key
transaction_key x = inbound_key x.call

module _ {host : Host} where
  run_call-fresh :
      (auth : Bytes → Bool) (s : Storage host) (c : Call) (t : Storage host) (o : Outcome) (k : Key)
      → Contract.run_call auth s c ≡ ok (t, o)
      → inbound_key c ≡ some k
      → (processed s k ≡ false) × (processed t k ≡ true)
  unfolding Contract.run_call
  run_call-fresh auth s (Call.mint_bridged m) t o k h inbound =
      let p : Minted s m t o = mint_bridged-Minted s m t o h in
      ground (arith, p.fresh, p.state_after, key_eq_iff (key_of m) k)
  run_call-fresh auth s c t o k h inbound = cc

  run_call-kept :
      (auth : Bytes → Bool) (s : Storage host) (c : Call) (t : Storage host) (o : Outcome) (k : Key)
      → Contract.run_call auth s c ≡ ok (t, o)
      → processed s k ≡ true
      → processed t k ≡ true
  unfolding Contract.run_call Contract.initialize Contract.lock_and_bridge Contract.burn_bridged
      Contract.pause Contract.unpause
  run_call-kept auth s (Call.mint_bridged m) t o k h old =
      let p : Minted s m t o = mint_bridged-Minted s m t o h in ground (arith, p.state_after)
  run_call-kept auth s c t o k h old = ground arith

  -- The storage as a transaction finds it.
  abbrev pub found : Storage host → Transaction host → Storage host
  found s x = record s { ledger = x.ledger }

  unfoldable pub step : Storage host → Transaction host → Option (Storage host)
  step s x = elim (Contract.run_call x.auth (found s x) x.call) [
    | ok (t, o) ↦ some t
    | err e ↦ none
  ]

  step-went :
      (s : Storage host) (x : Transaction host) (t : Storage host)
      → step s x ≡ some t
      → (o : Outcome) × (Contract.run_call x.auth (found s x) x.call ≡ ok (t, o))
  unfolding step
  step-went s x t h = elim (Result-cases (Contract.run_call x.auth (found s x) x.call)) [
    | inl ((b, o), went) ↦ (o, ground arith)
    | inr (e, failed) ↦ absurd (ground arith)
  ]

  replay_guard : ReplayGuard step transaction_key processed (λ s. Unit {0})
  replay_guard = record {
    stays = λ s x t v went. tt;
    fresh = λ s x t k v went inbound.
        let (o, call) = step-went s x t went in
        (run_call-fresh x.auth (found s x) x.call t o k call inbound).0;
    marked = λ s x t k v went inbound.
        let (o, call) = step-went s x t went in
        (run_call-fresh x.auth (found s x) x.call t o k call inbound).1;
    kept = λ s x t k v went old.
        let (o, call) = step-went s x t went in
        run_call-kept x.auth (found s x) x.call t o k call old;
  }

  -- Over any sequence of calls of the Stellar bridge, repeated `initialize` calls included, from any
  -- storage, the keys of the mints that go through are pairwise different, and none was processed
  -- before.
  pub stellar_no_replay :
      (s : Storage host) (transactions : List (Transaction host))
      → let keys = accepted step transaction_key s transactions in
        Distinct keys × All (λ k. processed s k ≡ false) keys
  stellar_no_replay s transactions = (
    accepted-Distinct replay_guard s transactions tt,
    accepted-unprocessed replay_guard s transactions tt,
  )
