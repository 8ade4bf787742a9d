-- ===== src/Icp/Inbound.antt =====
-- What a mint of the Internet Computer bridge needs and does, and that it goes through at most once.
use kinet_std.Shared.{
  ℕ, ◌<◌, ◌≡◌, ◌↔◌, Bool, true, false, Option, some, none, List, All, contains, ok, err, arith, Key,
  key_eq_iff, Result-cases, Option-cases, inl, inr,
}
use kinet_std.Spec.Replay.{ReplayGuard, accepted, accepted-Distinct, accepted-unprocessed, Distinct}
use kinet_std.Icp.State.{BridgeConfig, Call, Context, Inbound, Statics}
use kinet_std.Icp.Canister

abbrev pub processed : Statics → Key → Bool
processed s k = s.processed_nonces k

abbrev pub key_of : Inbound → Key
key_of m = (m.source_chain_id, m.nonce)

-- What the code asks of a mint: a live bridge, an amount that is not 0, the name of a configured
-- key, and an unused nonce.
pub record Mintable (s : Statics) (m : Inbound) : Type 0 where
  pub config : BridgeConfig
  pub loaded : s.config ≡ some config
  pub live : config.paused ≡ false
  pub positive : 0 < m.amount
  pub listed : contains config.mpc_signers m.signer_pubkey ≡ true
  pub fresh : processed s (key_of m) ≡ false

-- What it does: it files the nonce. The recipient, the amount and the signature leave no trace.
abbrev pub filed : Statics → Key → Statics
filed s k = record s { processed_nonces = Canister.insert_nonce s.processed_nonces k }

mint_bridged-Mintable :
    (s : Statics) (m : Inbound) (t : Statics)
    → Canister.mint_bridged s m ≡ ok t
    → Mintable s m × (t ≡ filed s (key_of m))
unfolding Canister.mint_bridged
mint_bridged-Mintable s m t h = elim (Option-cases s.config) [
  | inl missing ↦ absurd (ground arith)
  | inr (config, loaded) ↦ (
    record {
      config = config;
      loaded = loaded;
      live = ground arith;
      positive = ground arith;
      listed = ground arith;
      fresh = ground arith;
    },
    ground arith,
  )
]

-- A mint of the Internet Computer bridge goes through exactly when the bridge is live, the amount is
-- not 0, the named key is a configured one and the nonce is unused, whatever the signature is; and
-- then all that it does is to file the nonce: nothing is paid or logged.
pub icp_mint_bridged_iff :
    (s : Statics) (m : Inbound) (t : Statics)
    → (Canister.mint_bridged s m ≡ ok t) ↔ (Mintable s m × (t ≡ filed s (key_of m)))
unfolding Canister.mint_bridged
icp_mint_bridged_iff s m t = (
  mint_bridged-Mintable s m t,
  λ (p, e). ground (arith, p.loaded, p.live, p.positive, p.listed, p.fresh, e),
)

-- A call, with what it sees of the chain.
pub record Transaction : Type 0 where
  pub context : Context
  pub call : Call

abbrev pub inbound_key : Call → Option Key
inbound_key (Call.mint_bridged m) = some (key_of m)
inbound_key _ = none

abbrev pub transaction_key : Transaction → Option Key
transaction_key x = inbound_key x.call

module _ (checks : Bool) where
  run_call-fresh :
      (s : Statics) (cx : Context) (c : Call) (t : Statics) (n : Option ℕ) (k : Key)
      → Canister.run_call checks s cx c ≡ ok (t, n)
      → inbound_key c ≡ some k
      → (processed s k ≡ false) × (processed t k ≡ true)
  unfolding Canister.run_call
  run_call-fresh s cx (Call.mint_bridged m) t n k h inbound =
      let (p, e) = mint_bridged-Mintable s m t (ground arith) in
      ground (arith, p.fresh, e, key_eq_iff (key_of m) k)
  run_call-fresh s cx c t n k h inbound = cc

  run_call-kept :
      (s : Statics) (cx : Context) (c : Call) (t : Statics) (n : Option ℕ) (k : Key)
      → Canister.run_call checks s cx c ≡ ok (t, n)
      → processed s k ≡ true
      → processed t k ≡ true
  unfolding Canister.run_call Canister.lock_and_bridge Canister.burn_bridged Canister.pause
      Canister.unpause
  run_call-kept s cx (Call.mint_bridged m) t n k h old =
      let (p, e) = mint_bridged-Mintable s m t (ground arith) in ground (arith, e)
  run_call-kept s cx c t n k h old = ground arith

  unfoldable pub step : Statics → Transaction → Option Statics
  step s x = elim (Canister.run_call checks s x.context x.call) [
    | ok (t, n) ↦ some t
    | err e ↦ none
  ]

  step-went :
      (s : Statics) (x : Transaction) (t : Statics)
      → step s x ≡ some t
      → (n : Option ℕ) × (Canister.run_call checks s x.context x.call ≡ ok (t, n))
  unfolding step
  step-went s x t h = elim (Result-cases (Canister.run_call checks s x.context x.call)) [
    | inl ((b, n), went) ↦ (n, ground arith)
    | inr (e, failed) ↦ absurd (ground arith)
  ]

  replay_guard : ReplayGuard step transaction_key processed (λ s. Unit {0})
  replay_guard = record {
    stays = λ s x t v went. tt;
    fresh = λ s x t k v went inbound.
        let (n, call) = step-went s x t went in
        (run_call-fresh s x.context x.call t n k call inbound).0;
    marked = λ s x t k v went inbound.
        let (n, call) = step-went s x t went in
        (run_call-fresh s x.context x.call t n k call inbound).1;
    kept = λ s x t k v went old.
        let (n, call) = step-went s x t went in run_call-kept s x.context x.call t n k call old;
  }

  -- Over any sequence of update calls of the Internet Computer bridge, from any statics, the keys of
  -- the mints that go through are pairwise different, and none was processed before.
  pub icp_no_replay :
      (s : Statics) (transactions : List Transaction)
      → let keys = accepted step transaction_key s transactions in
        Distinct keys × All (λ k. processed s k ≡ false) keys
  icp_no_replay s transactions = (
    accepted-Distinct replay_guard s transactions tt,
    accepted-unprocessed replay_guard s transactions tt,
  )
