-- ===== src/Icp/Log.antt =====
-- The event log of the Internet Computer bridge: its nonces, its amounts, and what its queries show.
use kinet_std.Shared.{
  ℕ, ◌+◌, ◌-◌, ◌*◌, ◌/◌, ◌≤◌, ◌<◌, ◌≡◌, refl, true, false, Option, some, List, [], ◌∷◌, ◌++◌, All,
  All-append, All-mono, ok, arith, Result-cases, inl, inr, ap, Bytes,
}
use kinet_std.Spec.Outbound.{Increasing}
use kinet_std.Spec.Run.{sum_of, sum_of-append}
use kinet_std.Icp.State.{BridgeConfig, Call, Context, LockEvent, Statics}
use kinet_std.Icp.Canister

-- The nonces in the log, in its order.
abbrev pub nonces : List LockEvent → List ℕ
nonces [] = []
nonces (e ∷ es) = e.nonce ∷ nonces es

-- The log against the configuration: its nonces grow strictly up to the last one given out, its
-- amounts add up to the total locked, and all its events name this chain.
pub record IsConsistent (log : List LockEvent) (c : BridgeConfig) : Type 0 where
  pub increasing : Increasing (nonces log)
  pub given_out : All (λ n. n ≤ c.outbound_nonce) (nonces log)
  pub total : c.total_locked ≡ sum_of (λ e. e.amount) log
  pub stamped : All (λ e. e.source_chain ≡ Canister.icp_chain_id) log

abbrev pub StaticsAreConsistent : Statics → Type 0
StaticsAreConsistent s = (c : BridgeConfig) × (s.config ≡ some c) × IsConsistent s.event_log c

nonces-append : (es fs : List LockEvent) → nonces (es ++ fs) ≡ nonces es ++ nonces fs
nonces-append [] fs = refl
nonces-append (e ∷ es) fs = ap (λ ns. e.nonce ∷ ns) (nonces-append es fs)

Increasing-append_one :
    (ns : List ℕ) (m n : ℕ)
    → Increasing ns
    → All (λ k. k ≤ m) ns
    → m < n
    → Increasing (ns ++ n ∷ [])
Increasing-append_one [] m n inc bound h = (tt, tt)
Increasing-append_one (k ∷ ns) m n inc bound h = (
  All-append (λ j. k < j) ns (n ∷ []) inc.0 (omega arith),
  Increasing-append_one ns m n inc.1 bound.1 h,
)

-- A lock's event behind a consistent log.
IsConsistent-push :
    (log : List LockEvent) (c d : BridgeConfig) (e : LockEvent)
    → IsConsistent log c
    → e.nonce ≡ c.outbound_nonce + 1
    → e.source_chain ≡ Canister.icp_chain_id
    → d.outbound_nonce ≡ c.outbound_nonce + 1
    → d.total_locked ≡ c.total_locked + e.amount
    → IsConsistent (log ++ e ∷ []) d
IsConsistent-push log c d e w numbered stamp next total = record {
  increasing = rw (nonces-append log (e ∷ [])) (
      Increasing-append_one (nonces log) c.outbound_nonce e.nonce w.increasing w.given_out
        (omega arith));
  given_out = rw (nonces-append log (e ∷ [])) (
      All-append (λ n. n ≤ d.outbound_nonce) (nonces log) (e.nonce ∷ [])
        (All-mono (λ n. n ≤ c.outbound_nonce) (λ n. n ≤ d.outbound_nonce) (nonces log)
          (λ n h. omega arith) w.given_out)
        (omega arith));
  total = unfold sum_of in omega (arith, w.total, sum_of-append (λ e. e.amount) log (e ∷ []));
  stamped =
      All-append (λ e. e.source_chain ≡ Canister.icp_chain_id) log (e ∷ []) w.stamped (stamp, tt);
}

-- A change of the configuration that leaves the nonce no lower and the total locked alone.
IsConsistent-carry :
    (log : List LockEvent) (c d : BridgeConfig)
    → IsConsistent log c
    → c.outbound_nonce ≤ d.outbound_nonce
    → d.total_locked ≡ c.total_locked
    → IsConsistent log d
IsConsistent-carry log c d w grows same = record {
  increasing = w.increasing;
  given_out =
      All-mono (λ n. n ≤ c.outbound_nonce) (λ n. n ≤ d.outbound_nonce) (nonces log)
        (λ n h. omega arith) w.given_out;
  total = omega (arith, w.total);
  stamped = w.stamped;
}

lock_and_bridge-consistent :
    (s : Statics) (cx : Context) (amount dest : ℕ) (recipient : Bytes) (c : BridgeConfig)
    (t : Statics) (n : ℕ)
    → s.config ≡ some c
    → IsConsistent s.event_log c
    → Canister.lock_and_bridge true s cx amount dest recipient ≡ ok (t, n)
    → StaticsAreConsistent t
unfolding Canister.lock_and_bridge
lock_and_bridge-consistent s cx amount dest recipient c t n loaded w h =
    let fee = amount * c.fee_bps / 10000 in
    let e : LockEvent = record {
      source_chain = Canister.icp_chain_id;
      dest_chain = dest;
      nonce = c.outbound_nonce + 1;
      sender = cx.caller;
      recipient = recipient;
      amount = amount - fee;
      fee = fee;
      timestamp = cx.time;
    } in
    let d : BridgeConfig = record c {
      total_locked = c.total_locked + (amount - fee);
      outbound_nonce = c.outbound_nonce + 1;
    } in
    let stored : t ≡ record s { config = some d; event_log = s.event_log ++ e ∷ [] } =
      ground arith in
    rw stored (d, refl, IsConsistent-push s.event_log c d e w refl refl refl refl)

module _ (s : Statics) (c : BridgeConfig) (loaded : s.config ≡ some c)
    (w : IsConsistent s.event_log c) where
  pub run_call-consistent :
      (cx : Context) (x : Call) (t : Statics) (n : Option ℕ)
      → Canister.run_call true s cx x ≡ ok (t, n)
      → StaticsAreConsistent t
  unfolding Canister.run_call Canister.burn_bridged Canister.mint_bridged Canister.pause
      Canister.unpause
  run_call-consistent cx (Call.lock_and_bridge amount dest recipient) t n h =
      elim (Result-cases (Canister.lock_and_bridge true s cx amount dest recipient)) [
        | inl ((u, k), went) ↦
            let same : t ≡ u = ground arith in
            rw same (lock_and_bridge-consistent s cx amount dest recipient c u k loaded w went)
        | inr (e, failed) ↦ absurd (ground arith)
      ]
  run_call-consistent cx (Call.mint_bridged m) t n h =
      let same : (t.config ≡ some c) × (t.event_log ≡ s.event_log) = ground arith in
      (c, same.0, rw (same.1) w)
  run_call-consistent cx (Call.burn_bridged amount dest recipient) t n h =
      let d : BridgeConfig = record c {
        total_burned = c.total_burned + amount;
        outbound_nonce = c.outbound_nonce + 1;
      } in
      let same : (t.config ≡ some d) × (t.event_log ≡ s.event_log) = ground arith in
      (d, same.0, rw (same.1) (IsConsistent-carry s.event_log c d w (omega arith) refl))
  run_call-consistent cx Call.pause t n h =
      let d : BridgeConfig = record c { paused = true } in
      let same : (t.config ≡ some d) × (t.event_log ≡ s.event_log) = ground arith in
      (d, same.0, rw (same.1) (IsConsistent-carry s.event_log c d w (omega arith) refl))
  run_call-consistent cx Call.unpause t n h =
      let d : BridgeConfig = record c { paused = false } in
      let same : (t.config ≡ some d) × (t.event_log ≡ s.event_log) = ground arith in
      (d, same.0, rw (same.1) (IsConsistent-carry s.event_log c d w (omega arith) refl))
