-- ===== src/Icp/Events.antt =====
-- The event log of the Internet Computer bridge over whole runs, what `get_events` shows of it, and
-- what its locks rest on.
use kinet_std.Shared.{
  ◌↔◌, Option-cases, ℕ, ◌+◌, ◌-◌, ◌*◌, ◌/◌, ◌^◌, ◌≤◌, ◌<◌, ◌≡◌, refl, true, false, Option, some,
  none, List, [], ◌∷◌, ◌++◌, All, All-mono, ok, err, arith, Result-cases, inl, inr, leb, Bool-cases,
  Bytes,
}
use kinet_std.Spec.Outbound.{Increasing}
use kinet_std.Spec.Run.{final, final_inv, sum_of}
use kinet_std.Icp.State.{BridgeConfig, Context, LockEvent, Statics}
use kinet_std.Icp.Canister
use kinet_std.Icp.Inbound.{Transaction}
use kinet_std.Icp.Log.{IsConsistent, nonces, run_call-consistent, StaticsAreConsistent}

abbrev listed : Option ℕ → List ℕ
listed none = []
listed (some n) = n ∷ []

-- The canister, built with overflow checks, as a step function with the nonces that it returns.
unfoldable pub returning_step : Statics → Transaction → Option (Statics × List ℕ)
returning_step s x = elim (Canister.run_call true s x.context x.call) [
  | ok (t, n) ↦ some (t, listed n)
  | err e ↦ none
]

returning_step-consistent :
    (s : Statics) (x : Transaction) (t : Statics) (ns : List ℕ)
    → returning_step s x ≡ some (t, ns)
    → StaticsAreConsistent s
    → StaticsAreConsistent t
unfolding returning_step
returning_step-consistent s x t ns h (c, loaded, w) =
    elim (Result-cases (Canister.run_call true s x.context x.call)) [
      | inl ((u, n), went) ↦
          let same : t ≡ u = ground arith in
          rw same (run_call-consistent s c loaded w x.context x.call u n went)
      | inr (e, failed) ↦ absurd (ground arith)
    ]

-- Where the build checks overflow, after any sequence of update calls of a newly installed Internet
-- Computer bridge, the nonces in its event log grow strictly up to the last one given out, the
-- logged amounts add up to the total locked, and every event names this chain.
pub icp_log-IsConsistent :
    (cx : Context) (signers : List Bytes) (threshold fee : ℕ) (s : Statics)
    (transactions : List Transaction)
    → Canister.init Canister.installed cx signers threshold fee ≡ ok s
    → StaticsAreConsistent (final returning_step s transactions)
unfolding Canister.init
icp_log-IsConsistent cx signers threshold fee s transactions h =
    let c : BridgeConfig = record {
      admin = cx.caller;
      mpc_signers = signers;
      threshold = threshold;
      fee_bps = fee;
      paused = false;
      outbound_nonce = 0;
      total_locked = 0;
      total_burned = 0;
    } in
    let start : s ≡ record Canister.installed { config = some c } = ground arith in
    final_inv returning_step StaticsAreConsistent returning_step-consistent s transactions
      (rw start (c, refl, unfold sum_of in omega arith))

-- Past a bound nothing of an increasing log is in a range up to it.
in_range-empty :
    (from mid : ℕ) (es : List LockEvent)
    → All (λ n. mid < n) (nonces es)
    → Canister.in_range from mid es ≡ []
unfolding Canister.in_range
in_range-empty from mid [] above = refl
in_range-empty from mid (e ∷ es) above = ground (arith, in_range-empty from mid es above.1)

in_range-pages :
    (from mid to : ℕ) (es : List LockEvent)
    → from ≤ mid
    → mid < to
    → Increasing (nonces es)
    → Canister.in_range from to es
      ≡ Canister.in_range from mid es ++ Canister.in_range (mid + 1) to es
unfolding Canister.in_range
in_range-pages from mid to [] low high inc = refl
in_range-pages from mid to (e ∷ es) low high inc = elim (Bool-cases (leb e.nonce mid)) [
  | inl early ↦ ground (arith, in_range-pages from mid to es low high inc.1)
  | inr late ↦ ground (
    arith,
    in_range-pages from mid to es low high inc.1,
    in_range-empty from mid es
        (All-mono (λ n. e.nonce < n) (λ n. mid < n) (nonces es) (λ n h. ground arith) inc.0),
  )
]

in_range_whole :
    (to : ℕ) (es : List LockEvent) → All (λ n. n ≤ to) (nonces es) → Canister.in_range 0 to es ≡ es
unfolding Canister.in_range
in_range_whole to [] below = refl
in_range_whole to (e ∷ es) below = ground (arith, in_range_whole to es below.1)

-- Of a consistent canister `get_events` shows the whole log from 0 to the last nonce given out, and
-- a range shows what its two parts show one after the other, wherever it is cut: reading the log
-- page by page misses no event and repeats none.
pub get_events-pages :
    (s : Statics) (c : BridgeConfig) (from mid to : ℕ)
    → IsConsistent s.event_log c
    → from ≤ mid
    → mid < to
    → (Canister.get_events s 0 c.outbound_nonce ≡ s.event_log)
      × (Canister.get_events s from to
          ≡ Canister.get_events s from mid ++ Canister.get_events s (mid + 1) to)
unfolding Canister.get_events
get_events-pages s c from mid to w low high = (
  in_range_whole c.outbound_nonce s.event_log w.given_out,
  in_range-pages from mid to s.event_log low high w.increasing,
)

-- What a lock rests on and does: the canister is installed and live, the amount is not 0, and the
-- words fit; the next nonce, the total locked and the event log are all that changes.
pub record Logged (s : Statics) (cx : Context) (amount dest : ℕ) (recipient : Bytes) (t : Statics)
    (nonce : ℕ) : Type 0 where
  pub config : BridgeConfig
  pub loaded : s.config ≡ some config
  pub live : config.paused ≡ false
  pub positive : 0 < amount
  pub fee : ℕ
  pub bridged : ℕ
  pub product : amount * config.fee_bps < 2 ^ 128
  pub rate : fee ≡ amount * config.fee_bps / 10000
  pub parts : bridged + fee ≡ amount
  pub total : config.total_locked + bridged < 2 ^ 128
  pub next : nonce ≡ config.outbound_nonce + 1
  pub nonce_u64 : nonce < 2 ^ 64
  pub statics_after : t ≡ record s {
    config =
        some
          (record config { total_locked = config.total_locked + bridged; outbound_nonce = nonce });
    event_log =
        s.event_log
        ++ record {
          source_chain = Canister.icp_chain_id;
          dest_chain = dest;
          nonce = nonce;
          sender = cx.caller;
          recipient = recipient;
          amount = bridged;
          fee = fee;
          timestamp = cx.time;
        }
          ∷ [];
  }

module _ (s : Statics) (cx : Context) (amount dest : ℕ) (recipient : Bytes) (t : Statics)
    (nonce : ℕ) where
  lock_and_bridge-Logged :
      Canister.lock_and_bridge true s cx amount dest recipient ≡ ok (t, nonce)
      → Logged s cx amount dest recipient t nonce
  unfolding Canister.lock_and_bridge
  lock_and_bridge-Logged h = elim (Option-cases s.config) [
    | inl missing ↦ absurd (ground arith)
    | inr (c, loaded) ↦ record {
      config = c;
      loaded = loaded;
      live = ground arith;
      positive = ground arith;
      fee = amount * c.fee_bps / 10000;
      bridged = amount - amount * c.fee_bps / 10000;
      product = ground arith;
      rate = refl;
      parts = ground arith;
      total = ground arith;
      next = ground arith;
      nonce_u64 = ground arith;
      statics_after = ground arith;
    }
  ]

  Logged-lock_and_bridge :
      Logged s cx amount dest recipient t nonce
      → Canister.lock_and_bridge true s cx amount dest recipient ≡ ok (t, nonce)
  unfolding Canister.lock_and_bridge
  Logged-lock_and_bridge p =
      let less : p.bridged ≡ amount - amount * p.config.fee_bps / 10000 =
        omega (arith, p.parts, p.rate) in
      ground (
        arith, p.loaded, p.live, p.positive, p.product, p.rate, less, p.parts, p.total, p.next,
        p.nonce_u64, p.statics_after,
      )

  -- Where the build checks overflow, a lock of the Internet Computer bridge goes through, with given
  -- statics and nonce, exactly when the canister is installed and live, the amount is not 0, the
  -- product with the fee rate, the total locked and the nonce fit their words and the fee is no more
  -- than the amount, whoever the caller is; and all that it does is to take the next nonce, to add
  -- the amount less its fee to the total locked and to log both parts in the caller's name.
  pub lock_and_bridge-unbacked :
      (Canister.lock_and_bridge true s cx amount dest recipient ≡ ok (t, nonce))
      ↔ Logged s cx amount dest recipient t nonce
  lock_and_bridge-unbacked = (lock_and_bridge-Logged, Logged-lock_and_bridge)
