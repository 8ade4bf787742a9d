-- ===== src/Solana/Replay.antt =====
-- An inbound transfer of the Solana bridge goes through at most once, as mint or as release: the
-- two share one tracker for each source chain.
use kinet_std.Shared.{
  ℕ, ◌≡◌, Bool, true, false, ◌||◌, ◌==◌, Option, some, none, List, All, ok, Key, arith,
  Option-cases, Result-cases, inl, inr, insert_nat, state_of, state_of-eq-some, ◌&&◌, ap,
}
use kinet_std.Shared.Int.{ℤ}
use native.Mathlib.Decide.{ℕ_discrete}
use kinet_std.Spec.Replay.{ReplayGuard, accepted, accepted-Distinct, accepted-unprocessed, Distinct}
use kinet_std.Solana.State.{Pubkey, Event, NonceTracker, is_processed, mark_processed}
use kinet_std.Solana.Runtime.{Spl, Addresses, Accounts}
use kinet_std.Solana.Bitmap.{IsTracker, mark_processed-IsTracker, is_processed-mark_processed}
use kinet_std.Solana.Admin
use kinet_std.Solana.Transfers
use kinet_std.Solana.Transfers.{MintBridged, Release}
use kinet_std.Solana.Program
use kinet_std.Solana.Program.{Call}

abbrev pub processed : {spl : Spl} → Accounts spl → Key → Bool
processed a k = elim (a.trackers k.0) [ none ↦ false | some t ↦ is_processed t k.1 ]

abbrev pub inbound_key : Call → Option Key
inbound_key (Call.mint_bridged x) = some (x.source_chain_id, x.nonce)
inbound_key (Call.release x) = some (x.source_chain_id, x.nonce)
inbound_key _ = none

-- Every tracker that exists has its 1024 bytes.
abbrev pub TrackersValid : {spl : Spl} → Accounts spl → Type 0
TrackersValid a = (c : ℕ) (t : NonceTracker) → a.trackers c ≡ some t → IsTracker t

-- What an instruction does to the trackers.
pub record Marks {spl : Spl} (a : Accounts spl) (k : Key) (b : Accounts spl) : Type 0 where
  pub before : NonceTracker
  pub found : a.trackers k.0 ≡ some before
  pub fresh : is_processed before k.1 ≡ false
  pub after : NonceTracker
  pub marked : mark_processed before k.1 ≡ ok after
  pub stored : b.trackers ≡ insert_nat a.trackers k.0 after

unfoldable pub TrackerEffect : {spl : Spl} → Accounts spl → Option Key → Accounts spl → Type 0
TrackerEffect a none b = b.trackers ≡ a.trackers
TrackerEffect a (some k) b = Marks a k b

module _ {spl : Spl} (at : Addresses) (a : Accounts spl) (now : ℤ) where
  pub mint_bridged-Marks :
      (x : MintBridged) (b : Accounts spl) (e : Event)
      → Transfers.mint_bridged at a now x ≡ ok (b, e)
      → Marks a (x.source_chain_id, x.nonce) b
  unfolding Transfers.mint_bridged
  mint_bridged-Marks x b e h = elim (Option-cases (a.trackers x.source_chain_id)) [
    | inl missing ↦ absurd (ground arith)
    | inr (t, found) ↦ elim (Result-cases (mark_processed t x.nonce)) [
      | inr (f, failed) ↦ absurd (ground arith)
      | inl (u, marked) ↦ record {
        before = t;
        found = found;
        fresh = ground arith;
        after = u;
        marked = marked;
        stored = ground arith;
      }
    ]
  ]

  pub release-Marks :
      (x : Release) (b : Accounts spl) (e : Event)
      → Transfers.release at a now x ≡ ok (b, e)
      → Marks a (x.source_chain_id, x.nonce) b
  unfolding Transfers.release
  release-Marks x b e h = elim (Option-cases (a.trackers x.source_chain_id)) [
    | inl missing ↦ absurd (ground arith)
    | inr (t, found) ↦ elim (Result-cases (mark_processed t x.nonce)) [
      | inr (f, failed) ↦ absurd (ground arith)
      | inl (u, marked) ↦ record {
        before = t;
        found = found;
        fresh = ground arith;
        after = u;
        marked = marked;
        stored = ground arith;
      }
    ]
  ]

module _ {spl : Spl} (at : Addresses) (a : Accounts spl) (signer : Pubkey) (now : ℤ) where
  pub run_call-TrackerEffect :
      (c : Call) (b : Accounts spl) (e : Option Event)
      → Program.run_call at a signer now c ≡ ok (b, e)
      → TrackerEffect a (inbound_key c) b
  unfolding Program.run_call TrackerEffect
  run_call-TrackerEffect (Call.initialize s t f i) b e h = unfold Admin.initialize in ground arith
  run_call-TrackerEffect (Call.register_token m w n l) b e h =
      unfold Admin.register_token in ground arith
  run_call-TrackerEffect (Call.lock_and_bridge x) b e h =
      unfold Transfers.lock_and_bridge in ground arith
  run_call-TrackerEffect (Call.mint_bridged x) b e h =
      elim (Result-cases (Transfers.mint_bridged at a now x)) [
        | inl ((b', v), went) ↦
            let same : b' ≡ b = ground arith in rw same at (mint_bridged-Marks at a now x b' v went)
        | inr (f, failed) ↦ absurd (ground arith)
      ]
  run_call-TrackerEffect (Call.burn_bridged x) b e h = unfold Transfers.burn_bridged in ground arith
  run_call-TrackerEffect (Call.release x) b e h =
      elim (Result-cases (Transfers.release at a now x)) [
        | inl ((b', v), went) ↦
            let same : b' ≡ b = ground arith in rw same at (release-Marks at a now x b' v went)
        | inr (f, failed) ↦ absurd (ground arith)
      ]
  run_call-TrackerEffect Call.pause b e h = unfold Admin.pause in ground arith
  run_call-TrackerEffect Call.unpause b e h = unfold Admin.unpause in ground arith
  run_call-TrackerEffect (Call.propose_signers p s t m) b e h =
      unfold Admin.propose_signers in ground arith
  run_call-TrackerEffect Call.execute_signers b e h = unfold Admin.execute_signers in ground arith
  run_call-TrackerEffect Call.cancel_signers b e h = unfold Admin.cancel_signers in ground arith
  run_call-TrackerEffect (Call.update_fee f) b e h = unfold Admin.update_fee in ground arith
  run_call-TrackerEffect (Call.set_rotation_delay d) b e h =
      unfold Admin.set_rotation_delay in ground arith

-- Marking shows in `processed` as exactly the one key more.
pub Marks-processed :
    {spl : Spl} (a b : Accounts spl) (k j : Key)
    → TrackersValid a
    → Marks a k b
    → processed b j ≡ (k.0 == j.0 && k.1 == j.1 || processed a j)
Marks-processed a b k j v m = elim (ℕ_discrete k.0 j.0) [
  | yes same ↦ ground (
    arith,
    m.found,
    m.stored,
    ap a.trackers same,
    is_processed-mark_processed m.before k.1 j.1 m.after (v k.0 m.before m.found) m.marked,
  )
  | no other ↦ ground (arith, m.stored)
]

Marks-TrackersValid :
    {spl : Spl} (a b : Accounts spl) (k : Key) → TrackersValid a → Marks a k b → TrackersValid b
Marks-TrackersValid a b k v m c t found = elim (ℕ_discrete k.0 c) [
  | yes same ↦
      let here : m.after ≡ t = ground (arith, m.stored) in
      rw here at (mark_processed-IsTracker m.before k.1 m.after (v k.0 m.before m.found) m.marked)
  | no other ↦ v c t (ground (arith, m.stored))
]

module _ {spl : Spl} (a b : Accounts spl) where
  pub effect-TrackersValid :
      (o : Option Key) → TrackersValid a → TrackerEffect a o b → TrackersValid b
  unfolding TrackerEffect
  effect-TrackersValid none v e = λ c t found. v c t (ground arith)
  effect-TrackersValid (some k) v e = Marks-TrackersValid a b k v e

  pub effect-marks :
      (o : Option Key) (k : Key)
      → TrackersValid a
      → TrackerEffect a o b
      → o ≡ some k
      → (processed a k ≡ false) × (processed b k ≡ true)
  unfolding TrackerEffect
  effect-marks none k v e p = cc
  effect-marks (some j) k v e p = ground (arith, e.found, e.fresh, Marks-processed a b j k v e)

  effect-kept :
      (o : Option Key) (k : Key)
      → TrackersValid a
      → TrackerEffect a o b
      → processed a k ≡ true
      → processed b k ≡ true
  unfolding TrackerEffect
  effect-kept none k v e p = ground arith
  effect-kept (some j) k v e p = ground (arith, Marks-processed a b j k v e)

-- A transaction: who signed it, when, its instruction, and the token accounts as it finds them:
-- between two instructions of the bridge others move tokens.
pub record Transaction (spl : Spl) : Type 0 where
  pub signer : Pubkey
  pub now : ℤ
  pub ledger : spl.Ledger
  pub call : Call

abbrev pub transaction_key : {spl : Spl} → Transaction spl → Option Key
transaction_key x = inbound_key x.call

-- The accounts as a transaction finds them.
abbrev pub found_by : {spl : Spl} → Accounts spl → Transaction spl → Accounts spl
found_by a x = record a { ledger = x.ledger }

effect-found_by :
    {spl : Spl} (a : Accounts spl) (x : Transaction spl) (o : Option Key) (b : Accounts spl)
    → TrackerEffect (found_by a x) o b
    → TrackerEffect a o b
unfolding TrackerEffect
effect-found_by a x none b e = e
effect-found_by a x (some k) b m = record {
  before = m.before;
  found = m.found;
  fresh = m.fresh;
  after = m.after;
  marked = m.marked;
  stored = m.stored;
}

module _ {spl : Spl} (at : Addresses) where
  unfoldable pub step : Accounts spl → Transaction spl → Option (Accounts spl)
  step a x = state_of (Program.run_call at (found_by a x) x.signer x.now x.call)

  pub step-TrackerEffect :
      (a : Accounts spl) (x : Transaction spl) (b : Accounts spl)
      → step a x ≡ some b
      → TrackerEffect a (transaction_key x) b
  unfolding step
  step-TrackerEffect a x b h =
      let (e, went) =
        state_of-eq-some (Program.run_call at (found_by a x) x.signer x.now x.call) h in
      effect-found_by a x (transaction_key x) b
        (run_call-TrackerEffect at (found_by a x) x.signer x.now x.call b e went)

module _ {spl : Spl} (at : Addresses) where
  replay_guard : ReplayGuard (step {spl = spl} at) transaction_key processed TrackersValid
  replay_guard = record {
    stays =
        λ a x b v h. effect-TrackersValid a b (transaction_key x) v (step-TrackerEffect at a x b h);
    fresh = λ a x b k v h e.
        (effect-marks a b (transaction_key x) k v (step-TrackerEffect at a x b h) e).0;
    marked = λ a x b k v h e.
        (effect-marks a b (transaction_key x) k v (step-TrackerEffect at a x b h) e).1;
    kept =
        λ a x b k v h p. effect-kept a b (transaction_key x) k v (step-TrackerEffect at a x b h) p;
  }

  -- Over any sequence of transactions of the Solana bridge, from any accounts whose trackers have
  -- their 1024 bytes, the keys of the mints and releases that go through are pairwise different,
  -- and none was processed before.
  pub solana_no_replay :
      (a : Accounts spl) (transactions : List (Transaction spl))
      → TrackersValid a
      → let keys = accepted (step at) transaction_key a transactions in
        Distinct keys × All (λ k. processed a k ≡ false) keys
  solana_no_replay a transactions v = (
    accepted-Distinct replay_guard a transactions v,
    accepted-unprocessed replay_guard a transactions v,
  )
