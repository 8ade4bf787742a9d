-- ===== src/Near/Rules.antt =====
-- What the state of the NEAR bridge keeps to, who may change what, and its outbound nonces.
use kinet_std.Shared.{
  ℕ, ◌+◌, ◌≤◌, ◌<◌, ◌≡◌, Bool, false, Option, some, none, List, [], ◌∷◌, All, ok, err, Bytes,
  bytes_eq, arith, length, Result-cases, inl, inr,
}
use kinet_std.Spec.Outbound.{Sequencer, emitted, Increasing, emitted-Increasing}
use kinet_std.Spec.Run.{final, final_inv}
use kinet_std.Near.State.{BridgeEvent, Call, Context, KntBridge, Outcome}
use kinet_std.Near.Contract
use kinet_std.Near.Replay.{Transaction}
use kinet_std.Near.Books.{logging_step}

-- The fee is at most 5%, and every signer's key has its 32 bytes.
pub record IsWellFormed (b : KntBridge) : Type 0 where
  pub fee : b.fee_bps ≤ 500
  pub keys : All (λ k. length k ≡ 32) b.mpc_signers

abbrev pub StoredIsWellFormed : Option KntBridge → Type 0
StoredIsWellFormed none = Unit
StoredIsWellFormed (some b) = IsWellFormed b

-- What only the admin may change.
pub record SameRules (b t : KntBridge) : Type 0 where
  pub admin : t.admin ≡ b.admin
  pub signers : t.mpc_signers ≡ b.mpc_signers
  pub threshold : t.threshold ≡ b.threshold
  pub fee : t.fee_bps ≡ b.fee_bps
  pub paused : t.paused ≡ b.paused

abbrev pub next_free : Option KntBridge → ℕ
next_free none = 0
next_free (some b) = b.outbound_nonce + 1

to_keys_lengths :
    (ss : List Bytes) (keys : List Bytes)
    → Contract.to_keys ss ≡ ok keys
    → All (λ k. length k ≡ 32) keys
unfolding Contract.to_keys Contract.copy_from_slice
to_keys_lengths [] keys h = ground arith
to_keys_lengths (s ∷ ss) keys h = elim (Result-cases (Contract.to_keys ss)) [
  | inl (rest, read) ↦ ground (arith, to_keys_lengths ss rest read)
  | inr (e, failed) ↦ absurd (ground arith)
]

module _ (verify : (signature message pubkey : Bytes) → Bool) where
  dispatch-IsWellFormed :
      (b : KntBridge) (cx : Context) (c : Call) (t : KntBridge) (o : Outcome)
      → IsWellFormed b
      → Contract.dispatch verify b cx c ≡ ok (t, o)
      → IsWellFormed t
  unfolding Contract.dispatch Contract.lock_and_bridge Contract.burn_bridged Contract.pause
      Contract.unpause Contract.set_signers Contract.set_fee Contract.mint_bridged Contract.release
  dispatch-IsWellFormed b cx (Call.set_signers signers threshold) t o w h =
      elim (Result-cases (Contract.to_keys signers)) [
        | inl (keys, read) ↦ ground (arith, to_keys_lengths signers keys read)
        | inr (e, failed) ↦ absurd (ground arith)
      ]
  dispatch-IsWellFormed b cx c t o w h = ground arith

  -- A call of anyone but the admin that goes through leaves the admin, the signers, the threshold,
  -- the fee and the pause of the NEAR bridge as they were.
  pub dispatch-SameRules :
      (b : KntBridge) (cx : Context) (c : Call) (t : KntBridge) (o : Outcome)
      → bytes_eq cx.predecessor b.admin ≡ false
      → Contract.dispatch verify b cx c ≡ ok (t, o)
      → SameRules b t
  unfolding Contract.dispatch Contract.lock_and_bridge Contract.burn_bridged Contract.pause
      Contract.unpause Contract.set_signers Contract.set_fee Contract.mint_bridged Contract.release
      Contract.assert_admin
  dispatch-SameRules b cx (Call.new x y z) t o stranger h = absurd (ground arith)
  dispatch-SameRules b cx c t o stranger h = ground arith

  construct-IsWellFormed :
      (cx : Context) (c : Call) (t : KntBridge) (o : Outcome)
      → Contract.construct cx c ≡ ok (t, o)
      → IsWellFormed t
  unfolding Contract.construct Contract.new
  construct-IsWellFormed cx (Call.new signers threshold fee) t o h =
      elim (Result-cases (Contract.to_keys signers)) [
        | inl (keys, read) ↦ ground (arith, to_keys_lengths signers keys read)
        | inr (e, failed) ↦ absurd (ground arith)
      ]
  construct-IsWellFormed cx c t o h = absurd (ground arith)

  logging_step-IsWellFormed :
      (s : Option KntBridge) (x : Transaction) (t : Option KntBridge) (es : List BridgeEvent)
      → logging_step verify s x ≡ some (t, es)
      → StoredIsWellFormed s
      → StoredIsWellFormed t
  unfolding logging_step Contract.run_call
  logging_step-IsWellFormed none x t es h w =
      elim (Result-cases (Contract.construct x.context x.call)) [
        | inl ((b, o), went) ↦
            let same : t ≡ some b = ground arith in
            rw same (construct-IsWellFormed x.context x.call b o went)
        | inr (e, failed) ↦ absurd (ground arith)
      ]
  logging_step-IsWellFormed (some a) x t es h w =
      elim (Result-cases (Contract.dispatch verify a x.context x.call)) [
        | inl ((b, o), went) ↦
            let same : t ≡ some b = ground arith in
            rw same (dispatch-IsWellFormed a x.context x.call b o w went)
        | inr (e, failed) ↦ absurd (ground arith)
      ]

  -- Whatever transactions a new deployment of the NEAR bridge has seen, its fee is at most 5% and
  -- every signer's key has 32 bytes, once there is a state.
  pub near_well_formed :
      (transactions : List Transaction)
      → StoredIsWellFormed (final (logging_step verify) none transactions)
  near_well_formed transactions =
      final_inv (logging_step verify) StoredIsWellFormed logging_step-IsWellFormed none transactions
        tt

  -- A transaction that goes through, with the nonce that it returns.
  unfoldable pub outbound_step :
      Option KntBridge → Transaction → Option (Option KntBridge × Option ℕ)
  outbound_step s x = elim (Contract.run_call verify s x.context x.call) [
    | ok (t, o) ↦ some (some t, o.returned)
    | err e ↦ none
  ]

  Advances : ℕ → Option ℕ → ℕ → Type 0
  Advances before none after = before ≤ after
  Advances before (some n) after = (before ≤ n) × (n < after)

  run_call-Advances :
      (s : Option KntBridge) (cx : Context) (c : Call) (t : KntBridge) (o : Outcome)
      → Contract.run_call verify s cx c ≡ ok (t, o)
      → Advances (next_free s) o.returned (next_free (some t))
  unfolding Contract.run_call Contract.construct Contract.new Contract.dispatch
      Contract.lock_and_bridge Contract.burn_bridged Contract.pause Contract.unpause
      Contract.set_signers Contract.set_fee Contract.mint_bridged Contract.release Advances
  run_call-Advances none cx c t o h = ground arith
  run_call-Advances (some b) cx (Call.new x y z) t o h = ground arith
  run_call-Advances (some b) cx c t o h = ground arith

  outbound_step-Advances :
      (s : Option KntBridge) (x : Transaction) (t : Option KntBridge) (n : Option ℕ)
      → outbound_step s x ≡ some (t, n)
      → Advances (next_free s) n (next_free t)
  unfolding outbound_step
  outbound_step-Advances s x t n h =
      elim (Result-cases (Contract.run_call verify s x.context x.call)) [
        | inl ((b, o), went) ↦
            let same : t ≡ some b = ground arith in
            let nonce : o.returned ≡ n = ground arith in
            rw (same, ← nonce) (run_call-Advances s x.context x.call b o went)
        | inr (e, failed) ↦ absurd (ground arith)
      ]

  sequencer : Sequencer outbound_step next_free
  unfolding Advances
  sequencer = record {
    reports = λ s x t n h. outbound_step-Advances s x t (some n) h;
    grows = λ s x t h. outbound_step-Advances s x t none h;
  }

  -- Over any sequence of transactions of the NEAR bridge, from any state or none, the nonces that
  -- its locks and burns return grow strictly.
  pub near_nonces-Increasing :
      (s : Option KntBridge) (transactions : List Transaction)
      → Increasing (emitted outbound_step s transactions)
  near_nonces-Increasing s transactions = emitted-Increasing sequencer s transactions
