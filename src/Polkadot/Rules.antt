-- ===== src/Polkadot/Rules.antt =====
-- Who may change what in the Polkadot bridge, and its fee.
use kinet_std.Shared.{◌≤◌, ◌≡◌, Bool, false, bytes_eq, ok, arith}
use kinet_std.Polkadot.State.{Call, Chain, Context, KntBridge, Outcome, State}
use kinet_std.Polkadot.Contract
use kinet_std.Polkadot.Inbound.{mint_bridged-went, release-went}

-- What only the admin may change.
pub record SameRules (b t : KntBridge) : Type 0 where
  pub signers : t.mpc_signers ≡ b.mpc_signers
  pub threshold : t.threshold ≡ b.threshold
  pub fee : t.fee_bps ≡ b.fee_bps
  pub paused : t.paused ≡ b.paused

module _ (checks : Bool) {chain : Chain} where
  -- A message of anyone but the admin of the Polkadot bridge that goes through leaves the signers,
  -- the threshold, the fee and the pause as they were.
  pub dispatch-SameRules :
      (s : State chain) (cx : Context) (c : Call) (t : State chain) (o : Outcome)
      → bytes_eq cx.caller s.bridge.admin ≡ false
      → Contract.dispatch checks s cx c ≡ ok (t, o)
      → SameRules s.bridge t.bridge
  unfolding Contract.dispatch Contract.lock_and_bridge Contract.burn_bridged Contract.pause
      Contract.unpause Contract.set_signers Contract.set_fee
  dispatch-SameRules s cx (Call.mint_bridged m) t o stranger h =
      let (l, p, n, e, minted) = mint_bridged-went s m t o h in ground (arith, e)
  dispatch-SameRules s cx (Call.release m) t o stranger h =
      let (l, p, e, released) = release-went s m t o h in ground (arith, e)
  dispatch-SameRules s cx c t o stranger h = ground arith

  -- Every message that goes through keeps the admin of the Polkadot bridge, and keeps the fee at 5%
  -- or less if it was.
  pub dispatch-fee_capped :
      (s : State chain) (cx : Context) (c : Call) (t : State chain) (o : Outcome)
      → s.bridge.fee_bps ≤ 500
      → Contract.dispatch checks s cx c ≡ ok (t, o)
      → (t.bridge.fee_bps ≤ 500) × (t.bridge.admin ≡ s.bridge.admin)
  unfolding Contract.dispatch Contract.lock_and_bridge Contract.burn_bridged Contract.pause
      Contract.unpause Contract.set_signers Contract.set_fee
  dispatch-fee_capped s cx (Call.mint_bridged m) t o low h =
      let (l, p, n, e, minted) = mint_bridged-went s m t o h in ground (arith, e)
  dispatch-fee_capped s cx (Call.release m) t o low h =
      let (l, p, e, released) = release-went s m t o h in ground (arith, e)
  dispatch-fee_capped s cx c t o low h = ground arith
