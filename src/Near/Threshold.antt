-- ===== src/Near/Threshold.antt =====
-- The threshold of the NEAR bridge: `new` and `set_signers` store it.
use kinet_std.Shared.{
  ◌≡◌, refl, Bool, Option, some, none, List, map, Bytes, Result, ok, ◌>>=◌, arith,
}
use kinet_std.Spec.Answers.{answers, end_of}
use kinet_std.Spec.Erasure.{answers-erased, erased}
use kinet_std.Near.State.{Call, Context, is_payable, KntBridge, Outcome, Panic}
use kinet_std.Near.Contract
use kinet_std.Near.Replay.{Transaction}

-- With 0 for the threshold.
abbrev pub erase : KntBridge → KntBridge
erase b = record b { threshold = 0 }

abbrev pub erase_stored : Option KntBridge → Option KntBridge
erase_stored none = none
erase_stored (some b) = some (erase b)

abbrev pub erase_call : Call → Call
erase_call (Call.new signers threshold fee) = Call.new signers 0 fee
erase_call (Call.set_signers signers threshold) = Call.set_signers signers 0
erase_call c = c

abbrev pub erase_transaction : Transaction → Transaction
erase_transaction x = record x { call = erase_call x.call }

is_payable-erased : (c : Call) → is_payable (erase_call c) ≡ is_payable c
is_payable-erased (Call.new s t f) = refl
is_payable-erased (Call.set_signers s t) = refl
is_payable-erased c = refl

construct-erased :
    (cx : Context) (c : Call)
    → Contract.construct cx (erase_call c) ≡ erased erase (Contract.construct cx c)
unfolding Contract.construct Contract.new
construct-erased cx (Call.new signers threshold fee) = ground arith
construct-erased cx c = refl

module _ (verify : (signature message pubkey : Bytes) → Bool) where
  dispatch-erased :
      (b : KntBridge) (cx : Context) (c : Call)
      → Contract.dispatch verify (erase b) cx (erase_call c)
        ≡ erased erase (Contract.dispatch verify b cx c)
  unfolding Contract.dispatch
  dispatch-erased b cx (Call.new s t f) = refl
  dispatch-erased b cx (Call.lock_and_bridge d r) = unfold Contract.lock_and_bridge in ground arith
  dispatch-erased b cx (Call.mint_bridged m) = unfold Contract.mint_bridged in ground arith
  dispatch-erased b cx (Call.burn_bridged d r) = unfold Contract.burn_bridged in ground arith
  dispatch-erased b cx (Call.release m) = unfold Contract.release in ground arith
  dispatch-erased b cx Call.pause = unfold Contract.pause Contract.assert_admin in ground arith
  dispatch-erased b cx Call.unpause = unfold Contract.unpause Contract.assert_admin in ground arith
  dispatch-erased b cx (Call.set_signers s t) =
      unfold Contract.set_signers Contract.assert_admin in ground arith
  dispatch-erased b cx (Call.set_fee f) =
      unfold Contract.set_fee Contract.assert_admin in ground arith

  -- The contract, transaction by transaction.
  unfoldable pub run_of : Option KntBridge → Transaction → Result Panic (Option KntBridge × Outcome)
  run_of s x = do (t, o) ← Contract.run_call verify s x.context x.call; ok (some t, o)

  run_of-erased :
      (s : Option KntBridge) (x : Transaction)
      → run_of (erase_stored s) (erase_transaction x) ≡ erased erase_stored (run_of s x)
  unfolding run_of Contract.run_call
  run_of-erased none x = ground (arith, is_payable-erased x.call, construct-erased x.context x.call)
  run_of-erased (some b) x =
      ground (arith, is_payable-erased x.call, dispatch-erased b x.context x.call)

  -- Set the threshold of a NEAR bridge to 0, if it stands, and in each of a sequence of transactions
  -- every threshold that it asks for: then every transaction is answered as before, with the same
  -- failures, logs and promises, and the bridge ends in the same state but for the threshold. So
  -- no threshold has any effect.
  pub near_threshold-unread :
      (s : Option KntBridge) (transactions : List Transaction)
      → (answers run_of (erase_stored s) (map erase_transaction transactions)
          ≡ answers run_of s transactions)
        × (end_of run_of (erase_stored s) (map erase_transaction transactions)
            ≡ erase_stored (end_of run_of s transactions))
  near_threshold-unread s transactions =
      answers-erased (record { same_call = run_of-erased }) s transactions
