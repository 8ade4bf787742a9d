-- ===== src/Near/Spending.antt =====
-- The texts in `processed_nonces` of the NEAR bridge keep the set of used transfers.
use kinet_std.Shared.{◌≡◌, Bool, Option, some, none, List, Key, Bytes, ok, arith}
use kinet_std.Spec.Replay.{accepted}
use kinet_std.Spec.Spending.{Spend, Spends, Refines, run-Spends}
use kinet_std.Spec.Run.{ended}
use kinet_std.Near.State.{Call, Context, KntBridge, Outcome}
use kinet_std.Near.Contract
use kinet_std.Near.Inbound.{processed}
use kinet_std.Near.Replay.{
  KeyEffect, dispatch-KeyEffect, construct-KeyEffect, inbound_key, is_processed, step, step-went,
  Transaction, transaction_key,
}

effect-Spend :
    (b : KntBridge) (o : Option Key) (t : KntBridge)
    → KeyEffect b o t
    → Spend (processed b) o (processed t)
unfolding KeyEffect
effect-Spend b none t e = Spend.nothing (λ j. ground arith)
effect-Spend b (some k) t e = Spend.one k e.fresh e.marked

module _ (verify : (signature message pubkey : Bytes) → Bool) where
  run_call-Spend :
      (s : Option KntBridge) (cx : Context) (c : Call) (t : KntBridge) (o : Outcome)
      → Contract.run_call verify s cx c ≡ ok (t, o)
      → Spend (is_processed s) (inbound_key c) (processed t)
  unfolding Contract.run_call
  run_call-Spend none cx c t o h =
      let went : Contract.construct cx c ≡ ok (t, o) = ground arith in
      rw (construct-KeyEffect verify cx c t o (0, 0) went).0
        (Spend.nothing (λ j. (construct-KeyEffect verify cx c t o j went).1))
  run_call-Spend (some b) cx c t o h =
      effect-Spend b (inbound_key c) t (dispatch-KeyEffect verify b cx c t o (ground arith))

  refines : Refines (step verify) (transaction_key verify) is_processed (λ s. Unit {0})
  refines = record {
    stays = λ s x t v h. tt;
    spends = λ s x t v h.
        let (b, o, same, went) = step-went verify s x t h in
        rw same (run_call-Spend s x.context x.call b o went);
  }

  -- Every run of the NEAR bridge, from any state or none, is a run of the set of used transfers: the
  -- mints and releases that go through take, one after the other, a (source chain, nonce) whose text
  -- is not filed, and afterwards it is filed beside what was before, and no other key is; no other
  -- call changes the set.
  pub near_run-Spends :
      (s : Option KntBridge) (transactions : List Transaction)
      → Spends
          (is_processed s)
          (accepted (step verify) (transaction_key verify) s transactions)
          (is_processed (ended (step verify) s transactions))
  near_run-Spends s transactions = run-Spends refines s transactions tt
