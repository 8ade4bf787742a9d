-- ===== src/Solana/Spending.antt =====
-- The bitmaps of the Solana bridge's nonce trackers keep the set of used transfers.
use kinet_std.Shared.{refl, Option, some, none, List, Key, arith}
use kinet_std.Spec.Replay.{accepted}
use kinet_std.Spec.Spending.{Spend, Spends, Refines, run-Spends}
use kinet_std.Spec.Run.{ended}
use kinet_std.Solana.Runtime.{Spl, Addresses, Accounts}
use kinet_std.Solana.Replay.{
  processed, TrackersValid, TrackerEffect, Marks-processed, effect-TrackersValid, effect-marks,
  Transaction, transaction_key, step, step-TrackerEffect,
}

effect-Spend :
    {spl : Spl} (a b : Accounts spl) (o : Option Key)
    → TrackersValid a
    → TrackerEffect a o b
    → Spend (processed a) o (processed b)
unfolding TrackerEffect
effect-Spend a b none v e = Spend.nothing (λ j. ground arith)
effect-Spend a b (some k) v e =
    Spend.one k (effect-marks a b (some k) k v (unfold TrackerEffect in e) refl).0
      (λ j. Marks-processed a b k j v e)

module _ {spl : Spl} (at : Addresses) where
  refines : Refines (step {spl = spl} at) transaction_key processed TrackersValid
  refines = record {
    stays =
        λ a x b v h. effect-TrackersValid a b (transaction_key x) v (step-TrackerEffect at a x b h);
    spends = λ a x b v h. effect-Spend a b (transaction_key x) v (step-TrackerEffect at a x b h);
  }

  -- Every run of the Solana bridge, from any accounts whose trackers have their 1024 bytes, is a
  -- run of the set of used transfers: the mints and releases that go through take, one after the
  -- other, a (source chain, nonce) that the trackers do not show as processed, and afterwards they
  -- show it and what they showed before, and nothing else; no other instruction changes what they
  -- show.
  pub solana_run-Spends :
      (a : Accounts spl) (transactions : List (Transaction spl))
      → TrackersValid a
      → Spends
          (processed a)
          (accepted (step at) transaction_key a transactions)
          (processed (ended (step at) a transactions))
  solana_run-Spends a transactions v = run-Spends refines a transactions v
