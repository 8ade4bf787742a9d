-- ===== src/Cosmos/Spending.antt =====
-- The map `PROCESSED_NONCES` of the CosmWasm bridge keeps the set of used transfers.
use kinet_std.Shared.{Option, some, none, List, Key, arith}
use kinet_std.Spec.Replay.{accepted}
use kinet_std.Spec.Spending.{Spend, Spends, Refines, run-Spends}
use kinet_std.Spec.Run.{ended}
use kinet_std.Cosmos.State.{Runtime, Storage}
use kinet_std.Cosmos.Contract
use kinet_std.Cosmos.Authorize.{processed}
use kinet_std.Cosmos.Replay.{NonceEffect, step, step-NonceEffect, call_key}

effect-Spend :
    (s : Storage) (o : Option Key) (t : Storage)
    → NonceEffect s o t
    → Spend (processed s) o (processed t)
unfolding NonceEffect
effect-Spend s none t e = Spend.nothing (λ j. ground arith)
effect-Spend s (some k) t e = Spend.one k e.fresh (λ j. ground (arith, e.marked))

module _ (rt : Runtime) where
  refines : Refines (step rt) (call_key rt) processed (λ s. Unit {0})
  refines = record {
    stays = λ s c t v h. tt;
    spends = λ s c t v h. effect-Spend s (call_key rt c) t (step-NonceEffect rt s c t h);
  }

  -- Every run of the CosmWasm bridge, from any storage, is a run of the set of used transfers: the
  -- mints and releases that go through take, one after the other, a (source chain, nonce) that is
  -- not filed, and afterwards it is filed beside what was before, and nothing else is; no other
  -- message changes the set.
  pub cosmos_run-Spends :
      (s : Storage) (calls : List Contract.Call)
      → Spends
          (processed s)
          (accepted (step rt) (call_key rt) s calls)
          (processed (ended (step rt) s calls))
  cosmos_run-Spends s calls = run-Spends refines s calls tt
