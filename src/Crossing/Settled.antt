-- ===== src/Crossing/Settled.antt =====
-- The NEAR bridge and the CosmWasm bridge together: programs/near-bridge/src/lib.rs takes orders, and
-- programs/cosmos-bridge/contracts/knt-bridge/src/contract.rs pays them.
use kinet_std.Shared.{ℕ, ◌+◌, ◌≤◌, ◌≡◌, Bool, false, Option, Bytes, arith}
use kinet_std.Spec.Run.{sum_of}
use kinet_std.Spec.Transit.{FitsWords, Reach, settled, sum_of-settled-le, World}
use kinet_std.Spec.Settlement.{begin, begin-IsBalanced, IsBalanced, Reach-Balanced}
use kinet_std.Near.State.{KntBridge}
use kinet_std.Near.Contract.{near_chain_id}
use kinet_std.Near.Orders
use kinet_std.Near.Rules.{next_free}
use kinet_std.Cosmos.State.{Runtime, Storage}
use kinet_std.Cosmos.Payments

module _ (verify : (signature message pubkey : Bytes) → Bool) (rt : Runtime) where
  -- What the two bridges and the signers of the orders may do, one step after the other.
  abbrev pub Runs : World (Option KntBridge) Storage → World (Option KntBridge) Storage → Type 0
  Runs w v =
      Reach (Orders.source_step verify) (Payments.payer_step rt near_chain_id)
        (Payments.claim near_chain_id) (Payments.Accepts rt near_chain_id) FitsWords
        (Payments.message_of near_chain_id) w v

  Runs-IsBalanced :
      (a : Option KntBridge) (b : Storage) (w : World (Option KntBridge) Storage)
      → ((k : ℕ) → Payments.used near_chain_id b k ≡ false)
      → Runs (begin a b) w
      → IsBalanced next_free Orders.taken
          (Orders.taken a)
          FitsWords
          (Payments.used near_chain_id)
          (Payments.message_of near_chain_id)
          w
  Runs-IsBalanced a b w unused run =
      Reach-Balanced (Orders.near_source verify) (Payments.cosmos_payer rt near_chain_id)
        (Payments.message_of-injective near_chain_id (omega arith)) (Orders.taken a) run
        (begin-IsBalanced next_free Orders.taken FitsWords (Payments.used near_chain_id)
          (Payments.message_of near_chain_id) a b unused)

  -- Let the NEAR bridge and a CosmWasm bridge that has used none of its nonces run, calls of either in
  -- any order, with signers whose signatures stand only under messages of orders that the NEAR bridge
  -- has reported. Then what the CosmWasm bridge has sent out on mints and releases from NEAR is what
  -- the orders amount to whose nonces it has used, and no more than what the NEAR bridge has counted
  -- as locked or burned since.
  pub near_to_cosmos-settled :
      (a : Option KntBridge) (b : Storage) (w : World (Option KntBridge) Storage)
      → ((k : ℕ) → Payments.used near_chain_id b k ≡ false)
      → Runs (begin a b) w
      → (w.paid ≡ sum_of (settled (Payments.used near_chain_id w.payer)) w.book)
        × (Orders.taken a + w.paid ≤ Orders.taken w.source)
  near_to_cosmos-settled a b w unused run =
      let h = Runs-IsBalanced a b w unused run in
      (
        h.balance,
        omega (
          arith,
          h.counted,
          h.balance,
          sum_of-settled-le (Payments.used near_chain_id w.payer) w.book,
        ),
      )
