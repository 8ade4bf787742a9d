-- ===== src/Crossing/Trips.antt =====
-- A lock on the NEAR bridge that the CosmWasm bridge pays, step by step.
use kinet_std.Shared.{
  ◌+◌, ◌≤◌, ◌≡◌, refl, true, Option, some, [], ◌∷◌, codes, inl, arith, replicate, insert_key,
  insert_bytes, bytes_eq, contains, to_string, from_decimal,
}
use kinet_std.Spec.Run.{sum_of}
use kinet_std.Spec.Transit.{FitsWords, Order, OrderKind, Reach, settled, Step, World}
use kinet_std.Spec.Settlement.{begin}
use kinet_std.Cosmos.State.{ExecuteMsg, Inbound as CosmosTransfer, Storage}
use kinet_std.Cosmos.Contract as CosmosContract
use kinet_std.Cosmos.Limit.{check_daily_limit}
use kinet_std.Cosmos.Payments
use kinet_std.Near.State.{Call, KntBridge}
use kinet_std.Near.Contract
use kinet_std.Near.Contract.{near_chain_id}
use kinet_std.Near.Orders
use kinet_std.Near.Replay.{Transaction}
use kinet_std.Crossing.Settled
use kinet_std.Crossing.Tests.{bridge, key, runtime, storage, token, verify}

-- 1000 yocto are locked; the fee of 1% leaves 990.
abbrev lock : Transaction
lock = record {
  context = record { predecessor = codes "alice.near"; deposit = 1000 };
  call = Call.lock_and_bridge 118 (codes "cosmos1bob");
}

abbrev order : Order
order = record { kind = OrderKind.mint; nonce = 1; recipient = codes "cosmos1bob"; amount = 990 }

abbrev locked : Option KntBridge
locked = some (record bridge { total_locked = 990; outbound_nonce = 1 })

locks : Orders.source_step verify (some bridge) lock ≡ some (locked, some order)
unfolding Orders.source_step Contract.run_call Contract.dispatch Contract.lock_and_bridge
    Orders.order_of bytes_eq to_string from_decimal
locks = refl

abbrev transfer : CosmosTransfer
transfer = record {
  source_chain_id = near_chain_id;
  nonce = 1;
  recipient = codes "cosmos1bob";
  amount = 990;
  denom = codes "uknt";
  signature = replicate 64 1;
  signer_pubkey = key;
}

abbrev mint : CosmosContract.Call
mint = record {
  now = 90000;
  info = record { sender = codes "relayer"; funds = [] };
  msg = ExecuteMsg.mint_bridged transfer;
}

abbrev paid : Storage
paid = record storage {
  token_configs = insert_bytes storage.token_configs (codes "uknt") token;
  processed_nonces = insert_key storage.processed_nonces (near_chain_id, 1) true;
}

pays : Payments.payer_step runtime near_chain_id storage mint ≡ some (paid, 990)
unfolding Payments.payer_step CosmosContract.execute CosmosContract.dispatch
    CosmosContract.mint_bridged CosmosContract.authorize check_daily_limit bytes_eq contains sum_of
pays = refl

abbrev ended : World (Option KntBridge) Storage
ended = record {
  source = locked;
  payer = paid;
  book = order ∷ [];
  messages = Payments.message_of near_chain_id order ∷ [];
  paid = 990;
}

order-FitsWords : FitsWords order
order-FitsWords = record { nonce_u64 = omega arith; amount_u128 = omega arith }

claimed_order : (o : Order) → Payments.claim near_chain_id mint ≡ some o → order ≡ o
claimed_order o e = ground arith

trip : Settled.Runs verify runtime (begin (some bridge) storage) ended
trip =
    Reach.next
      (Reach.next (Reach.next Reach.here (Step.orders lock locked order locks))
        (Step.signs order (inl refl)))
      (Step.pays mint paid 990 pays (λ o e. rw (claimed_order o e) at order-FitsWords)
        (λ o e accepted. rw (← claimed_order o e) (inl refl)))

near_to_cosmos-settled_example :
    (990 ≡ sum_of (settled (Payments.used near_chain_id paid)) (order ∷ []))
    × (Orders.taken (some bridge) + 990 ≤ Orders.taken locked)
near_to_cosmos-settled_example =
    Settled.near_to_cosmos-settled verify runtime (some bridge) storage ended (λ k. refl) trip
