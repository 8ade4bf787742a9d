-- ===== src/Icp/Tests.antt =====
-- The Internet Computer bridge on concrete inputs, and the theorems at concrete inputs.
use kinet_std.Shared.{
  ℕ, ◌+◌, ◌≡◌, ◌↔◌, ◌++◌, refl, true, false, some, List, [], ◌∷◌, All, codes, ok, arith, bytes_eq,
  contains, replicate,
}
use kinet_std.Spec.Replay.{Distinct, accepted}
use kinet_std.Spec.Run.{final, sum_of}
use kinet_std.Icp.State.{BridgeConfig, Call, Context, Inbound as Transfer_in, LockEvent, Statics}
use kinet_std.Icp.Canister
use kinet_std.Icp.Inbound
use kinet_std.Icp.Inbound.{Transaction}
use kinet_std.Icp.Log
use kinet_std.Icp.Events

abbrev caller : Context
caller = record { caller = codes "anyone"; time = 7 }

abbrev config : BridgeConfig
config = record {
  admin = codes "anyone";
  mpc_signers = replicate 32 1 ∷ replicate 32 2 ∷ replicate 32 3 ∷ [];
  threshold = 2;
  fee_bps = 30;
  paused = false;
  outbound_nonce = 0;
  total_locked = 0;
  total_burned = 0;
}

abbrev statics : Statics
statics = record Canister.installed { config = some config }

initialized :
    Canister.init Canister.installed caller
      (replicate 32 1 ∷ replicate 32 2 ∷ replicate 32 3 ∷ [])
      2
      30
    ≡ ok statics
unfolding Canister.init
initialized = refl

abbrev event : ℕ → ℕ → ℕ → LockEvent
event nonce amount fee = record {
  source_chain = 4294967490;
  dest_chain = 96369;
  nonce = nonce;
  sender = codes "anyone";
  recipient = replicate 32 0;
  amount = amount;
  fee = fee;
  timestamp = 7;
}

abbrev inbound : ℕ → Transfer_in
inbound source_chain = record {
  source_chain_id = source_chain;
  nonce = 1;
  recipient = codes "bob";
  amount = 500000;
  signature = replicate 64 0;
  signer_pubkey = replicate 32 1;
}

abbrev lock : ℕ → Transaction
lock amount = record { context = caller; call = Call.lock_and_bridge amount 96369 (replicate 32 0) }

-- The second mint repeats the first; the third is of another chain.
abbrev transactions : List Transaction
transactions =
    lock 1000000
    ∷ record { context = caller; call = Call.mint_bridged (inbound 96369) }
    ∷ record { context = caller; call = Call.mint_bridged (inbound 96369) }
    ∷ record { context = caller; call = Call.mint_bridged (inbound 200200) }
    ∷ record { context = caller; call = Call.burn_bridged 750000 96369 (replicate 32 0) }
    ∷ lock 100
    ∷ []

accepted-transactions :
    accepted (Inbound.step true) (Inbound.transaction_key) statics transactions
    ≡ (96369, 1) ∷ (200200, 1) ∷ []
unfolding accepted Inbound.step Canister.run_call Canister.lock_and_bridge Canister.burn_bridged
    Canister.mint_bridged contains bytes_eq
accepted-transactions = refl

-- The burn has taken nonce 2 and left no event.
log-transactions :
    (final Events.returning_step statics transactions).event_log
    ≡ event 1 997000 3000 ∷ event 3 100 0 ∷ []
unfolding final Events.returning_step Canister.run_call Canister.lock_and_bridge
    Canister.burn_bridged Canister.mint_bridged contains bytes_eq
log-transactions = refl

icp_log-IsConsistent_example :
    Log.StaticsAreConsistent (final Events.returning_step statics transactions)
icp_log-IsConsistent_example =
    Events.icp_log-IsConsistent caller (replicate 32 1 ∷ replicate 32 2 ∷ replicate 32 3 ∷ []) 2 30
      statics transactions initialized

abbrev logged_config : BridgeConfig
logged_config = record config { outbound_nonce = 3; total_locked = 997100 }

abbrev logged : Statics
logged = record {
  config = some logged_config;
  processed_nonces = λ k. false;
  event_log = event 1 997000 3000 ∷ event 3 100 0 ∷ [];
}

consistent : Log.IsConsistent logged.event_log logged_config
unfolding sum_of
consistent = record {
  increasing = omega arith;
  given_out = omega arith;
  total = omega arith;
  stamped = omega arith;
}

get_events-pages_example :
    (Canister.get_events logged 0 3 ≡ logged.event_log)
    × (Canister.get_events logged 1 3
        ≡ Canister.get_events logged 1 2 ++ Canister.get_events logged (2 + 1) 3)
get_events-pages_example =
    Events.get_events-pages logged logged_config 1 2 3 consistent (omega arith) (omega arith)

icp_mint_bridged_iff_example :
    (Canister.mint_bridged statics (inbound 96369) ≡ ok (Inbound.filed statics (96369, 1))) ↔ (
      Inbound.Mintable statics (inbound 96369)
      × (Inbound.filed statics (96369, 1) ≡ Inbound.filed statics (96369, 1)))
icp_mint_bridged_iff_example =
    Inbound.icp_mint_bridged_iff statics (inbound 96369) (Inbound.filed statics (96369, 1))

-- It does go through.
minted : Canister.mint_bridged statics (inbound 96369) ≡ ok (Inbound.filed statics (96369, 1))
unfolding Canister.mint_bridged contains bytes_eq
minted = refl

abbrev locked : Statics
locked = record statics {
  config = some (record config { total_locked = 997000; outbound_nonce = 1 });
  event_log = event 1 997000 3000 ∷ [];
}

lock_and_bridge-unbacked_example :
    (Canister.lock_and_bridge true statics caller 1000000 96369 (replicate 32 0) ≡ ok (locked, 1))
    ↔ Events.Logged statics caller 1000000 96369 (replicate 32 0) locked 1
lock_and_bridge-unbacked_example =
    Events.lock_and_bridge-unbacked statics caller 1000000 96369 (replicate 32 0) locked 1

lock_1000000 :
    Canister.lock_and_bridge true statics caller 1000000 96369 (replicate 32 0) ≡ ok (locked, 1)
unfolding Canister.lock_and_bridge
lock_1000000 = refl

-- The conditions of that lock hold.
lock_1000000-Logged : Events.Logged statics caller 1000000 96369 (replicate 32 0) locked 1
lock_1000000-Logged =
    (Events.lock_and_bridge-unbacked statics caller 1000000 96369 (replicate 32 0) locked 1).0
      lock_1000000

icp_no_replay_example :
    let keys = accepted (Inbound.step true) Inbound.transaction_key statics transactions in
    Distinct keys × All (λ k. Inbound.processed statics k ≡ false) keys
icp_no_replay_example = Inbound.icp_no_replay true statics transactions
