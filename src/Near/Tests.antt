-- ===== src/Near/Tests.antt =====
-- The NEAR bridge on concrete inputs, and the theorems at concrete inputs.
use kinet_std.Shared.{
  ℕ, ◌+◌, ◌≡◌, ◌⊎◌, ◌↔◌, arith, refl, Bool, true, false, some, none, List, [], ◌∷◌, map, All, Bytes,
  codes, ok, bytes_eq, contains, take, replicate, to_string, insert_bytes,
}
use kinet_std.Spec.Replay.{Distinct, accepted}
use kinet_std.Spec.Outbound.{emitted}
use kinet_std.Spec.Answers.{answers, end_of}
use kinet_std.Spec.Run.{final, logged, sum_of}
use kinet_std.Near.State.{AccountId, Call, Context, Inbound as Transfer_in, KntBridge, Outcome}
use kinet_std.Near.Contract
use kinet_std.Near.Inbound
use kinet_std.Near.Replay
use kinet_std.Near.Replay.{Transaction}
use kinet_std.Near.Books
use kinet_std.Near.Rules
use kinet_std.Near.Liveness
use kinet_std.Near.Threshold

abbrev recipient : AccountId
recipient = record { text = codes "recipient.near"; shortest = omega arith; longest = omega arith }

-- A signature verifies if it begins with the key.
abbrev verify : Bytes → Bytes → Bytes → Bool
verify signature message pubkey = bytes_eq (take 32 signature) pubkey

abbrev key : Bytes
key = replicate 32 1

abbrev signature : Bytes
signature = replicate 64 1

abbrev admin : Bytes
admin = codes "admin.near"

abbrev by_admin : Context
by_admin = record { predecessor = admin; deposit = 0 }

abbrev user : ℕ → Context
user deposit = record { predecessor = codes "user.near"; deposit = deposit }

abbrev bridge : KntBridge
bridge = record {
  admin = admin;
  mpc_signers = key ∷ [];
  threshold = 1;
  fee_bps = 100;
  paused = false;
  outbound_nonce = 0;
  total_locked = 0;
  total_burned = 0;
  processed_nonces = λ k. none;
}

abbrev inbound : ℕ → Transfer_in
inbound nonce = record {
  source_chain_id = 96369;
  nonce = nonce;
  recipient = recipient;
  amount = 1000;
  signature = signature;
  signer_pubkey = key;
}

constructed :
    Contract.run_call verify none by_admin (Call.new (key ∷ []) 1 100)
    ≡ ok (bridge, record { returned = none; logs = []; promises = [] })
unfolding Contract.run_call Contract.construct Contract.new Contract.to_keys
    Contract.copy_from_slice
constructed = refl

-- A deployment, a lock, a mint, its replay, a burn, and a release under another nonce.
abbrev transactions : List Transaction
transactions =
    record { context = by_admin; call = Call.new (key ∷ []) 1 100 }
    ∷ record { context = user 1000000; call = Call.lock_and_bridge 96369 (codes "0xdead") }
    ∷ record { context = user 0; call = Call.mint_bridged (inbound 1) }
    ∷ record { context = user 0; call = Call.mint_bridged (inbound 1) }
    ∷ record { context = user 500000; call = Call.burn_bridged 96369 (codes "0xdead") }
    ∷ record { context = user 0; call = Call.release (inbound 2) }
    ∷ []

accepted-transactions :
    accepted (Replay.step verify) (Replay.transaction_key verify) none transactions
    ≡ (96369, 1) ∷ (96369, 2) ∷ []
unfolding accepted Replay.step Contract.run_call Contract.construct Contract.new Contract.dispatch
    Contract.to_keys Contract.copy_from_slice Contract.lock_and_bridge Contract.mint_bridged
    Contract.release Contract.burn_bridged Contract.nonce_key contains bytes_eq to_string
accepted-transactions = refl

nonces-transactions : emitted (Rules.outbound_step verify) none transactions ≡ 1 ∷ 2 ∷ []
unfolding emitted Rules.outbound_step Contract.run_call Contract.construct Contract.new
    Contract.dispatch Contract.to_keys Contract.copy_from_slice Contract.lock_and_bridge
    Contract.mint_bridged Contract.release Contract.burn_bridged Contract.nonce_key contains
    bytes_eq to_string
nonces-transactions = refl

near_no_replay_example :
    let keys = accepted (Replay.step verify) (Replay.transaction_key verify) none transactions in
    Distinct keys × All (λ k. Replay.is_processed none k ≡ false) keys
near_no_replay_example = Replay.near_no_replay verify none transactions

near_totals_example :
    let after = final (Books.logging_step verify) none transactions in
    let log = logged (Books.logging_step verify) none transactions in
    (Books.locked_of after ≡ 0 + sum_of (Books.reported (codes "lock")) log)
    × (Books.burned_of after ≡ 0 + sum_of (Books.reported (codes "burn")) log)
near_totals_example = Books.near_totals verify none transactions

abbrev minted : KntBridge × Outcome
minted = (
  record bridge { processed_nonces = insert_bytes bridge.processed_nonces (codes "96369:1") true },
  record {
    returned = none;
    logs =
        record {
          event_type = codes "mint";
          source_chain = 96369;
          dest_chain = 1313161554;
          nonce = 1;
          sender = codes "bridge";
          recipient = recipient.text;
          amount = codes "1000";
        }
        ∷ [];
    promises = record { receiver = recipient; amount = 1000 } ∷ [];
  },
)

mint_1 : Contract.mint_bridged verify bridge (inbound 1) ≡ ok minted
unfolding Contract.mint_bridged Contract.copy_from_slice Contract.nonce_key contains bytes_eq
    to_string
mint_1 = refl

near_mint_bridged_iff_example :
    (Contract.mint_bridged verify bridge (inbound 1) ≡ ok minted)
    ↔ Inbound.Minted verify bridge (inbound 1) minted.0 minted.1
near_mint_bridged_iff_example =
    Inbound.near_mint_bridged_iff verify bridge (inbound 1) minted.0 minted.1

-- The conditions of that mint hold.
mint_1-Minted : Inbound.Minted verify bridge (inbound 1) minted.0 minted.1
mint_1-Minted = Inbound.mint_bridged-Minted verify bridge (inbound 1) minted.0 minted.1 mint_1

abbrev released : KntBridge × Outcome
released = (
  record bridge { processed_nonces = insert_bytes bridge.processed_nonces (codes "96369:2") true },
  record {
    returned = none;
    logs = [];
    promises = record { receiver = recipient; amount = 1000 } ∷ [];
  },
)

release_2 : Contract.release verify bridge (inbound 2) ≡ ok released
unfolding Contract.release Contract.nonce_key Contract.copy_from_slice to_string contains bytes_eq
release_2 = refl

-- The conditions of that release hold.
release_2-Released : Inbound.Released verify bridge (inbound 2) released.0 released.1
release_2-Released =
    (Inbound.near_release_iff verify bridge (inbound 2) released.0 released.1).0 release_2

-- All but the deployment, which is the admin's.
abbrev by_strangers : List Transaction
by_strangers =
    record { context = user 1000000; call = Call.lock_and_bridge 96369 (codes "0xdead") }
    ∷ record { context = user 0; call = Call.mint_bridged (inbound 1) }
    ∷ record { context = user 0; call = Call.pause }
    ∷ []

authorized :
    Inbound.Authorized verify bridge
      (inbound 7)
      (Contract.build_mint_message 96369 7 recipient 1000)
unfolding contains bytes_eq Contract.nonce_key to_string
authorized = record {
  live = refl;
  key_length = refl;
  signer = refl;
  fresh = refl;
  signature_length = refl;
  signed = refl;
}

strangers : All (Liveness.IsStranger bridge) by_strangers
unfolding bytes_eq
strangers = (refl, (refl, (refl, tt)))

near_mint-unstoppable_example :
    (t : KntBridge) × (final (Books.logging_step verify) (some bridge) by_strangers ≡ some t)
    × ((Inbound.processed t (Inbound.key_of (inbound 7)) ≡ true)
        ⊎ ((u : KntBridge) × (o : Outcome) × (Contract.mint_bridged verify t (inbound 7)
              ≡ ok (u, o))))
near_mint-unstoppable_example =
    Liveness.near_mint-unstoppable verify bridge (inbound 7) by_strangers authorized (omega arith)
      strangers

near_threshold-unread_example :
    let run = Threshold.run_of verify in
    let changed = map Threshold.erase_transaction transactions in
    (answers run (some (Threshold.erase bridge)) changed ≡ answers run (some bridge) transactions)
    × (end_of run (some (Threshold.erase bridge)) changed
        ≡ Threshold.erase_stored (end_of run (some bridge) transactions))
near_threshold-unread_example = Threshold.near_threshold-unread verify (some bridge) transactions
