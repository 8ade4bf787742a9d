-- ===== src/Polkadot/Tests.antt =====
-- The Polkadot bridge on concrete inputs, and the theorems at concrete inputs.
use kinet_std.Shared.{
  ◌+◌, ℕ, ◌-◌, ◌≡◌, refl, true, false, some, none, List, [], ◌∷◌, All, Bytes, codes, ok, arith,
  bytes_eq, contains, if◌then◌else◌, leb, replicate,
}
use kinet_std.Spec.Replay.{Distinct, accepted}
use kinet_std.Spec.Run.{final, logged, sum_of}
use kinet_std.Polkadot.State.{Call, Chain, Context, Event, Inbound as Transfer_in, KntBridge, State}
use kinet_std.Polkadot.Contract
use kinet_std.Polkadot.Inbound
use kinet_std.Polkadot.Replay
use kinet_std.Polkadot.Replay.{Transaction}
use kinet_std.Polkadot.Books

-- The contract's own balance.
abbrev chain : Chain
chain = record {
  Ledger = ℕ;
  transfer = λ held to amount. if leb amount held then some (held - amount) else none;
}

abbrev by : Bytes → ℕ → Context
by caller value = record { caller = caller; transferred_value = value }

abbrev bridge : KntBridge
bridge = record {
  admin = codes "alice";
  mpc_signers = replicate 32 1 ∷ [];
  threshold = 2;
  fee_bps = 100;
  paused = false;
  outbound_nonce = 0;
  total_locked = 0;
  total_burned = 0;
  processed_nonces = λ k. none;
  token_configs = λ h. none;
}

constructed : Contract.new (by (codes "alice") 0) (replicate 32 1 ∷ []) 2 100 ≡ ok bridge
unfolding Contract.new
constructed = refl

abbrev state : State chain
state = record { bridge = bridge; ledger = 1000000 }

abbrev inbound : ℕ → Transfer_in
inbound nonce = record {
  source_chain_id = 1;
  nonce = nonce;
  recipient = codes "bob";
  amount = 5000;
  signature = replicate 64 0xAA;
  signer_pubkey = replicate 32 1;
}

abbrev transactions : List (Transaction chain)
transactions =
    record { context = by (codes "bob") 10000; ledger = 10000; call = Call.lock_and_bridge 1 [] }
    ∷ record { context = by (codes "bob") 0; ledger = 10000; call = Call.mint_bridged (inbound 1) }
    ∷ record { context = by (codes "bob") 0; ledger = 5000; call = Call.mint_bridged (inbound 1) }
    ∷ record { context = by (codes "bob") 0; ledger = 4000; call = Call.release (inbound 2) }
    ∷ record { context = by (codes "bob") 0; ledger = 5000; call = Call.release (inbound 2) }
    ∷ record { context = by (codes "bob") 5000; ledger = 5000; call = Call.burn_bridged 1 [] }
    ∷ []

-- The release that the balance does not cover uses up no nonce.
accepted-transactions :
    accepted (Replay.step true) (Replay.transaction_key) bridge transactions ≡ (1, 1) ∷ (1, 2) ∷ []
unfolding accepted Replay.step Contract.run_call Contract.dispatch Contract.lock_and_bridge
    Contract.mint_bridged Contract.release Contract.burn_bridged contains bytes_eq
accepted-transactions = refl

logged-transactions :
    logged Books.logging_step bridge transactions
    ≡ Event.lock 1886745444 1 1 (codes "bob") [] 9900 100
      ∷ Event.mint 1 1 (codes "bob") 5000
      ∷ Event.release 1 2 (codes "bob") 5000
      ∷ Event.burn 1886745444 1 2 (codes "bob") [] 5000
      ∷ []
unfolding logged Books.logging_step Contract.run_call Contract.dispatch Contract.lock_and_bridge
    Contract.mint_bridged Contract.release Contract.burn_bridged contains bytes_eq
logged-transactions = refl

polkadot_no_replay_example :
    let keys = accepted (Replay.step true) Replay.transaction_key bridge transactions in
    Distinct keys × All (λ k. Inbound.processed bridge k ≡ false) keys
polkadot_no_replay_example = Replay.polkadot_no_replay true bridge transactions

payable : Inbound.Payable state (inbound 1) 995000
unfolding contains bytes_eq
payable = record { live = refl; listed = refl; fresh = refl; covered = refl }

mint_bridged-unsigned_example :
    Contract.mint_bridged state (record (inbound 1) { signature = replicate 64 0 })
    ≡ ok (
      Inbound.after state (inbound 1) 995000,
      record { returned = none; events = Event.mint 1 1 (codes "bob") 5000 ∷ [] },
    )
mint_bridged-unsigned_example =
    Inbound.mint_bridged-unsigned state (inbound 1) 995000 (replicate 64 0) payable (omega arith)

polkadot_totals_example :
    ((final Books.logging_step bridge transactions).total_locked
      ≡ 0 + sum_of Books.locked_amount (logged Books.logging_step bridge transactions))
    × ((final Books.logging_step bridge transactions).total_burned
        ≡ 0 + sum_of Books.burned_amount (logged Books.logging_step bridge transactions))
polkadot_totals_example = Books.polkadot_totals bridge transactions
