-- ===== src/Stellar/Tests.antt =====
-- The Stellar bridge on concrete inputs, and the theorems at concrete inputs.
use kinet_std.Shared.{
  ℕ, ◌-◌, ◌≡◌, refl, Bool, true, false, Option, some, none, List, [], ◌∷◌, ◌++◌, All, Bytes, codes,
  ok, arith, bytes_eq, contains, insert_key, if◌then◌else◌, leb, to_le_bytes,
}
use kinet_std.Shared.Int.{ℤ, pos, negsuc}
use kinet_std.Spec.Replay.{Distinct, accepted}
use kinet_std.Stellar.State.{
  BridgeConfig, Call, Event, Host, Inbound as Transfer_in, Outcome, Storage,
}
use kinet_std.Stellar.Contract
use kinet_std.Stellar.Inbound
use kinet_std.Stellar.Redirect
use kinet_std.Stellar.Replay
use kinet_std.Stellar.Replay.{Transaction}

-- One balance, that of the bridge; a signature is the key before the hash, and the hash is the text.
abbrev transfer : ℕ → Bytes → Bytes → Bytes → ℤ → Option ℕ
transfer held token from to (pos n) =
    if bytes_eq from (codes "bridge")
    then (if leb n held then some (held - n) else none)
    else some held
transfer held token from to (negsuc n) = none

abbrev host : Host
host = record {
  Ledger = ℕ;
  transfer = transfer;
  contract_address = codes "bridge";
  sha256 = λ m. m;
  ed25519_verify = λ pk m s. bytes_eq s (pk ++ m);
}

abbrev config : BridgeConfig
config = record {
  admin = codes "admin";
  mpc_signers = codes "key" ∷ [];
  threshold = 2;
  fee_bps = 100;
  paused = false;
  outbound_nonce = 0;
  total_locked = pos 0;
  total_burned = pos 0;
}

abbrev storage : Storage host
storage = record { config = some config; nonces = λ k. none; ledger = 10000 }

-- The signature of a key over the mint of 1000 from chain 42 under nonce 1.
abbrev signature_of : Bytes → Bytes
signature_of pk =
    pk
    ++ (codes "KNT_BRIDGE_MINT" ++ (to_le_bytes 8 42 ++ (to_le_bytes 8 1 ++ to_le_bytes 16 1000)))

abbrev inbound : Bytes → Transfer_in
inbound pk = record {
  token_addr = codes "usdc";
  source_chain_id = 42;
  nonce = 1;
  recipient = codes "bob";
  amount = pos 1000;
  signature = signature_of pk;
  signer_pubkey = pk;
}

abbrev everyone : Bytes → Bool
everyone a = true

abbrev minted : Storage host × Outcome
minted = (
  record storage { nonces = insert_key storage.nonces (42, 1) true; ledger = 9000 },
  record { returned = none; events = Event.mint 42 1 (codes "bob") (pos 1000) ∷ [] },
)

mint_1000 : Contract.mint_bridged storage (inbound (codes "key")) ≡ ok minted
unfolding Contract.mint_bridged Contract.build_mint_message contains bytes_eq to_le_bytes
mint_1000 = refl

-- Two mints of one nonce with an `initialize` between them.
abbrev transactions : List (Transaction host)
transactions =
    record { auth = everyone; ledger = 10000; call = Call.mint_bridged (inbound (codes "key")) }
    ∷ record {
      auth = everyone;
      ledger = 10000;
      call = Call.initialize (codes "admin") (codes "key" ∷ []) 2 100;
    }
    ∷ record { auth = everyone; ledger = 10000; call = Call.mint_bridged (inbound (codes "key")) }
    ∷ []

accepted-transactions :
    accepted Replay.step Replay.transaction_key storage transactions ≡ (42, 1) ∷ []
unfolding accepted Replay.step Contract.run_call Contract.mint_bridged Contract.initialize
    Contract.build_mint_message contains bytes_eq to_le_bytes
accepted-transactions = refl

stellar_no_replay_example :
    let keys = accepted Replay.step Replay.transaction_key storage transactions in
    Distinct keys × All (λ k. Inbound.processed storage k ≡ false) keys
stellar_no_replay_example = Replay.stellar_no_replay storage transactions

mint_bridged-redirected_example :
    Contract.mint_bridged storage
      (record (inbound (codes "key")) { token_addr = codes "gold"; recipient = codes "eve" })
    ≡ ok (
      record storage { nonces = insert_key storage.nonces (42, 1) true; ledger = 9000 },
      record { returned = none; events = Event.mint 42 1 (codes "eve") (pos 1000) ∷ [] },
    )
unfolding bytes_eq
mint_bridged-redirected_example =
    Redirect.mint_bridged-redirected storage (inbound (codes "key")) minted.0 minted.1
      (codes "gold") (codes "eve") 9000 mint_1000 refl

initialize-mint_bridged_example :
    (taken : Storage host) × (o : Outcome) × (t : Storage host) × (p : Outcome)
    × (Contract.initialize storage (codes "eve") (codes "rogue" ∷ []) 1 500 ≡ ok (taken, o))
    × (Contract.mint_bridged taken (inbound (codes "rogue")) ≡ ok (t, p))
    × (t.ledger ≡ 9000)
unfolding bytes_eq Contract.build_mint_message to_le_bytes
initialize-mint_bridged_example =
    Redirect.initialize-mint_bridged storage (codes "eve") 1 500 (inbound (codes "rogue")) 9000
      (omega arith) (omega arith) refl refl refl
