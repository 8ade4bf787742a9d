-- ===== src/Stellar/UnitTests.antt =====
-- The unit tests of stellar-bridge/src/lib.rs, each as what it asserts of the model. The test
-- environment grants every authorization.
use kinet_std.Shared.{
  ℕ, ◌+◌, ◌-◌, ◌≡◌, refl, Bool, true, Option, some, none, [], ◌∷◌, ◌++◌, Bytes, codes, Result, ok,
  err, ◌>>=◌, Unwrapped, replicate, bytes_eq, contains, leb, if◌then◌else◌, to_le_bytes,
}
use kinet_std.Shared.Int.{ℤ, pos, negsuc, scale, quot, ◌+ℤ◌, ◌-ℤ◌}
use kinet_std.Stellar.State.{Host, Outbound, Outcome, Panic, Storage}
use kinet_std.Stellar.Contract

abbrev contract_id : Bytes
contract_id = codes "contract"

abbrev admin : Bytes
admin = codes "admin"

abbrev impostor : Bytes
impostor = codes "impostor"

abbrev sender : Bytes
sender = codes "sender"

abbrev recipient : Bytes
recipient = codes "recipient"

abbrev token_addr : Bytes
token_addr = codes "token"

-- The balances of the test token, which `token_addr` names.
abbrev Balances : Type 0
Balances = Bytes → ℕ

abbrev mint_token : Balances → Bytes → ℕ → Balances
mint_token l to amount = λ a. if bytes_eq a to then l a + amount else l a

abbrev transfer : Balances → Bytes → Bytes → Bytes → ℤ → Option Balances
transfer l token from to (pos n) =
    if leb n (l from)
    then some (mint_token (λ a. if bytes_eq a from then l a - n else l a) to n)
    else none
transfer l token from to (negsuc n) = none

-- A signature is the key and then the text, which is its own hash.
abbrev host : Host
host = record {
  Ledger = Balances;
  transfer = transfer;
  contract_address = contract_id;
  sha256 = λ m. m;
  ed25519_verify = λ pk m s. bytes_eq s (pk ++ m);
}

abbrev setup_env : Storage host
setup_env = record { config = none; nonces = λ k. none; ledger = λ a. 0 }

abbrev mock_all_auths : Bytes → Bool
mock_all_auths a = true

abbrev signer : Bytes
signer = replicate 32 1

abbrev rogue_signer : Bytes
rogue_signer = replicate 32 2

abbrev init_bridge : Storage host → Result Panic (Storage host)
init_bridge s = do (t, o) ← Contract.initialize s admin (signer ∷ []) 2 100; ok t

-- The bridge where an account holds tokens.
abbrev bridge_with : Bytes → ℕ → Result Panic (Storage host)
bridge_with holder amount =
    init_bridge (record setup_env { ledger = mint_token setup_env.ledger holder amount })

-- The arguments of the tests' locks and burns.
abbrev outbound : ℕ → Bytes → Outbound
outbound amount to = record {
  sender = sender;
  token_addr = token_addr;
  amount = pos amount;
  dest_chain_id = 1;
  recipient = to;
}

abbrev lock : Storage host → ℕ → Result Panic (Storage host × Outcome)
lock s amount = Contract.lock_and_bridge mock_all_auths s (outbound amount (replicate 32 0))

abbrev burn : Storage host → ℕ → Result Panic (Storage host × Outcome)
burn s amount = Contract.burn_bridged mock_all_auths s (outbound amount (replicate 32 1))

-- A mint of 1000 from chain 42 under nonce 1, signed by the key.
abbrev mint : Storage host → Bytes → Result Panic (Storage host × Outcome)
mint s key = Contract.mint_bridged s (record {
  token_addr = token_addr;
  source_chain_id = 42;
  nonce = 1;
  recipient = recipient;
  amount = pos 1000;
  signature = key ++ Contract.build_mint_message 42 1 recipient (pos 1000);
  signer_pubkey = key;
})

abbrev TestInitializeSetsConfig : Type 0
TestInitializeSetsConfig =
    Unwrapped (init_bridge setup_env)
      (λ s. (Contract.total_locked s ≡ ok (pos 0)) × (Contract.total_burned s ≡ ok (pos 0)))

abbrev TestInitializeRejectsHighFee : Type 0
TestInitializeRejectsHighFee =
    Contract.initialize setup_env admin (signer ∷ []) 2 501 ≡ err Panic.fee_too_high

abbrev TestLockAndBridge : Type 0
TestLockAndBridge =
    Unwrapped (do s ← bridge_with sender 10000; lock s 5000)
      (λ (t, o). (o.returned ≡ some 1) × (Contract.total_locked t ≡ ok (pos 4950)))

abbrev TestLockIncrementsNonce : Type 0
TestLockIncrementsNonce =
    Unwrapped
      (do s ← bridge_with sender 20000; (t, n1) ← lock s 5000; (u, n2) ← lock t 5000; ok (n1, n2))
      (λ (n1, n2). (n1.returned ≡ some 1) × (n2.returned ≡ some 2))

abbrev TestLockRejectsZeroAmount : Type 0
TestLockRejectsZeroAmount = (do s ← init_bridge setup_env; lock s 0) ≡ err Panic.zero_amount

abbrev TestMintBridgedWithValidSignature : Type 0
TestMintBridgedWithValidSignature =
    Unwrapped (do s ← bridge_with contract_id 10000; mint s signer)
      (λ (t, o). (t.ledger recipient ≡ 1000))

abbrev TestMintRejectsUnknownSigner : Type 0
TestMintRejectsUnknownSigner =
    (do s ← bridge_with contract_id 10000; mint s rogue_signer) ≡ err Panic.unauthorized

abbrev TestMintRejectsReplay : Type 0
TestMintRejectsReplay =
    (do s ← bridge_with contract_id 20000; (t, o) ← mint s signer; mint t signer)
    ≡ err Panic.nonce_processed

abbrev TestBurnBridged : Type 0
TestBurnBridged =
    Unwrapped (do s ← bridge_with sender 10000; burn s 3000)
      (λ (t, o).
        (o.returned ≡ some 1)
        × (Contract.total_burned t ≡ ok (pos 3000))
        × (t.ledger sender ≡ 7000))

abbrev TestBurnRejectsZero : Type 0
TestBurnRejectsZero = (do s ← init_bridge setup_env; burn s 0) ≡ err Panic.zero

abbrev TestUnpauseRestoresOperations : Type 0
TestUnpauseRestoresOperations =
    Unwrapped
      (do
        s ← bridge_with sender 10000
        (t, o) ← Contract.pause mock_all_auths s admin
        (u, p) ← Contract.unpause mock_all_auths t admin
        lock u 1000)
      (λ (v, o). (o.returned ≡ some 1))

abbrev TestLockWhilePaused : Type 0
TestLockWhilePaused =
    (do s ← bridge_with sender 10000; (t, o) ← Contract.pause mock_all_auths s admin; lock t 1000)
    ≡ err Panic.paused

abbrev TestBurnWhilePaused : Type 0
TestBurnWhilePaused =
    (do s ← bridge_with sender 10000; (t, o) ← Contract.pause mock_all_auths s admin; burn t 1000)
    ≡ err Panic.paused

abbrev TestPauseRejectsNonAdmin : Type 0
TestPauseRejectsNonAdmin =
    (do s ← init_bridge setup_env; Contract.pause mock_all_auths s impostor) ≡ err Panic.assertion

abbrev TestUnpauseRejectsNonAdmin : Type 0
TestUnpauseRejectsNonAdmin =
    (do
      s ← init_bridge setup_env
      (t, o) ← Contract.pause mock_all_auths s admin
      Contract.unpause mock_all_auths t impostor)
    ≡ err Panic.assertion

initialize_pass : TestInitializeSetsConfig × TestInitializeRejectsHighFee
unfolding Contract.initialize Contract.lock_and_bridge Contract.mint_bridged Contract.burn_bridged
    Contract.as_admin Contract.pause Contract.unpause Contract.total_locked Contract.total_burned
    Contract.build_mint_message contains bytes_eq to_le_bytes scale quot ◌+ℤ◌ ◌-ℤ◌
initialize_pass = ((refl, refl), refl)

lock_pass : TestLockAndBridge × TestLockIncrementsNonce × TestLockRejectsZeroAmount
unfolding Contract.initialize Contract.lock_and_bridge Contract.mint_bridged Contract.burn_bridged
    Contract.as_admin Contract.pause Contract.unpause Contract.total_locked Contract.total_burned
    Contract.build_mint_message contains bytes_eq to_le_bytes scale quot ◌+ℤ◌ ◌-ℤ◌
lock_pass = ((refl, refl), (refl, refl), refl)

mint_pass : TestMintBridgedWithValidSignature × TestMintRejectsUnknownSigner × TestMintRejectsReplay
unfolding Contract.initialize Contract.lock_and_bridge Contract.mint_bridged Contract.burn_bridged
    Contract.as_admin Contract.pause Contract.unpause Contract.total_locked Contract.total_burned
    Contract.build_mint_message contains bytes_eq to_le_bytes scale quot ◌+ℤ◌ ◌-ℤ◌
mint_pass = (refl, refl, refl)

burn_pass : TestBurnBridged × TestBurnRejectsZero
unfolding Contract.initialize Contract.lock_and_bridge Contract.mint_bridged Contract.burn_bridged
    Contract.as_admin Contract.pause Contract.unpause Contract.total_locked Contract.total_burned
    Contract.build_mint_message contains bytes_eq to_le_bytes scale quot ◌+ℤ◌ ◌-ℤ◌
burn_pass = ((refl, refl, refl), refl)

pause_pass :
    TestUnpauseRestoresOperations × TestLockWhilePaused × TestBurnWhilePaused
    × TestPauseRejectsNonAdmin × TestUnpauseRejectsNonAdmin
unfolding Contract.initialize Contract.lock_and_bridge Contract.mint_bridged Contract.burn_bridged
    Contract.as_admin Contract.pause Contract.unpause Contract.total_locked Contract.total_burned
    Contract.build_mint_message contains bytes_eq to_le_bytes scale quot ◌+ℤ◌ ◌-ℤ◌
pause_pass = (refl, refl, refl, refl, refl)
