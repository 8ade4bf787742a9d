-- ===== src/Near/UnitTests.antt =====
-- The unit tests of near-bridge/src/lib.rs, each as what it asserts of the model.
use kinet_std.Shared.{
  arith, ℕ, ◌≡◌, refl, Bool, true, false, some, [], ◌∷◌, Bytes, codes, Result, err, ◌>>=◌, ok,
  Unwrapped, replicate, insert_bytes, bytes_eq, contains, to_string,
}
use kinet_std.Near.State.{AccountId, Context, Inbound, KntBridge, Panic}
use kinet_std.Near.Contract

-- The check of a signature, which no test reaches.
abbrev verify : Bytes → Bytes → Bytes → Bool
verify signature message pubkey = false

abbrev admin : Bytes
admin = codes "admin.near"

abbrev user : Bytes
user = codes "user.near"

abbrev recipient : AccountId
recipient = record { text = codes "recipient.near"; shortest = omega arith; longest = omega arith }

abbrev signer_key : Bytes
signer_key = replicate 32 1

abbrev setup_context : Bytes → ℕ → Context
setup_context predecessor deposit_yocto = record {
  predecessor = predecessor;
  deposit = deposit_yocto;
}

abbrev new_bridge : Result Panic KntBridge
new_bridge = do (b, o) ← Contract.new (setup_context admin 0) (signer_key ∷ []) 1 100; ok b

-- The bridge after `pause` by the admin.
abbrev paused_bridge : Result Panic KntBridge
paused_bridge = do b ← new_bridge; (c, o) ← Contract.pause b (setup_context admin 0); ok c

-- The arguments of the tests' mints: all zeros for the signature.
abbrev inbound : ℕ → Bytes → Inbound
inbound amount key = record {
  source_chain_id = 96369;
  nonce = 1;
  recipient = recipient;
  amount = amount;
  signature = replicate 64 0;
  signer_pubkey = key;
}

abbrev TestInitialize : Type 0
TestInitialize = Unwrapped new_bridge (λ b.
    (b.admin ≡ admin)
    × (b.mpc_signers ≡ replicate 32 1 ∷ [])
    × (b.threshold ≡ 1)
    × (b.fee_bps ≡ 100)
    × (b.paused ≡ false)
    × (b.outbound_nonce ≡ 0)
    × (b.total_locked ≡ 0)
    × (b.total_burned ≡ 0))

abbrev TestInitializeRejectsHighFee : Type 0
TestInitializeRejectsHighFee =
    Contract.new (setup_context admin 0) (signer_key ∷ []) 1 501 ≡ err Panic.fee_too_high

abbrev TestLockAndBridge : Type 0
TestLockAndBridge =
    Unwrapped
      (do
        b ← new_bridge
        Contract.lock_and_bridge b (setup_context user 1000000) 96369 (codes "0xdead"))
      (λ (c, o). (o.returned ≡ some 1) × (c.outbound_nonce ≡ 1) × (c.total_locked ≡ 990000))

abbrev TestLockAndBridgeIncrementsNonce : Type 0
TestLockAndBridgeIncrementsNonce =
    Unwrapped
      (do
        b ← new_bridge
        (c, n1) ← Contract.lock_and_bridge b (setup_context user 500) 96369 (codes "0xaaa")
        (d, n2) ← Contract.lock_and_bridge c (setup_context user 500) 96369 (codes "0xbbb")
        ok (d, (n1, n2)))
      (λ (d, (n1, n2)). (n1.returned ≡ some 1) × (n2.returned ≡ some 2) × (d.outbound_nonce ≡ 2))

abbrev TestLockAndBridgeRejectsZero : Type 0
TestLockAndBridgeRejectsZero =
    (do b ← new_bridge; Contract.lock_and_bridge b (setup_context user 0) 96369 (codes "0xdead"))
    ≡ err Panic.zero_amount

abbrev TestLockAndBridgeRejectsWhenPaused : Type 0
TestLockAndBridgeRejectsWhenPaused =
    (do
      b ← paused_bridge
      Contract.lock_and_bridge b (setup_context user 1000) 96369 (codes "0xdead"))
    ≡ err Panic.paused

abbrev TestMintBridgedRejectsUnknownSigner : Type 0
TestMintBridgedRejectsUnknownSigner =
    (do b ← new_bridge; Contract.mint_bridged verify b (inbound 1000 (replicate 32 99)))
    ≡ err Panic.unauthorized_signer

abbrev TestMintBridgedRejectsZeroAmount : Type 0
TestMintBridgedRejectsZeroAmount =
    (do b ← new_bridge; Contract.mint_bridged verify b (inbound 0 signer_key))
    ≡ err Panic.zero_amount

abbrev TestMintBridgedRejectsWhenPaused : Type 0
TestMintBridgedRejectsWhenPaused =
    (do b ← paused_bridge; Contract.mint_bridged verify b (inbound 1000 signer_key))
    ≡ err Panic.paused

abbrev TestBurnBridged : Type 0
TestBurnBridged =
    Unwrapped
      (do
        b ← new_bridge
        Contract.burn_bridged b (setup_context user 500000) 96369 (codes "0xdead"))
      (λ (c, o). (o.returned ≡ some 1) × (c.total_burned ≡ 500000) × (c.outbound_nonce ≡ 1))

abbrev TestBurnBridgedRejectsZero : Type 0
TestBurnBridgedRejectsZero =
    (do b ← new_bridge; Contract.burn_bridged b (setup_context user 0) 96369 (codes "0xdead"))
    ≡ err Panic.zero_amount

abbrev TestPauseUnpause : Type 0
TestPauseUnpause =
    Unwrapped
      (do
        b ← new_bridge
        (c, o) ← Contract.pause b (setup_context admin 0)
        (d, p) ← Contract.unpause c (setup_context admin 0)
        ok (b, (c, d)))
      (λ (b, (c, d)).
        (Contract.is_paused b ≡ false)
        × (Contract.is_paused c ≡ true)
        × (Contract.is_paused d ≡ false))

abbrev TestPauseRejectsNonAdmin : Type 0
TestPauseRejectsNonAdmin =
    (do b ← new_bridge; Contract.pause b (setup_context user 0)) ≡ err Panic.not_admin

abbrev TestUnpauseRejectsNonAdmin : Type 0
TestUnpauseRejectsNonAdmin =
    (do b ← paused_bridge; Contract.unpause b (setup_context user 0)) ≡ err Panic.not_admin

abbrev TestSetSignersRejectsNonAdmin : Type 0
TestSetSignersRejectsNonAdmin =
    (do b ← new_bridge; Contract.set_signers b (setup_context user 0) (replicate 32 2 ∷ []) 1)
    ≡ err Panic.not_admin

abbrev TestSetFeeRejectsNonAdmin : Type 0
TestSetFeeRejectsNonAdmin =
    (do b ← new_bridge; Contract.set_fee b (setup_context user 0) 50) ≡ err Panic.not_admin

abbrev TestNonceReplayRejected : Type 0
TestNonceReplayRejected =
    (do
      b ← new_bridge
      Contract.mint_bridged verify
          (record b {
            processed_nonces = insert_bytes b.processed_nonces (Contract.nonce_key 96369 1) true;
          })
          (inbound 1000 signer_key))
    ≡ err Panic.nonce_processed

abbrev TestViewFunctions : Type 0
TestViewFunctions =
    Unwrapped
      (do
        b ← new_bridge
        (c, o) ← Contract.lock_and_bridge b (setup_context user 1000) 96369 (codes "0xdead")
        (d, p) ← Contract.burn_bridged c (setup_context user 2000) 96369 (codes "0xdead")
        ok (b, (c, d)))
      (λ (b, (c, d)).
        (Contract.total_locked b ≡ codes "0")
        × (Contract.total_burned b ≡ codes "0")
        × (Contract.total_locked c ≡ codes "990")
        × (Contract.total_burned d ≡ codes "2000"))

abbrev TestSetSigners : Type 0
TestSetSigners =
    Unwrapped
      (do b ← new_bridge; Contract.set_signers b (setup_context admin 0) (replicate 32 42 ∷ []) 2)
      (λ (c, o). (c.mpc_signers ≡ replicate 32 42 ∷ []) × (c.threshold ≡ 2))

abbrev TestSetFee : Type 0
TestSetFee =
    Unwrapped (do b ← new_bridge; Contract.set_fee b (setup_context admin 0) 250)
      (λ (c, o). (c.fee_bps ≡ 250))

abbrev TestSetFeeRejectsAboveMax : Type 0
TestSetFeeRejectsAboveMax =
    (do b ← new_bridge; Contract.set_fee b (setup_context admin 0) 501) ≡ err Panic.assertion

initialize_pass : TestInitialize × TestInitializeRejectsHighFee
unfolding Contract.new Contract.to_keys Contract.copy_from_slice Contract.lock_and_bridge
    Contract.mint_bridged Contract.burn_bridged Contract.pause Contract.unpause Contract.set_signers
    Contract.set_fee Contract.assert_admin Contract.is_paused Contract.total_locked
    Contract.total_burned Contract.nonce_key contains bytes_eq to_string
initialize_pass = ((refl, refl, refl, refl, refl, refl, refl, refl), refl)

lock_and_bridge_pass :
    TestLockAndBridge × TestLockAndBridgeIncrementsNonce × TestLockAndBridgeRejectsZero
    × TestLockAndBridgeRejectsWhenPaused
unfolding Contract.new Contract.to_keys Contract.copy_from_slice Contract.lock_and_bridge
    Contract.mint_bridged Contract.burn_bridged Contract.pause Contract.unpause Contract.set_signers
    Contract.set_fee Contract.assert_admin Contract.is_paused Contract.total_locked
    Contract.total_burned Contract.nonce_key contains bytes_eq to_string
lock_and_bridge_pass = ((refl, refl, refl), (refl, refl, refl), refl, refl)

mint_bridged_pass :
    TestMintBridgedRejectsUnknownSigner × TestMintBridgedRejectsZeroAmount
    × TestMintBridgedRejectsWhenPaused
unfolding Contract.new Contract.to_keys Contract.copy_from_slice Contract.lock_and_bridge
    Contract.mint_bridged Contract.burn_bridged Contract.pause Contract.unpause Contract.set_signers
    Contract.set_fee Contract.assert_admin Contract.is_paused Contract.total_locked
    Contract.total_burned Contract.nonce_key contains bytes_eq to_string
mint_bridged_pass = (refl, refl, refl)

burn_bridged_pass : TestBurnBridged × TestBurnBridgedRejectsZero
unfolding Contract.new Contract.to_keys Contract.copy_from_slice Contract.lock_and_bridge
    Contract.mint_bridged Contract.burn_bridged Contract.pause Contract.unpause Contract.set_signers
    Contract.set_fee Contract.assert_admin Contract.is_paused Contract.total_locked
    Contract.total_burned Contract.nonce_key contains bytes_eq to_string
burn_bridged_pass = ((refl, refl, refl), refl)

admin_call_pass :
    TestPauseUnpause × TestPauseRejectsNonAdmin × TestUnpauseRejectsNonAdmin
    × TestSetSignersRejectsNonAdmin × TestSetFeeRejectsNonAdmin × TestNonceReplayRejected
unfolding Contract.new Contract.to_keys Contract.copy_from_slice Contract.lock_and_bridge
    Contract.mint_bridged Contract.burn_bridged Contract.pause Contract.unpause Contract.set_signers
    Contract.set_fee Contract.assert_admin Contract.is_paused Contract.total_locked
    Contract.total_burned Contract.nonce_key contains bytes_eq to_string
admin_call_pass = ((refl, refl, refl), refl, refl, refl, refl, refl)

view_and_setting_pass : TestViewFunctions × TestSetSigners × TestSetFee × TestSetFeeRejectsAboveMax
unfolding Contract.new Contract.to_keys Contract.copy_from_slice Contract.lock_and_bridge
    Contract.mint_bridged Contract.burn_bridged Contract.pause Contract.unpause Contract.set_signers
    Contract.set_fee Contract.assert_admin Contract.is_paused Contract.total_locked
    Contract.total_burned Contract.nonce_key contains bytes_eq to_string
view_and_setting_pass = ((refl, refl, refl, refl), (refl, refl), refl, refl)
