-- ===== src/Icp/UnitTests.antt =====
-- The unit tests of icp-bridge/src/knt_bridge.rs, each as what it asserts of the model. A test build
-- checks overflow.
use kinet_std.Shared.{
  ℕ, ◌≡◌, refl, true, false, some, [], ◌∷◌, Bytes, Result, ok, err, ◌>>=◌, Unwrapped, replicate,
  ok_or, leb, bytes_eq, contains, length, map,
}
use kinet_std.Icp.State.{BridgeConfig, Context, Statics, Trap}
use kinet_std.Icp.Canister

-- `Principal::anonymous()`
abbrev anonymous : Bytes
anonymous = 4 ∷ []

abbrev context : Context
context = record { caller = anonymous; time = 0 }

abbrev default_config : BridgeConfig
default_config = record {
  admin = anonymous;
  mpc_signers = replicate 32 1 ∷ replicate 32 2 ∷ replicate 32 3 ∷ [];
  threshold = 2;
  fee_bps = 30;
  paused = false;
  outbound_nonce = 0;
  total_locked = 0;
  total_burned = 0;
}

-- `reset_state()` and then `init_default()`
abbrev reset_state : Statics
reset_state = Canister.installed

abbrev init_default : Statics
init_default = record reset_state { config = some default_config }

-- After `paused = true` in the configuration.
abbrev paused : Statics
paused = record reset_state { config = some (record default_config { paused = true }) }

abbrev lock : Statics → ℕ → Result Trap (Statics × ℕ)
lock s amount = Canister.lock_and_bridge true s context amount 96369 (replicate 32 0)

abbrev burn : Statics → ℕ → Result Trap (Statics × ℕ)
burn s amount = Canister.burn_bridged true s amount 96369 (replicate 32 0)

-- A mint of nonce 1 to the anonymous principal, with a signature of zeros.
abbrev mint : Statics → ℕ → ℕ → Bytes → Result Trap Statics
mint s source_chain_id amount signer = Canister.mint_bridged s (record {
  source_chain_id = source_chain_id;
  nonce = 1;
  recipient = anonymous;
  amount = amount;
  signature = replicate 64 0;
  signer_pubkey = signer;
})

abbrev TestInitSetsConfig : Type 0
TestInitSetsConfig =
    Unwrapped
      (ok_or
        (record reset_state {
          config = some (record default_config {
            mpc_signers = replicate 32 0xAA ∷ replicate 32 0xBB ∷ [];
            fee_bps = 100;
          });
        }).config
        Trap.not_initialized)
      (λ cfg.
        (cfg.fee_bps ≡ 100)
        × (cfg.threshold ≡ 2)
        × (length cfg.mpc_signers ≡ 2)
        × (cfg.paused ≡ false)
        × (cfg.outbound_nonce ≡ 0)
        × (cfg.total_locked ≡ 0)
        × (cfg.total_burned ≡ 0))

abbrev TestInitRejectsHighFee : Type 0
TestInitRejectsHighFee = leb 501 Canister.max_fee_bps ≡ false

abbrev TestLockAndBridgeReturnsNonce : Type 0
TestLockAndBridgeReturnsNonce = Unwrapped (lock init_default 1000000) (λ (s, nonce). (nonce ≡ 1))

abbrev TestLockAndBridgeIncrementsNonce : Type 0
TestLockAndBridgeIncrementsNonce =
    Unwrapped (do (s, n1) ← lock init_default 500000; (t, n2) ← lock s 500000; ok (n1, n2))
      (λ (n1, n2). (n1 ≡ 1) × (n2 ≡ 2))

abbrev TestLockUpdatesTotalLocked : Type 0
TestLockUpdatesTotalLocked =
    (do (s, nonce) ← lock init_default 1000000; Canister.total_locked s) ≡ ok 997000

abbrev TestLockCreatesEvent : Type 0
TestLockCreatesEvent = Unwrapped (lock init_default 1000000) (λ (s, n).
    (map (λ e. e.nonce) (Canister.get_events s 1 1) ≡ 1 ∷ [])
    × (map (λ e. e.source_chain) (Canister.get_events s 1 1) ≡ Canister.icp_chain_id ∷ [])
    × (map (λ e. e.dest_chain) (Canister.get_events s 1 1) ≡ 96369 ∷ [])
    × (map (λ e. e.amount) (Canister.get_events s 1 1) ≡ 997000 ∷ [])
    × (map (λ e. e.fee) (Canister.get_events s 1 1) ≡ 3000 ∷ []))

abbrev TestLockRejectsZeroAmount : Type 0
TestLockRejectsZeroAmount = lock init_default 0 ≡ err Trap.zero_amount

abbrev TestLockRejectsWhenPaused : Type 0
TestLockRejectsWhenPaused = lock paused 1000000 ≡ err Trap.bridge_paused

abbrev TestMintBridgedMarksNonce : Type 0
TestMintBridgedMarksNonce =
    Unwrapped (mint init_default 96369 500000 (replicate 32 1))
      (λ s. (s.processed_nonces (96369, 1) ≡ true))

abbrev TestMintRejectsDuplicateNonce : Type 0
TestMintRejectsDuplicateNonce =
    (do s ← mint init_default 96369 500000 (replicate 32 1); mint s 96369 500000 (replicate 32 1))
    ≡ err Trap.nonce_processed

abbrev TestMintRejectsUnauthorizedSigner : Type 0
TestMintRejectsUnauthorizedSigner =
    mint init_default 96369 500000 (replicate 32 0xFF) ≡ err Trap.unauthorized_signer

abbrev TestMintRejectsZeroAmount : Type 0
TestMintRejectsZeroAmount = mint init_default 96369 0 (replicate 32 1) ≡ err Trap.zero_amount

abbrev TestMintRejectsWhenPaused : Type 0
TestMintRejectsWhenPaused = mint paused 96369 500000 (replicate 32 1) ≡ err Trap.bridge_paused

abbrev TestBurnBridgedReturnsNonce : Type 0
TestBurnBridgedReturnsNonce = Unwrapped (burn init_default 1000000) (λ (s, nonce). (nonce ≡ 1))

abbrev TestBurnUpdatesTotalBurned : Type 0
TestBurnUpdatesTotalBurned =
    (do (s, nonce) ← burn init_default 750000; Canister.total_burned s) ≡ ok 750000

abbrev TestBurnIncrementsNonce : Type 0
TestBurnIncrementsNonce =
    Unwrapped (do (s, n1) ← burn init_default 100; (t, n2) ← burn s 200; ok (n1, n2))
      (λ (n1, n2). (n1 ≡ 1) × (n2 ≡ 2))

abbrev TestBurnRejectsZeroAmount : Type 0
TestBurnRejectsZeroAmount = burn init_default 0 ≡ err Trap.zero_amount

abbrev TestBurnRejectsWhenPaused : Type 0
TestBurnRejectsWhenPaused = burn paused 1000000 ≡ err Trap.bridge_paused

abbrev TestPauseSetsFlag : Type 0
TestPauseSetsFlag = Canister.is_paused paused ≡ ok true

abbrev TestUnpauseClearsFlag : Type 0
TestUnpauseClearsFlag =
    (Canister.is_paused paused ≡ ok true) × (Canister.is_paused init_default ≡ ok false)

abbrev TestPauseBlocksAllOperations : Type 0
TestPauseBlocksAllOperations =
    (lock paused 1000000 ≡ err Trap.bridge_paused)
    × (burn paused 1000000 ≡ err Trap.bridge_paused)
    × (mint paused 96369 500000 (replicate 32 1) ≡ err Trap.bridge_paused)

abbrev TestTotalLockedStartsZero : Type 0
TestTotalLockedStartsZero = Canister.total_locked init_default ≡ ok 0

abbrev TestTotalBurnedStartsZero : Type 0
TestTotalBurnedStartsZero = Canister.total_burned init_default ≡ ok 0

abbrev TestIsPausedStartsFalse : Type 0
TestIsPausedStartsFalse = Canister.is_paused init_default ≡ ok false

abbrev TestGetEventsEmpty : Type 0
TestGetEventsEmpty = Canister.get_events init_default 0 100 ≡ []

abbrev TestGetEventsRange : Type 0
TestGetEventsRange =
    Unwrapped (do (s, n1) ← lock init_default 100; (t, n2) ← lock s 200; lock t 300)
      (λ (u, n).
        (map (λ e. e.nonce) (Canister.get_events u 2 2) ≡ 2 ∷ [])
        × (length (Canister.get_events u 1 3) ≡ 3))

abbrev TestMintNonceIsolationAcrossChains : Type 0
TestMintNonceIsolationAcrossChains =
    Unwrapped
      (do s ← mint init_default 96369 100 (replicate 32 1); mint s 200200 100 (replicate 32 1))
      (λ t. (t.processed_nonces (96369, 1) ≡ true) × (t.processed_nonces (200200, 1) ≡ true))

init_test_pass : TestInitSetsConfig × TestInitRejectsHighFee
unfolding Canister.lock_and_bridge Canister.mint_bridged Canister.burn_bridged Canister.total_locked
    Canister.total_burned Canister.is_paused Canister.get_events Canister.in_range contains bytes_eq
init_test_pass = ((refl, refl, refl, refl, refl, refl, refl), refl)

lock_test_pass :
    TestLockAndBridgeReturnsNonce × TestLockAndBridgeIncrementsNonce × TestLockUpdatesTotalLocked
    × TestLockCreatesEvent × TestLockRejectsZeroAmount × TestLockRejectsWhenPaused
unfolding Canister.lock_and_bridge Canister.mint_bridged Canister.burn_bridged Canister.total_locked
    Canister.total_burned Canister.is_paused Canister.get_events Canister.in_range contains bytes_eq
lock_test_pass = (refl, (refl, refl), refl, (refl, refl, refl, refl, refl), refl, refl)

mint_test_pass :
    TestMintBridgedMarksNonce × TestMintRejectsDuplicateNonce × TestMintRejectsUnauthorizedSigner
    × TestMintRejectsZeroAmount × TestMintRejectsWhenPaused
unfolding Canister.lock_and_bridge Canister.mint_bridged Canister.burn_bridged Canister.total_locked
    Canister.total_burned Canister.is_paused Canister.get_events Canister.in_range contains bytes_eq
mint_test_pass = (refl, refl, refl, refl, refl)

burn_test_pass :
    TestBurnBridgedReturnsNonce × TestBurnUpdatesTotalBurned × TestBurnIncrementsNonce
    × TestBurnRejectsZeroAmount × TestBurnRejectsWhenPaused
unfolding Canister.lock_and_bridge Canister.mint_bridged Canister.burn_bridged Canister.total_locked
    Canister.total_burned Canister.is_paused Canister.get_events Canister.in_range contains bytes_eq
burn_test_pass = (refl, refl, (refl, refl), refl, refl)

pause_test_pass : TestPauseSetsFlag × TestUnpauseClearsFlag × TestPauseBlocksAllOperations
unfolding Canister.lock_and_bridge Canister.mint_bridged Canister.burn_bridged Canister.total_locked
    Canister.total_burned Canister.is_paused Canister.get_events Canister.in_range contains bytes_eq
pause_test_pass = (refl, (refl, refl), (refl, refl, refl))

query_test_pass :
    TestTotalLockedStartsZero × TestTotalBurnedStartsZero × TestIsPausedStartsFalse
    × TestGetEventsEmpty × TestGetEventsRange
unfolding Canister.lock_and_bridge Canister.mint_bridged Canister.burn_bridged Canister.total_locked
    Canister.total_burned Canister.is_paused Canister.get_events Canister.in_range contains bytes_eq
query_test_pass = (refl, refl, refl, refl, (refl, refl))

isolation_test_pass : TestMintNonceIsolationAcrossChains
unfolding Canister.lock_and_bridge Canister.mint_bridged Canister.burn_bridged Canister.total_locked
    Canister.total_burned Canister.is_paused Canister.get_events Canister.in_range contains bytes_eq
isolation_test_pass = ((refl, refl))
