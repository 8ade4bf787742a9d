-- ===== src/Polkadot/UnitTests.antt =====
-- The unit tests of polkadot-bridge/lib.rs, each as what it asserts of the model. A test build checks
-- overflow.
use kinet_std.Shared.{
  ℕ, ◌-◌, ◌*◌, ◌/◌, ◌≡◌, refl, true, false, some, none, [], ◌∷◌, Bytes, Result, ok, err, ◌>>=◌,
  Unwrapped, replicate, bytes_eq, contains, leb, if◌then◌else◌, unwrap_or,
}
use kinet_std.Polkadot.State.{Chain, Context, Error, KntBridge, Outcome, State}
use kinet_std.Polkadot.Contract

-- The off-chain environment of the tests, as the contract's own balance.
abbrev environment : Chain
environment = record {
  Ledger = ℕ;
  transfer = λ held to amount. if leb amount held then some (held - amount) else none;
}

abbrev alice : Bytes
alice = replicate 32 1

abbrev bob : Bytes
bob = replicate 32 2

-- `set_caller` and `set_value_transferred`
abbrev called : Bytes → ℕ → Context
called caller value = record { caller = caller; transferred_value = value }

abbrev signer_key : Bytes
signer_key = replicate 32 1

abbrev other_key : Bytes
other_key = replicate 32 2

abbrev dummy_signature : Bytes
dummy_signature = replicate 64 0xAA

abbrev create_bridge : Result Error KntBridge
create_bridge = Contract.new (called alice 0) (signer_key ∷ []) 2 100

-- The bridge with a balance of its own.
abbrev funded : ℕ → Result Error (State environment)
funded balance = do b ← create_bridge; ok (record { bridge = b; ledger = balance })

-- A mint of nonce 1 of chain 1 to bob.
abbrev mint :
    State environment → (amount : ℕ) → (key : Bytes) → Result Error (State environment × Outcome)
mint s amount key = Contract.mint_bridged s (record {
  source_chain_id = 1;
  nonce = 1;
  recipient = bob;
  amount = amount;
  signature = dummy_signature;
  signer_pubkey = key;
})

abbrev InitializeSetsAdmin : Type 0
InitializeSetsAdmin = Unwrapped (create_bridge) (λ b. (b.admin ≡ alice))

abbrev InitializeNotPaused : Type 0
InitializeNotPaused = Unwrapped (create_bridge) (λ b. (Contract.is_paused b ≡ false))

abbrev InitializeZeroTotals : Type 0
InitializeZeroTotals =
    Unwrapped (create_bridge) (λ b. (Contract.total_locked b ≡ 0) × (Contract.total_burned b ≡ 0))

abbrev InitializeSetsFee : Type 0
InitializeSetsFee = Unwrapped (create_bridge) (λ b. (b.fee_bps ≡ 100))

abbrev InitializeRejectsFeeAbove500 : Type 0
InitializeRejectsFeeAbove500 =
    Contract.new (called alice 0) (signer_key ∷ []) 2 501 ≡ err Error.assertion

abbrev LockIncrementsNonce : Type 0
LockIncrementsNonce =
    Unwrapped
      (do
        b ← create_bridge
        (c, n) ← Contract.lock_and_bridge true b (called alice 1000) 1 (replicate 32 0xBB)
        (d, m) ← Contract.lock_and_bridge true c (called alice 1000) 1 (replicate 32 0xBB)
        ok (n.returned, m.returned))
      (λ (n, m). (n ≡ some 1) × (m ≡ some 2))

abbrev LockUpdatesTotalLocked : Type 0
LockUpdatesTotalLocked =
    Unwrapped
      (do
        b ← create_bridge
        Contract.lock_and_bridge true b (called alice 10000) 1 (replicate 32 0xBB))
      (λ (c, o). (Contract.total_locked c ≡ 10000 - 10000 * 100 / 10000))

abbrev LockRejectsZeroAmount : Type 0
LockRejectsZeroAmount =
    (do b ← create_bridge; Contract.lock_and_bridge true b (called alice 0) 1 (replicate 32 0xBB))
    ≡ err Error.amount_zero

abbrev LockRejectsWhenPaused : Type 0
LockRejectsWhenPaused =
    (do
      b ← create_bridge
      (c, o) ← Contract.pause b (called alice 0)
      Contract.lock_and_bridge true c (called alice 1000) 1 (replicate 32 0xBB))
    ≡ err Error.paused

abbrev MintMarksNonceProcessed : Type 0
MintMarksNonceProcessed =
    Unwrapped (do s ← funded 1000000; mint s 5000 signer_key)
      (λ (t, o). (unwrap_or (t.bridge.processed_nonces (1, 1)) false ≡ true))

abbrev MintRejectsReplayedNonce : Type 0
MintRejectsReplayedNonce =
    (do s ← funded 1000000; (t, o) ← mint s 5000 signer_key; mint t 5000 signer_key)
    ≡ err Error.nonce_processed

abbrev MintRejectsUnauthorizedSigner : Type 0
MintRejectsUnauthorizedSigner =
    (do s ← funded 0; mint s 5000 other_key) ≡ err Error.unauthorized_signer

abbrev MintRejectsZeroAmount : Type 0
MintRejectsZeroAmount = (do s ← funded 0; mint s 0 signer_key) ≡ err Error.amount_zero

abbrev BurnIncrementsNonce : Type 0
BurnIncrementsNonce =
    Unwrapped
      (do b ← create_bridge; Contract.burn_bridged true b (called alice 5000) 1 (replicate 32 0xCC))
      (λ (c, o). (o.returned ≡ some 1))

abbrev BurnUpdatesTotalBurned : Type 0
BurnUpdatesTotalBurned =
    Unwrapped
      (do b ← create_bridge; Contract.burn_bridged true b (called alice 5000) 1 (replicate 32 0xCC))
      (λ (c, o). (Contract.total_burned c ≡ 5000))

abbrev BurnRejectsZeroAmount : Type 0
BurnRejectsZeroAmount =
    (do b ← create_bridge; Contract.burn_bridged true b (called alice 0) 1 (replicate 32 0xCC))
    ≡ err Error.amount_zero

abbrev BurnRejectsWhenPaused : Type 0
BurnRejectsWhenPaused =
    (do
      b ← create_bridge
      (c, o) ← Contract.pause b (called alice 0)
      Contract.burn_bridged true c (called alice 5000) 1 (replicate 32 0xCC))
    ≡ err Error.paused

abbrev PauseSetsPaused : Type 0
PauseSetsPaused =
    Unwrapped (do b ← create_bridge; Contract.pause b (called alice 0))
      (λ (c, o). (Contract.is_paused c ≡ true))

abbrev UnpauseClearsPaused : Type 0
UnpauseClearsPaused =
    Unwrapped
      (do
        b ← create_bridge
        (c, o) ← Contract.pause b (called alice 0)
        Contract.unpause c (called alice 0))
      (λ (d, p). (Contract.is_paused d ≡ false))

abbrev PauseRejectsNonAdmin : Type 0
PauseRejectsNonAdmin = (do b ← create_bridge; Contract.pause b (called bob 0)) ≡ err Error.not_admin

abbrev SetFeeRejectsNonAdmin : Type 0
SetFeeRejectsNonAdmin =
    (do b ← create_bridge; Contract.set_fee b (called bob 0) 200) ≡ err Error.not_admin

abbrev SetFeeRejectsAboveMax : Type 0
SetFeeRejectsAboveMax =
    (do b ← create_bridge; Contract.set_fee b (called alice 0) 501) ≡ err Error.fee_too_high

abbrev SetFeeUpdatesValue : Type 0
SetFeeUpdatesValue =
    Unwrapped (do b ← create_bridge; Contract.set_fee b (called alice 0) 250)
      (λ (c, o). (c.fee_bps ≡ 250))

abbrev SetSignersRejectsNonAdmin : Type 0
SetSignersRejectsNonAdmin =
    (do b ← create_bridge; Contract.set_signers b (called bob 0) (other_key ∷ []) 1)
    ≡ err Error.not_admin

abbrev SetSignersUpdatesKeys : Type 0
SetSignersUpdatesKeys =
    Unwrapped (do b ← create_bridge; Contract.set_signers b (called alice 0) (other_key ∷ []) 1)
      (λ (c, o). (c.mpc_signers ≡ other_key ∷ []) × (c.threshold ≡ 1))

initialize_pass :
    InitializeSetsAdmin × InitializeNotPaused × InitializeZeroTotals × InitializeSetsFee
    × InitializeRejectsFeeAbove500
unfolding Contract.new Contract.lock_and_bridge Contract.mint_bridged Contract.burn_bridged
    Contract.pause Contract.unpause Contract.set_signers Contract.set_fee Contract.is_paused
    Contract.total_locked Contract.total_burned contains bytes_eq
initialize_pass = (refl, refl, (refl, refl), refl, refl)

lock_pass :
    LockIncrementsNonce × LockUpdatesTotalLocked × LockRejectsZeroAmount × LockRejectsWhenPaused
unfolding Contract.new Contract.lock_and_bridge Contract.mint_bridged Contract.burn_bridged
    Contract.pause Contract.unpause Contract.set_signers Contract.set_fee Contract.is_paused
    Contract.total_locked Contract.total_burned contains bytes_eq
lock_pass = ((refl, refl), refl, refl, refl)

mint_pass :
    MintMarksNonceProcessed × MintRejectsReplayedNonce × MintRejectsUnauthorizedSigner
    × MintRejectsZeroAmount
unfolding Contract.new Contract.lock_and_bridge Contract.mint_bridged Contract.burn_bridged
    Contract.pause Contract.unpause Contract.set_signers Contract.set_fee Contract.is_paused
    Contract.total_locked Contract.total_burned contains bytes_eq
mint_pass = (refl, refl, refl, refl)

burn_pass :
    BurnIncrementsNonce × BurnUpdatesTotalBurned × BurnRejectsZeroAmount × BurnRejectsWhenPaused
unfolding Contract.new Contract.lock_and_bridge Contract.mint_bridged Contract.burn_bridged
    Contract.pause Contract.unpause Contract.set_signers Contract.set_fee Contract.is_paused
    Contract.total_locked Contract.total_burned contains bytes_eq
burn_pass = (refl, refl, refl, refl)

pause_pass : PauseSetsPaused × UnpauseClearsPaused × PauseRejectsNonAdmin
unfolding Contract.new Contract.lock_and_bridge Contract.mint_bridged Contract.burn_bridged
    Contract.pause Contract.unpause Contract.set_signers Contract.set_fee Contract.is_paused
    Contract.total_locked Contract.total_burned contains bytes_eq
pause_pass = (refl, refl, refl)

setting_pass :
    SetFeeRejectsNonAdmin × SetFeeRejectsAboveMax × SetFeeUpdatesValue × SetSignersRejectsNonAdmin
    × SetSignersUpdatesKeys
unfolding Contract.new Contract.lock_and_bridge Contract.mint_bridged Contract.burn_bridged
    Contract.pause Contract.unpause Contract.set_signers Contract.set_fee Contract.is_paused
    Contract.total_locked Contract.total_burned contains bytes_eq
setting_pass = (refl, refl, refl, refl, (refl, refl))
