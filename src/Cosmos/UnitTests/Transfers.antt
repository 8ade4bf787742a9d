-- ===== src/Cosmos/UnitTests/Transfers.antt =====
-- The unit tests of contract.rs that instantiate, lock, mint and burn.
use kinet_std.Shared.{
  ◌≡◌, refl, false, [], ◌∷◌, codes, ok, err, ◌>>=◌, Unwrapped, bytes_eq, contains, to_le_bytes,
  length, map,
}
use kinet_std.Cosmos.State.{ExecuteMsg, StdError}
use kinet_std.Cosmos.Limit.{check_daily_limit}
use kinet_std.Cosmos.Contract
use kinet_std.Cosmos.UnitTests.{
  admin, user, chain_id, dest_chain, mock_info, setup, call, as_admin, register_token, query_config,
  ty, mint, with_signer,
}

abbrev InstantiateStoresConfig : Type 0
InstantiateStoresConfig = Unwrapped (query_config setup) (λ c.
    (c.admin ≡ admin)
    × (c.mpc_signers ≡ codes "aaaa" ∷ codes "bbbb" ∷ [])
    × (c.threshold ≡ 2)
    × (c.fee_bps ≡ 30)
    × (c.chain_id ≡ chain_id)
    × (c.outbound_nonce ≡ 0)
    × (c.paused ≡ false)
    × (c.total_locked ≡ 0)
    × (c.total_burned ≡ 0))

abbrev LockAndBridgeLocksFundsAndIncrementsNonce : Type 0
LockAndBridgeLocksFundsAndIncrementsNonce =
    Unwrapped
      (do
        (s, res) ←
            call setup (mock_info user (record { amount = 10000; denom = codes "uknt" } ∷ []))
              (ExecuteMsg.lock_and_bridge dest_chain (codes "0xdead"))
        c ← query_config s
        ok (res, c))
      (λ (res, c).
        (map ty res.events ≡ codes "lock" ∷ []) × (c.outbound_nonce ≡ 1) × (c.total_locked ≡ 9970))

abbrev LockAndBridgeRejectsNoFunds : Type 0
LockAndBridgeRejectsNoFunds =
    call setup (mock_info user []) (ExecuteMsg.lock_and_bridge dest_chain (codes "0xdead"))
    ≡ err StdError.one_coin

abbrev LockAndBridgeRejectsWhenPaused : Type 0
LockAndBridgeRejectsWhenPaused =
    (do
      s ← as_admin setup ExecuteMsg.pause
      call s (mock_info user (record { amount = 1000; denom = codes "uknt" } ∷ []))
          (ExecuteMsg.lock_and_bridge dest_chain (codes "0xdead")))
    ≡ err StdError.paused

abbrev MintBridgedWithValidSignature : Type 0
MintBridgedWithValidSignature =
    Unwrapped (do s ← with_signer 1; call s (mock_info user []) (mint 1 5000 5000))
      (λ (t, res). (map ty res.events ≡ codes "mint" ∷ []) × (length res.messages ≡ 1))

abbrev MintBridgedRejectsInvalidSignature : Type 0
MintBridgedRejectsInvalidSignature =
    (do s ← with_signer 2; call s (mock_info user []) (mint 2 5000 9999))
    ≡ err StdError.invalid_signature

abbrev MintBridgedRejectsUnauthorizedSigner : Type 0
MintBridgedRejectsUnauthorizedSigner =
    (do
      s ← register_token setup (codes "bridged_uknt") 1000000
      call s (mock_info user []) (mint 99 1000 1000))
    ≡ err StdError.unauthorized_signer

abbrev MintBridgedRejectsReplay : Type 0
MintBridgedRejectsReplay =
    (do
      s ← with_signer 3
      (t, r) ← call s (mock_info user []) (mint 3 1000 1000)
      call t (mock_info user []) (mint 3 1000 1000))
    ≡ err StdError.nonce_processed

abbrev BurnBridgedIncrementsNonceAndTotal : Type 0
BurnBridgedIncrementsNonceAndTotal =
    Unwrapped
      (do
        (s, res) ←
            call setup
              (mock_info user (record { amount = 2000; denom = codes "bridged_uknt" } ∷ []))
              (ExecuteMsg.burn_bridged dest_chain (codes "0xbeef") (codes "bridged_uknt") 2000)
        c ← query_config s
        ok (res, c))
      (λ (res, c).
        (map ty res.events ≡ codes "burn" ∷ [])
        × (length res.messages ≡ 1)
        × (c.outbound_nonce ≡ 1)
        × (c.total_burned ≡ 2000))

abbrev BurnBridgedRejectsWhenPaused : Type 0
BurnBridgedRejectsWhenPaused =
    (do
      s ← as_admin setup ExecuteMsg.pause
      call s (mock_info user [])
          (ExecuteMsg.burn_bridged dest_chain (codes "0xbeef") (codes "bridged_uknt") 100))
    ≡ err StdError.paused

instantiate_pass : InstantiateStoresConfig
unfolding Contract.instantiate Contract.execute Contract.dispatch Contract.query Contract.authorize
    Contract.lock_and_bridge Contract.mint_bridged Contract.burn_bridged Contract.as_admin
    Contract.register_token Contract.update_signers Contract.update_fee Contract.pause
    Contract.unpause Contract.build_mint_message check_daily_limit contains bytes_eq to_le_bytes
instantiate_pass = ((refl, refl, refl, refl, refl, refl, refl, refl, refl))

lock_pass :
    LockAndBridgeLocksFundsAndIncrementsNonce × LockAndBridgeRejectsNoFunds
    × LockAndBridgeRejectsWhenPaused
unfolding Contract.instantiate Contract.execute Contract.dispatch Contract.query Contract.authorize
    Contract.lock_and_bridge Contract.mint_bridged Contract.burn_bridged Contract.as_admin
    Contract.register_token Contract.update_signers Contract.update_fee Contract.pause
    Contract.unpause Contract.build_mint_message check_daily_limit contains bytes_eq to_le_bytes
lock_pass = ((refl, refl, refl), refl, refl)

mint_pass :
    MintBridgedWithValidSignature × MintBridgedRejectsInvalidSignature
    × MintBridgedRejectsUnauthorizedSigner × MintBridgedRejectsReplay
unfolding Contract.instantiate Contract.execute Contract.dispatch Contract.query Contract.authorize
    Contract.lock_and_bridge Contract.mint_bridged Contract.burn_bridged Contract.as_admin
    Contract.register_token Contract.update_signers Contract.update_fee Contract.pause
    Contract.unpause Contract.build_mint_message check_daily_limit contains bytes_eq to_le_bytes
mint_pass = ((refl, refl), refl, refl, refl)

burn_pass : BurnBridgedIncrementsNonceAndTotal × BurnBridgedRejectsWhenPaused
unfolding Contract.instantiate Contract.execute Contract.dispatch Contract.query Contract.authorize
    Contract.lock_and_bridge Contract.mint_bridged Contract.burn_bridged Contract.as_admin
    Contract.register_token Contract.update_signers Contract.update_fee Contract.pause
    Contract.unpause Contract.build_mint_message check_daily_limit contains bytes_eq to_le_bytes
burn_pass = ((refl, refl, refl, refl), refl)
