-- ===== src/Cosmos/UnitTests/Admin.antt =====
-- The unit tests of contract.rs about the admin.
use kinet_std.Shared.{
  ◌≡◌, refl, true, false, [], ◌∷◌, codes, ok, err, ◌>>=◌, Unwrapped, bytes_eq, contains,
  to_le_bytes,
}
use kinet_std.Cosmos.State.{ExecuteMsg, StdError}
use kinet_std.Cosmos.Limit.{check_daily_limit}
use kinet_std.Cosmos.Contract
use kinet_std.Cosmos.UnitTests.{user, mock_info, setup, call, as_admin, query_config}

abbrev AdminCanPauseAndUnpause : Type 0
AdminCanPauseAndUnpause =
    Unwrapped
      (do
        s ← as_admin setup ExecuteMsg.pause
        c ← query_config s
        t ← as_admin s ExecuteMsg.unpause
        d ← query_config t
        ok (c, d))
      (λ (c, d). (c.paused ≡ true) × (d.paused ≡ false))

abbrev UpdateFeeSetsValidFee : Type 0
UpdateFeeSetsValidFee =
    Unwrapped (do s ← as_admin setup (ExecuteMsg.update_fee 100); query_config s)
      (λ c. (c.fee_bps ≡ 100))

abbrev UpdateFeeRejectsOver5Percent : Type 0
UpdateFeeRejectsOver5Percent =
    as_admin setup (ExecuteMsg.update_fee 501) ≡ err StdError.fee_too_high

abbrev UpdateFeeAcceptsBoundary : Type 0
UpdateFeeAcceptsBoundary =
    Unwrapped (do s ← as_admin setup (ExecuteMsg.update_fee 500); query_config s)
      (λ c. (c.fee_bps ≡ 500))

abbrev NonAdminCannotPause : Type 0
NonAdminCannotPause = call setup (mock_info user []) ExecuteMsg.pause ≡ err StdError.unauthorized

abbrev NonAdminCannotUnpause : Type 0
NonAdminCannotUnpause =
    call setup (mock_info user []) ExecuteMsg.unpause ≡ err StdError.unauthorized

abbrev NonAdminCannotUpdateFee : Type 0
NonAdminCannotUpdateFee =
    call setup (mock_info user []) (ExecuteMsg.update_fee 10) ≡ err StdError.unauthorized

abbrev NonAdminCannotUpdateSigners : Type 0
NonAdminCannotUpdateSigners =
    call setup (mock_info user []) (ExecuteMsg.update_signers (codes "cccc" ∷ []) 1)
    ≡ err StdError.unauthorized

abbrev NonAdminCannotRegisterToken : Type 0
NonAdminCannotRegisterToken =
    call setup (mock_info user []) (ExecuteMsg.register_token (codes "uknt") true 1000000)
    ≡ err StdError.unauthorized

admin_pass :
    AdminCanPauseAndUnpause × UpdateFeeSetsValidFee × UpdateFeeRejectsOver5Percent
    × UpdateFeeAcceptsBoundary
unfolding Contract.instantiate Contract.execute Contract.dispatch Contract.query Contract.authorize
    Contract.lock_and_bridge Contract.mint_bridged Contract.burn_bridged Contract.as_admin
    Contract.register_token Contract.update_signers Contract.update_fee Contract.pause
    Contract.unpause Contract.build_mint_message check_daily_limit contains bytes_eq to_le_bytes
admin_pass = ((refl, refl), refl, refl, refl)

non_admin_pass :
    NonAdminCannotPause × NonAdminCannotUnpause × NonAdminCannotUpdateFee
    × NonAdminCannotUpdateSigners × NonAdminCannotRegisterToken
unfolding Contract.instantiate Contract.execute Contract.dispatch Contract.query Contract.authorize
    Contract.lock_and_bridge Contract.mint_bridged Contract.burn_bridged Contract.as_admin
    Contract.register_token Contract.update_signers Contract.update_fee Contract.pause
    Contract.unpause Contract.build_mint_message check_daily_limit contains bytes_eq to_le_bytes
non_admin_pass = (refl, refl, refl, refl, refl)
