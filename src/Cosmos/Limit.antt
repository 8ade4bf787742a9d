-- ===== src/Cosmos/Limit.antt =====
-- `check_daily_limit` of contract.rs.
use kinet_std.Shared.{
  ℕ, ◌+◌, ◌≡◌, Result, ok, ◌>>=◌, ◌>>◌, fail_if, ok_or, ltb, leb, ◌==◌, if◌then◌else◌,
}
use kinet_std.Cosmos.State.{
  TokenConfig, Runtime, StdError, overflow, daily_limit_exceeded, wrap_u64,
}

-- The reset of the period once a day has passed.
abbrev pub roll_period : TokenConfig → ℕ → TokenConfig
roll_period config now =
    if leb (wrap_u64 (config.period_start + 86400)) now
    then record config { daily_minted = 0; period_start = now }
    else config

unfoldable pub check_daily_limit : Runtime → TokenConfig → ℕ → ℕ → Result StdError TokenConfig
check_daily_limit rt config amount now = if config.daily_mint_limit == 0 then ok config else do
  let rolled = roll_period config now
  new_total ← ok_or (rt.add rolled.daily_minted amount) overflow
  fail_if (ltb rolled.daily_mint_limit new_total) daily_limit_exceeded
  ok (record rolled { daily_minted = new_total })

-- A token with no limit takes any amount, and its record stays as it is.
pub check_daily_limit-unlimited :
    (rt : Runtime) (c : TokenConfig) (amount now : ℕ)
    → c.daily_mint_limit ≡ 0
    → check_daily_limit rt c amount now ≡ ok c
unfolding check_daily_limit
check_daily_limit-unlimited rt c amount now h = rw h
