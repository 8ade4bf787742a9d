-- ===== src/Cosmos/Booked.antt =====
-- What `check_daily_limit` of contract.rs makes of a token's counter, written out.
use kinet_std.Shared.{ℕ, ◌+◌, ◌%◌, ◌^◌, ◌≤◌, ◌<◌, ◌≡◌, ok, arith, leb, Bool-cases, inl, inr}
use kinet_std.Cosmos.State.{TokenConfig, Runtime, wrap_u64}
use kinet_std.Cosmos.Limit.{check_daily_limit}

-- How an amount is booked: not at all where the token has no limit; on what its period has used,
-- while that runs; or alone in a new period, once 86400 seconds are over. The end of a period is a
-- u64 that wraps.
pub data Booked (c : TokenConfig) (amount now : ℕ) (d : TokenConfig) : Type 0 where
  unlimited : c.daily_mint_limit ≡ 0 → d ≡ c → Booked c amount now d
  same_period :
      0 < c.daily_mint_limit
      → now < (c.period_start + 86400) % 2 ^ 64
      → c.daily_minted + amount < 2 ^ 128
      → c.daily_minted + amount ≤ c.daily_mint_limit
      → d ≡ record c { daily_minted = c.daily_minted + amount }
      → Booked c amount now d
  new_period :
      0 < c.daily_mint_limit
      → (c.period_start + 86400) % 2 ^ 64 ≤ now
      → amount < 2 ^ 128
      → amount ≤ c.daily_mint_limit
      → d ≡ record c { daily_minted = amount; period_start = now }
      → Booked c amount now d

module _ (rt : Runtime) (c : TokenConfig) (amount now : ℕ) (d : TokenConfig) where
  pub check_daily_limit-Booked : check_daily_limit rt c amount now ≡ ok d → Booked c amount now d
  unfolding check_daily_limit
  check_daily_limit-Booked h =
      let old = rt.add_law c.daily_minted amount in
      let new = rt.add_law 0 amount in
      elim (Bool-cases (leb 1 c.daily_mint_limit)) [
        | inr free ↦ unlimited (ground arith) (ground arith)
        | inl limited ↦ elim (Bool-cases (leb (wrap_u64 (c.period_start + 86400)) now)) [
          | inl over ↦
              new_period (ground arith) (ground arith) (ground arith) (ground arith) (ground arith)
          | inr running ↦
              same_period (ground arith) (ground arith) (ground arith) (ground arith) (ground arith)
        ]
      ]

  pub Booked-check_daily_limit : Booked c amount now d → check_daily_limit rt c amount now ≡ ok d
  unfolding check_daily_limit
  Booked-check_daily_limit (unlimited free same) = ground arith
  Booked-check_daily_limit (same_period positive running word within same) =
      ground (arith, rt.add_law c.daily_minted amount)
  Booked-check_daily_limit (new_period positive over word within same) =
      ground (arith, rt.add_law 0 amount)
