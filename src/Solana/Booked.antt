-- ===== src/Solana/Booked.antt =====
-- What `check_daily_limit` of state/token_config.rs makes of a token's counter, written out.
use kinet_std.Shared.{ℕ, ◌+◌, ◌≤◌, ◌<◌, ◌^◌, ◌≡◌, some, ok, arith, leb, Bool-cases, inl, inr}
use kinet_std.Shared.Int.{ℤ, pos, ◌+ℤ◌, ◌≤ℤ◌, ◌<ℤ◌, add_i64, leb_ℤ}
use kinet_std.Solana.State.{TokenConfig, check_daily_limit}

-- How an amount is booked: not at all where the token has no limit; on what its period has used,
-- while that runs; or alone in a new period, once 86400 seconds are over.
pub data Booked (c : TokenConfig) (amount : ℕ) (now : ℤ) (d : TokenConfig) : Type 0 where
  unlimited : c.daily_mint_limit ≡ 0 → d ≡ c → Booked c amount now d
  same_period :
      0 < c.daily_mint_limit
      → add_i64 c.period_start (pos 86400) ≡ some (c.period_start +ℤ pos 86400)
      → now <ℤ c.period_start +ℤ pos 86400
      → c.daily_minted + amount < 2 ^ 64
      → c.daily_minted + amount ≤ c.daily_mint_limit
      → d ≡ record c { daily_minted = c.daily_minted + amount }
      → Booked c amount now d
  new_period :
      0 < c.daily_mint_limit
      → add_i64 c.period_start (pos 86400) ≡ some (c.period_start +ℤ pos 86400)
      → c.period_start +ℤ pos 86400 ≤ℤ now
      → amount < 2 ^ 64
      → amount ≤ c.daily_mint_limit
      → d ≡ record c { daily_minted = amount; period_start = now }
      → Booked c amount now d

module _ (c : TokenConfig) (amount : ℕ) (now : ℤ) (d : TokenConfig) where
  pub check_daily_limit-Booked : check_daily_limit c amount now ≡ ok d → Booked c amount now d
  unfolding check_daily_limit add_i64
  check_daily_limit-Booked h = elim (Bool-cases (leb 1 c.daily_mint_limit)) [
    | inr free ↦ unlimited (ground arith) (ground arith)
    | inl limited ↦ elim (Bool-cases (leb_ℤ (c.period_start +ℤ pos 86400) now)) [
      | inl over ↦
          new_period (ground arith) (ground arith) (ground arith) (ground arith) (ground arith)
            (ground arith)
      | inr running ↦
          same_period (ground arith) (ground arith) (ground arith) (ground arith) (ground arith)
            (ground arith)
    ]
  ]

  pub Booked-check_daily_limit : Booked c amount now d → check_daily_limit c amount now ≡ ok d
  unfolding check_daily_limit
  Booked-check_daily_limit (unlimited free same) = ground arith
  Booked-check_daily_limit (same_period positive fits running word within same) = ground arith
  Booked-check_daily_limit (new_period positive fits over word within same) = ground arith
