-- ===== src/Solana/Allowance.antt =====
-- What the daily limit of a token of the Solana bridge leaves, and the errors of `check_daily_limit`.
use kinet_std.Shared.{ℕ, ◌+◌, ◌≤◌, ◌<◌, ◌^◌, ◌≡◌, ◌↔◌, some, List, ok, err, arith}
use kinet_std.Shared.Int.{ℤ, ◌+ℤ◌, ◌<ℤ◌, add_i64}
use kinet_std.Spec.Run.{ended}
use kinet_std.Spec.Quota.{charged, day}
use kinet_std.Spec.Allowance.{BeforeEnd, charge, ended-Spent}
use kinet_std.Solana.State.{TokenConfig, check_daily_limit, Fault}
use kinet_std.Solana.LimitLaws.{AnyTime, limit_quota, limit_step, meter}

-- How the check of an amount ends when `spent` of the limit is.
pub record Verdict (c : TokenConfig) (spent limit amount : ℕ) (now : ℤ) : Type 0 where
  pub passes :
      (check_daily_limit c amount now ≡ ok (record c { daily_minted = spent + amount }))
      ↔ ((spent + amount < 2 ^ 64) × (spent + amount ≤ limit))
  pub exceeds :
      (check_daily_limit c amount now ≡ err Fault.daily_mint_limit_exceeded)
      ↔ ((spent + amount < 2 ^ 64) × (limit < spent + amount))
  pub overflows : (check_daily_limit c amount now ≡ err Fault.overflow) ↔ (2 ^ 64 ≤ spent + amount)

module _ (c : TokenConfig) (spent limit amount : ℕ) (now : ℤ) (used : c.daily_minted ≡ spent)
    (limited : c.daily_mint_limit ≡ limit) (positive : 0 < limit)
    (running : now <ℤ c.period_start +ℤ day)
    (in_range : add_i64 c.period_start day ≡ some (c.period_start +ℤ day)) where
  check_daily_limit-Verdict : Verdict c spent limit amount now
  unfolding check_daily_limit
  check_daily_limit-Verdict = record {
    passes = ground arith;
    exceeds = ground arith;
    overflows = ground arith;
  }

module _ (c : TokenConfig) (amount : ℕ) (now : ℤ) where
  -- Let the limit of a token of the Solana bridge be more than 0 and what its period has used within
  -- it, and let the end of the period fit an i64. After any calls of `check_daily_limit` before that
  -- end, the next call before it passes, with the counter up to date, exactly when what was used and
  -- all the amounts that passed leave room for its own; it fails with `daily_mint_limit_exceeded`
  -- exactly when they do not, and with `overflow` exactly when the sum leaves u64.
  pub solana_limit-Verdict :
      (calls : List (ℤ × ℕ))
      → 0 < c.daily_mint_limit
      → c.daily_minted ≤ c.daily_mint_limit
      → add_i64 c.period_start day ≡ some (c.period_start +ℤ day)
      → BeforeEnd meter limit_step AnyTime c.period_start calls
      → now <ℤ c.period_start +ℤ day
      → Verdict
          (ended (charge meter limit_step) c calls)
          (c.daily_minted + charged limit_step c calls)
          c.daily_mint_limit
          amount
          now
  solana_limit-Verdict calls positive fits in_range before running =
      let t = ended (charge meter limit_step) c calls in
      let s = ended-Spent limit_quota c calls positive fits tt before in
      check_daily_limit-Verdict t (c.daily_minted + charged limit_step c calls) c.daily_mint_limit
        amount now s.spent s.same_limit positive (rw s.same_period running)
        (rw s.same_period in_range)
