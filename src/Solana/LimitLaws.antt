-- ===== src/Solana/LimitLaws.antt =====
-- The daily limit of a token of the Solana bridge is a quota: see Spec/Quota.
use kinet_std.Shared.{
  ℕ, ◌+◌, ◌≤◌, ◌<◌, ◌≡◌, ◌⊎◌, inl, inr, Option, some, List, arith, Bool-cases, succeeded,
}
use kinet_std.Shared.Int.{ℤ, pos, ◌+ℤ◌, leb_ℤ, add_i64}
use kinet_std.Spec.Quota.{Meter, Continues, Restarts, Quota, Within, charged, charged-day}
use kinet_std.Solana.State.{TokenConfig, check_daily_limit}

abbrev pub meter : Meter TokenConfig
meter = record {
  limit = λ c. c.daily_mint_limit;
  used = λ c. c.daily_minted;
  since = λ c. c.period_start;
}

-- The check as a step of the counter; a call that fails changes nothing.
unfoldable pub limit_step : TokenConfig → ℤ → ℕ → Option TokenConfig
limit_step c now amount = succeeded (check_daily_limit c amount now)

-- Every time will do: the end of a period that leaves i64 panics.
abbrev pub AnyTime : ℤ → Type 0
AnyTime t = Unit

limit_step-admits :
    (s : TokenConfig) (now : ℤ) (amount : ℕ) (t : TokenConfig)
    → 0 < s.daily_mint_limit
    → limit_step s now amount ≡ some t
    → Continues meter s now amount t ⊎ Restarts meter s now amount t
unfolding limit_step check_daily_limit add_i64
limit_step-admits s now amount t positive went =
    elim (Bool-cases (leb_ℤ (s.period_start +ℤ pos 86400) now)) [
      | inl over ↦ inr (ground arith)
      | inr running ↦ inl (ground arith)
    ]

pub limit_quota : Quota meter limit_step AnyTime
limit_quota = record {
  admits = λ s now amount t positive old new went. limit_step-admits s now amount t positive went;
}

-- Mints of a token of the Solana bridge that all stand within 86400 seconds add up to at most twice
-- its daily limit, less what its period had used already. The limit is not 0, and the period has
-- not used more than the limit.
pub solana_minted_per_day :
    (c : TokenConfig) (from : ℤ) (calls : List (ℤ × ℕ))
    → 0 < c.daily_mint_limit
    → c.daily_minted ≤ c.daily_mint_limit
    → Within AnyTime from calls
    → c.daily_minted + charged limit_step c calls ≤ c.daily_mint_limit + c.daily_mint_limit
solana_minted_per_day c from calls positive fits within =
    charged-day limit_quota c from calls positive fits tt within
