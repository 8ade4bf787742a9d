-- ===== src/Cosmos/LimitLaws.antt =====
-- The daily limit of the CosmWasm bridge is a quota: see Spec/Quota.
use kinet_std.Shared.{
  ℕ, ◌+◌, ◌^◌, ◌≤◌, ◌<◌, ◌≡◌, ◌⊎◌, inl, inr, Option, some, none, List, arith, Bool-cases, succeeded,
  leb,
}
use kinet_std.Shared.Int.{ℤ, pos, negsuc, ◌+ℤ◌}
use kinet_std.Spec.Quota.{Meter, Continues, Restarts, Quota, Within, charged, charged-day}
use kinet_std.Cosmos.State.{TokenConfig, Runtime, wrap_u64}
use kinet_std.Cosmos.Limit.{check_daily_limit}

abbrev pub meter : Meter TokenConfig
meter = record {
  limit = λ c. c.daily_mint_limit;
  used = λ c. c.daily_minted;
  since = λ c. pos c.period_start;
}

-- A u64 clock that is not within a day of its end.
abbrev pub Timely : ℤ → Type 0
Timely (pos n) = n + 86400 < 2 ^ 64
Timely (negsuc n) = ⊥

-- The check as a step of the counter; a call that fails changes nothing.
unfoldable pub limit_step : Runtime → TokenConfig → ℤ → ℕ → Option TokenConfig
limit_step rt c (pos now) amount = succeeded (check_daily_limit rt c amount now)
limit_step rt c (negsuc n) amount = none

limit_step-admits :
    (rt : Runtime) (s : TokenConfig) (now : ℤ) (amount : ℕ) (t : TokenConfig)
    → 0 < s.daily_mint_limit
    → Timely (pos s.period_start)
    → Timely now
    → limit_step rt s now amount ≡ some t
    → Continues meter s now amount t ⊎ Restarts meter s now amount t
unfolding limit_step check_daily_limit ◌+ℤ◌
limit_step-admits rt s (pos now) amount t positive early timely went =
    elim (Bool-cases (leb (wrap_u64 (s.period_start + 86400)) now)) [
      | inl over ↦ inr (ground (arith, rt.add_law 0 amount))
      | inr running ↦ inl (ground (arith, rt.add_law s.daily_minted amount))
    ]
limit_step-admits rt s (negsuc n) amount t positive early timely went = cc

pub limit_quota : (rt : Runtime) → Quota meter (limit_step rt) Timely
limit_quota rt = record { admits = limit_step-admits rt }

-- Mints of a token of the CosmWasm bridge that all stand within 86400 seconds add up to at most
-- twice its daily limit, less what its period had used already. The limit is not 0, the period has
-- not used more than the limit, and the clock is a day or more from the end of u64.
pub cosmos_minted_per_day :
    (rt : Runtime) (c : TokenConfig) (from : ℤ) (calls : List (ℤ × ℕ))
    → 0 < c.daily_mint_limit
    → c.daily_minted ≤ c.daily_mint_limit
    → Timely (pos c.period_start)
    → Within Timely from calls
    → c.daily_minted + charged (limit_step rt) c calls ≤ c.daily_mint_limit + c.daily_mint_limit
cosmos_minted_per_day rt c from calls positive fits early within =
    charged-day (limit_quota rt) c from calls positive fits early within
