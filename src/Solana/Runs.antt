-- ===== src/Solana/Runs.antt =====
-- Runs of the Solana bridge at concrete inputs: the set of used transfers, and the daily limit.
use kinet_std.Shared.{
  ℕ, ◌+◌, ◌≤◌, ◌≡◌, refl, some, List, [], ◌∷◌, arith, bytes_eq, bytes_eq_sound, Bool-cases, inl,
  inr,
}
use kinet_std.Shared.Int.{ℤ, pos, ◌+ℤ◌, add_i64}
use kinet_std.Spec.Replay.{accepted}
use kinet_std.Spec.Run.{ended, logged, sum_of}
use kinet_std.Spec.Spending.{Spends}
use kinet_std.Spec.Quota.{charged}
use kinet_std.Spec.Allowance.{charge}
use kinet_std.Solana.State.{TokenConfig}
use kinet_std.Solana.Samples
use kinet_std.Solana.Replay
use kinet_std.Solana.Spending
use kinet_std.Solana.LimitLaws
use kinet_std.Solana.Allowance
use kinet_std.Solana.Metered
use kinet_std.Solana.Tests.{transactions}

solana_run-Spends_example :
    Spends
      (Replay.processed Samples.accounts)
      (accepted
        (Replay.step Samples.addresses)
        Replay.transaction_key
        Samples.accounts
        transactions)
      (Replay.processed (ended (Replay.step Samples.addresses) Samples.accounts transactions))
solana_run-Spends_example =
    Spending.solana_run-Spends Samples.addresses Samples.accounts transactions
      Samples.accounts-IsTracker

-- A period that began at second 90000 and has used 700 of 1000; 500 more do not fit, 200 do.
abbrev running : TokenConfig
running = record Samples.token { daily_minted = 700; period_start = pos 90000 }

abbrev mints : List (ℤ × ℕ)
mints = (pos 90001, 500) ∷ (pos 90002, 200) ∷ []

solana_limit-Verdict_example :
    Allowance.Verdict
      (ended (charge LimitLaws.meter LimitLaws.limit_step) running mints)
      (700 + charged LimitLaws.limit_step running mints)
      1000
      100
      (pos 90003)
unfolding ◌+ℤ◌ add_i64
solana_limit-Verdict_example =
    Allowance.solana_limit-Verdict running 100 (pos 90003) mints (omega arith) (omega arith) refl
      (omega arith) (omega arith)

samples-IsKeyed : Metered.IsKeyed Samples.accounts
samples-IsKeyed m t found = elim (Bool-cases (bytes_eq (Samples.key 3) m)) [
  | inl same ↦
      let token_is : Samples.token ≡ t = ground arith in
      rw (← token_is) (bytes_eq_sound (Samples.key 3) m same)
  | inr other ↦ absurd (ground arith)
]

found : Samples.accounts.tokens (Samples.key 3) ≡ some Samples.token
unfolding bytes_eq
found = refl

solana_run-minted_per_day_example :
    0
      + sum_of
          (Metered.minted_of (Samples.key 3))
          (logged (Metered.event_step Samples.addresses) Samples.accounts transactions)
    ≤ 1000 + 1000
unfolding ◌+ℤ◌
solana_run-minted_per_day_example =
    Metered.solana_run-minted_per_day Samples.addresses (Samples.key 3) Samples.accounts
      Samples.token (pos 90000) transactions samples-IsKeyed found (omega arith) (omega arith)
      (omega arith)
