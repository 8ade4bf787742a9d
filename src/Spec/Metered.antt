-- ===== src/Spec/Metered.antt =====
-- A daily quota inside a whole contract: a run's calls charge the counter of one token or leave it.
use kinet_std.Shared.{
  ℕ, ◌+◌, ◌≤◌, ◌<◌, ◌≡◌, ◌⊎◌, inl, inr, refl, Option, some, List, [], ◌∷◌, All, Option-cases, arith,
}
use kinet_std.Shared.Int.{ℤ, ◌+ℤ◌, ◌≤ℤ◌, ◌<ℤ◌}
use kinet_std.Spec.Run.{logged, sum_of, sum_of-append}
use kinet_std.Spec.Quota.{Meter, Quota, charged, charged-day, charged-went, day, Within}

module _ {State Call E T : Type 0} (step : State → Call → Option (State × List E))
    (token : State → Option T) (charge : T → ℤ → ℕ → Option T) (time : Call → ℤ) (weight : E → ℕ)
    (Valid : State → Type 0) (Allowed : Call → Type 0) where
  -- What a call does to the counter `x`: nothing, and it logs nothing of the token, or it charges
  -- what it logs at its time.
  abbrev pub Charges : T → Call → State → List E → Type 0
  Charges x c t es =
      ((token t ≡ some x) × (sum_of weight es ≡ 0))
      ⊎ ((y : T) × (token t ≡ some y) × (charge x (time c) (sum_of weight es) ≡ some y))

  -- On valid states, which calls keep valid, and for the allowed calls.
  pub record Metered : Type 0 where
    pub stays :
        (s : State) (c : Call) (t : State) (es : List E)
        → Valid s
        → step s c ≡ some (t, es)
        → Valid t
    pub charges :
        (s : State) (c : Call) (t : State) (es : List E) (x : T)
        → Valid s
        → Allowed c
        → step s c ≡ some (t, es)
        → token s ≡ some x
        → Charges x c t es

-- The calls of a run stand within the day from `from`.
abbrev pub WithinDay : {Call : Type 0} → (Call → ℤ) → (ℤ → Type 0) → ℤ → List Call → Type 0
WithinDay time Timely from = All (λ c. Timely (time c) × (from ≤ℤ time c) × (time c <ℤ from +ℤ day))

module _ {State Call E T : Type 0} {step : State → Call → Option (State × List E)}
    {token : State → Option T} {charge : T → ℤ → ℕ → Option T} {time : Call → ℤ} {weight : E → ℕ}
    {Valid : State → Type 0} {Allowed : Call → Type 0}
    (metered : Metered step token charge time weight Valid Allowed) where
  -- The charges of a run, which are what it logs of the token.
  run-charged :
      (Timely : ℤ → Type 0) (from : ℤ) (s : State) (cs : List Call) (x : T)
      → Valid s
      → token s ≡ some x
      → All Allowed cs
      → WithinDay time Timely from cs
      → (calls : List (ℤ × ℕ)) × (charged charge x calls ≡ sum_of weight (logged step s cs))
        × Within Timely from calls
  unfolding logged sum_of
  run-charged Timely from s [] x v here w h = ([], unfold charged in refl, tt)
  run-charged Timely from s (c ∷ cs) x v here (w, ws) (h, hs) = elim (Option-cases (step s c)) [
    | inl failed ↦ rw (failed, logged) (run-charged Timely from s cs x v here ws hs)
    | inr ((t, es), went) ↦
        let v' = metered.stays s c t es v went in
        rw (went, logged)
          (elim (metered.charges s c t es x v w went here) [
            | inl (same, quiet) ↦
                let (calls, total, within) = run-charged Timely from t cs x v' same ws hs in
                (
                  calls,
                  omega (arith, total, quiet, sum_of-append weight es (logged step t cs)),
                  within,
                )
            | inr (y, there, charge_y) ↦
                let (calls, total, within) = run-charged Timely from t cs y v' there ws hs in
                (
                  (time c, sum_of weight es) ∷ calls,
                  omega (
                    arith,
                    charged-went charge x (time c) (sum_of weight es) calls y charge_y,
                    total,
                    sum_of-append weight es (logged step t cs),
                  ),
                  (h, within),
                )
          ])
  ]

  -- What a run within one day logs of the token is at most twice the limit, less what the period
  -- had used already.
  pub run-day :
      (meter : Meter T) (Timely : ℤ → Type 0)
      → Quota meter charge Timely
      → (from : ℤ) (s : State) (cs : List Call) (x : T) → Valid s
      → token s ≡ some x
      → 0 < meter.limit x
      → meter.used x ≤ meter.limit x
      → Timely (meter.since x)
      → All Allowed cs
      → WithinDay time Timely from cs
      → meter.used x + sum_of weight (logged step s cs) ≤ meter.limit x + meter.limit x
  run-day meter Timely quota from s cs x v here positive fits early w h =
      let (calls, total, within) = run-charged Timely from s cs x v here w h in
      omega (arith, total, charged-day quota x from calls positive fits early within)
