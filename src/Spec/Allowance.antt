-- ===== src/Spec/Allowance.antt =====
-- A daily quota within one period: what is left of it, and that it is not refused.
use kinet_std.Shared.{
  ℕ, ◌+◌, ◌≤◌, ◌<◌, ◌≡◌, refl, ◌∙◌, inl, inr, Option, List, [], ◌∷◌, All, Option-cases, arith,
}
use kinet_std.Shared.Int.{ℤ, ◌+ℤ◌, ◌<ℤ◌, int_laws}
use kinet_std.Spec.Run.{ended}
use kinet_std.Spec.Quota.{Meter, Quota, charged, charged-refused, charged-went, day}

module _ {S : Type 0} (meter : Meter S) (step : S → ℤ → ℕ → Option S) where
  open meter use {limit, used, since}

  -- Charges made one after the other, as a run.
  abbrev pub charge : S → ℤ × ℕ → Option S
  charge s c = step s c.0 c.1

  -- All calls stand before the end of the period.
  abbrev pub BeforeEnd : (ℤ → Type 0) → ℤ → List (ℤ × ℕ) → Type 0
  BeforeEnd Timely from = All (λ c. Timely c.0 × (c.0 <ℤ from +ℤ day))

  -- What a run has spent, in the same period and under the same limit.
  pub record Spent (s : S) (calls : List (ℤ × ℕ)) (t : S) : Type 0 where
    pub spent : used t ≡ used s + charged step s calls
    pub within : used t ≤ limit s
    pub same_limit : limit t ≡ limit s
    pub same_period : since t ≡ since s

module _ {S : Type 0} {meter : Meter S} {step : S → ℤ → ℕ → Option S} {Timely : ℤ → Type 0}
    (quota : Quota meter step Timely) where
  open meter use {limit, used, since}

  pub ended-Spent :
      (s : S) (calls : List (ℤ × ℕ))
      → 0 < limit s
      → used s ≤ limit s
      → Timely (since s)
      → BeforeEnd meter step Timely (since s) calls
      → Spent meter step s calls (ended (charge meter step) s calls)
  unfolding ended charged
  ended-Spent s [] positive fits early before = record {
    spent = omega arith;
    within = fits;
    same_limit = refl;
    same_period = refl;
  }
  ended-Spent s ((now, amount) ∷ calls) positive fits early (h, hs) =
      elim (Option-cases (step s now amount)) [
        | inl refused ↦
            let rest = ended-Spent s calls positive fits early hs in
            rw (refused, ended)
              (record {
                spent = omega (arith, rest.spent, charged-refused step s now amount calls refused);
                within = rest.within;
                same_limit = rest.same_limit;
                same_period = rest.same_period;
              })
        | inr (t, went) ↦ elim (quota.admits s now amount t positive early h.0 went) [
          | inl c ↦
              let rest =
                ended-Spent t calls (omega (arith, c.same_limit))
                  (omega (arith, c.within, c.same_limit)) (rw c.same_period early)
                  (rw c.same_period hs) in
              rw (went, ended)
                (record {
                  spent =
                      omega
                        (arith, c.added, rest.spent, charged-went step s now amount calls t went);
                  within = omega (arith, c.same_limit, rest.within);
                  same_limit = rest.same_limit ∙ c.same_limit;
                  same_period = rest.same_period ∙ c.same_period;
                })
          | inr r ↦ absurd (omega (int_laws, r.over, h.1))
        ]
      ]
