-- ===== src/Spec/Quota.antt =====
-- The daily mint limit as a contract promises it: a counter that starts anew on the first mint a
-- day or more after the period began. Times are integers, in seconds.
use kinet_std.Shared.{
  ℕ, ◌+◌, ◌≤◌, ◌<◌, ◌≡◌, ◌⊎◌, inl, inr, Option, some, none, List, [], ◌∷◌, All, Option-cases, arith,
}
use kinet_std.Shared.Int.{ℤ, pos, ◌+ℤ◌, ◌≤ℤ◌, ◌<ℤ◌, int_laws}

abbrev pub day : ℤ
day = pos 86400

-- What a counter shows: the limit, the amount of the current period, and when that began.
pub record Meter (S : Type 0) : Type 0 where
  pub limit : S → ℕ
  pub used : S → ℕ
  pub since : S → ℤ

module _ {S : Type 0} (meter : Meter S) where
  open meter use {limit, used, since}

  -- The amount was added to the current period, which is not over.
  pub record Continues (s : S) (now : ℤ) (amount : ℕ) (t : S) : Type 0 where
    pub running : now <ℤ since s +ℤ day
    pub added : used t ≡ used s + amount
    pub same_period : since t ≡ since s
    pub within : used t ≤ limit s
    pub same_limit : limit t ≡ limit s

  -- The amount opened a new period.
  pub record Restarts (s : S) (now : ℤ) (amount : ℕ) (t : S) : Type 0 where
    pub over : since s +ℤ day ≤ℤ now
    pub opened : used t ≡ amount
    pub new_period : since t ≡ now
    pub within : used t ≤ limit s
    pub same_limit : limit t ≡ limit s

-- The times for which a counter is exact; those of a 64-bit clock that does not overflow, say.
module _ {S : Type 0} (meter : Meter S) (step : S → ℤ → ℕ → Option S) (Timely : ℤ → Type 0) where
  pub record Quota : Type 0 where
    pub admits :
        (s : S) (now : ℤ) (amount : ℕ) (t : S)
        → 0 < meter.limit s
        → Timely (meter.since s)
        → Timely now
        → step s now amount ≡ some t
        → Continues meter s now amount t ⊎ Restarts meter s now amount t

module _ {S : Type 0} (step : S → ℤ → ℕ → Option S) where
  -- The sum of the amounts that go through, over calls made one after the other.
  unfoldable pub charged : S → List (ℤ × ℕ) → ℕ
  charged s [] = 0
  charged s ((now, amount) ∷ calls) = elim (step s now amount) [
    | none ↦ charged s calls
    | some t ↦ amount + charged t calls
  ]

  pub charged-refused :
      (s : S) (now : ℤ) (amount : ℕ) (calls : List (ℤ × ℕ))
      → step s now amount ≡ none
      → charged s ((now, amount) ∷ calls) ≡ charged s calls
  unfolding charged
  charged-refused s now amount calls e = rw (e, charged)

  pub charged-went :
      (s : S) (now : ℤ) (amount : ℕ) (calls : List (ℤ × ℕ)) (t : S)
      → step s now amount ≡ some t
      → charged s ((now, amount) ∷ calls) ≡ amount + charged t calls
  unfolding charged
  charged-went s now amount calls t e = rw (e, charged)

-- All calls stand between `from` and a day later.
abbrev pub Within : (ℤ → Type 0) → ℤ → List (ℤ × ℕ) → Type 0
Within Timely from = All (λ c. Timely c.0 × (from ≤ℤ c.0) × (c.0 <ℤ from +ℤ day))

module _ {S : Type 0} {meter : Meter S} {step : S → ℤ → ℕ → Option S} {Timely : ℤ → Type 0}
    (quota : Quota meter step Timely) where
  open meter use {limit, used, since}

  -- While the period runs, what goes through stays below what is left of the limit.
  charged-period :
      (s : S) (from : ℤ) (calls : List (ℤ × ℕ))
      → 0 < limit s
      → used s ≤ limit s
      → Timely (since s)
      → from ≤ℤ since s
      → Within Timely from calls
      → used s + charged step s calls ≤ limit s
  charged-period s from [] pos_limit fits timely old h = unfold charged in omega arith
  charged-period s from ((now, amount) ∷ calls) pos_limit fits timely old (h, hs) =
      elim (Option-cases (step s now amount)) [
        | inl refused ↦
            rw (charged-refused step s now amount calls refused)
              (charged-period s from calls pos_limit fits timely old hs)
        | inr (t, went) ↦ elim (quota.admits s now amount t pos_limit timely h.0 went) [
          | inl c ↦ omega (
            arith,
            c.added,
            c.same_limit,
            charged-went step s now amount calls t went,
            charged-period t from calls (omega (arith, c.same_limit))
                (omega (arith, c.within, c.same_limit)) (rw c.same_period timely)
                (rw c.same_period old) hs,
          )
          | inr r ↦ absurd (omega (int_laws, r.over, h.2, old))
        ]
      ]

  -- Over any run of calls that all stand within one day, what goes through is at most twice the
  -- limit; what the period had used before counts against it.
  pub charged-day :
      (s : S) (from : ℤ) (calls : List (ℤ × ℕ))
      → 0 < limit s
      → used s ≤ limit s
      → Timely (since s)
      → Within Timely from calls
      → used s + charged step s calls ≤ limit s + limit s
  charged-day s from [] pos_limit fits timely h = unfold charged in omega arith
  charged-day s from ((now, amount) ∷ calls) pos_limit fits timely (h, hs) =
      elim (Option-cases (step s now amount)) [
        | inl refused ↦
            rw (charged-refused step s now amount calls refused)
              (charged-day s from calls pos_limit fits timely hs)
        | inr (t, went) ↦ elim (quota.admits s now amount t pos_limit timely h.0 went) [
          | inl c ↦ omega (
            arith,
            c.added,
            c.same_limit,
            charged-went step s now amount calls t went,
            charged-day t from calls (omega (arith, c.same_limit))
                (omega (arith, c.within, c.same_limit)) (rw c.same_period timely) hs,
          )
          | inr r ↦ omega (
            arith,
            r.opened,
            r.same_limit,
            charged-went step s now amount calls t went,
            charged-period t from calls (omega (arith, r.same_limit))
                (omega (arith, r.within, r.same_limit)) (rw r.new_period h.0) (rw r.new_period h.1)
                hs,
          )
        ]
      ]
