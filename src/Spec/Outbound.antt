-- ===== src/Spec/Outbound.antt =====
-- Outbound sequencing as a contract promises it: every lock and burn reports a nonce, and the
-- nonces that a contract reports only grow.
use kinet_std.Shared.{
  ℕ, ◌≤◌, ◌<◌, ◌≡◌, Option, none, some, List, [], ◌∷◌, All, All-mono, Option-cases, inl, inr, arith,
}

-- A step returns the new state and the nonce that it reports, if it reports one. `next` is the
-- least nonce that is still free.
module _ {State Call : Type 0} (step : State → Call → Option (State × Option ℕ))
    (next : State → ℕ) where
  pub record Sequencer : Type 0 where
    pub reports :
        (s : State) (c : Call) (t : State) (n : ℕ)
        → step s c ≡ some (t, some n)
        → (next s ≤ n) × (n < next t)
    pub grows : (s : State) (c : Call) (t : State) → step s c ≡ some (t, none) → next s ≤ next t

abbrev pub Increasing : List ℕ → Type 0
Increasing [] = Unit
Increasing (n ∷ ns) = All (λ m. n < m) ns × Increasing ns

abbrev reported : Option ℕ → List ℕ → List ℕ
reported none ns = ns
reported (some n) ns = n ∷ ns

module _ {State Call : Type 0} (step : State → Call → Option (State × Option ℕ)) where
  -- The nonces that a sequence of calls reports; a call that fails changes nothing.
  unfoldable pub emitted : State → List Call → List ℕ
  emitted s [] = []
  emitted s (c ∷ cs) = elim (step s c) [
    | none ↦ emitted s cs
    | some (t, n) ↦ reported n (emitted t cs)
  ]

  emitted-failed :
      (s : State) (c : Call) (cs : List Call) → step s c ≡ none → emitted s (c ∷ cs) ≡ emitted s cs
  unfolding emitted
  emitted-failed s c cs e = rw (e, emitted)

  emitted-went :
      (s : State) (c : Call) (cs : List Call) (t : State) (n : Option ℕ)
      → step s c ≡ some (t, n)
      → emitted s (c ∷ cs) ≡ reported n (emitted t cs)
  unfolding emitted
  emitted-went s c cs t n e = rw (e, emitted)

module _ {State Call : Type 0} {step : State → Call → Option (State × Option ℕ)} {next : State → ℕ}
    (seq : Sequencer step next) where
  -- Every nonce that is reported from a state on was still free in it.
  emitted-free : (s : State) (cs : List Call) → All (λ n. next s ≤ n) (emitted step s cs)
  emitted-free s [] = unfold emitted in tt
  emitted-free s (c ∷ cs) = elim (Option-cases (step s c)) [
    | inl failed ↦ rw (emitted-failed step s c cs failed) (emitted-free s cs)
    | inr ((t, none), went) ↦ rw (emitted-went step s c cs t none went) (
        All-mono (λ n. next t ≤ n) (λ n. next s ≤ n) (emitted step t cs)
          (λ n h. omega (arith, seq.grows s c t went)) (emitted-free t cs))
    | inr ((t, some m), went) ↦ rw (emitted-went step s c cs t (some m) went) (
      (seq.reports s c t m went).0,
      All-mono (λ n. next t ≤ n) (λ n. next s ≤ n) (emitted step t cs)
          (λ n h. omega (arith, seq.reports s c t m went)) (emitted-free t cs),
    )
  ]

  -- Over any sequence of calls, from any state, the reported nonces grow strictly.
  pub emitted-Increasing : (s : State) (cs : List Call) → Increasing (emitted step s cs)
  emitted-Increasing s [] = unfold emitted in tt
  emitted-Increasing s (c ∷ cs) = elim (Option-cases (step s c)) [
    | inl failed ↦ rw (emitted-failed step s c cs failed) (emitted-Increasing s cs)
    | inr ((t, none), went) ↦ rw (emitted-went step s c cs t none went) (emitted-Increasing t cs)
    | inr ((t, some m), went) ↦ rw (emitted-went step s c cs t (some m) went) (
      All-mono (λ n. next t ≤ n) (λ n. m < n) (emitted step t cs)
          (λ n h. omega (arith, seq.reports s c t m went)) (emitted-free t cs),
      emitted-Increasing t cs,
    )
  ]
