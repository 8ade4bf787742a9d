-- ===== src/Spec/Run.antt =====
-- Runs of a contract: calls one after the other, where a call that fails changes nothing and one
-- that goes through adds its events to the log.
use kinet_std.Shared.{
  ℕ, ◌+◌, ◌≡◌, Option, none, some, List, [], ◌∷◌, ◌++◌, All, Option-cases, inl, inr, arith,
}

-- The sum of what the entries of a log weigh.
unfoldable pub sum_of {ℓ} : {E : Type ℓ} → (E → ℕ) → List E → ℕ
sum_of weight [] = 0
sum_of weight (e ∷ es) = weight e + sum_of weight es

pub sum_of-append {ℓ} :
    {E : Type ℓ} (weight : E → ℕ) (es fs : List E)
    → sum_of weight (es ++ fs) ≡ sum_of weight es + sum_of weight fs
unfolding sum_of
sum_of-append weight [] fs = omega arith
sum_of-append weight (e ∷ es) fs = omega (arith, sum_of-append weight es fs)

module _ {State Call : Type 0} (step : State → Call → Option State) where
  -- Where a run of a step that logs nothing ends; a call that fails changes nothing.
  unfoldable pub ended : State → List Call → State
  ended s [] = s
  ended s (c ∷ cs) = elim (step s c) [ none ↦ ended s cs | some t ↦ ended t cs ]

  -- What every call of a kind keeps, every such run keeps.
  pub ended_inv_of {κ μ} :
      (P : State → Type κ) (Q : Call → Type μ)
      → ((s : State) (c : Call) (t : State) → Q c → step s c ≡ some t → P s → P t)
      → (s : State) (cs : List Call) → All Q cs
      → P s
      → P (ended s cs)
  unfolding ended
  ended_inv_of P Q keep s [] q p = p
  ended_inv_of P Q keep s (c ∷ cs) q p = elim (Option-cases (step s c)) [
    | inl failed ↦ rw (failed, ended) (ended_inv_of P Q keep s cs q.1 p)
    | inr (t, went) ↦ rw (went, ended) (ended_inv_of P Q keep t cs q.1 (keep s c t q.0 went p))
  ]

module _ {State Call E : Type 0} (step : State → Call → Option (State × List E)) where
  unfoldable pub final : State → List Call → State
  final s [] = s
  final s (c ∷ cs) = elim (step s c) [ none ↦ final s cs | some (t, es) ↦ final t cs ]

  unfoldable pub logged : State → List Call → List E
  logged s [] = []
  logged s (c ∷ cs) = elim (step s c) [ none ↦ logged s cs | some (t, es) ↦ es ++ logged t cs ]

  -- What every call keeps, every run keeps.
  pub final_inv {κ} :
      (P : State → Type κ)
      → ((s : State) (c : Call) (t : State) (es : List E) → step s c ≡ some (t, es) → P s → P t)
      → (s : State) (cs : List Call) → P s
      → P (final s cs)
  unfolding final
  final_inv P keep s [] p = p
  final_inv P keep s (c ∷ cs) p = elim (Option-cases (step s c)) [
    | inl failed ↦ rw (failed, final) (final_inv P keep s cs p)
    | inr ((t, es), went) ↦ rw (went, final) (final_inv P keep t cs (keep s c t es went p))
  ]

  -- What every call of a kind keeps, every run of such calls keeps.
  pub final_inv_of {κ μ} :
      (P : State → Type κ) (Q : Call → Type μ)
      → ((s : State) (c : Call) (t : State) (es : List E)
          → Q c
          → step s c ≡ some (t, es)
          → P s
          → P t)
      → (s : State) (cs : List Call) → All Q cs
      → P s
      → P (final s cs)
  unfolding final
  final_inv_of P Q keep s [] q p = p
  final_inv_of P Q keep s (c ∷ cs) q p = elim (Option-cases (step s c)) [
    | inl failed ↦ rw (failed, final) (final_inv_of P Q keep s cs q.1 p)
    | inr ((t, es), went) ↦
        rw (went, final) (final_inv_of P Q keep t cs q.1 (keep s c t es q.0 went p))
  ]

  -- A total that every call raises by what its events weigh is, after a run, the total before it
  -- and the sum over the log.
  pub final-total :
      (total : State → ℕ) (weight : E → ℕ)
      → ((s : State) (c : Call) (t : State) (es : List E)
          → step s c ≡ some (t, es)
          → total t ≡ total s + sum_of weight es)
      → (s : State) (cs : List Call) → total (final s cs) ≡ total s + sum_of weight (logged s cs)
  unfolding final logged
  final-total total weight books s [] = unfold sum_of in omega arith
  final-total total weight books s (c ∷ cs) = elim (Option-cases (step s c)) [
    | inl failed ↦ rw (failed, final, logged) (final-total total weight books s cs)
    | inr ((t, es), went) ↦
        rw (went, final, logged)
          (omega (
            arith,
            books s c t es went,
            final-total total weight books t cs,
            sum_of-append weight es (logged t cs),
          ))
  ]
