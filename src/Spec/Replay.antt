-- ===== src/Spec/Replay.antt =====
-- Replay protection as a contract promises it. A contract is a step function on its state; a call
-- that fails leaves the state as it was, as the chains roll a failed transaction back.
use kinet_std.Shared.{
  ◌≡◌, ◌≢◌, Bool, true, false, Option, none, some, List, [], ◌∷◌, All, All-mono, Key, Option-cases,
  Bool-cases, inl, inr,
}

-- `key` is the (source chain, nonce) that an inbound call would consume, and `none` for any other.
module _ {State Call : Type 0} (step : State → Call → Option State) (key : Call → Option Key)
    (processed : State → Key → Bool) (Valid : State → Type 0) where
  -- On valid states, which calls keep valid: a consumed key was not processed before the call and
  -- is processed after it, and no call makes a processed key unprocessed.
  pub record ReplayGuard : Type 0 where
    pub stays : (s : State) (c : Call) (t : State) → Valid s → step s c ≡ some t → Valid t
    pub fresh :
        (s : State) (c : Call) (t : State) (k : Key)
        → Valid s
        → step s c ≡ some t
        → key c ≡ some k
        → processed s k ≡ false
    pub marked :
        (s : State) (c : Call) (t : State) (k : Key)
        → Valid s
        → step s c ≡ some t
        → key c ≡ some k
        → processed t k ≡ true
    pub kept :
        (s : State) (c : Call) (t : State) (k : Key)
        → Valid s
        → step s c ≡ some t
        → processed s k ≡ true
        → processed t k ≡ true

-- The keys of the inbound calls that went through, in order.
abbrev pub consumed : Option Key → List Key → List Key
consumed none ks = ks
consumed (some k) ks = k ∷ ks

-- No entry occurs twice.
abbrev pub Distinct : List Key → Type 0
Distinct [] = Unit
Distinct (k ∷ ks) = All (λ j. k ≢ j) ks × Distinct ks

module _ {State Call : Type 0} (step : State → Call → Option State) (key : Call → Option Key) where
  -- The keys that a sequence of calls consumes.
  unfoldable pub accepted : State → List Call → List Key
  accepted s [] = []
  accepted s (c ∷ cs) = elim (step s c) [
    | none ↦ accepted s cs
    | some t ↦ consumed (key c) (accepted t cs)
  ]

  pub accepted-failed :
      (s : State) (c : Call) (cs : List Call)
      → step s c ≡ none
      → accepted s (c ∷ cs) ≡ accepted s cs
  unfolding accepted
  accepted-failed s c cs e = rw (e, accepted)

  pub accepted-went :
      (s : State) (c : Call) (cs : List Call) (t : State)
      → step s c ≡ some t
      → accepted s (c ∷ cs) ≡ consumed (key c) (accepted t cs)
  unfolding accepted
  accepted-went s c cs t e = rw (e, accepted)

module _ {State Call : Type 0} {step : State → Call → Option State} {key : Call → Option Key}
    {processed : State → Key → Bool} {Valid : State → Type 0}
    (guard : ReplayGuard step key processed Valid) where
  -- What is processed already is never accepted again.
  accepted-skip_processed :
      (s : State) (cs : List Call) (k : Key)
      → Valid s
      → processed s k ≡ true
      → All (λ j. k ≢ j) (accepted step key s cs)
  accepted-skip_processed s [] k v h = unfold accepted in tt
  accepted-skip_processed s (c ∷ cs) k v h = elim (Option-cases (step s c)) [
    | inl failed ↦ rw (accepted-failed step key s c cs failed) (accepted-skip_processed s cs k v h)
    | inr (t, went) ↦
        let rest : All (λ j. k ≢ j) (accepted step key t cs) =
          accepted-skip_processed t cs k (guard.stays s c t v went) (guard.kept s c t k v went h) in
        rw (accepted-went step key s c cs t went) (elim (Option-cases (key c)) [
          | inl other ↦ rw other rest
          | inr (j, inbound) ↦ rw inbound (λ e. cc (guard.fresh s c t j v went inbound, e, h), rest)
        ])
  ]

  -- Over any sequence of calls, from any state, no inbound key is accepted twice.
  pub accepted-Distinct : (s : State) (cs : List Call) → Valid s → Distinct (accepted step key s cs)
  accepted-Distinct s [] v = unfold accepted in tt
  accepted-Distinct s (c ∷ cs) v = elim (Option-cases (step s c)) [
    | inl failed ↦ rw (accepted-failed step key s c cs failed) (accepted-Distinct s cs v)
    | inr (t, went) ↦ rw (accepted-went step key s c cs t went) (elim (Option-cases (key c)) [
      | inl other ↦ rw other (accepted-Distinct t cs (guard.stays s c t v went))
      | inr (j, inbound) ↦ rw inbound (
        accepted-skip_processed t cs j (guard.stays s c t v went)
            (guard.marked s c t j v went inbound),
        accepted-Distinct t cs (guard.stays s c t v went),
      )
    ])
  ]

  kept_false :
      (s : State) (c : Call) (t : State)
      → Valid s
      → step s c ≡ some t
      → (k : Key) → processed t k ≡ false
      → processed s k ≡ false
  kept_false s c t v went k h = elim (Bool-cases (processed s k)) [
    | inl old ↦ cc (guard.kept s c t k v went old, h)
    | inr new ↦ new
  ]

  -- And none of the accepted keys was processed before the first call.
  pub accepted-unprocessed :
      (s : State) (cs : List Call)
      → Valid s
      → All (λ k. processed s k ≡ false) (accepted step key s cs)
  accepted-unprocessed s [] v = unfold accepted in tt
  accepted-unprocessed s (c ∷ cs) v = elim (Option-cases (step s c)) [
    | inl failed ↦ rw (accepted-failed step key s c cs failed) (accepted-unprocessed s cs v)
    | inr (t, went) ↦
        let rest : All (λ k. processed s k ≡ false) (accepted step key t cs) =
          All-mono _ _ _ (kept_false s c t v went)
            (accepted-unprocessed t cs (guard.stays s c t v went)) in
        rw (accepted-went step key s c cs t went) (elim (Option-cases (key c)) [
          | inl other ↦ rw other rest
          | inr (j, inbound) ↦ rw inbound (guard.fresh s c t j v went inbound, rest)
        ])
  ]
