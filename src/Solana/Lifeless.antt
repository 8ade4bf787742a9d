-- ===== src/Solana/Lifeless.antt =====
-- No instruction creates a nonce tracker, which every mint and release needs.
use kinet_std.Shared.{
  ℕ, ◌≡◌, refl, Option, some, none, List, [], ◌∷◌, Key, arith, Option-cases, inl, inr,
}
use kinet_std.Spec.Replay.{accepted, accepted-failed, accepted-went}
use kinet_std.Solana.Runtime.{Spl, Addresses, Accounts}
use kinet_std.Solana.Replay

abbrev pub NoTracker : {spl : Spl} → Accounts spl → Type 0
NoTracker a = (c : ℕ) → a.trackers c ≡ none

module _ {spl : Spl} (at : Addresses) where
  effect-NoTracker :
      (a b : Accounts spl) (o : Option Key)
      → NoTracker a
      → Replay.TrackerEffect a o b
      → (o ≡ none) × NoTracker b
  unfolding Replay.TrackerEffect
  effect-NoTracker a b none empty e = (refl, λ c. ground (arith, empty c))
  effect-NoTracker a b (some k) empty e = absurd (ground (arith, e.found, empty k.0))

  -- Where no nonce tracker exists, as on a new deployment of the Solana bridge, no sequence of its
  -- instructions makes a mint or a release go through.
  pub solana_nothing_accepted :
      (a : Accounts spl) (transactions : List (Replay.Transaction spl))
      → NoTracker a
      → accepted (Replay.step at) Replay.transaction_key a transactions ≡ []
  unfolding accepted
  solana_nothing_accepted a [] empty = refl
  solana_nothing_accepted a (x ∷ xs) empty = elim (Option-cases (Replay.step at a x)) [
    | inl failed ↦
        rw (accepted-failed (Replay.step at) Replay.transaction_key a x xs failed)
          (solana_nothing_accepted a xs empty)
    | inr (b, went) ↦
        let (other, still) =
          effect-NoTracker a b (Replay.transaction_key x) empty
            (Replay.step-TrackerEffect at a x b went) in
        rw (accepted-went (Replay.step at) Replay.transaction_key a x xs b went, other)
          (solana_nothing_accepted b xs still)
  ]
