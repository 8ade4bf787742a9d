-- ===== src/Spec/Spending.antt =====
-- The set of used transfers as the bridges promise it: a transfer is used once, and nothing else
-- changes the set. A contract keeps it in a bitmap, a map or a set of texts, and refines this.
use kinet_std.Shared.{
  ◌≡◌, refl, Bool, false, ◌||◌, Option, none, some, List, [], ◌∷◌, Key, key_eq, Option-cases, ◌∙◌,
  inl, inr, arith,
}
use kinet_std.Spec.Run.{ended}
use kinet_std.Spec.Replay.{accepted, accepted-failed, accepted-went, consumed}

abbrev pub Used : Type 0
Used = Key → Bool

-- A call that uses no transfer leaves the set as it is; one that uses a transfer, which was not in
-- the set, adds just that.
pub data Spend : Used → Option Key → Used → Type 0 where
  nothing : {u v : Used} → ((j : Key) → v j ≡ u j) → Spend u none v
  one :
      {u v : Used} (k : Key)
      → u k ≡ false
      → ((j : Key) → v j ≡ key_eq k j || u j)
      → Spend u (some k) v

-- The transfers of a run, one after the other.
pub data Spends : Used → List Key → Used → Type 0 where
  done : {u v : Used} → ((j : Key) → v j ≡ u j) → Spends u [] v
  more :
      {u v w : Used} {ks : List Key} (k : Key)
      → u k ≡ false
      → ((j : Key) → v j ≡ key_eq k j || u j)
      → Spends v ks w
      → Spends u (k ∷ ks) w

-- Whether a key stands in a list.
abbrev pub among : List Key → Key → Bool
among [] j = false
among (k ∷ ks) j = key_eq k j || among ks j

-- A run of the specification ends with what was used before it and what it used.
pub Spends-among :
    (u : Used) (ks : List Key) (v : Used) → Spends u ks v → (j : Key) → v j ≡ among ks j || u j
Spends-among u [] v (Spends.done same) j = same j
Spends-among u (k ∷ ks) w (Spends.more _ fresh add rest) j =
    ground (arith, add j, Spends-among _ ks w rest j)

Spends-same :
    (u v w : Used) (ks : List Key) → ((j : Key) → v j ≡ u j) → Spends v ks w → Spends u ks w
Spends-same u v w [] same (Spends.done end) = Spends.done (λ j. end j ∙ same j)
Spends-same u v w (k ∷ ks) same (Spends.more _ fresh add rest) =
    Spends.more k (ground (arith, same k)) (λ j. ground (arith, add j, same j)) rest

Spends-first :
    (u v w : Used) (o : Option Key) (ks : List Key)
    → Spend u o v
    → Spends v ks w
    → Spends u (consumed o ks) w
Spends-first u v w none ks (Spend.nothing same) rest = Spends-same u v w ks same rest
Spends-first u v w (some k) ks (Spend.one _ fresh add) rest = Spends.more k fresh add rest

module _ {State Call : Type 0} (step : State → Call → Option State) (key : Call → Option Key)
    (used : State → Used) (Valid : State → Type 0) where
  -- On valid states, which calls keep valid, a call that goes through does to the set what the
  -- specification allows.
  pub record Refines : Type 0 where
    pub stays : (s : State) (c : Call) (t : State) → Valid s → step s c ≡ some t → Valid t
    pub spends :
        (s : State) (c : Call) (t : State)
        → Valid s
        → step s c ≡ some t
        → Spend (used s) (key c) (used t)

module _ {State Call : Type 0} {step : State → Call → Option State} {key : Call → Option Key}
    {used : State → Used} {Valid : State → Type 0} (refines : Refines step key used Valid) where
  -- Every run of the contract is a run of the specification.
  pub run-Spends :
      (s : State) (cs : List Call)
      → Valid s
      → Spends (used s) (accepted step key s cs) (used (ended step s cs))
  unfolding ended
  run-Spends s [] v = unfold accepted in Spends.done (λ j. refl)
  run-Spends s (c ∷ cs) v = elim (Option-cases (step s c)) [
    | inl failed ↦ rw (accepted-failed step key s c cs failed, failed, ended) (run-Spends s cs v)
    | inr (t, went) ↦
        rw (accepted-went step key s c cs t went, went, ended)
          (Spends-first (used s) (used t) (used (ended step t cs)) (key c) (accepted step key t cs)
            (refines.spends s c t v went) (run-Spends t cs (refines.stays s c t v went)))
  ]
