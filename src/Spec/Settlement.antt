-- ===== src/Spec/Settlement.antt =====
-- What is paid on one bridge for the orders of another is what the settled orders amount to.
use kinet_std.Shared.{
  ℕ, ◌+◌, ◌<◌, ◌≡◌, refl, sym, ◌∙◌, Bool, true, false, ◌==◌, Option, some, none, [], ◌∷◌, All,
  All-mono, Bytes, Option-cases, Bool-cases, arith, inl, inr,
}
use kinet_std.Spec.Run.{sum_of}
use kinet_std.Spec.Transit.{
  Order, Has, All-Has, Descending, settled, sum_of-settled, sum_of-settled_same, amount_of, Source,
  Payer, World, Step, Reach,
}

-- What holds of the whole at any time: no two orders share a nonce, only reported orders are
-- signed, and what was paid is what the settled orders amount to.
module _ {A B : Type 0} (next_free total : A → ℕ) (before : ℕ) (InRange : Order → Type 0)
    (used : B → ℕ → Bool) (message_of : Order → Bytes) where
  pub record IsBalanced (w : World A B) : Type 0 where
    pub ordered : Descending w.book
    pub ranges : All InRange w.book
    pub below : All (λ o. o.nonce < next_free w.source) w.book
    pub used_below : (k : ℕ) → used w.payer k ≡ true → k < next_free w.source
    pub backed : (m : Bytes) → Has m w.messages → (o : Order) × Has o w.book × (message_of o ≡ m)
    pub counted : total w.source ≡ before + sum_of amount_of w.book
    pub balance : w.paid ≡ sum_of (settled (used w.payer)) w.book

module _ {A CallA B CallB : Type 0} {source_step : A → CallA → Option (A × Option Order)}
    {next_free total : A → ℕ} {InRange : Order → Type 0} {payer_step : B → CallB → Option (B × ℕ)}
    {claim : CallB → Option Order} {used : B → ℕ → Bool} {Accepts : B → CallB → Bytes → Type 0}
    {message_of : Order → Bytes} (source : Source source_step next_free total InRange)
    (payer : Payer payer_step claim used Accepts message_of)
    (injective : (o p : Order) → InRange o → InRange p → message_of o ≡ message_of p → o ≡ p)
    (before : ℕ) where
  abbrev Balanced : World A B → Type 0
  Balanced = IsBalanced next_free total before InRange used message_of

  orders-Balanced :
      (w : World A B) (c : CallA) (a : A) (o : Order)
      → source_step w.source c ≡ some (a, some o)
      → Balanced w
      → Balanced (record w { source = a; book = o ∷ w.book })
  orders-Balanced w c a o went h =
      let (free, taken, range, grows) = source.emits w.source c a o went in
      let unused : used w.payer o.nonce ≡ false = elim (Bool-cases (used w.payer o.nonce)) [
        | inl old ↦ absurd (omega (arith, h.used_below o.nonce old))
        | inr new ↦ new
      ] in
      record {
        ordered = (All-mono _ _ w.book (λ p lt. omega arith) h.below, h.ordered);
        ranges = (range, h.ranges);
        below = (taken, All-mono _ _ w.book (λ p lt. omega arith) h.below);
        used_below = λ k old. omega (arith, h.used_below k old);
        backed = λ m signed. let (p, found, same) = h.backed m signed in (p, inr found, same);
        counted = unfold sum_of in omega (arith, h.counted);
        balance = unfold sum_of in ground (arith, h.balance, unused);
      }

  passes-Balanced :
      (w : World A B) (c : CallA) (a : A)
      → source_step w.source c ≡ some (a, none)
      → Balanced w
      → Balanced (record w { source = a })
  passes-Balanced w c a went h =
      let (grows, same) = source.keeps w.source c a went in
      record {
        ordered = h.ordered;
        ranges = h.ranges;
        below = All-mono _ _ w.book (λ p lt. omega arith) h.below;
        used_below = λ k old. omega (arith, h.used_below k old);
        backed = h.backed;
        counted = omega (arith, h.counted);
        balance = h.balance;
      }

  signs-Balanced :
      (w : World A B) (o : Order)
      → Has o w.book
      → Balanced w
      → Balanced (record w { messages = message_of o ∷ w.messages })
  signs-Balanced w o reported h = record {
    ordered = h.ordered;
    ranges = h.ranges;
    below = h.below;
    used_below = h.used_below;
    backed =
        λ m signed. elim signed [ inl same ↦ (o, reported, same) | inr later ↦ h.backed m later ];
    counted = h.counted;
    balance = h.balance;
  }

  -- The order that a paid call claims was reported.
  claimed_order :
      (w : World A B) (c : CallB) (b : B) (v : ℕ) (o : Order)
      → payer_step w.payer c ≡ some (b, v)
      → claim c ≡ some o
      → InRange o
      → (Accepts w.payer c (message_of o) → Has (message_of o) w.messages)
      → Balanced w
      → Has o w.book
  claimed_order w c b v o went claims range unforged h =
      let (p, reported, same) =
        h.backed (message_of o) (unforged (payer.signed w.payer c b v o went claims)) in
      rw (injective p o (All-Has InRange p w.book h.ranges reported) range same) at reported

  pays-Balanced :
      (w : World A B) (c : CallB) (b : B) (v : ℕ)
      → payer_step w.payer c ≡ some (b, v)
      → ((o : Order) → claim c ≡ some o → InRange o)
      → ((o : Order)
          → claim c ≡ some o
          → Accepts w.payer c (message_of o)
          → Has (message_of o) w.messages)
      → Balanced w
      → Balanced (record w { payer = b; paid = w.paid + v })
  pays-Balanced w c b v went typed unforged h = elim (Option-cases (claim c)) [
    | inl other ↦
        let (nothing, same) = payer.idles w.payer c b v went other in
        record {
          ordered = h.ordered;
          ranges = h.ranges;
          below = h.below;
          used_below = λ k old. h.used_below k (sym (same k) ∙ old);
          backed = h.backed;
          counted = h.counted;
          balance =
              omega (
                arith,
                h.balance,
                nothing,
                sum_of-settled_same (used w.payer) (used b) w.book same,
              );
        }
    | inr (o, claims) ↦
        let (whole, fresh, marks) = payer.pays w.payer c b v o went claims in
        let reported = claimed_order w c b v o went claims (typed o claims) (unforged o claims) h in
        let below : o.nonce < next_free w.source = All-Has _ o w.book h.below reported in
        record {
          ordered = h.ordered;
          ranges = h.ranges;
          below = h.below;
          used_below = λ k old. elim (Bool-cases (o.nonce == k)) [
            | inl same ↦ ground arith
            | inr other ↦ h.used_below k (ground (arith, marks k))
          ];
          backed = h.backed;
          counted = h.counted;
          balance = omega (
            arith,
            h.balance,
            whole,
            sum_of-settled (used w.payer) (used b) o w.book marks fresh h.ordered reported,
          );
        }
  ]

  Step-Balanced :
      {w v : World A B}
      → Step source_step payer_step claim Accepts InRange message_of w v
      → Balanced w
      → Balanced v
  Step-Balanced {w} (Step.orders c a o went) h = orders-Balanced w c a o went h
  Step-Balanced {w} (Step.passes c a went) h = passes-Balanced w c a went h
  Step-Balanced {w} (Step.signs o reported) h = signs-Balanced w o reported h
  Step-Balanced {w} (Step.pays c b v went typed unforged) h =
      pays-Balanced w c b v went typed unforged h

  -- Whatever the two bridges and the signers do, in any order: the whole stays balanced.
  pub Reach-Balanced :
      {w v : World A B}
      → Reach source_step payer_step claim Accepts InRange message_of w v
      → Balanced w
      → Balanced v
  Reach-Balanced Reach.here h = h
  Reach-Balanced (Reach.next before step) h = Step-Balanced step (Reach-Balanced before h)

-- The whole at the start: nothing ordered, nothing signed, nothing paid, no nonce used.
abbrev pub begin : {A B : Type 0} → A → B → World A B
begin a b = record { source = a; payer = b; book = []; messages = []; paid = 0 }

module _ {A B : Type 0} (next_free total : A → ℕ) (InRange : Order → Type 0) (used : B → ℕ → Bool)
    (message_of : Order → Bytes) where
  pub begin-IsBalanced :
      (a : A) (b : B)
      → ((k : ℕ) → used b k ≡ false)
      → IsBalanced next_free total (total a) InRange used message_of (begin a b)
  begin-IsBalanced a b empty = record {
    ordered = tt;
    ranges = tt;
    below = tt;
    used_below = λ k old. cc (old, empty k);
    backed = λ m signed. absurd signed;
    counted = unfold sum_of in omega arith;
    balance = unfold sum_of in refl;
  }
