-- ===== src/Spec/Transit.antt =====
-- One bridge that takes orders and another that pays them, with signers between them. The source
-- reports an order for each lock and burn; the signers sign the message of an order that was
-- reported; the payer pays a call that carries such a signature. The three act in any order.
use kinet_std.Shared.{
  ℕ, ◌+◌, ◌^◌, ◌≤◌, ◌<◌, ◌≡◌, ◌⊎◌, inl, inr, refl, Bool, false, ◌||◌, ◌==◌, if◌then◌else◌, Option,
  some, none, List, [], ◌∷◌, All, Bytes, arith,
}
use kinet_std.Spec.Run.{sum_of}

-- A lock is paid by a mint, a burn by a release.
pub data OrderKind : Type 0 where
  mint release : OrderKind

pub record Order : Type 0 where
  pub kind : OrderKind
  pub nonce : ℕ
  pub recipient : Bytes
  pub amount : ℕ

-- An order whose nonce is a u64 and whose amount is a u128, as the messages lay them out.
pub record FitsWords (o : Order) : Type 0 where
  pub nonce_u64 : o.nonce < 2 ^ 64
  pub amount_u128 : o.amount < 2 ^ 128

abbrev pub Has : {A : Type 0} → A → List A → Type 0
Has a [] = ⊥
Has a (x ∷ xs) = (x ≡ a) ⊎ Has a xs

pub All-Has : {A : Type 0} (P : A → Type 0) (a : A) (xs : List A) → All P xs → Has a xs → P a
All-Has P a [] all here = absurd here
All-Has P a (x ∷ xs) all (inl same) = rw (← same) all.0
All-Has P a (x ∷ xs) all (inr later) = All-Has P a xs all.1 later

-- The newest order stands first, and no two have the same nonce.
abbrev pub Descending : List Order → Type 0
Descending [] = Unit
Descending (o ∷ os) = All (λ p. p.nonce < o.nonce) os × Descending os

-- What the orders amount to whose nonces the payer has used.
abbrev pub settled : (used : ℕ → Bool) → Order → ℕ
settled used o = if used o.nonce then o.amount else 0

abbrev pub amount_of : Order → ℕ
amount_of o = o.amount

-- A nonce above all orders settles none of them.
pub sum_of-settled_above :
    (used after : ℕ → Bool) (n : ℕ) (os : List Order)
    → ((k : ℕ) → after k ≡ (n == k || used k))
    → All (λ p. p.nonce < n) os
    → sum_of (settled after) os ≡ sum_of (settled used) os
unfolding sum_of
sum_of-settled_above used after n [] marks below = refl
sum_of-settled_above used after n (o ∷ os) marks below =
    ground (arith, marks o.nonce, sum_of-settled_above used after n os marks)

-- A nonce used for the first time settles just its order.
pub sum_of-settled :
    (used after : ℕ → Bool) (o : Order) (os : List Order)
    → ((k : ℕ) → after k ≡ (o.nonce == k || used k))
    → used o.nonce ≡ false
    → Descending os
    → Has o os
    → sum_of (settled after) os ≡ sum_of (settled used) os + o.amount
unfolding sum_of
sum_of-settled used after o [] marks fresh ordered here = absurd here
sum_of-settled used after o (p ∷ os) marks fresh ordered (inl same) = rw (← same) (
    ground (
      arith,
      marks p.nonce,
      same,
      sum_of-settled_above used after p.nonce os (rw same marks) ordered.0,
    ))
sum_of-settled used after o (p ∷ os) marks fresh ordered (inr later) =
    let below : o.nonce < p.nonce = All-Has (λ q. q.nonce < p.nonce) o os ordered.0 later in
    ground (arith, marks p.nonce, sum_of-settled used after o os marks fresh ordered.1 later)

pub sum_of-settled_same :
    (used after : ℕ → Bool) (os : List Order)
    → ((k : ℕ) → after k ≡ used k)
    → sum_of (settled after) os ≡ sum_of (settled used) os
unfolding sum_of
sum_of-settled_same used after [] same = refl
sum_of-settled_same used after (o ∷ os) same =
    ground (arith, same o.nonce, sum_of-settled_same used after os same)

pub sum_of-settled-le :
    (used : ℕ → Bool) (os : List Order) → sum_of (settled used) os ≤ sum_of amount_of os
unfolding sum_of
sum_of-settled-le used [] = omega arith
sum_of-settled-le used (o ∷ os) = ground (arith, sum_of-settled-le used os)

-- A source: `next` is the least nonce that is still free, and every order takes a free one. `total`
-- is what it has counted as locked and burned, and grows by the orders' amounts.
module _ {A CallA : Type 0} (step : A → CallA → Option (A × Option Order)) (next total : A → ℕ)
    (InRange : Order → Type 0) where
  pub record Source : Type 0 where
    pub emits :
        (s : A) (c : CallA) (t : A) (o : Order)
        → step s c ≡ some (t, some o)
        → (next s ≤ o.nonce) × (o.nonce < next t) × InRange o × (total t ≡ total s + o.amount)
    pub keeps :
        (s : A) (c : CallA) (t : A)
        → step s c ≡ some (t, none)
        → (next s ≤ next t) × (total t ≡ total s)

-- A payer. `claim` is the order of this source that a call asks to be paid, `used` are the source's
-- nonces that it has paid, and a step tells what it pays out on them. `Accepts` says that a call
-- carries what the payer takes for a signature over a message.
module _ {B CallB : Type 0} (step : B → CallB → Option (B × ℕ)) (claim : CallB → Option Order)
    (used : B → ℕ → Bool) (Accepts : B → CallB → Bytes → Type 0) (message_of : Order → Bytes) where
  pub record Payer : Type 0 where
    pub signed :
        (s : B) (c : CallB) (t : B) (v : ℕ) (o : Order)
        → step s c ≡ some (t, v)
        → claim c ≡ some o
        → Accepts s c (message_of o)
    pub pays :
        (s : B) (c : CallB) (t : B) (v : ℕ) (o : Order)
        → step s c ≡ some (t, v)
        → claim c ≡ some o
        → (v ≡ o.amount)
          × (used s o.nonce ≡ false)
          × ((k : ℕ) → used t k ≡ (o.nonce == k || used s k))
    pub idles :
        (s : B) (c : CallB) (t : B) (v : ℕ)
        → step s c ≡ some (t, v)
        → claim c ≡ none
        → (v ≡ 0) × ((k : ℕ) → used t k ≡ used s k)

-- The two bridges, the orders reported so far, the messages signed so far, and what was paid.
pub record World (A B : Type 0) : Type 0 where
  pub source : A
  pub payer : B
  pub book : List Order
  pub messages : List Bytes
  pub paid : ℕ

module _ {A CallA B CallB : Type 0} (source_step : A → CallA → Option (A × Option Order))
    (payer_step : B → CallB → Option (B × ℕ)) (claim : CallB → Option Order)
    (Accepts : B → CallB → Bytes → Type 0) (InRange : Order → Type 0)
    (message_of : Order → Bytes) where
  -- One step of the whole: a call of the source, a signature over the message of a reported order,
  -- or a call of the payer. A payer's call has arguments in range, and where the payer takes it to
  -- be signed, the signers have signed that message. Calls that fail change nothing.
  pub data Step (w : World A B) : World A B → Type 0 where
    orders :
        (c : CallA) (a : A) (o : Order)
        → source_step w.source c ≡ some (a, some o)
        → Step w (record w { source = a; book = o ∷ w.book })
    passes :
        (c : CallA) (a : A)
        → source_step w.source c ≡ some (a, none)
        → Step w (record w { source = a })
    signs : (o : Order) → Has o w.book → Step w (record w { messages = message_of o ∷ w.messages })
    pays :
        (c : CallB) (b : B) (v : ℕ)
        → payer_step w.payer c ≡ some (b, v)
        → ((o : Order) → claim c ≡ some o → InRange o)
        → ((o : Order)
            → claim c ≡ some o
            → Accepts w.payer c (message_of o)
            → Has (message_of o) w.messages)
        → Step w (record w { payer = b; paid = w.paid + v })

  pub data Reach (w : World A B) : World A B → Type 0 where
    here : Reach w w
    next : {u v : World A B} → Reach w u → Step u v → Reach w v
