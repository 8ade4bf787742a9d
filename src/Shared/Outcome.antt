-- ===== src/Shared/Outcome.antt =====
-- The outcome of a call: Rust's `Result`, with the platform's failures and panics among the errors.
use mathlib.Core.Path.{◌≡◌, refl}
use mathlib.Core.Bool.{Bool, true, false}
use mathlib.Core.Logic.{◌⊎◌, inl, inr}
use mathlib.Core.Option.{Option, none, some}

pub data Result {ℓ κ} (E : Type ℓ) (A : Type κ) : Type (ℓ ⊔ κ) where
  ok : A → Result E A
  err : E → Result E A

-- `?` after a call: the rest runs on its value, and an error ends it.
infixl 5 ◌>>=◌
abbrev pub ◌>>=◌ {ε α β} :
    {Err : Type ε} {In : Type α} {Out : Type β}
    → Result Err In
    → (In → Result Err Out)
    → Result Err Out
call >>= rest = elim call [ ok value ↦ rest value | err failure ↦ err failure ]

-- A check, and then the rest.
infixl 5 ◌>>◌
abbrev pub ◌>>◌ {ε β} :
    {Err : Type ε} {Out : Type β} → Result Err (Unit {0}) → Result Err Out → Result Err Out
check >> rest = elim check [ ok passed ↦ rest | err failure ↦ err failure ]

-- `require!(test, error)`, and `assert!`
abbrev pub require {ℓ} : {E : Type ℓ} → Bool → E → Result E (Unit {0})
require true e = ok tt
require false e = err e

-- `if test { return Err(error) }`
abbrev pub fail_if {ℓ} : {E : Type ℓ} → Bool → E → Result E (Unit {0})
fail_if true e = err e
fail_if false e = ok tt

-- `option.ok_or(error)`, and `unwrap` where the error is a panic
abbrev pub ok_or {ℓ κ} : {E : Type ℓ} {A : Type κ} → Option A → E → Result E A
ok_or none e = err e
ok_or (some a) e = ok a

-- The state after a call, if the call went through; its answer is dropped.
abbrev pub state_of {ℓ κ μ} : {E : Type ℓ} {S : Type κ} {R : Type μ} → Result E (S × R) → Option S
state_of (ok (s, r)) = some s
state_of (err e) = none

pub state_of-eq-some {ℓ κ μ} :
    {E : Type ℓ} {S : Type κ} {R : Type μ} (m : Result E (S × R)) {s : S}
    → state_of m ≡ some s
    → (r : R) × (m ≡ ok (s, r))
state_of-eq-some (ok (t, r)) h = (r, cc)
state_of-eq-some (err e) h = cc

pub Result-cases {ℓ κ} :
    {E : Type ℓ} {A : Type κ} (r : Result E A) → ((a : A) × (r ≡ ok a)) ⊎ ((e : E) × (r ≡ err e))
Result-cases (ok a) = inl (a, refl)
Result-cases (err e) = inr (e, refl)

-- The value of a call that went through.
abbrev pub succeeded {ℓ κ} : {E : Type ℓ} {A : Type κ} → Result E A → Option A
succeeded (ok a) = some a
succeeded (err e) = none

-- `unwrap`, and then assertions on the value; a failure fails the test.
abbrev pub Unwrapped {ℓ κ} : {E : Type ℓ} {A : Type κ} → Result E A → (A → Type 0) → Type 0
Unwrapped (ok a) Asserts = Asserts a
Unwrapped (err e) Asserts = ⊥
