-- ===== src/Shared/Decimal.antt =====
-- `to_string` of an unsigned integer, and `{}` in `format!`: decimal digits, no leading zeros.
use Prim.Native.Nat.{ℕ, zero, suc, ◌+◌, ◌-◌, ◌*◌, ◌/◌, ◌%◌, ◌<◌}
use mathlib.Core.Path.{◌≡◌, refl, sym, ap, ap₂, ◌∙◌}
use mathlib.Core.Logic.{dite, dif_pos, dif_neg}
use mathlib.Core.List.{[], ◌∷◌, ◌++◌, head-eq_of_cons-eq, tail-eq_of_cons-eq}
use mathlib.Core.WellFounded.{Acc, WellFounded}
use native.Mathlib.Decide.{dec_lt}
use native.Mathlib.Bridge.{le_prop}
use native.Mathlib.Omega.{arith}
use kinet_std.Shared.Lists.{All, All-append}
use kinet_std.Shared.ByteStrings.{Bytes}

Acc-below : (k n : ℕ) → n < k → Acc ◌<◌ n
Acc-below zero n h = elim h [ ]
Acc-below (suc k) n h = Acc.intro n (λ m hm. Acc-below k m (omega arith))

lt_wf : WellFounded ◌<◌
unfolding Acc-below
lt_wf = record { apply = λ n. Acc-below (suc n) n (omega arith) }

tenth_lt : {n : ℕ} → 9 < n → n / 10 < n
tenth_lt h = omega arith

digits : (n : ℕ) → Acc ◌<◌ n → Bytes
digits n (Acc.intro _ smaller) =
    dite (dec_lt 9 n)
      (λ h. digits (n / 10) (smaller (n / 10) (tenth_lt h)) ++ ((b'0' + n % 10) ∷ []))
      (λ _. (b'0' + n) ∷ [])

unfoldable pub to_string : ℕ → Bytes
unfolding digits lt_wf dec_lt tenth_lt
to_string n = digits n (lt_wf.apply n)

-- The number that a string of digits stands for.
value : ℕ → Bytes → ℕ
value acc [] = acc
value acc (c ∷ cs) = value (acc * 10 + (c - b'0')) cs

value-append : (acc : ℕ) (xs ys : Bytes) → value acc (xs ++ ys) ≡ value (value acc xs) ys
unfolding value
value-append acc [] ys = refl
value-append acc (x ∷ xs) ys = value-append (acc * 10 + (x - b'0')) xs ys

value-digits : (n : ℕ) (w : Acc ◌<◌ n) → value 0 (digits n w) ≡ n
unfolding digits value
value-digits n (Acc.intro _ smaller) = elim (dec_lt 9 n) [
  | yes h ↦
      rw
        (
          dif_pos (dec_lt 9 n) le_prop h,
          value-append,
          value-digits (n / 10) (smaller (n / 10) (tenth_lt h)),
        )
        (omega arith)
  | no h ↦ rw (dif_neg (dec_lt 9 n) h) (omega arith)
]

-- No digit is the separator `:`.
digits-below_colon : (n : ℕ) (w : Acc ◌<◌ n) → All (λ c. c < b':') (digits n w)
unfolding digits
digits-below_colon n (Acc.intro _ smaller) = elim (dec_lt 9 n) [
  | yes h ↦ rw (dif_pos (dec_lt 9 n) le_prop h) (
      All-append _ (digits (n / 10) (smaller (n / 10) (tenth_lt h))) _
        (digits-below_colon (n / 10) (smaller (n / 10) (tenth_lt h))) (omega arith))
  | no h ↦ rw (dif_neg (dec_lt 9 n) h) (omega arith)
]

pub to_string-below_colon : (n : ℕ) → All (λ c. c < b':') (to_string n)
unfolding to_string
to_string-below_colon n = digits-below_colon n (lt_wf.apply n)

-- A string with no colon before the first one is determined by the whole.
pub split_at_colon :
    (xs ys : Bytes) {us vs : Bytes}
    → All (λ c. c < b':') xs
    → All (λ c. c < b':') ys
    → xs ++ (b':' ∷ us) ≡ ys ++ (b':' ∷ vs)
    → (xs ≡ ys) × (us ≡ vs)
split_at_colon [] [] hx hy e = (refl, tail-eq_of_cons-eq e)
split_at_colon [] (y ∷ ys) hx hy e = absurd (omega (arith, head-eq_of_cons-eq e))
split_at_colon (x ∷ xs) [] hx hy e = absurd (omega (arith, head-eq_of_cons-eq e))
split_at_colon (x ∷ xs) (y ∷ ys) hx hy e =
    let (p, q) = split_at_colon xs ys hx.1 hy.1 (tail-eq_of_cons-eq e) in
    (ap₂ ◌∷◌ (head-eq_of_cons-eq e) p, q)

pub to_string-injective : (m n : ℕ) → to_string m ≡ to_string n → m ≡ n
unfolding to_string
to_string-injective m n e =
    sym (value-digits m (lt_wf.apply m)) ∙ ap (value 0) e ∙ value-digits n (lt_wf.apply n)

-- The number that a decimal text stands for.
unfoldable pub from_decimal : Bytes → ℕ
unfolding value
from_decimal text = value 0 text

pub from_decimal-to_string : (n : ℕ) → from_decimal (to_string n) ≡ n
unfolding from_decimal to_string
from_decimal-to_string n = value-digits n (lt_wf.apply n)
