-- ===== src/Shared/ByteStrings.antt =====
-- Byte strings: equality, the text of a literal, and little-endian encodings of fixed width.
use Prim.Native.Nat.{ℕ, zero, suc, ◌+◌, ◌*◌, ◌/◌, ◌%◌, ◌^◌, ◌<◌}
use Prim.Native.Char.{code}
use Prim.Native.String.{String}
use mathlib.Core.Path.{◌≡◌, refl, sym, ap, ap₂, ◌∙◌}
use mathlib.Core.Logic.{◌↔◌}
use mathlib.Core.Bool.{Bool, true, false, ◌&&◌}
use mathlib.Core.List.{List, [], ◌∷◌, ◌++◌, head-eq_of_cons-eq, tail-eq_of_cons-eq}
use native.Mathlib.Omega.{arith}
use native.Mathlib.Nat.{pow-suc}
use kinet_std.Shared.Tests.{◌==◌}
use kinet_std.Shared.Lists.{length, length-append, get_or}

abbrev pub Bytes : Type 0
Bytes = List ℕ

-- The bytes of an ASCII literal such as b"KNT_BRIDGE_MINT".
abbrev pub codes : String → Bytes
codes String.[] = []
codes (String.◌∷◌ c s) = code c ∷ codes s

-- `==` on arrays, vectors, slices, strings and keys
unfoldable pub bytes_eq : Bytes → Bytes → Bool
bytes_eq [] [] = true
bytes_eq (x ∷ xs) (y ∷ ys) = x == y && bytes_eq xs ys
bytes_eq _ _ = false

pub bytes_eq_refl : (xs : Bytes) → bytes_eq xs xs ≡ true
unfolding bytes_eq
bytes_eq_refl [] = refl
bytes_eq_refl (x ∷ xs) = ground (arith, bytes_eq_refl xs)

pub bytes_eq_sound : (xs ys : Bytes) → bytes_eq xs ys ≡ true → xs ≡ ys
unfolding bytes_eq
bytes_eq_sound [] [] h = refl
bytes_eq_sound [] (y ∷ ys) h = cc
bytes_eq_sound (x ∷ xs) [] h = cc
bytes_eq_sound (x ∷ xs) (y ∷ ys) h = ground (arith, bytes_eq_sound xs ys)

pub bytes_eq_iff : (xs ys : Bytes) → (bytes_eq xs ys ≡ true) ↔ (xs ≡ ys)
bytes_eq_iff xs ys = (bytes_eq_sound xs ys, λ e. ap (bytes_eq xs) (sym e) ∙ bytes_eq_refl xs)

-- `Vec::contains`
unfoldable pub contains : List Bytes → Bytes → Bool
contains [] k = false
contains (x ∷ xs) k = elim (bytes_eq x k) [ true ↦ true | false ↦ contains xs k ]

-- `to_le_bytes` of a word of `w` bytes
unfoldable pub to_le_bytes : ℕ → ℕ → Bytes
to_le_bytes zero n = []
to_le_bytes (suc w) n = (n % 256) ∷ to_le_bytes w (n / 256)

-- `u16::from_le_bytes([data[i], data[i + 1]])`
unfoldable pub u16_at : Bytes → ℕ → ℕ
u16_at data' i = get_or data' i 0 + 256 * get_or data' (i + 1) 0

pub length-to_le_bytes : (w n : ℕ) → length (to_le_bytes w n) ≡ w
unfolding to_le_bytes
length-to_le_bytes zero n = refl
length-to_le_bytes (suc w) n = ap suc (length-to_le_bytes w (n / 256))

pub to_le_bytes-injective :
    (w m n : ℕ) → m < 256 ^ w → n < 256 ^ w → to_le_bytes w m ≡ to_le_bytes w n → m ≡ n
unfolding to_le_bytes
to_le_bytes-injective zero m n hm hn e = omega arith
to_le_bytes-injective (suc w) m n hm hn e = omega (
  arith,
  head-eq_of_cons-eq e,
  to_le_bytes-injective w (m / 256) (n / 256) (quotient_lt m hm) (quotient_lt n hn)
      (tail-eq_of_cons-eq e),
)
  where
    quotient_lt : (k : ℕ) → k < 256 ^ suc w → k / 256 < 256 ^ w
    quotient_lt k h = omega (arith, pow-suc 256 w)

-- Two byte strings that begin with parts of one length are equal part by part.
pub append-injective_left :
    (xs ys : Bytes) {us vs : Bytes}
    → length xs ≡ length ys
    → xs ++ us ≡ ys ++ vs
    → (xs ≡ ys) × (us ≡ vs)
append-injective_left [] [] h e = (refl, e)
append-injective_left [] (y ∷ ys) h e = absurd (omega arith)
append-injective_left (x ∷ xs) [] h e = absurd (omega arith)
append-injective_left (x ∷ xs) (y ∷ ys) {us} {vs} h e =
    let (p, q) = append-injective_left xs ys (omega arith) (tail-eq_of_cons-eq e) in
    (ap₂ ◌∷◌ (head-eq_of_cons-eq e) p, q)

-- The same, where the parts of one length stand at the end.
pub append-injective_right :
    (xs ys : Bytes) {us vs : Bytes}
    → length us ≡ length vs
    → xs ++ us ≡ ys ++ vs
    → (xs ≡ ys) × (us ≡ vs)
append-injective_right xs ys {us} {vs} h e =
    append-injective_left xs ys
      (omega (arith, ap length e, length-append xs us, length-append ys vs)) e
