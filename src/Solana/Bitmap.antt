-- ===== src/Solana/Bitmap.antt =====
-- The nonce tracker is a set of the nonces below 8192.
use kinet_std.Shared.{
  ℕ, zero, suc, ◌/◌, ◌%◌, ◌≤◌, ◌<◌, ◌≡◌, refl, Bool, true, false, ◌||◌, ◌&&◌, List, All, length,
  get_or, set, ok, err, ltb, ◌==◌, arith, length-set, get_or-set_self, get_or-set_ne, All-get_or,
  All-set, ap, ◌∙◌, if◌then◌else◌,
}
use native.Mathlib.Decide.{ℕ_discrete}
use kinet_std.Solana.State.{NonceTracker, Fault, test_bit, set_bit, is_processed, mark_processed}

pub record IsTracker (t : NonceTracker) : Type 0 where
  pub size : length t.bitmap ≡ 1024
  pub bytes : All (λ b. b < 256) t.bitmap

-- Both bit operations on every byte and bit, by evaluation.
bool_eq : Bool → Bool → Bool
bool_eq true b = b
bool_eq false true = false
bool_eq false false = true

bool_eq_sound : (a b : Bool) → bool_eq a b ≡ true → a ≡ b
unfolding bool_eq
bool_eq_sound a b h = ground arith

-- A test that passes on the first few numbers.
holds_on : (ℕ → Bool) → ℕ → Bool
holds_on test zero = true
holds_on test (suc bound) = if test bound then holds_on test bound else false

holds_on-at :
    (test : ℕ → Bool) (bound x : ℕ) → x < bound → holds_on test bound ≡ true → test x ≡ true
unfolding holds_on
holds_on-at test zero x inside passed = absurd (omega arith)
holds_on-at test (suc bound) x inside passed = elim (ℕ_discrete x bound) [
  | yes here ↦ ground (arith, ap test here)
  | no below ↦ holds_on-at test bound x (omega arith) (ground arith)
]

bit_law : ℕ → ℕ → ℕ → Bool
unfolding bool_eq test_bit set_bit
bit_law i j byte =
    ltb (set_bit byte i) 256 && bool_eq (test_bit (set_bit byte i) j) (i == j || test_bit byte j)

every_byte : holds_on (λ i. holds_on (λ j. holds_on (bit_law i j) 256) 8) 8 ≡ true
unfolding holds_on bit_law
every_byte = refl

bit_law_holds : (byte i j : ℕ) → byte < 256 → i < 8 → j < 8 → bit_law i j byte ≡ true
bit_law_holds byte i j hb hi hj =
    holds_on-at (bit_law i j) 256 byte hb
      (holds_on-at (λ j. holds_on (bit_law i j) 256) 8 j hj (holds_on-at _ 8 i hi every_byte))

set_bit-lt : (byte i : ℕ) → byte < 256 → i < 8 → set_bit byte i < 256
unfolding bit_law
set_bit-lt byte i hb hi = ground (arith, bit_law_holds byte i 0)

test_bit-set_bit :
    (byte i j : ℕ)
    → byte < 256
    → i < 8
    → j < 8
    → test_bit (set_bit byte i) j ≡ (i == j || test_bit byte j)
unfolding bit_law
test_bit-set_bit byte i j hb hi hj =
    bool_eq_sound _ _ (ground (arith, bit_law_holds byte i j hb hi hj))

byte_at : (t : NonceTracker) (i : ℕ) → IsTracker t → get_or t.bitmap i 0 < 256
byte_at t i h = All-get_or (λ b. b < 256) t.bitmap i 0 h.bytes (omega arith)

-- Marking keeps the tracker well formed.
pub mark_processed-IsTracker :
    (t : NonceTracker) (n : ℕ) (u : NonceTracker)
    → IsTracker t
    → mark_processed t n ≡ ok u
    → IsTracker u
unfolding mark_processed
mark_processed-IsTracker t n u h e =
    let i = n / 8 in
    let v = set_bit (get_or t.bitmap i 0) (n % 8) in
    let bits : v < 256 = set_bit-lt (get_or t.bitmap i 0) (n % 8) (byte_at t i h) (omega arith) in
    let stored : u.bitmap ≡ set t.bitmap i v = ground arith in
    record {
      size = rw stored (length-set t.bitmap i v ∙ h.size);
      bytes = rw stored (All-set (λ b. b < 256) t.bitmap i v h.bytes bits);
    }

same_byte : (n m : ℕ) → n / 8 ≡ m / 8 → (n % 8 == m % 8) ≡ (n == m)
same_byte n m h = ground arith

get_or-set :
    (xs : List ℕ) (i j v : ℕ)
    → i < length xs
    → get_or (set xs i v) j 0 ≡ (if i == j then v else get_or xs j 0)
get_or-set xs i j v h = elim (ℕ_discrete i j) [
  | yes same ↦ ground (arith, get_or-set_self xs i v 0 h)
  | no other ↦ ground (arith, get_or-set_ne xs i j v 0 other)
]

-- After a nonce is marked the tracker shows exactly it and what it showed before.
pub is_processed-mark_processed :
    (t : NonceTracker) (n m : ℕ) (u : NonceTracker)
    → IsTracker t
    → mark_processed t n ≡ ok u
    → is_processed u m ≡ (n == m || is_processed t m)
unfolding mark_processed is_processed
is_processed-mark_processed t n m u h e =
    let i = n / 8 in
    let v = set_bit (get_or t.bitmap i 0) (n % 8) in
    let stored : u.bitmap ≡ set t.bitmap i v = ground arith in
    let inside : i < length t.bitmap = ground arith in
    let facts : get_or u.bitmap (m / 8) 0 ≡ (if i == m / 8 then v else get_or t.bitmap (m / 8) 0) =
      rw stored (get_or-set t.bitmap i (m / 8) v inside) in
    let bits : test_bit v (m % 8) ≡ (n % 8 == m % 8 || test_bit (get_or t.bitmap i 0) (m % 8)) =
      test_bit-set_bit (get_or t.bitmap i 0) (n % 8) (m % 8) (byte_at t i h) (omega arith)
        (omega arith) in
    let sizes : length u.bitmap ≡ length t.bitmap = rw stored (length-set t.bitmap i v) in
    elim (ℕ_discrete i (m / 8)) [
      | yes same ↦ ground (arith, same_byte n m same)
      | no other ↦ ground arith
    ]

-- Marking goes through exactly for the nonces below 8192.
pub mark_processed-overflow :
    (t : NonceTracker) (n : ℕ) → IsTracker t → 8192 ≤ n → mark_processed t n ≡ err Fault.overflow
unfolding mark_processed
mark_processed-overflow t n h high = ground (arith, h.size)

pub mark_processed_total :
    (t : NonceTracker) (n : ℕ)
    → IsTracker t
    → n < 8192
    → (u : NonceTracker) × (mark_processed t n ≡ ok u)
unfolding mark_processed
mark_processed_total t n h low = (
  record t { bitmap = set t.bitmap (n / 8) (set_bit (get_or t.bitmap (n / 8) 0) (n % 8)) },
  ground (arith, h.size),
)
