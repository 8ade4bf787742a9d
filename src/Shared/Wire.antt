-- ===== src/Shared/Wire.antt =====
-- The layout that the signed messages share: a tag, the chain and the nonce as little-endian u64,
-- the recipient's bytes, and the amount as a little-endian u128.
use Prim.Native.Nat.{ℕ, ◌^◌, ◌<◌}
use mathlib.Core.Path.{◌≡◌, ap}
use kinet_std.Shared.Lists.{get_or}
use mathlib.Core.Logic.{◌≢◌}
use mathlib.Core.List.{◌++◌, append_cancel_left}
use native.Mathlib.Omega.{arith}
use kinet_std.Shared.ByteStrings.{
  Bytes, codes, to_le_bytes, length-to_le_bytes, to_le_bytes-injective, append-injective_left,
  append-injective_right,
}

abbrev pub wire : Bytes → ℕ → ℕ → Bytes → ℕ → Bytes
wire tag chain nonce recipient amount =
    tag ++ (to_le_bytes 8 chain ++ (to_le_bytes 8 nonce ++ (recipient ++ to_le_bytes 16 amount)))

-- Two messages under one tag are equal only if all that they say is equal, though the recipient
-- has no length of its own: it is what the fixed parts leave.
pub wire-injective :
    (tag : Bytes) (c n : ℕ) (r : Bytes) (a c' n' : ℕ) (r' : Bytes) (a' : ℕ)
    → c < 2 ^ 64
    → n < 2 ^ 64
    → a < 2 ^ 128
    → c' < 2 ^ 64
    → n' < 2 ^ 64
    → a' < 2 ^ 128
    → wire tag c n r a ≡ wire tag c' n' r' a'
    → (c ≡ c') × (n ≡ n') × (r ≡ r') × (a ≡ a')
wire-injective tag c n r a c' n' r' a' hc hn ha hc' hn' ha' e =
    let (chains, e₁) =
      append-injective_left (to_le_bytes 8 c) (to_le_bytes 8 c')
        (omega (arith, length-to_le_bytes 8 c, length-to_le_bytes 8 c'))
        (append_cancel_left tag _ _ e) in
    let (nonces, e₂) =
      append-injective_left (to_le_bytes 8 n) (to_le_bytes 8 n')
        (omega (arith, length-to_le_bytes 8 n, length-to_le_bytes 8 n')) e₁ in
    let (recipients, amounts) =
      append-injective_right r r' (omega (arith, length-to_le_bytes 16 a, length-to_le_bytes 16 a'))
        e₂ in
    (
      to_le_bytes-injective 8 c c' hc hc' chains,
      to_le_bytes-injective 8 n n' hn hn' nonces,
      recipients,
      to_le_bytes-injective 16 a a' ha ha' amounts,
    )

-- No message of one kind is one of the other: the tags differ within their common length.
pub mint-ne-release :
    (xs ys : Bytes) → codes "KNT_BRIDGE_MINT" ++ xs ≢ codes "KNT_BRIDGE_RELEASE" ++ ys
mint-ne-release xs ys e = omega (arith, ap (λ (m : Bytes). get_or m 11 0) e)
