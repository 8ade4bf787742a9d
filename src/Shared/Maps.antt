-- ===== src/Shared/Maps.antt =====
-- Finite maps of the storage as functions into `Option`, keyed by byte strings, numbers, or pairs.
use Prim.Native.Nat.{ℕ}
use mathlib.Core.Path.{◌≡◌}
use mathlib.Core.Logic.{◌↔◌}
use mathlib.Core.Bool.{Bool, true, ◌&&◌}
use mathlib.Core.Option.{Option, some}
use native.Mathlib.Omega.{arith}
use kinet_std.Shared.Tests.{◌==◌, if◌then◌else◌}
use kinet_std.Shared.ByteStrings.{Bytes, bytes_eq}

-- (source chain, nonce)
abbrev pub Key : Type 0
Key = ℕ × ℕ

abbrev pub key_eq : Key → Key → Bool
key_eq a b = a.0 == b.0 && a.1 == b.1

pub key_eq_iff : (a b : Key) → (key_eq a b ≡ true) ↔ (a ≡ b)
key_eq_iff a b = ground arith

module _ {ℓ} {V : Type ℓ} where
  abbrev pub insert_key : (Key → Option V) → Key → V → Key → Option V
  insert_key m k v j = if key_eq k j then some v else m j

  abbrev pub insert_bytes : (Bytes → Option V) → Bytes → V → Bytes → Option V
  insert_bytes m k v j = if bytes_eq k j then some v else m j

  abbrev pub insert_nat : (ℕ → Option V) → ℕ → V → ℕ → Option V
  insert_nat m k v j = if k == j then some v else m j
