-- ===== src/Shared/Words.antt =====
-- Machine words: an operation whose exact result does not fit either panics or wraps, as the build
-- is set up, and the fee of an amount never exceeds it.
use Prim.Native.Nat.{ℕ, ◌+◌, ◌-◌, ◌*◌, ◌/◌, ◌%◌, ◌≤◌}
use mathlib.Core.Bool.{Bool, true, false}
use mathlib.Core.Option.{Option, none, some}
use native.Mathlib.Omega.{arith}
use kinet_std.Shared.Tests.{ltb, leb, if◌then◌else◌}

-- An unsigned word below `m` under overflow checks; `none` is the panic.
abbrev pub checked : ℕ → ℕ → Option ℕ
checked m n = if ltb n m then some n else none

-- The same where the build decides whether overflow is checked.
abbrev pub word : (overflow_checks : Bool) → ℕ → ℕ → Option ℕ
word true m n = checked m n
word false m n = some (n % m)

-- `a - b` on such words.
abbrev pub sub_word : (overflow_checks : Bool) → ℕ → ℕ → ℕ → Option ℕ
sub_word checks m a b = if leb b a then some (a - b) else if checks then none else some (a + m - b)

pub fee-le_amount : (amount bps : ℕ) → bps ≤ 10000 → amount * bps / 10000 ≤ amount
fee-le_amount amount bps h = grind arith
