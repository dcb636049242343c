-- ===== src/Base/Bits.antt =====
-- Machine words as native numbers: wrap by `%`, and the bit tests and masks that the sources use.
use Prim.Native.Nat.{ℕ, zero, suc, ◌+◌, ◌%◌, ◌<◌, ◌≤◌, bit_and}
use mathlib.Core.Path.{◌≡◌}
use mathlib.Core.Bool.{Bool, true, false, not}
use native.Mathlib.Omega.{arith}
use native.Mathlib.Decide.{dec_lt}
use package.mvisor_x.Base.Tests.{◌==◌, if◌then◌else◌}

abbrev pub u8 : ℕ → ℕ
u8 x = x % 256

abbrev pub u16 : ℕ → ℕ
u16 x = x % 65536

abbrev pub u64 : ℕ → ℕ
u64 x = x % 18446744073709551616

-- `(x & mask) != 0`
abbrev pub has_bits : ℕ → ℕ → Bool
has_bits x mask = not (bit_and x mask == 0)

-- A test of a word passes at every value of so many bits: the walk goes up from a start.
abbrev pub passes_from : (ℕ → Bool) → ℕ → ℕ → Bool
passes_from test start zero = true
passes_from test start (suc left) = if test start then passes_from test (start + 1) left else false

pub passes_from-at :
    (test : ℕ → Bool) (start left value : ℕ)
    → passes_from test start left ≡ true
    → start ≤ value
    → value < start + left
    → test value ≡ true
passes_from-at test start zero value walk low high = absurd (omega arith)
passes_from-at test start (suc left) value walk low high = elim (dec_lt start value) [
  | yes later ↦ ground (arith, passes_from-at test (start + 1) left value)
  | no here ↦ ground arith
]
