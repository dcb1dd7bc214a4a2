-- ===== src/Common/Bits.antt =====
-- Single bits of a byte: what `b & (1 << k) != 0` reads and what `b |= 1 << k` writes.
use Prim.Native.Nat.{ℕ, bit_and}
use mathlib.Core.Bool.{Bool, not}
use go_runit.Common.Tests.{◌==◌}

-- `b & mask != 0`.
abbrev pub has_bits : ℕ → ℕ → Bool
has_bits b mask = not (bit_and b mask == 0)
