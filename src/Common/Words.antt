-- ===== src/Common/Words.antt =====
-- Machine words as native numbers: the wrap-around of UINT32, LONG and UINT64 is written out.
use Prim.Native.Nat.{ℕ, ◌+◌, ◌-◌, ◌%◌, ◌^◌, ◌<◌}
use mathlib.Core.Path.{◌≡◌}
use mathlib.Core.Bool.{Bool, ◌&&◌}
use native.Mathlib.Omega.{arith}
use ps3eye_direct_show.Common.Int.{ℤ, pos, negsuc}
use ps3eye_direct_show.Common.Tests.{ltb, if◌then◌else◌}

-- `++x` and `--x` on a 32-bit word.
abbrev pub inc32 : ℕ → ℕ
inc32 n = (n + 1) % 2 ^ 32

abbrev pub dec32 : ℕ → ℕ
dec32 n = (n + 2 ^ 32 - 1) % 2 ^ 32

-- `++x` on a 64-bit word.
abbrev pub inc64 : ℕ → ℕ
inc64 n = (n + 1) % 2 ^ 64

-- `x > 0` for a LONG `x` given by its bit pattern.
abbrev pub long_positive : ℕ → Bool
long_positive n = ltb 0 n && ltb n (2 ^ 31)

-- The LONG that a 32-bit pattern stands for.
abbrev pub signed32 : ℕ → ℤ
signed32 w = if ltb w (2 ^ 31) then pos w else negsuc (2 ^ 32 - w - 1)

pub dec32-inc32 : (n : ℕ) → n < 2 ^ 32 → dec32 (inc32 n) ≡ n
dec32-inc32 n h = omega arith
