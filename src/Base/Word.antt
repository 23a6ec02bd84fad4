-- ===== src/Base/Word.antt =====
-- The fixed widths of include/utils/types.h and the byte macros of include/utils/macro.h.
use Prim.Native.Nat.{ℕ, ◌+◌, ◌-◌, ◌/◌, ◌%◌, ◌^◌, ◌<◌}
use mathlib.Core.Bool.{Bool}
use emu_gb.Base.Tests.{ltb, ◌==◌, if◌then◌else◌}

-- Conversions to `u8` and `u16`.
abbrev pub u8 : ℕ → ℕ
u8 n = n % 256

abbrev pub u16 : ℕ → ℕ
u16 n = n % 65536

abbrev pub msb : ℕ → ℕ
msb x = x / 256

abbrev pub lsb : ℕ → ℕ
lsb x = x % 256

-- `BIT(x, n)`.
abbrev pub bit : ℕ → ℕ → ℕ
bit x n = x / 2 ^ n % 2

-- The test of a mask with the one bit `n`.
abbrev pub has_bit : ℕ → ℕ → Bool
has_bit x n = bit x n == 1

-- A mask of the `k` low bits.
abbrev pub low_bits : ℕ → ℕ → ℕ
low_bits x k = x % 2 ^ k

-- `(i8)x` added to a 16-bit value: the sign is extended to 16 bits, and the sum wraps.
abbrev pub sign_extend : ℕ → ℕ
sign_extend x = if ltb (u8 x) 128 then u8 x else u8 x + 65280

abbrev pub IsByte : ℕ → Type 0
IsByte n = n < 256

abbrev pub IsWord : ℕ → Type 0
IsWord n = n < 65536

-- `~x` on a C `int`, as its 32 bits.
abbrev pub complement : ℕ → ℕ
complement x = 4294967295 - x
