-- ===== src/Cpu/Flags.antt =====
-- The condition bits of include/cpu/flag.h do not disturb one another.
use emu_gb.Base.{ℕ, ◌≡◌, Bool, true, false, arith, if◌then◌else◌}
use emu_gb.Base.Bits.{
  bit_and_16, bit_and_32, bit_and_64, bit_and_128, bit_or_16, bit_or_32, bit_or_64, bit_or_128,
  clear_16, clear_32, clear_64, clear_128,
}
use emu_gb.Cpu.{Cpu}
use emu_gb.Cpu.Flag.{flag_z, flag_n, flag_h, flag_c, set_flag, get_flag}

pub data FlagName : Type 0 where
  z n h cy : FlagName

-- The mask of a flag.
abbrev pub mask : FlagName → ℕ
mask z = flag_z
mask n = flag_n
mask h = flag_h
mask cy = flag_c

abbrev pub same : FlagName → FlagName → Bool
same z z = true
same n n = true
same h h = true
same cy cy = true
same _ _ = false

ruleset bit_laws = (
  bit_and_16, bit_and_32, bit_and_64, bit_and_128, bit_or_16, bit_or_32, bit_or_64, bit_or_128,
  clear_16, clear_32, clear_64, clear_128,
)

-- A flag that is set or cleared reads as it was written, and the other three as before.
pub get_flag-set_flag :
    (f g : FlagName) (v : Bool) (c : Cpu)
    → get_flag (mask g) (set_flag (mask f) v c) ≡ (if same f g then v else get_flag (mask g) c)
unfolding get_flag set_flag
get_flag-set_flag z z true c = simp bit_laws (ground arith)
get_flag-set_flag n z true c = simp bit_laws (ground arith)
get_flag-set_flag h z true c = simp bit_laws (ground arith)
get_flag-set_flag cy z true c = simp bit_laws (ground arith)
get_flag-set_flag _ _ _ c = simp bit_laws (ground arith)
