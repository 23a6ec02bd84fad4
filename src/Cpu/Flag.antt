-- ===== src/Cpu/Flag.antt =====
-- include/cpu/flag.h: the condition bits in the register F.
use emu_gb.Base.{
  ℕ, ◌*◌, ◌^◌, Bool, if◌then◌else◌, u8, to_ℕ, to_bool, complement, update, bit_and, bit_or,
}
use emu_gb.Cpu.{Cpu, reg_f}

abbrev pub flag_z : ℕ
flag_z = 0x80

abbrev pub flag_n : ℕ
flag_n = 0x40

abbrev pub flag_h : ℕ
flag_h = 0x20

abbrev pub flag_c : ℕ
flag_c = 0x10

unfoldable pub set_flag : ℕ → Bool → Cpu → Cpu
set_flag flag value c =
    if value
    then record c { r8 = update c.r8 reg_f (u8 (bit_or (c.r8 reg_f) flag)) }
    else record c { r8 = update c.r8 reg_f (u8 (bit_and (c.r8 reg_f) (complement flag))) }

unfoldable pub set_all_flags : Bool → Bool → Bool → Bool → Cpu → Cpu
set_all_flags z n h cy c = record c {
  r8 = update c.r8 reg_f (
      u8 (
        bit_or (bit_or (bit_or (to_ℕ z * 2 ^ 7) (to_ℕ n * 2 ^ 6)) (to_ℕ h * 2 ^ 5))
          (to_ℕ cy * 2 ^ 4)));
}

unfoldable pub get_flag : ℕ → Cpu → Bool
get_flag flag c = to_bool (bit_and (c.r8 reg_f) flag)
