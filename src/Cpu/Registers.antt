-- ===== src/Cpu/Registers.antt =====
-- The laws of the register file of src/cpu/cpu.c, the pairs AF, BC, DE and HL included.
use emu_gb.Base.{
  ℕ, zero, suc, ◌+◌, ◌-◌, ◌*◌, ◌<◌, ◌≡◌, arith, ◌==◌, leb, ◌&&◌, if◌then◌else◌, u16, lsb, msb,
}
use emu_gb.Cpu.{
  Cpu, reg_pc, reg_sp, reg_af, reg_err, is_16bit, read_register, read_register_16bit,
  write_register_16bit,
}

-- A value that fits the register.
abbrev pub Fits : ℕ → ℕ → Type 0
Fits reg v = v < (if is_16bit reg then 65536 else 256)

-- A register other than ERR, of either width, reads as it was written, if the value fits it.
pub read_register_16bit-write_register_16bit :
    (reg v : ℕ) (c : Cpu)
    → reg < reg_err
    → Fits reg v
    → read_register_16bit reg (write_register_16bit reg v c) ≡ v
unfolding read_register_16bit write_register_16bit
read_register_16bit-write_register_16bit
      (suc (suc (suc (suc (suc (suc (suc (suc (suc (suc (suc (suc (suc zero))))))))))))) v c named
      fits =
    ground arith
read_register_16bit-write_register_16bit _ v c named fits = ground arith

-- The byte registers of the pair `reg`.
abbrev pub high_of : ℕ → ℕ
high_of reg = 2 * (reg - reg_af)

abbrev pub low_of : ℕ → ℕ
low_of reg = 2 * (reg - reg_af) + 1

-- A write of a register other than ERR leaves in each byte register: its low byte, where this is the
-- register; the high or the low byte, where it is a half of the written pair; else what was there.
pub read_register-write_register_16bit :
    (reg k v : ℕ) (c : Cpu)
    → reg < reg_err
    → k < 8
    → read_register k (write_register_16bit reg v c) ≡ (
        if reg == k
        then lsb (u16 v)
        else if leb reg_af reg && k == high_of reg
        then msb (u16 v)
        else if leb reg_af reg && k == low_of reg
        then lsb (u16 v)
        else read_register k c)
unfolding read_register write_register_16bit
read_register-write_register_16bit
      (suc (suc (suc (suc (suc (suc (suc (suc (suc (suc (suc (suc (suc zero))))))))))))) k v c named
      byte =
    ground arith
read_register-write_register_16bit _ k v c named byte = ground arith

-- Only a write of PC changes PC, and only a write of SP changes SP.
pub write_register_16bit-pc_sp :
    (reg v : ℕ) (c : Cpu)
    → reg < reg_err
    → ((write_register_16bit reg v c).pc ≡ (if reg == reg_pc then u16 v else c.pc))
      × ((write_register_16bit reg v c).sp ≡ (if reg == reg_sp then u16 v else c.sp))
unfolding write_register_16bit
write_register_16bit-pc_sp reg v c named = (ground arith, ground arith)
