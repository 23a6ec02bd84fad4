-- ===== src/Instruction/Alu/Sums.antt =====
-- What `add`, `adc`, `sub`, `sbc` and `cp` of src/cpu/instruction.c compute on bytes.
use emu_gb.Base.{ℕ, ◌+◌, ◌-◌, ◌%◌, ◌≤◌, ◌≡◌, Bool, true, false, arith, ◌==◌, ltb, u8, to_ℕ}
use emu_gb.Cpu.{Cpu, reg_a}
use emu_gb.Cpu.Flag.{get_flag, flag_c}
use emu_gb.Cpu.View.{flags, flags_of, forget_flags, Computes, cpu_laws}
use emu_gb.Instruction.{Instruction}
use emu_gb.Instruction.Alu.{add, adc, sub, sbc, cp, operand}
use emu_gb.Instruction.Alu.Operand.{
  OnBytes, target_value, byte_target, a_value, add_source, sub_source, adc_source, is_hl_r16,
  is_sp_s8,
}

-- The carry as a number.
abbrev pub carry_in : Cpu → ℕ
carry_in c = to_ℕ (get_flag flag_c c)

pub carry_in-le : (v : Bool) → to_ℕ v ≤ 1
carry_in-le true = omega arith
carry_in-le false = omega arith

module _ {i : Instruction} {c : Cpu} {b : ℕ} (on : OnBytes i c b) where
  -- `ADD` of a byte, from a register, the instruction or the cell at HL, to a byte in A. A becomes the
  -- sum modulo 256; Z tells a zero result, H a carry out of bit 3, C a carry
  -- out of bit 7, and N is cleared. Nothing but A and F changes.
  pub add_lem :
      let a = c.r8 reg_a in
      Computes
        (add i c)
        c
        (u8 (a + b))
        (flags (u8 (a + b) == 0) false (ltb 15 (a % 16 + b % 16)) (ltb 255 (a + b)))
  unfolding add
  add_lem = (
    simp (target_value on, add_source on)
        (simp (is_hl_r16 on, is_sp_s8 on, on.target, cpu_laws)
          (ground (arith, on.a_byte, on.b_byte))),
    simp (target_value on, add_source on)
        (simp (is_hl_r16 on, is_sp_s8 on, on.target, cpu_laws)
          (ground (arith, on.a_byte, on.b_byte))),
  )

  -- `ADC` of a byte to a byte in A: as `ADD`, with the carry flag added.
  pub adc_lem :
      let a = c.r8 reg_a in
      let k = carry_in c in
      Computes
        (adc i c)
        c
        (u8 (a + b + k))
        (flags (u8 (a + b + k) == 0) false (ltb 15 (a % 16 + b % 16 + k)) (ltb 255 (a + b + k)))
  unfolding adc
  adc_lem = (
    simp (target_value on, adc_source on)
        (simp (on.target, cpu_laws)
          (ground (arith, on.a_byte, on.b_byte, carry_in-le (get_flag flag_c c)))),
    simp (target_value on, adc_source on)
        (simp (on.target, cpu_laws)
          (ground (arith, on.a_byte, on.b_byte, carry_in-le (get_flag flag_c c)))),
  )

  -- `SUB` of a byte from a byte in A: A becomes the difference modulo 256; Z tells equal operands, H a borrow from bit 4, C a
  -- borrow, and N is set.
  pub sub_lem :
      let a = c.r8 reg_a in
      Computes
        (sub i c)
        c
        (u8 (a + 256 - b))
        (flags (a == b) true (ltb (a % 16) (b % 16)) (ltb a b))
  unfolding sub
  sub_lem = (
    simp (target_value on, sub_source on)
        (simp (on.target, cpu_laws) (ground (arith, on.a_byte, on.b_byte))),
    simp (target_value on, sub_source on)
        (simp (on.target, cpu_laws) (ground (arith, on.a_byte, on.b_byte))),
  )

  -- `SBC` of a byte from a byte in A: as `SUB`, with the carry flag taken off as well; Z tells a zero
  -- result.
  pub sbc_lem :
      let a = c.r8 reg_a in
      let k = carry_in c in
      Computes
        (sbc i c)
        c
        (u8 (a + 256 - b - k))
        (flags (u8 (a + 256 - b - k) == 0) true (ltb (a % 16) (b % 16 + k)) (ltb a (b + k)))
  unfolding sbc
  sbc_lem = (
    simp (byte_target on, adc_source on)
        (simp (on.target, cpu_laws)
          (ground (arith, on.a_byte, on.b_byte, carry_in-le (get_flag flag_c c)))),
    simp (byte_target on, adc_source on)
        (simp (on.target, cpu_laws)
          (ground (arith, on.a_byte, on.b_byte, carry_in-le (get_flag flag_c c)))),
  )

  -- `CP` of a byte with a byte in A: the flags are those of `SUB`, and nothing but F changes.
  pub cp_lem :
      let a = c.r8 reg_a in
      (flags_of (cp i c) ≡ flags_of (sub i c)) × (forget_flags (cp i c) ≡ forget_flags c)
  unfolding cp operand
  cp_lem = (
    rw (sub_lem.0)
        (simp (a_value on, sub_source on) (simp cpu_laws (ground (arith, on.a_byte, on.b_byte)))),
    simp cpu_laws,
  )
