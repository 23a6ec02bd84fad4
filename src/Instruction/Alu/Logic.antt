-- ===== src/Instruction/Alu/Logic.antt =====
-- What `and`, `or` and `xor` of src/cpu/instruction.c compute on bytes.
use emu_gb.Base.{ℕ, ◌≡◌, true, false, arith, ◌==◌, u8, bit_and, bit_or, bit_xor}
use emu_gb.Cpu.{Cpu, reg_a}
use emu_gb.Cpu.View.{flags, Computes, cpu_laws}
use emu_gb.Instruction.{Instruction}
use emu_gb.Instruction.Alu.{and, or, xor, operand}
use emu_gb.Instruction.Alu.Operand.{OnBytes, a_value, sub_source}

u8-u8 : (v : ℕ) → u8 (u8 v) ≡ u8 v
u8-u8 v = omega arith

module _ {i : Instruction} {c : Cpu} {b : ℕ} (on : OnBytes i c b) where
  -- A becomes the operation of A and the byte, bit by bit; Z tells a zero result, `AND` sets H, and the
  -- other flags are cleared. Nothing but A and F changes.
  pub and_lem :
      let v = bit_and (c.r8 reg_a) b in
      Computes (and i c) c (u8 v) (flags (v == 0) false true false)
  unfolding and operand
  and_lem = (
    simp (a_value on, sub_source on, cpu_laws, u8-u8),
    simp (a_value on, sub_source on, cpu_laws, u8-u8),
  )

  pub or_lem :
      let v = bit_or (c.r8 reg_a) b in Computes (or i c) c (u8 v) (flags (v == 0) false false false)
  unfolding or operand
  or_lem = (
    simp (a_value on, sub_source on, cpu_laws, u8-u8),
    simp (a_value on, sub_source on, cpu_laws, u8-u8),
  )

  pub xor_lem :
      let v = bit_xor (c.r8 reg_a) b in
      Computes (xor i c) c (u8 v) (flags (v == 0) false false false)
  unfolding xor operand
  xor_lem = (
    simp (a_value on, sub_source on, cpu_laws, u8-u8),
    simp (a_value on, sub_source on, cpu_laws, u8-u8),
  )
