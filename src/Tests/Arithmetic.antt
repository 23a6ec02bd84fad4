-- ===== src/Tests/Arithmetic.antt =====
-- Arithmetic on A = 0x45 and B = 0x38, with the carry set.
use emu_gb.Base.{refl, arith, inl, true, false}
use emu_gb.Cpu.Flag.{get_flag}
use emu_gb.Cpu.View.{flags, Computes}
use emu_gb.Instruction.Alu.{adc, sbc, daa}
use emu_gb.Instruction.Alu.Operand.{OnBytes}
use emu_gb.Instruction.Alu.Decimal.{daa-adc, daa-sbc}
use emu_gb.Tests.Data.{cpu, with_b}

on_a_and_b : OnBytes with_b cpu 0x38
on_a_and_b = record {
  target = refl;
  source = inl (refl, omega arith, refl);
  a_byte = omega arith;
  b_byte = omega arith;
}

-- 45 + 38 + 1 = 84, and 45 - 38 - 1 = 6.
daa-adc_example : Computes (daa (adc with_b cpu)) cpu 0x84 (flags false false false false)
unfolding get_flag
daa-adc_example = daa-adc 45 38 (omega arith) (omega arith) on_a_and_b refl

daa-sbc_example : Computes (daa (sbc with_b cpu)) cpu 0x06 (flags false true false false)
unfolding get_flag
daa-sbc_example = daa-sbc 45 38 (omega arith) (omega arith) on_a_and_b refl
