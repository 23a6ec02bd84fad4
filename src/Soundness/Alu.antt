-- ===== src/Soundness/Alu.antt =====
-- The handlers of src/cpu/instruction.c that change the CPU alone keep its registers in their widths.
use emu_gb.Base.{Bool, true, false, if◌then◌else◌}
use emu_gb.Cpu.{Cpu}
use emu_gb.Instruction.{Instruction}
use emu_gb.Instruction.Alu.{add, adc, sub, sbc, and, or, xor, cp, ccf, scf, daa, cpl}
use emu_gb.Instruction.Rotate.{rla, rlca, rra, rrca}
use emu_gb.Soundness.{IsCpu}
use emu_gb.Soundness.Registers.{
  write_register-IsCpu, write_register_16bit-IsCpu, set_flag-IsCpu, set_all_flags-IsCpu,
}

pub if-IsCpu : (b : Bool) (c d : Cpu) → IsCpu c → IsCpu d → IsCpu (if b then c else d)
if-IsCpu true c d h k = h
if-IsCpu false c d h k = k

pub ruleset cpu_rules = (
  if-IsCpu, write_register-IsCpu, write_register_16bit-IsCpu, set_flag-IsCpu, set_all_flags-IsCpu,
)

module _ (i : Instruction) (c : Cpu) (h : IsCpu c) where
  pub add-IsCpu : IsCpu (add i c)
  unfolding add
  add-IsCpu = search cpu_rules depth 9

  pub adc-IsCpu : IsCpu (adc i c)
  unfolding adc
  adc-IsCpu = search cpu_rules

  pub sub-IsCpu : IsCpu (sub i c)
  unfolding sub
  sub-IsCpu = search cpu_rules

  pub sbc-IsCpu : IsCpu (sbc i c)
  unfolding sbc
  sbc-IsCpu = search cpu_rules

  pub and-IsCpu : IsCpu (and i c)
  unfolding and
  and-IsCpu = search cpu_rules

  pub or-IsCpu : IsCpu (or i c)
  unfolding or
  or-IsCpu = search cpu_rules

  pub xor-IsCpu : IsCpu (xor i c)
  unfolding xor
  xor-IsCpu = search cpu_rules

  pub cp-IsCpu : IsCpu (cp i c)
  unfolding cp
  cp-IsCpu = search cpu_rules

module _ (c : Cpu) (h : IsCpu c) where
  pub ccf-IsCpu : IsCpu (ccf c)
  unfolding ccf
  ccf-IsCpu = search cpu_rules

  pub scf-IsCpu : IsCpu (scf c)
  unfolding scf
  scf-IsCpu = search cpu_rules

  pub daa-IsCpu : IsCpu (daa c)
  unfolding daa
  daa-IsCpu = search cpu_rules

  pub cpl-IsCpu : IsCpu (cpl c)
  unfolding cpl
  cpl-IsCpu = search cpu_rules

  pub rla-IsCpu : IsCpu (rla c)
  unfolding rla
  rla-IsCpu = search cpu_rules

  pub rlca-IsCpu : IsCpu (rlca c)
  unfolding rlca
  rlca-IsCpu = search cpu_rules

  pub rra-IsCpu : IsCpu (rra c)
  unfolding rra
  rra-IsCpu = search cpu_rules

  pub rrca-IsCpu : IsCpu (rrca c)
  unfolding rrca
  rrca-IsCpu = search cpu_rules
