-- ===== src/Instruction/Alu/Operand.antt =====
-- Where an 8-bit operation of src/cpu/instruction.c takes its operand from.
use emu_gb.Base.{ℕ, refl, ◌<◌, ◌≡◌, ◌⊎◌, arith, false, ◌||◌, if◌then◌else◌}
use emu_gb.Cpu.{Cpu, reg_a, read_register, read_register_16bit}
use emu_gb.Instruction.{Instruction, operand_number, has_type, a_r8, a_d8, a_hl_rel, hl_r16, sp_s8}

-- A byte register.
abbrev pub Register : Instruction → Cpu → ℕ → Type 0
Register i c b = (i.operands ≡ a_r8) × (i.reg2 < 8) × (c.r8 i.reg2 ≡ b)

-- A value that was read with the instruction: an immediate byte, or the byte at HL.
abbrev pub Loaded : Instruction → ℕ → Type 0
Loaded i b = ((i.operands ≡ a_d8) ⊎ (i.operands ≡ a_hl_rel)) × (i.value ≡ b)

-- The instruction works on A and the byte `b`.
pub record OnBytes (i : Instruction) (c : Cpu) (b : ℕ) : Type 0 where
  pub target : i.reg1 ≡ reg_a
  pub source : Register i c b ⊎ Loaded i b
  pub a_byte : c.r8 reg_a < 256
  pub b_byte : b < 256

pub read_register_r8 : (k : ℕ) (c : Cpu) → k < 8 → read_register k c ≡ c.r8 k
unfolding read_register
read_register_r8 k c h = ground arith

pub read_register_16bit_r8 : (k : ℕ) (c : Cpu) → k < 8 → read_register_16bit k c ≡ c.r8 k
unfolding read_register_16bit
read_register_16bit_r8 k c h = ground arith

module _ {i : Instruction} {c : Cpu} {b : ℕ} (on : OnBytes i c b) where
  pub target_value : read_register_16bit i.reg1 c ≡ c.r8 reg_a
  unfolding read_register_16bit
  target_value = rw on.target

  pub add_source :
      (if has_type i a_r8 || has_type i hl_r16 then read_register_16bit i.reg2 c else i.value) ≡ b
  unfolding operand_number
  add_source = ground (arith, on.source, read_register_16bit_r8 i.reg2 c)

  pub sub_source : (if has_type i a_r8 then read_register i.reg2 c else i.value) ≡ b
  unfolding operand_number
  sub_source = ground (arith, on.source, read_register_r8 i.reg2 c)

  pub adc_source :
      (if has_type i a_hl_rel || has_type i a_d8 then i.value else read_register_16bit i.reg2 c) ≡ b
  unfolding operand_number
  adc_source = ground (arith, on.source, read_register_16bit_r8 i.reg2 c)

  pub is_hl_r16 : has_type i hl_r16 ≡ false
  unfolding operand_number
  is_hl_r16 = ground (arith, on.source)

  pub is_sp_s8 : has_type i sp_s8 ≡ false
  unfolding operand_number
  is_sp_s8 = ground (arith, on.source)

  pub byte_target : read_register i.reg1 c ≡ c.r8 reg_a
  unfolding read_register
  byte_target = rw on.target

  pub a_value : read_register reg_a c ≡ c.r8 reg_a
  unfolding read_register
  a_value = refl
