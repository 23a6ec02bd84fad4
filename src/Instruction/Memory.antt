-- ===== src/Instruction/Memory.antt =====
-- src/cpu/instruction.c: loads, the stack, and the increments.
use emu_gb.Base.{
  ℕ, ◌+◌, ◌==◌, true, false, Outcome, ok, ◌>>=◌, ltb, if◌then◌else◌, u8, u16, low_bits, has_bit,
  sign_extend, update, bit_and,
}
use emu_gb.Cpu.{
  Cpu, reg_f, reg_sp, reg_hl, is_16bit, read_register, read_register_16bit, write_register,
  write_register_16bit,
}
use emu_gb.Cpu.Flag.{flag_z, flag_n, flag_h, flag_c, set_flag, set_all_flags}
use emu_gb.Machine.{Machine, on_cpu}
use emu_gb.Timer.Ticks.{timer_tick, timer_ticks}
use emu_gb.Memory.{read_memory, write_memory, write_memory_16bit}
use emu_gb.Stack.{stack_push_16bit, stack_pop_16bit}
use emu_gb.Instruction.{
  Instruction, is_dst_register, has_type, sp_hl, r8_r8, d16_rel_sp, hl_rel_d8, hl_s8, hl_rel, r16,
}

-- `LD HL, SP + s8`, the first branch of `ld`.
unfoldable pub ld_hl_s8 : Instruction → Machine → Machine
ld_hl_s8 i m =
    let val = read_register_16bit reg_sp m.cpu in
    on_cpu
      (λ c.
        let c1 = write_register_16bit reg_hl (u16 (val + sign_extend i.value)) c in
        let c2 = set_all_flags false false false false c1 in
        let c3 = set_flag flag_c (has_bit (low_bits val 8 + low_bits i.value 8) 8) c2 in
        set_flag flag_h (has_bit (low_bits val 4 + low_bits i.value 4) 4) c3)
      (timer_tick m)

abbrev pub copy_register : Instruction → Machine → Machine
copy_register i m = on_cpu (write_register_16bit i.reg1 (read_register_16bit i.reg2 m.cpu)) m

-- The `switch` of `ld`.
unfoldable pub ld_by_type : Instruction → Machine → Outcome Machine
ld_by_type i m =
    if has_type i sp_hl
    then ok (copy_register i (timer_tick m))
    else if has_type i r8_r8
    then ok (copy_register i m)
    else if has_type i d16_rel_sp
    then write_memory_16bit i.address i.value (timer_ticks 2 m)
    else if has_type i hl_rel_d8
    then write_memory i.address i.value (timer_tick m)
    else if is_dst_register i.operands
    then ok (on_cpu (write_register_16bit i.reg1 i.value) m)
    else (let m1 = timer_tick m in write_memory i.address (read_register i.reg1 m1.cpu) m1)

unfoldable pub ld : Instruction → Machine → Outcome Machine
unfolding ld_hl_s8 ld_by_type
ld i m = if has_type i hl_s8 then ok (ld_hl_s8 i m) else ld_by_type i m

unfoldable pub ldh : Instruction → Machine → Outcome Machine
ldh i m =
    if is_dst_register i.operands
    then ok (on_cpu (write_register i.reg1 i.value) m)
    else write_memory i.address (read_register_16bit i.value m.cpu) m

unfoldable pub push : Instruction → Machine → Outcome Machine
push i m = let m1 = timer_tick m in stack_push_16bit (read_register_16bit i.reg1 m1.cpu) m1

-- The unused bits of F.
unfoldable pub clear_unused : Cpu → Cpu
clear_unused c = record c { r8 = update c.r8 reg_f (bit_and (c.r8 reg_f) 0xF0) }

unfoldable pub pop : Instruction → Machine → Outcome Machine
unfolding clear_unused
pop i m = do
  (val, m1) ← stack_pop_16bit m
  ok (on_cpu (λ c. clear_unused (write_register_16bit i.reg1 val c)) m1)

-- `(in.type == HL_REL) ? read_memory(in.address) : read_register_16bit(in.reg1)`.
unfoldable pub base_value : Instruction → Machine → Outcome ℕ
base_value i m =
    if has_type i hl_rel then read_memory i.address m else ok (read_register_16bit i.reg1 m.cpu)

-- The store of `inc` and `dec`, which adds `n` to what the operand holds.
unfoldable pub add_to_operand : ℕ → Instruction → Machine → Outcome Machine
add_to_operand n i m =
    if has_type i hl_rel
    then (do
      let m1 = timer_ticks 2 m
      val ← read_memory i.address m1
      write_memory i.address (u8 (val + n)) m1)
    else (let m1 = if is_16bit i.reg1 then timer_tick m else m in
        ok (on_cpu (write_register_16bit i.reg1 (u16 (read_register_16bit i.reg1 m1.cpu + n))) m1))

-- The flags of `inc` and of `dec`, which an operand of 16 bits leaves alone.
unfoldable pub inc_flags : ℕ → Cpu → Cpu
inc_flags base c =
    set_flag flag_h (ltb 0xF (low_bits base 4 + 1))
      (set_flag flag_z (low_bits base 8 == 0xFF) (set_flag flag_n false c))

unfoldable pub dec_flags : ℕ → Cpu → Cpu
dec_flags base c =
    set_flag flag_h (low_bits (base + 15) 4 == 0x0F)
      (set_flag flag_n true (set_flag flag_z (base == 1) c))

unfoldable pub inc : Instruction → Machine → Outcome Machine
unfolding base_value add_to_operand inc_flags
inc i m = do
  base ← base_value i m
  m1 ← add_to_operand 1 i m
  ok (if has_type i r16 then m1 else on_cpu (inc_flags base) m1)

-- `- 1` on the width of the operand.
unfoldable pub dec : Instruction → Machine → Outcome Machine
unfolding base_value add_to_operand dec_flags
dec i m = do
  base ← base_value i m
  m1 ← add_to_operand 65535 i m
  ok (if has_type i r16 then m1 else on_cpu (dec_flags base) m1)
