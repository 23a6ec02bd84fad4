-- ===== src/Soundness/Registers.antt =====
-- The registers and the flags of src/cpu/cpu.c and include/cpu/flag.h stay in their widths.
use emu_gb.Base.{
  ℕ, ◌==◌, ◌+◌, ◌*◌, ◌%◌, Bool, true, false, arith, update, IsByte, IsWord, ltb, u8, u16, lsb, msb,
  if_both,
}
use emu_gb.Cpu.{
  Cpu, is_16bit, reg_pc, reg_sp, reg_af, set_byte, write_register, write_register_16bit, reset_cpu,
}
use emu_gb.Cpu.Flag.{set_flag, set_all_flags}
use emu_gb.Soundness.{IsCpu}

pub update-IsByte :
    (f : ℕ → ℕ) (k v : ℕ) → ((j : ℕ) → IsByte (f j)) → IsByte v → (j : ℕ) → IsByte (update f k v j)
update-IsByte f k v h hv j = ground (arith, h j)

pub set_r8-IsCpu :
    (k v : ℕ) (c : Cpu) → IsByte v → IsCpu c → IsCpu (record c { r8 = update c.r8 k v })
set_r8-IsCpu k v c hv h = record {
  r8_byte = update-IsByte c.r8 k v h.r8_byte hv;
  pc_word = h.pc_word;
  sp_word = h.sp_word;
  memory_byte = h.memory_byte;
}

set_pc-IsCpu : (v : ℕ) (c : Cpu) → IsWord v → IsCpu c → IsCpu (record c { pc = v })
set_pc-IsCpu v c hv h = record {
  r8_byte = h.r8_byte;
  pc_word = hv;
  sp_word = h.sp_word;
  memory_byte = h.memory_byte;
}

set_sp-IsCpu : (v : ℕ) (c : Cpu) → IsWord v → IsCpu c → IsCpu (record c { sp = v })
set_sp-IsCpu v c hv h = record {
  r8_byte = h.r8_byte;
  pc_word = h.pc_word;
  sp_word = hv;
  memory_byte = h.memory_byte;
}

set_memory-IsCpu :
    (k v : ℕ) (c : Cpu) → IsByte v → IsCpu c → IsCpu (record c { memory = update c.memory k v })
set_memory-IsCpu k v c hv h = record {
  r8_byte = h.r8_byte;
  pc_word = h.pc_word;
  sp_word = h.sp_word;
  memory_byte = update-IsByte c.memory k v h.memory_byte hv;
}

pub set_byte-IsCpu : (k v : ℕ) (c : Cpu) → IsByte v → IsCpu c → IsCpu (set_byte k v c)
unfolding set_byte
set_byte-IsCpu k v c hv h =
    let pc = h.pc_word in
    let sp = h.sp_word in
    if_both IsCpu (ltb k 8) _ _ (set_r8-IsCpu k v c hv h) (
      if_both IsCpu (k == 8) _ _ (set_pc-IsCpu _ c (omega arith) h) (
        if_both IsCpu (k == 9) _ _ (set_pc-IsCpu _ c (omega arith) h) (
          if_both IsCpu (k == 10) _ _ (set_sp-IsCpu _ c (omega arith) h) (
            if_both IsCpu (k == 11) _ _ (set_sp-IsCpu _ c (omega arith) h)
              (set_memory-IsCpu _ v c hv h)))))

pub write_register-IsCpu : (reg v : ℕ) (c : Cpu) → IsCpu c → IsCpu (write_register reg v c)
unfolding write_register
write_register-IsCpu reg v c h =
    let byte : IsByte (u8 v) = omega arith in
    if_both IsCpu (is_16bit reg) _ _
      (if_both IsCpu (reg == reg_pc) _ _ (set_pc-IsCpu _ c (omega arith) h) (
        if_both IsCpu (reg == reg_sp) _ _ (set_sp-IsCpu _ c (omega arith) h)
          (set_byte-IsCpu (2 * (reg % reg_af) + 1) (u8 v) c byte h)))
      (set_byte-IsCpu reg (u8 v) c byte h)

pub write_register_16bit-IsCpu :
    (reg v : ℕ) (c : Cpu) → IsCpu c → IsCpu (write_register_16bit reg v c)
unfolding write_register_16bit
write_register_16bit-IsCpu reg v c h =
    let word : IsWord (u16 v) = omega arith in
    let low : IsByte (lsb (u16 v)) = omega arith in
    let high : IsByte (msb (u16 v)) = omega arith in
    if_both IsCpu (is_16bit reg) _ _
      (if_both IsCpu (reg == reg_pc) _ _ (set_pc-IsCpu _ c word h) (
        if_both IsCpu (reg == reg_sp) _ _ (set_sp-IsCpu _ c word h) (
          set_byte-IsCpu (2 * (reg % reg_af) + 1) _ _ low
            (set_byte-IsCpu (2 * (reg % reg_af)) _ c high h))))
      (set_byte-IsCpu reg _ c low h)

pub set_flag-IsCpu : (flag : ℕ) (b : Bool) (c : Cpu) → IsCpu c → IsCpu (set_flag flag b c)
unfolding set_flag
set_flag-IsCpu flag true c h = set_r8-IsCpu _ _ c (omega arith) h
set_flag-IsCpu flag false c h = set_r8-IsCpu _ _ c (omega arith) h

pub set_all_flags-IsCpu : (z n hf cy : Bool) (c : Cpu) → IsCpu c → IsCpu (set_all_flags z n hf cy c)
unfolding set_all_flags
set_all_flags-IsCpu z n hf cy c h = set_r8-IsCpu _ _ c (omega arith) h

pub reset_cpu-IsCpu : (c : Cpu) → IsCpu c → IsCpu (reset_cpu c)
unfolding reset_cpu
reset_cpu-IsCpu c h = record {
  r8_byte = λ j. ground (arith, h.r8_byte j);
  pc_word = omega arith;
  sp_word = omega arith;
  memory_byte = h.memory_byte;
}
