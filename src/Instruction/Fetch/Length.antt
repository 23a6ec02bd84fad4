-- ===== src/Instruction/Fetch/Length.antt =====
-- How far `fetch_instruction` of src/cpu/instruction_fetch.c moves PC.
use emu_gb.Base.{
  ℕ, ◌+◌, ◌<◌, ◌≡◌, arith, ◌∙◌, ap, Outcome, ok, err, Ensures, >>=-Ensures, after_any, u16,
}
use emu_gb.Cpu.{reg_c, read_register_16bit, Cpu, reg_hl, read_register}
use emu_gb.Cpu.Registers.{write_register_16bit-pc_sp}
use emu_gb.Machine.{Machine}
use emu_gb.Timer.Ticks.{timer_tick}
use emu_gb.Timer.Frame.{timer_tick-cpu}
use emu_gb.Memory.{read_memory, read_memory_16bit}
use emu_gb.Stack.{read_8bit_data, read_16bit_data}
use emu_gb.Instruction.{
  opcode_p, OperandType, err_operand, no_operand, r8, r16, a16, hl_rel, s8, flag_operand,
  rst_operand, d8, flag_a16, flag_s8, r8_r8, r8_d8, r8_hl_rel, a_r16_rel, a_d16_rel, r16_d16, sp_hl,
  sp_s8, a_hld, a_hli, a_c_rel, a_d8_rel, a_r8, a_d8, a_hl_rel, hl_r16, hl_s8, hl_rel_r8, hl_rel_d8,
  r16_rel_a, d16_rel_a, d16_rel_sp, hld_a, hli_a, c_rel_a, d8_rel_a, Instruction, opcode_y,
  opcode_z,
}
use emu_gb.Instruction.Opcodes.{g_opcodes}
use emu_gb.Instruction.Fetch.{
  find_register_16bit, fetch_operands, fetch_instruction, find_register, with_value, with_address,
  read_later, read_later_16bit, set_hl, hl,
}

-- The bytes that follow an opcode, by the type of its operands.
abbrev pub operand_length : OperandType → ℕ
operand_length a16 = 2
operand_length flag_a16 = 2
operand_length a_d16_rel = 2
operand_length r16_d16 = 2
operand_length d16_rel_a = 2
operand_length d16_rel_sp = 2
operand_length s8 = 1
operand_length flag_s8 = 1
operand_length d8 = 1
operand_length r8_d8 = 1
operand_length a_d8 = 1
operand_length a_d8_rel = 1
operand_length hl_rel_d8 = 1
operand_length hl_s8 = 1
operand_length sp_s8 = 1
operand_length d8_rel_a = 1
operand_length _ = 0

-- PC is `k` bytes further, modulo its width.
abbrev pub Moved : {A : Type 0} → ℕ → Machine → A × Machine → Type 0
Moved k m r = r.1.cpu.pc ≡ u16 (m.cpu.pc + k)

tick-pc : (m : Machine) → (timer_tick m).cpu.pc ≡ m.cpu.pc
tick-pc m = ap (λ (c : Cpu). c.pc) (timer_tick-cpu m)

pub read_8bit_data-pc : (m : Machine) → Ensures (read_8bit_data m) (Moved 1 m)
unfolding read_8bit_data
read_8bit_data-pc m =
    after_any (Moved 1 m) (read_memory (timer_tick m).cpu.pc (timer_tick m)) _ (λ v. rw (tick-pc m))

pub read_16bit_data-pc : (m : Machine) → Ensures (read_16bit_data m) (Moved 2 m)
unfolding read_16bit_data
read_16bit_data-pc m =
    >>=-Ensures (Moved 1 m) (Moved 2 m) (read_8bit_data m) _ (read_8bit_data-pc m) (λ r moved.
      >>=-Ensures (Moved 1 r.1) (Moved 2 m) (read_8bit_data r.1) _ (read_8bit_data-pc r.1)
        (λ s moved'. omega arith))

with_value-pc :
    (k : ℕ) (m : Machine) (read : Outcome (ℕ × Machine)) (i : Instruction)
    → Ensures read (Moved k m)
    → Ensures (with_value read i) (Moved k m)
unfolding with_value
with_value-pc k m (ok r) i h = h
with_value-pc k m (err e) i h = tt

with_address-pc :
    (k : ℕ) (m : Machine) (read : Outcome (ℕ × Machine)) (i : Instruction)
    → Ensures read (Moved k m)
    → Ensures (with_address read i) (Moved k m)
unfolding with_address
with_address-pc k m (ok r) i h = h
with_address-pc k m (err e) i h = tt

module _ (m : Machine) (word : m.cpu.pc < 65536) where
  stays : m.cpu.pc ≡ u16 (m.cpu.pc + 0)
  stays = omega arith

  tick_stays : (timer_tick m).cpu.pc ≡ u16 (m.cpu.pc + 0)
  tick_stays = tick-pc m ∙ stays

  read_later-pc : (a : ℕ) → Ensures (read_later a m) (Moved 0 m)
  unfolding read_later
  read_later-pc a = after_any (Moved 0 m) (read_memory a (timer_tick m)) _ (λ v. tick_stays)

  read_later_16bit-pc : (a : ℕ) → Ensures (read_later_16bit a m) (Moved 0 m)
  unfolding read_later_16bit
  read_later_16bit-pc a =
      after_any (Moved 0 m) (read_memory_16bit a (timer_tick m)) _ (λ v. tick_stays)

  set_hl-pc :
      (v : ℕ) (m' : Machine)
      → m'.cpu.pc ≡ u16 (m.cpu.pc + 0)
      → (set_hl v m').cpu.pc ≡ u16 (m.cpu.pc + 0)
  unfolding set_hl
  set_hl-pc v m' h = (write_register_16bit-pc_sp reg_hl v m'.cpu (omega arith)).0 ∙ h

  from_tick :
      (k : ℕ) (m' : Machine)
      → m'.cpu.pc ≡ u16 ((timer_tick m).cpu.pc + k)
      → m'.cpu.pc ≡ u16 (m.cpu.pc + k)
  from_tick k m' h = rw (← tick-pc m) h

  -- Every type of operand moves PC by its length.
  fetch_operands-pc :
      (t : OperandType) (opcode : ℕ) (i : Instruction)
      → Ensures (fetch_operands t opcode i m) (Moved (operand_length t) m)
  unfolding fetch_operands
  fetch_operands-pc r8 opcode i =
      after_any (Moved 0 m) (find_register (opcode_y opcode)) _ (λ reg. stays)
  fetch_operands-pc r16 opcode i = stays
  fetch_operands-pc a16 opcode i = with_address-pc 2 m (read_16bit_data m) _ (read_16bit_data-pc m)
  fetch_operands-pc hl_rel opcode i = stays
  fetch_operands-pc flag_a16 opcode i =
      with_address-pc 2 m (read_16bit_data m) _ (read_16bit_data-pc m)
  fetch_operands-pc s8 opcode i = with_value-pc 1 m (read_8bit_data m) _ (read_8bit_data-pc m)
  fetch_operands-pc flag_s8 opcode i = with_value-pc 1 m (read_8bit_data m) _ (read_8bit_data-pc m)
  fetch_operands-pc flag_operand opcode i = stays
  fetch_operands-pc rst_operand opcode i = stays
  fetch_operands-pc d8 opcode i = with_value-pc 1 m (read_8bit_data m) _ (read_8bit_data-pc m)
  fetch_operands-pc r8_r8 opcode i =
      after_any (Moved 0 m) (find_register (opcode_y opcode)) _
        (λ to. after_any (Moved 0 m) (find_register (opcode_z opcode)) _ (λ from. stays))
  fetch_operands-pc r8_d8 opcode i =
      after_any (Moved 1 m) (find_register (opcode_y opcode)) _
        (λ reg. with_value-pc 1 m (read_8bit_data m) _ (read_8bit_data-pc m))
  fetch_operands-pc r8_hl_rel opcode i =
      after_any (Moved 0 m) (find_register (opcode_y opcode)) _ (λ reg.
        with_value-pc 0 m (read_later (hl (timer_tick m)) m) _ (read_later-pc (hl (timer_tick m))))
  fetch_operands-pc a_r16_rel opcode i =
      let from = find_register_16bit (opcode_p opcode) in
      let address = read_register_16bit from (timer_tick m).cpu in
      with_value-pc 0 m (read_later_16bit address m) _ (read_later_16bit-pc address)
  fetch_operands-pc a_d16_rel opcode i =
      >>=-Ensures (Moved 2 (timer_tick m)) (Moved 2 m) (read_16bit_data (timer_tick m)) _
        (read_16bit_data-pc (timer_tick m))
        (λ r moved.
          after_any (Moved 2 m) (read_memory_16bit r.0 r.1) _ (λ v. from_tick 2 r.1 moved))
  fetch_operands-pc r16_d16 opcode i =
      with_value-pc 2 m (read_16bit_data m) _ (read_16bit_data-pc m)
  fetch_operands-pc sp_hl opcode i = stays
  fetch_operands-pc a_hld opcode i =
      >>=-Ensures (Moved 0 m) (Moved 0 m) (read_later (hl (timer_tick m)) m) _
        (read_later-pc (hl (timer_tick m))) (λ r moved. set_hl-pc _ r.1 moved)
  fetch_operands-pc a_hli opcode i =
      >>=-Ensures (Moved 0 m) (Moved 0 m) (read_later (hl (timer_tick m)) m) _
        (read_later-pc (hl (timer_tick m))) (λ r moved. set_hl-pc _ r.1 moved)
  fetch_operands-pc a_c_rel opcode i =
      let address = read_register reg_c (timer_tick m).cpu + 0xFF00 in
      with_value-pc 0 m (read_later address m) _ (read_later-pc address)
  fetch_operands-pc a_d8_rel opcode i =
      >>=-Ensures (Moved 1 (timer_tick m)) (Moved 1 m) (read_8bit_data (timer_tick m)) _
        (read_8bit_data-pc (timer_tick m))
        (λ r moved.
          after_any (Moved 1 m) (read_memory (r.0 + 0xFF00) r.1) _ (λ v. from_tick 1 r.1 moved))
  fetch_operands-pc a_r8 opcode i =
      after_any (Moved 0 m) (find_register (opcode_z opcode)) _ (λ from. stays)
  fetch_operands-pc a_d8 opcode i = with_value-pc 1 m (read_8bit_data m) _ (read_8bit_data-pc m)
  fetch_operands-pc a_hl_rel opcode i =
      with_value-pc 0 m (read_later (hl (timer_tick m)) m) _ (read_later-pc (hl (timer_tick m)))
  fetch_operands-pc hl_r16 opcode i = stays
  fetch_operands-pc hl_s8 opcode i = with_value-pc 1 m (read_8bit_data m) _ (read_8bit_data-pc m)
  fetch_operands-pc sp_s8 opcode i = with_value-pc 1 m (read_8bit_data m) _ (read_8bit_data-pc m)
  fetch_operands-pc hl_rel_r8 opcode i =
      after_any (Moved 0 m) (find_register (opcode_z opcode)) _ (λ from. stays)
  fetch_operands-pc hl_rel_d8 opcode i =
      with_value-pc 1 m (read_8bit_data m) _ (read_8bit_data-pc m)
  fetch_operands-pc r16_rel_a opcode i = stays
  fetch_operands-pc d16_rel_a opcode i =
      with_address-pc 2 m (read_16bit_data m) _ (read_16bit_data-pc m)
  fetch_operands-pc d16_rel_sp opcode i =
      >>=-Ensures (Moved 2 m) (Moved 2 m) (read_16bit_data m) _ (read_16bit_data-pc m)
        (λ r moved. moved)
  fetch_operands-pc hld_a opcode i = set_hl-pc _ m stays
  fetch_operands-pc hli_a opcode i = set_hl-pc _ m stays
  fetch_operands-pc c_rel_a opcode i = stays
  fetch_operands-pc d8_rel_a opcode i =
      >>=-Ensures (Moved 1 m) (Moved 1 m) (read_8bit_data m) _ (read_8bit_data-pc m)
        (λ r moved. moved)
  fetch_operands-pc no_operand opcode i = stays
  fetch_operands-pc err_operand opcode i = stays

-- `fetch_instruction` moves PC by the length of the operands, and by nothing else.
pub fetch_instruction-pc :
    (opcode : ℕ) (m : Machine)
    → m.cpu.pc < 65536
    → Ensures (fetch_instruction opcode m) (Moved (operand_length (g_opcodes opcode).operands) m)
unfolding fetch_instruction
fetch_instruction-pc opcode m word = fetch_operands-pc m word (g_opcodes opcode).operands opcode _
