-- ===== src/Soundness/Fetch.antt =====
-- `fetch_instruction` of src/cpu/instruction_fetch.c, on any cartridge that meets the contract.
use emu_gb.Base.{ℕ, ◌+◌, ◌≡◌, refl, true, arith, ok, err, Outcome, Ends, >>=-Ends, not, ◌==◌}
use emu_gb.Cpu.{reg_hl, reg_c, read_register}
use emu_gb.Cartridge.{Cartridge}
use emu_gb.Machine.{Machine}
use emu_gb.Timer.Ticks.{timer_tick}
use emu_gb.Memory.{read_memory, read_memory_16bit}
use emu_gb.Stack.{read_8bit_data, read_16bit_data}
use emu_gb.Instruction.{
  InName, opcode_y, opcode_z, OperandType, err_operand, no_operand, r8, r16, a16, hl_rel, s8,
  flag_operand, rst_operand, d8, flag_a16, flag_s8, r8_r8, r8_d8, r8_hl_rel, a_r16_rel, a_d16_rel,
  r16_d16, sp_hl, sp_s8, a_hld, a_hli, a_c_rel, a_d8_rel, a_r8, a_d8, a_hl_rel, hl_r16, hl_s8,
  hl_rel_r8, hl_rel_d8, r16_rel_a, d16_rel_a, d16_rel_sp, hld_a, hli_a, c_rel_a, d8_rel_a,
  Instruction,
}
use emu_gb.Instruction.Opcodes.{g_opcodes}
use emu_gb.Instruction.Fetch.{
  find_register, with_value, with_address, read_later, read_later_16bit, set_hl, hl, fetch_operands,
  fetch_instruction,
}
use emu_gb.Soundness.Opcodes.{names_register, reads_word, opcode_names_register}
use emu_gb.Soundness.{IsMachine, Contract}
use emu_gb.Soundness.Registers.{write_register_16bit-IsCpu}
use emu_gb.Soundness.Access.{with_cpu, timer_tick-IsMachine}
use emu_gb.Soundness.Bus.{Reads, read_memory-Ends, read_8bit_data-Ends, read_16bit_data-Ends}

-- With a register to find, `find_register` returns.
find_register-Ends :
    (Stop : Type 0) (digit : ℕ)
    → not (digit == 6) ≡ true
    → Ends Stop (find_register digit) (λ _. Unit)
unfolding find_register
find_register-Ends Stop digit h = ground arith

module _ {IsSound : Cartridge → Type 0} {Stop : Type 0} (k : Contract IsSound Stop) where
  -- The machine is good, and the name of the instruction is kept.
  abbrev pub Fetched : InName → Outcome (Instruction × Machine) → Type 0
  Fetched name r = Ends Stop r (λ x. IsMachine IsSound x.1 × (x.0.instruction ≡ name))

  with_value-Ends :
      (read : Outcome (ℕ × Machine)) (i : Instruction)
      → Reads k read
      → Fetched i.instruction (with_value read i)
  unfolding with_value
  with_value-Ends (ok r) i h = (h, refl)
  with_value-Ends (err e) i h = h

  with_address-Ends :
      (read : Outcome (ℕ × Machine)) (i : Instruction)
      → Reads k read
      → Fetched i.instruction (with_address read i)
  unfolding with_address
  with_address-Ends (ok r) i h = (h, refl)
  with_address-Ends (err e) i h = h

  set_hl-IsMachine : (v : ℕ) (m : Machine) → IsMachine IsSound m → IsMachine IsSound (set_hl v m)
  unfolding set_hl
  set_hl-IsMachine v m h = with_cpu _ m (write_register_16bit-IsCpu reg_hl v m.cpu h.is_cpu) h

  -- A read that may stop the program where this is allowed, and keeps the machine.
  read_word-Ends :
      (a : ℕ) (m : Machine)
      → Stop
      → IsMachine IsSound m
      → Ends Stop (read_memory_16bit a m) (λ _. IsMachine IsSound m)
  read_word-Ends a m stop h = ends (read_memory_16bit a m)
    where
      ends : (r : Outcome ℕ) → Ends Stop r (λ _. IsMachine IsSound m)
      ends (ok v) = h
      ends (err e) = stop

  module _ (m : Machine) (h : IsMachine IsSound m) where
    h1 : IsMachine IsSound (timer_tick m)
    h1 = timer_tick-IsMachine m h

    read_later-Ends : (a : ℕ) → Reads k (read_later a m)
    unfolding read_later
    read_later-Ends a =
        >>=-Ends Stop (λ _. Unit) _ (read_memory a (timer_tick m)) _
          (read_memory-Ends k a (timer_tick m) h1) (λ v _. h1)

    read_later_16bit-Ends : (a : ℕ) → Stop → Reads k (read_later_16bit a m)
    unfolding read_later_16bit
    read_later_16bit-Ends a stop =
        >>=-Ends Stop (λ _. IsMachine IsSound (timer_tick m)) _ (read_memory_16bit a (timer_tick m))
          _ (read_word-Ends a (timer_tick m) stop h1) (λ v good. good)

    value_8bit : (i : Instruction) → Fetched i.instruction (with_value (read_8bit_data m) i)
    value_8bit i = with_value-Ends (read_8bit_data m) i (read_8bit_data-Ends k m h)

    at_hl :
        (i : Instruction) → Fetched i.instruction (with_value (read_later (hl (timer_tick m)) m) i)
    at_hl i = with_value-Ends _ i (read_later-Ends (hl (timer_tick m)))

    -- Every operand type, with a register to find where it names one.
    fetch_operands-Ends :
        (t : OperandType) (opcode : ℕ) (i : Instruction)
        → names_register t opcode ≡ true
        → (reads_word t ≡ true → Stop)
        → Fetched i.instruction (fetch_operands t opcode i m)
    unfolding fetch_operands
    fetch_operands-Ends r8 opcode i named word =
        >>=-Ends Stop (λ _. Unit) _ (find_register (opcode_y opcode)) _
          (find_register-Ends Stop (opcode_y opcode) named) (λ reg _. (h, refl))
    fetch_operands-Ends r16 opcode i named word = (h, refl)
    fetch_operands-Ends hl_rel opcode i named word = (h, refl)
    fetch_operands-Ends flag_operand opcode i named word = (h, refl)
    fetch_operands-Ends rst_operand opcode i named word = (h, refl)
    fetch_operands-Ends sp_hl opcode i named word = (h, refl)
    fetch_operands-Ends hl_r16 opcode i named word = (h, refl)
    fetch_operands-Ends r16_rel_a opcode i named word = (h, refl)
    fetch_operands-Ends c_rel_a opcode i named word = (h, refl)
    fetch_operands-Ends no_operand opcode i named word = (h, refl)
    fetch_operands-Ends err_operand opcode i named word = (h, refl)
    fetch_operands-Ends a16 opcode i named word =
        with_address-Ends (read_16bit_data m) _ (read_16bit_data-Ends k m h)
    fetch_operands-Ends flag_a16 opcode i named word =
        with_address-Ends (read_16bit_data m) _ (read_16bit_data-Ends k m h)
    fetch_operands-Ends d16_rel_a opcode i named word =
        with_address-Ends (read_16bit_data m) _ (read_16bit_data-Ends k m h)
    fetch_operands-Ends s8 opcode i named word = value_8bit _
    fetch_operands-Ends flag_s8 opcode i named word = value_8bit _
    fetch_operands-Ends d8 opcode i named word = value_8bit _
    fetch_operands-Ends a_d8 opcode i named word = value_8bit _
    fetch_operands-Ends hl_s8 opcode i named word = value_8bit _
    fetch_operands-Ends sp_s8 opcode i named word = value_8bit _
    fetch_operands-Ends hl_rel_d8 opcode i named word = value_8bit _
    fetch_operands-Ends r16_d16 opcode i named word =
        with_value-Ends (read_16bit_data m) _ (read_16bit_data-Ends k m h)
    fetch_operands-Ends r8_r8 opcode i named word =
        >>=-Ends Stop (λ _. Unit) _ (find_register (opcode_y opcode)) _
          (find_register-Ends Stop (opcode_y opcode) (ground arith))
          (λ to _.
            >>=-Ends Stop (λ _. Unit) _ (find_register (opcode_z opcode)) _
              (find_register-Ends Stop (opcode_z opcode) (ground arith)) (λ from _. (h, refl)))
    fetch_operands-Ends r8_d8 opcode i named word =
        >>=-Ends Stop (λ _. Unit) _ (find_register (opcode_y opcode)) _
          (find_register-Ends Stop (opcode_y opcode) named) (λ reg _. value_8bit _)
    fetch_operands-Ends r8_hl_rel opcode i named word =
        >>=-Ends Stop (λ _. Unit) _ (find_register (opcode_y opcode)) _
          (find_register-Ends Stop (opcode_y opcode) named) (λ reg _. at_hl _)
    fetch_operands-Ends a_r16_rel opcode i named word =
        with_value-Ends _ _ (read_later_16bit-Ends _ (word refl))
    fetch_operands-Ends a_d16_rel opcode i named word =
        >>=-Ends Stop (λ x. IsMachine IsSound x.1) _ (read_16bit_data (timer_tick m)) _
          (read_16bit_data-Ends k (timer_tick m) h1)
          (λ x good.
            >>=-Ends Stop (λ _. IsMachine IsSound x.1) _ (read_memory_16bit x.0 x.1) _
              (read_word-Ends x.0 x.1 (word refl) good) (λ v good'. (good', refl)))
    fetch_operands-Ends a_hld opcode i named word =
        >>=-Ends Stop (λ x. IsMachine IsSound x.1) _ (read_later (hl (timer_tick m)) m) _
          (read_later-Ends (hl (timer_tick m))) (λ x good. (set_hl-IsMachine _ x.1 good, refl))
    fetch_operands-Ends a_hli opcode i named word =
        >>=-Ends Stop (λ x. IsMachine IsSound x.1) _ (read_later (hl (timer_tick m)) m) _
          (read_later-Ends (hl (timer_tick m))) (λ x good. (set_hl-IsMachine _ x.1 good, refl))
    fetch_operands-Ends a_c_rel opcode i named word =
        with_value-Ends _ _ (read_later-Ends (read_register reg_c (timer_tick m).cpu + 0xFF00))
    fetch_operands-Ends a_d8_rel opcode i named word =
        >>=-Ends Stop (λ x. IsMachine IsSound x.1) _ (read_8bit_data (timer_tick m)) _
          (read_8bit_data-Ends k (timer_tick m) h1)
          (λ x good.
            >>=-Ends Stop (λ _. Unit) _ (read_memory (x.0 + 0xFF00) x.1) _
              (read_memory-Ends k (x.0 + 0xFF00) x.1 good) (λ v _. (good, refl)))
    fetch_operands-Ends a_r8 opcode i named word =
        >>=-Ends Stop (λ _. Unit) _ (find_register (opcode_z opcode)) _
          (find_register-Ends Stop (opcode_z opcode) named) (λ reg _. (h, refl))
    fetch_operands-Ends hl_rel_r8 opcode i named word =
        >>=-Ends Stop (λ _. Unit) _ (find_register (opcode_z opcode)) _
          (find_register-Ends Stop (opcode_z opcode) named) (λ reg _. (h, refl))
    fetch_operands-Ends a_hl_rel opcode i named word = at_hl _
    fetch_operands-Ends hld_a opcode i named word = (set_hl-IsMachine _ m h, refl)
    fetch_operands-Ends hli_a opcode i named word = (set_hl-IsMachine _ m h, refl)
    fetch_operands-Ends d16_rel_sp opcode i named word =
        >>=-Ends Stop (λ x. IsMachine IsSound x.1) _ (read_16bit_data m) _
          (read_16bit_data-Ends k m h) (λ x good. (good, refl))
    fetch_operands-Ends d8_rel_a opcode i named word =
        >>=-Ends Stop (λ x. IsMachine IsSound x.1) _ (read_8bit_data m) _
          (read_8bit_data-Ends k m h) (λ x good. (good, refl))

    pub fetch_instruction-Ends :
        (opcode : ℕ)
        → (reads_word (g_opcodes opcode).operands ≡ true → Stop)
        → Fetched (g_opcodes opcode).name (fetch_instruction opcode m)
    unfolding fetch_instruction
    fetch_instruction-Ends opcode word =
        fetch_operands-Ends (g_opcodes opcode).operands opcode _ (opcode_names_register opcode) word
