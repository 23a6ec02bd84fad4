-- ===== src/Soundness/Round.antt =====
-- One instruction, the interrupts and one round of src/main.c, on any cartridge that meets the contract.
use emu_gb.Base.{
  ℕ, ◌≡◌, Bool, true, false, not, ok, err, Outcome, ◌>>=◌, Ends, >>=-Ends, Ends-and, if-Ends,
  if-Ends_cases, ◌==◌, if◌then◌else◌, ltb,
}
use emu_gb.Cartridge.{Cartridge}
use emu_gb.Machine.{Machine}
use emu_gb.Interrupt.Service.{handle_interrupts}
use emu_gb.Timer.{timer_div}
use emu_gb.Timer.Ticks.{timer_tick}
use emu_gb.Stack.{fetch_opcode}
use emu_gb.Instruction.{
  InName, in_adc, in_add, in_and, in_call, in_cb, in_ccf, in_cp, in_cpl, in_daa, in_dec, in_di,
  in_ei, in_err, in_halt, in_inc, in_jp, in_jr, in_ld, in_ldh, in_nop, in_or, in_pop, in_push,
  in_ret, in_reti, in_rla, in_rlca, in_rra, in_rrca, in_rst, in_sbc, in_scf, in_stop, in_sub,
  in_xor, Instruction,
}
use emu_gb.Instruction.Opcodes.{g_opcodes}
use emu_gb.Instruction.Fetch.{fetch_instruction}
use emu_gb.Instruction.Execute.{halt, ei, di, stop, handle, execute_instruction}
use emu_gb.Memory.{read_memory, write_memory}
use emu_gb.Program.{TestRom, test_rom_update, test_check, test_value, check_true, round}
use emu_gb.Soundness.{IsMachine, Contract}
use emu_gb.Soundness.Access.{with_cpu, set_bits-IsCpu, timer_tick-IsMachine}
use emu_gb.Soundness.Bus.{read_memory-Ends, write_memory-Ends, fetch_opcode-Ends, Reads}
use emu_gb.Soundness.Alu
use emu_gb.Soundness.Handlers
use emu_gb.Soundness.Opcodes.{is_err, opcode_is_no_err, reads_word}
use emu_gb.Soundness.Fetch.{fetch_instruction-Ends}
use emu_gb.Soundness.Jumps
use emu_gb.Soundness.Service.{handle_interrupts-Ends}
use emu_gb.Soundness.Cb.{cb_execute_instruction-Ends}

module _ {IsSound : Cartridge → Type 0} {Stop : Type 0} (k : Contract IsSound Stop) where
  -- The end of a handler that gives a machine.
  done-Ends :
      (n : ℕ) (r : Outcome Machine)
      → Ends Stop r (IsMachine IsSound)
      → Reads k (do m ← r; ok (n, m))
  done-Ends n (ok m) h = h
  done-Ends n (err e) h = h

  -- The buffer of a test ROM may overflow.
  test_rom_update-Ends :
      (t : TestRom) (m : Machine)
      → Stop
      → IsMachine IsSound m
      → Ends Stop (test_rom_update (t, m)) (λ (x : TestRom × Machine). IsMachine IsSound x.1)
  unfolding test_rom_update
  test_rom_update-Ends t m stop h =
      >>=-Ends Stop (λ _. Unit) _ (read_memory test_check m) _ (read_memory-Ends k test_check m h)
        (λ check _.
          if-Ends Stop (λ (x : TestRom × Machine). IsMachine IsSound x.1) (check == check_true) _ _
            (>>=-Ends Stop (λ _. Unit) _ (read_memory test_value m) _
              (read_memory-Ends k test_value m h)
              (λ val _.
                >>=-Ends Stop (λ _. Unit) _ _ _
                  (if-Ends Stop (λ _. Unit) (ltb t.output_size 1024) _ _ tt stop)
                  (λ t1 _.
                    >>=-Ends Stop (IsMachine IsSound) _ (write_memory test_check 0 m) _
                      (write_memory-Ends k test_check 0 m h) (λ m1 good. good))))
            h)

  module _ (exits : Bool) (stops : exits ≡ true → Stop) where
    module _ (i : Instruction) (m : Machine) (h : IsMachine IsSound m) where
      handle-Ends : (name : InName) → not (is_err name) ≡ true → Reads k (handle exits name i m)
      unfolding handle halt ei di stop
      handle-Ends in_err e = cc
      handle-Ends in_nop e = h
      handle-Ends in_jp e = Jumps.jp-IsMachine k i m h
      handle-Ends in_jr e = Jumps.jr-Ends k i m h exits stops
      handle-Ends in_call e = Jumps.call-Ends k i m h
      handle-Ends in_ret e = Jumps.ret-Ends k i m h
      handle-Ends in_reti e = Jumps.reti-Ends k i m h
      handle-Ends in_rst e = Jumps.rst-Ends k i m h
      handle-Ends in_ld e = done-Ends _ _ (Handlers.ld-Ends k i m h)
      handle-Ends in_ldh e = done-Ends _ _ (Handlers.ldh-Ends k i m h)
      handle-Ends in_di e = Jumps.set_ime-IsMachine false m h
      handle-Ends in_ei e = with_cpu _ m (set_bits-IsCpu _ true _ m.cpu h.is_cpu) h
      handle-Ends in_ccf e = with_cpu _ m (Alu.ccf-IsCpu m.cpu h.is_cpu) h
      handle-Ends in_scf e = with_cpu _ m (Alu.scf-IsCpu m.cpu h.is_cpu) h
      handle-Ends in_daa e = with_cpu _ m (Alu.daa-IsCpu m.cpu h.is_cpu) h
      handle-Ends in_cpl e = with_cpu _ m (Alu.cpl-IsCpu m.cpu h.is_cpu) h
      handle-Ends in_push e = done-Ends _ _ (Handlers.push-Ends k i m h)
      handle-Ends in_pop e = done-Ends _ _ (Handlers.pop-Ends k i m h)
      handle-Ends in_inc e = done-Ends _ _ (Handlers.inc-Ends k i m h)
      handle-Ends in_dec e = done-Ends _ _ (Handlers.dec-Ends k i m h)
      handle-Ends in_add e = with_cpu _ m (Alu.add-IsCpu i m.cpu h.is_cpu) h
      handle-Ends in_adc e = with_cpu _ m (Alu.adc-IsCpu i m.cpu h.is_cpu) h
      handle-Ends in_sub e = with_cpu _ m (Alu.sub-IsCpu i m.cpu h.is_cpu) h
      handle-Ends in_sbc e = with_cpu _ m (Alu.sbc-IsCpu i m.cpu h.is_cpu) h
      handle-Ends in_and e = with_cpu _ m (Alu.and-IsCpu i m.cpu h.is_cpu) h
      handle-Ends in_or e = with_cpu _ m (Alu.or-IsCpu i m.cpu h.is_cpu) h
      handle-Ends in_xor e = with_cpu _ m (Alu.xor-IsCpu i m.cpu h.is_cpu) h
      handle-Ends in_cp e = with_cpu _ m (Alu.cp-IsCpu i m.cpu h.is_cpu) h
      handle-Ends in_rla e = with_cpu _ m (Alu.rla-IsCpu m.cpu h.is_cpu) h
      handle-Ends in_rlca e = with_cpu _ m (Alu.rlca-IsCpu m.cpu h.is_cpu) h
      handle-Ends in_rra e = with_cpu _ m (Alu.rra-IsCpu m.cpu h.is_cpu) h
      handle-Ends in_rrca e = with_cpu _ m (Alu.rrca-IsCpu m.cpu h.is_cpu) h
      handle-Ends in_stop e = done-Ends _ _ (write_memory-Ends k timer_div 0 m h)
      handle-Ends in_halt e = with_cpu _ m (set_bits-IsCpu true _ _ m.cpu h.is_cpu) h
      handle-Ends in_cb e = cb_execute_instruction-Ends k m h

    execute-Ends :
        (opcode : ℕ) (m : Machine)
        → IsMachine IsSound m
        → (reads_word (g_opcodes opcode).operands ≡ true → Stop)
        → Reads k (do (i, m2) ← fetch_instruction opcode m; handle exits i.instruction i m2)
    execute-Ends opcode m h word =
        >>=-Ends Stop
          (λ (x : Instruction × Machine).
            IsMachine IsSound x.1 × (x.0.instruction ≡ (g_opcodes opcode).name))
          _ (fetch_instruction opcode m) _ (fetch_instruction-Ends k m h opcode word)
          (λ x (good, named).
            handle-Ends x.0 x.1 good x.0.instruction (rw named (opcode_is_no_err opcode)))

    -- An instruction ends with a good machine; where it reads a word from memory, it may stop.
    pub execute_instruction-Ends :
        (m : Machine)
        → IsMachine IsSound m
        → Ends Stop (fetch_opcode m) (λ r. reads_word (g_opcodes r.0).operands ≡ true → Stop)
        → Reads k (execute_instruction exits m)
    unfolding execute_instruction
    execute_instruction-Ends m h word =
        >>=-Ends Stop
          (λ r. IsMachine IsSound r.1 × (reads_word (g_opcodes r.0).operands ≡ true → Stop)) _
          (fetch_opcode m) _
          (Ends-and Stop (λ r. IsMachine IsSound r.1)
            (λ r. reads_word (g_opcodes r.0).operands ≡ true → Stop) (fetch_opcode m)
            (fetch_opcode-Ends k m h) word)
          (λ r (good, word'). execute-Ends r.0 r.1 good word')

    -- In a round the condition on words matters to a CPU that is not halted, and the buffer of a test
    -- ROM, which may overflow, to the option `blargg`.
    pub round-Ends :
        (blargg : Bool) (t : TestRom) (m : Machine)
        → IsMachine IsSound m
        → (blargg ≡ true → Stop)
        → (m.cpu.halt ≡ false
            → Ends Stop (fetch_opcode m) (λ r. reads_word (g_opcodes r.0).operands ≡ true → Stop))
        → Ends Stop (round exits blargg (t, m)) (λ x. IsMachine IsSound x.1)
    unfolding round
    round-Ends blargg t m h buffer word =
        >>=-Ends Stop (IsMachine IsSound) _
          (if m.cpu.halt
            then ok (timer_tick m)
            else (do (cycles, m1) ← execute_instruction exits m; ok m1))
          _
          (if-Ends_cases Stop (IsMachine IsSound) m.cpu.halt _ _
            (λ halted. timer_tick-IsMachine m h)
            (λ runs.
              >>=-Ends Stop (λ (x : ℕ × Machine). IsMachine IsSound x.1) (IsMachine IsSound)
                (execute_instruction exits m) _ (execute_instruction-Ends m h (word runs))
                (λ x good. good)))
          (λ m1 good.
            >>=-Ends Stop (λ (x : ℕ × Machine). IsMachine IsSound x.1) _ (handle_interrupts m1) _
              (handle_interrupts-Ends k m1 good)
              (λ x good'.
                if-Ends_cases Stop (λ (y : TestRom × Machine). IsMachine IsSound y.1) blargg _ _
                  (λ on. test_rom_update-Ends t x.1 (buffer on) good') (λ off. good')))
