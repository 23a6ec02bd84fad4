-- ===== src/Soundness/Handlers.antt =====
-- The loads, PUSH, POP, INC and DEC of src/cpu/instruction.c, on any cartridge that meets the contract.
use emu_gb.Base.{if_both, ℕ, arith, ok, ◌>>=◌, Ends, >>=-Ends, if-Ends, if◌then◌else◌}
use emu_gb.Cpu.{Cpu, is_16bit, read_register, read_register_16bit}
use emu_gb.Cartridge.{Cartridge}
use emu_gb.Timer.Ticks.{timer_ticks, timer_tick}
use emu_gb.Machine.{Machine, on_cpu}
use emu_gb.Memory.{read_memory}
use emu_gb.Stack.{stack_pop_16bit}
use emu_gb.Instruction.{Instruction, has_type, hl_rel, r16}
use emu_gb.Instruction.Memory.{
  ld, ld_hl_s8, ld_by_type, ldh, push, pop, clear_unused, inc, dec, base_value, add_to_operand,
  inc_flags, dec_flags, copy_register,
}
use emu_gb.Soundness.{IsCpu, IsMachine, Contract}
use emu_gb.Soundness.Registers.{
  set_r8-IsCpu, write_register-IsCpu, write_register_16bit-IsCpu, set_flag-IsCpu,
  set_all_flags-IsCpu,
}
use emu_gb.Soundness.Access.{with_cpu, timer_tick-IsMachine, timer_ticks-IsMachine}
use emu_gb.Soundness.Alu.{cpu_rules}
use emu_gb.Soundness.Bus.{
  read_memory-Ends, write_memory-Ends, write_memory_16bit-Ends, stack_push_16bit-Ends,
  stack_pop_16bit-Ends,
}
use emu_gb.Base.Bits.Digit.{bit_and-le}

inc_flags-IsCpu : (base : ℕ) (c : Cpu) → IsCpu c → IsCpu (inc_flags base c)
unfolding inc_flags
inc_flags-IsCpu base c h = search cpu_rules

dec_flags-IsCpu : (base : ℕ) (c : Cpu) → IsCpu c → IsCpu (dec_flags base c)
unfolding dec_flags
dec_flags-IsCpu base c h = search cpu_rules

module _ {IsSound : Cartridge → Type 0} where
  copy_register-IsMachine :
      (i : Instruction) (m : Machine) → IsMachine IsSound m → IsMachine IsSound (copy_register i m)
  copy_register-IsMachine i m h =
      with_cpu _ m (write_register_16bit-IsCpu i.reg1 _ m.cpu h.is_cpu) h

module _ {IsSound : Cartridge → Type 0} {Stop : Type 0} (k : Contract IsSound Stop)
    (i : Instruction) (m : Machine) (h : IsMachine IsSound m) where
  h1 : IsMachine IsSound (timer_tick m)
  h1 = timer_tick-IsMachine m h

  ld_hl_s8-IsMachine : IsMachine IsSound (ld_hl_s8 i m)
  unfolding ld_hl_s8
  ld_hl_s8-IsMachine =
      with_cpu _ (timer_tick m)
        (set_flag-IsCpu _ _ _ (
          set_flag-IsCpu _ _ _
            (set_all_flags-IsCpu _ _ _ _ _ (write_register_16bit-IsCpu _ _ _ h1.is_cpu))))
        h1

  ld_by_type-Ends : Ends Stop (ld_by_type i m) (IsMachine IsSound)
  unfolding ld_by_type
  ld_by_type-Ends = ground (
    arith,
    copy_register-IsMachine i (timer_tick m) h1,
    copy_register-IsMachine i m h,
    write_memory_16bit-Ends k i.address i.value _ (timer_ticks-IsMachine 2 m h),
    write_memory-Ends k i.address i.value _ h1,
    with_cpu _ m (write_register_16bit-IsCpu i.reg1 i.value m.cpu h.is_cpu) h,
    write_memory-Ends k i.address (read_register i.reg1 (timer_tick m).cpu) _ h1,
  )

  pub ld-Ends : Ends Stop (ld i m) (IsMachine IsSound)
  unfolding ld
  ld-Ends = ground (arith, ld_hl_s8-IsMachine, ld_by_type-Ends)

  pub ldh-Ends : Ends Stop (ldh i m) (IsMachine IsSound)
  unfolding ldh
  ldh-Ends = ground (
    arith,
    with_cpu _ m (write_register-IsCpu i.reg1 i.value m.cpu h.is_cpu) h,
    write_memory-Ends k i.address (read_register_16bit i.value m.cpu) m h,
  )

  pub push-Ends : Ends Stop (push i m) (IsMachine IsSound)
  unfolding push
  push-Ends = stack_push_16bit-Ends k _ (timer_tick m) h1

  pub pop-Ends : Ends Stop (pop i m) (IsMachine IsSound)
  unfolding pop clear_unused
  pop-Ends =
      >>=-Ends Stop (λ x. IsMachine IsSound x.1) (IsMachine IsSound) (stack_pop_16bit m) _
        (stack_pop_16bit-Ends k m h)
        (λ x good.
          let c = write_register_16bit-IsCpu i.reg1 x.0 x.1.cpu good.is_cpu in
          with_cpu _ x.1 (set_r8-IsCpu _ _ _ (omega (arith, bit_and-le _ 0xF0)) c) good)

  base_value-Ends : Ends Stop (base_value i m) (λ _. Unit)
  unfolding base_value
  base_value-Ends = ground (arith, read_memory-Ends k i.address m h)

  add_to_operand-Ends : (n : ℕ) → Ends Stop (add_to_operand n i m) (IsMachine IsSound)
  unfolding add_to_operand
  add_to_operand-Ends n =
      let h2 = timer_ticks-IsMachine 2 m h in
      let h3 = if_both (IsMachine IsSound) (is_16bit i.reg1) (timer_tick m) m h1 h in
      if-Ends Stop (IsMachine IsSound) (has_type i hl_rel) _ _
        (>>=-Ends Stop (λ _. Unit) (IsMachine IsSound) (read_memory i.address (timer_ticks 2 m)) _
          (read_memory-Ends k i.address (timer_ticks 2 m) h2)
          (λ v _. write_memory-Ends k i.address _ (timer_ticks 2 m) h2))
        (with_cpu _ _ (write_register_16bit-IsCpu i.reg1 _ _ h3.is_cpu) h3)

  -- The value, the store and the flags of `inc` and of `dec`.
  step-Ends :
      (n : ℕ) (f : ℕ → Cpu → Cpu)
      → ((base : ℕ) (c : Cpu) → IsCpu c → IsCpu (f base c))
      → Ends Stop
          (do
            base ← base_value i m
            m1 ← add_to_operand n i m
            ok (if has_type i r16 then m1 else on_cpu (f base) m1))
          (IsMachine IsSound)
  step-Ends n f keeps =
      >>=-Ends Stop (λ _. Unit) (IsMachine IsSound) (base_value i m) _ base_value-Ends
        (λ base _.
          >>=-Ends Stop (IsMachine IsSound) (IsMachine IsSound) (add_to_operand n i m) _
            (add_to_operand-Ends n)
            (λ m1 good.
              if_both (IsMachine IsSound) (has_type i r16) m1 (on_cpu (f base) m1) good
                (with_cpu _ m1 (keeps base m1.cpu good.is_cpu) good)))

  pub inc-Ends : Ends Stop (inc i m) (IsMachine IsSound)
  unfolding inc
  inc-Ends = step-Ends 1 inc_flags inc_flags-IsCpu

  pub dec-Ends : Ends Stop (dec i m) (IsMachine IsSound)
  unfolding dec
  dec-Ends = step-Ends 65535 dec_flags dec_flags-IsCpu
