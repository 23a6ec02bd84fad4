-- ===== src/Instruction/Jump/Calls.antt =====
-- `call` and `ret` of src/cpu/instruction.c: a subroutine returns to its caller.
use emu_gb.Base.{
  inr, inl, Bool-cases, if◌then◌else◌, ◌*◌, msb, false, ℕ, ◌+◌, ◌<◌, ◌≡◌, ◌∙◌, ap, arith, true, ok,
  u16,
}
use emu_gb.Memory.Plain.{IsPlain}
use emu_gb.Cpu.{Cpu, read_register_16bit, write_register_16bit}
use emu_gb.Machine.{Machine}
use emu_gb.Timer.Ticks.{timer_tick}
use emu_gb.Timer.Frame.{timer_tick-cpu}
use emu_gb.Stack.{stack_pop_16bit}
use emu_gb.Stack.Words.{
  HasRoom, pushed, pushed_byte, popped, popped_byte, two_ticks_to, stack_push_16bit_lem, same_sp,
  stack_pop_16bit_lem, top_of-pushed,
}
use emu_gb.Instruction.{Instruction, has_type, no_operand}
use emu_gb.Instruction.Jump.{call, ret, set_pc}

-- The CPU that a call leaves: the old PC on the stack, and the address in PC.
abbrev called : ℕ → Cpu → Cpu
called address c = record (pushed c.pc (record c { ime_scheduled = false })) { pc = u16 address }

call_lem :
    (i : Instruction) (m : Machine)
    → i.condition ≡ true
    → HasRoom m.cpu.sp
    → (m1 : Machine) × (call i m ≡ ok (i.cycle_count, m1)) × (m1.cpu ≡ called i.address m.cpu)
unfolding call read_register_16bit write_register_16bit
call_lem i m taken room =
    let d = (timer_tick m).cpu in
    let room' : HasRoom d.sp = rw (timer_tick-cpu m) room in
    let pushed_state = two_ticks_to (pushed_byte (msb d.pc) d) (pushed d.pc d) (timer_tick m) in
    (
      set_pc i.address pushed_state,
      rw (taken, stack_push_16bit_lem d.pc (timer_tick m) room'),
      ap (called i.address) (timer_tick-cpu m),
    )

-- A word that lies on top of the stack of the CPU `c` is popped in any machine with that CPU, but for
-- its PC.
popped_word :
    (v p : ℕ) (c : Cpu) (m : Machine)
    → v < 65536
    → HasRoom c.sp
    → m.cpu ≡ record (pushed v c) { pc = p }
    → (m1 : Machine) × (stack_pop_16bit m ≡ ok (v, m1))
      × (m1.cpu ≡ record (popped (pushed v c)) { pc = p })
popped_word v p c m hv room e =
    let m1 = two_ticks_to (popped_byte m.cpu) (popped m.cpu) m in
    let top : m.cpu.memory m.cpu.sp + m.cpu.memory (u16 (m.cpu.sp + 1)) * 256 ≡ v =
      rw e (top_of-pushed v c hv room) in
    let plain : IsPlain m.cpu.sp = rw e (ground arith) in
    let plain' : IsPlain (u16 (m.cpu.sp + 1)) = rw e (ground arith) in
    (m1, stack_pop_16bit_lem m plain plain' ∙ ap (λ x. ok (x, m1)) top, ap popped e)

ret_lem :
    (j : Instruction) (v p : ℕ) (c : Cpu) (m : Machine)
    → j.condition ≡ true
    → v < 65536
    → HasRoom c.sp
    → m.cpu ≡ record (pushed v (record c { ime_scheduled = false })) { pc = p }
    → (m1 : Machine) × (ret j m ≡ ok (j.cycle_count, m1))
      × (m1.cpu ≡ record (popped (pushed v c)) { pc = v })
unfolding ret write_register_16bit
ret_lem j v p c m taken hv room e =
    let m0 = if has_type j no_operand then m else timer_tick m in
    let start : m0.cpu ≡ record (pushed v (record c { ime_scheduled = false })) { pc = p } =
      elim (Bool-cases (has_type j no_operand)) [
        | inl plain ↦ rw plain e
        | inr conditional ↦
            rw conditional
              (timer_tick-cpu m ∙ ap (λ (d : Cpu). record d { ime_scheduled = false }) e)
      ] in
    let (m1, pops, at_end) = popped_word v p c m0 hv room start in
    let word : u16 v ≡ v = omega arith in
    (
      set_pc v (timer_tick m1),
      rw (pops, taken),
      rw (timer_tick-cpu m1, word)
          (ap (λ (d : Cpu). record d { ime_scheduled = false; pc = v }) at_end),
    )

-- Where the condition of the call and of the return holds and the stack has room in plain memory: the
-- call goes to its address, and a return from there goes back to the PC that the call was at. SP comes
-- back, and no other register changes.
pub ret-call :
    (i j : Instruction) (m : Machine)
    → i.condition ≡ true
    → j.condition ≡ true
    → m.cpu.pc < 65536
    → HasRoom m.cpu.sp
    → (m1 : Machine) × (m2 : Machine) × (call i m ≡ ok (i.cycle_count, m1))
      × (m1.cpu.pc ≡ u16 i.address)
      × (ret j m1 ≡ ok (j.cycle_count, m2))
      × (m2.cpu.pc ≡ m.cpu.pc)
      × (m2.cpu.sp ≡ m.cpu.sp)
      × (m2.cpu.r8 ≡ m.cpu.r8)
ret-call i j m calls returns hp room =
    let (m1, called_it, there) = call_lem i m calls room in
    let (m2, returned, back) = ret_lem j m.cpu.pc (u16 i.address) m.cpu m1 returns hp room there in
    (
      m1,
      m2,
      called_it,
      rw there,
      returned,
      rw back,
      rw back (same_sp m.cpu.pc m.cpu hp room),
      rw back,
    )
