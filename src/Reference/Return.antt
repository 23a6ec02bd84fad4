-- ===== src/Reference/Return.antt =====
-- Returns of src/cpu/instruction.c against those of the reference machine.
use emu_gb.Base.{
  ℕ, ◌+◌, ◌*◌, ◌<◌, ◌≡◌, ◌∙◌, refl, ap, arith, Bool, true, false, ok, Returns, IsByte, u16, List,
  [], ◌∷◌, if◌then◌else◌,
}
use emu_gb.Cpu.{Cpu, reg_pc, read_register_16bit, write_register_16bit}
use emu_gb.Machine.{Machine}
use emu_gb.Memory.Plain.{IsPlain}
use emu_gb.Timer.Ticks.{timer_tick}
use emu_gb.Timer.Frame.{timer_tick-cpu}
use emu_gb.Stack.{stack_pop_16bit}
use emu_gb.Stack.Words.{tick_to, popped, popped_byte, two_ticks_to, stack_pop_16bit_lem}
use emu_gb.Instruction.{OperandType, Instruction, has_type, in_ret, flag_operand, no_operand}
use emu_gb.Instruction.Jump
use emu_gb.Instruction.Fetch.{fetch_instruction, read_flag}
use emu_gb.Instruction.Opcodes.{g_opcodes}
use emu_gb.Instruction.Execute.{execute_instruction, handle}
use emu_gb.Reference.{State}
use emu_gb.Reference.Shows.{Shows}
use emu_gb.Reference.Step.{moved, fetch_opcode-plain, moved_shows, tick-enabled}
use emu_gb.Reference.Jump.{
  Condition, always, if_nz, if_z, if_nc, if_c, holds, jump_flag, jump_flag-holds,
}
use emu_gb.Reference.Place.{Holds}
use emu_gb.Reference.Config.{Config, config, Steps, known-Steps}
use emu_gb.Reference.Immediate.{behind_one}
use emu_gb.Reference.Call.{cycles_of}

-- The word on top of the stack.
abbrev pub top : ℕ → (ℕ → ℕ) → ℕ
top sp memory = memory sp + memory (sp + 1) * 256

-- A word lies on top of the stack.
abbrev pub HasWord : ℕ → (ℕ → ℕ) → Type 0
HasWord sp memory = IsPlain sp × IsPlain (sp + 1) × IsByte (memory sp) × IsByte (memory (sp + 1))

pub pop_word :
    (m : Machine)
    → HasWord m.cpu.sp m.cpu.memory
    → (m1 : Machine) × (stack_pop_16bit m ≡ ok (top m.cpu.sp m.cpu.memory, m1))
      × (m1.cpu ≡ record (m.cpu) { ime_scheduled = false; sp = m.cpu.sp + 2 })
      × (m1.interrupts.ie_reg ≡ m.interrupts.ie_reg)
pop_word m (plain, plain', byte, byte') =
    let one : u16 (m.cpu.sp + 1) ≡ m.cpu.sp + 1 = omega arith in
    let two : u16 (m.cpu.sp + 1 + 1) ≡ m.cpu.sp + 2 = omega arith in
    let m1 = two_ticks_to (popped_byte m.cpu) (popped m.cpu) m in
    (
      m1,
      stack_pop_16bit_lem m plain (rw one plain')
          ∙ ap (λ k. ok (m.cpu.memory m.cpu.sp + m.cpu.memory k * 256, m1)) one,
      rw (one, two) refl,
      tick-enabled (tick_to (popped_byte m.cpu) m) ∙ tick-enabled m,
    )

abbrev pub return_code : Condition → ℕ
return_code always = 0xC9
return_code if_nz = 0xC0
return_code if_z = 0xC8
return_code if_nc = 0xD0
return_code if_c = 0xD8

abbrev pub encode_return : Condition → List ℕ
encode_return f = return_code f ∷ []

-- Where it leads, taken or passed.
abbrev returned : Bool → Config → Config
returned taken x =
    if taken then record x { pc = top x.sp x.memory; sp = x.sp + 2 } else record x { pc = x.pc + 1 }

abbrev pub after_return : Condition → Config → Config
after_return f x = returned (holds f x.regs.fs) x

return_type : Condition → OperandType
return_type always = no_operand
return_type _ = flag_operand

abbrev returning : Condition → Machine → Instruction
returning f m = record {
  instruction = in_ret;
  operands = return_type f;
  pc = u16 (read_register_16bit reg_pc m.cpu + 65535);
  reg1 = 14;
  reg2 = 0xdead;
  address = 0;
  condition = jump_flag f m;
  value = 0;
  cycle_count = cycles_of f 4 5;
  cycle_count_false = cycles_of f 0 2;
}

fetch-return :
    (f : Condition) (m : Machine) → fetch_instruction (return_code f) m ≡ ok (returning f m, m)
unfolding fetch_instruction g_opcodes read_flag jump_flag return_type cycles_of
fetch-return always m = refl
fetch-return if_nz m = refl
fetch-return if_z m = refl
fetch-return if_nc m = refl
fetch-return if_c m = refl

-- The tick of a return that has a condition.
after_tick :
    (b : Bool) (m m1 : Machine)
    → m1.cpu ≡ moved 1 m.cpu
    → m1.interrupts.ie_reg ≡ m.interrupts.ie_reg
    → ((if b then m1 else timer_tick m1).cpu ≡ moved 1 m.cpu)
      × ((if b then m1 else timer_tick m1).interrupts.ie_reg ≡ m.interrupts.ie_reg)
after_tick true m m1 cpu enabled = (cpu, enabled)
after_tick false m m1 cpu enabled = (
  timer_tick-cpu m1 ∙ ap (λ (q : Cpu). record q { ime_scheduled = false }) cpu,
  tick-enabled m1 ∙ enabled,
)

-- The jump that ends a return.
after_set_pc :
    (s : State) (v x sp : ℕ) (m m1 : Machine)
    → v ≡ x
    → x < 65536
    → m1.cpu ≡ record (moved 1 m.cpu) { sp = sp }
    → m1.interrupts.ie_reg ≡ m.interrupts.ie_reg
    → Shows s m.cpu
    → Steps (record (config s m.cpu) { pc = x; sp = sp }) m (Jump.set_pc v (timer_tick m1))
unfolding write_register_16bit
after_set_pc s v x sp m m1 same word cpu enabled shown =
    let narrow : u16 x ≡ x = omega arith in
    rw (same, narrow)
      (known-Steps s (record (moved 1 m.cpu) { pc = x; sp = sp }) m _ shown
        (ap (λ (q : Cpu). record q { pc = x })
          (timer_tick-cpu m1 ∙ ap (λ (q : Cpu). record q { ime_scheduled = false }) cpu))
        refl refl refl (tick-enabled m1 ∙ enabled))

-- The handlers, on a machine behind the bytes of the instruction.
module _ (i : Instruction) (s : State) (m : Machine) (shown : Shows s m.cpu) where
  ret-Steps_taken :
      (m1 : Machine)
      → i.condition ≡ true
      → m1.cpu ≡ moved 1 m.cpu
      → m1.interrupts.ie_reg ≡ m.interrupts.ie_reg
      → HasWord m.cpu.sp m.cpu.memory
      → Returns (Jump.ret i m1) (λ r.
        Steps (record (config s m.cpu) { pc = top m.cpu.sp m.cpu.memory; sp = m.cpu.sp + 2 }) m r.1)
  unfolding Jump.ret write_register_16bit
  ret-Steps_taken m1 taken cpu enabled has =
      let m2 = if has_type i no_operand then m1 else timer_tick m1 in
      let (at, on) = after_tick (has_type i no_operand) m m1 cpu enabled in
      let sp_at : m2.cpu.sp ≡ m.cpu.sp = ap (λ (q : Cpu). q.sp) at in
      let memory_at : m2.cpu.memory ≡ m.cpu.memory = ap (λ (q : Cpu). q.memory) at in
      let (m3, popped_it, after, kept) = pop_word m2 (rw (sp_at, memory_at) has) in
      let word : top m2.cpu.sp m2.cpu.memory ≡ top m.cpu.sp m.cpu.memory =
        rw (sp_at, memory_at) refl in
      rw (popped_it, taken)
        (after_set_pc s _ _ _ m m3 word (omega (arith, has))
          (after ∙ ap (λ (q : Cpu). record q { ime_scheduled = false; sp = q.sp + 2 }) at)
          (kept ∙ on) shown)

  ret-Steps_passed :
      (m1 : Machine)
      → i.condition ≡ false
      → m1.cpu ≡ moved 1 m.cpu
      → m1.interrupts.ie_reg ≡ m.interrupts.ie_reg
      → Returns (Jump.ret i m1) (λ r. Steps (record (config s m.cpu) { pc = m.cpu.pc + 1 }) m r.1)
  unfolding Jump.ret
  ret-Steps_passed m1 passed cpu enabled =
      let (at, on) = after_tick (has_type i no_operand) m m1 cpu enabled in
      rw passed (known-Steps s (moved 1 m.cpu) m _ shown at refl refl refl on)

  ret-Steps :
      (b : Bool) (m1 : Machine)
      → i.condition ≡ b
      → m1.cpu ≡ moved 1 m.cpu
      → m1.interrupts.ie_reg ≡ m.interrupts.ie_reg
      → (b ≡ true → HasWord m.cpu.sp m.cpu.memory)
      → Returns (Jump.ret i m1) (λ r. Steps (returned b (config s m.cpu)) m r.1)
  ret-Steps true m1 cond cpu enabled word = ret-Steps_taken m1 cond cpu enabled (word refl)
  ret-Steps false m1 cond cpu enabled word = ret-Steps_passed m1 cond cpu enabled

module _ (exits : Bool) (f : Condition) (s : State) (m : Machine) (shown : Shows s m.cpu) where
  pub return-Steps :
      Holds (encode_return f) m.cpu.pc m.cpu.memory
      → (holds f s.fs ≡ true → HasWord m.cpu.sp m.cpu.memory)
      → Returns (execute_instruction exits m) (λ r. Steps (after_return f (config s m.cpu)) m r.1)
  unfolding execute_instruction handle
  return-Steps (here, plain, byte, rest) word =
      rw (fetch_opcode-plain m plain, here, fetch-return f (behind_one m))
        (ret-Steps (returning f (behind_one m)) s m shown (holds f s.fs) (behind_one m)
          (jump_flag-holds f s (behind_one m) (moved_shows 1 s m.cpu shown)) refl (tick-enabled m)
          word)
