-- ===== src/Stack/Words.antt =====
-- The stack of include/cpu/stack.h in memory that is an array: what is pushed is popped.
use mathlib.Core.Path.{fun_ext}
use emu_gb.Base.{
  ap, ◌∙◌, ℕ, ◌+◌, ◌-◌, ◌*◌, ◌<◌, ◌≤◌, ◌≡◌, arith, false, ok, u8, u16, msb, lsb, update,
}
use emu_gb.Machine.{Machine}
use emu_gb.Cpu.{Cpu}
use emu_gb.Timer.Ticks.{timer_tick}
use emu_gb.Timer.Frame.{timer_tick-cpu}
use emu_gb.Memory.Plain.{IsPlain, write_memory-plain, read_memory-plain}
use emu_gb.Stack.{stack_push, stack_push_16bit, stack_pop, stack_pop_16bit}

-- The CPU after a byte or a word is pushed.
abbrev pub pushed_byte : ℕ → Cpu → Cpu
pushed_byte v c = record c {
  ime_scheduled = false;
  sp = c.sp - 1;
  memory = update c.memory (c.sp - 1) (u8 v);
}

abbrev pub pushed : ℕ → Cpu → Cpu
pushed v c = pushed_byte (lsb v) (pushed_byte (msb v) c)

-- The stack has room for a word in the array.
abbrev pub HasRoom : ℕ → Type 0
HasRoom sp = (2 ≤ sp) × (sp < 65536) × IsPlain (sp - 1) × IsPlain (sp - 2)

-- A tick, and a given CPU behind it.
abbrev pub tick_to : Cpu → Machine → Machine
tick_to c m = record (timer_tick m) { cpu = c }

stack_push_lem :
    (v : ℕ) (m : Machine)
    → 1 ≤ m.cpu.sp
    → m.cpu.sp < 65536
    → IsPlain (m.cpu.sp - 1)
    → stack_push v m ≡ ok (tick_to (pushed_byte v m.cpu) m)
unfolding stack_push
stack_push_lem v m h h' plain =
    let e : u16 (m.cpu.sp + 65535) ≡ m.cpu.sp - 1 = omega arith in
    rw (timer_tick-cpu m) (rw e (write_memory-plain (m.cpu.sp - 1) v _ plain))

-- The two ticks of a word on the stack.
abbrev pub two_ticks_to : Cpu → Cpu → Machine → Machine
two_ticks_to c d m = tick_to d (tick_to c m)

pub stack_push_16bit_lem :
    (v : ℕ) (m : Machine)
    → HasRoom m.cpu.sp
    → stack_push_16bit v m ≡ ok (two_ticks_to (pushed_byte (msb v) m.cpu) (pushed v m.cpu) m)
unfolding stack_push_16bit
stack_push_16bit_lem v m room = rw (stack_push_lem (msb v) m (omega arith) room.1 room.2) (
    stack_push_lem (lsb v) (tick_to (pushed_byte (msb v) m.cpu) m) (omega arith) (omega arith)
      (ground arith))

-- The CPU after a byte is popped.
abbrev pub popped_byte : Cpu → Cpu
popped_byte c = record c { ime_scheduled = false; sp = u16 (c.sp + 1) }

abbrev pub popped : Cpu → Cpu
popped c = popped_byte (popped_byte c)

stack_pop_lem :
    (m : Machine)
    → IsPlain m.cpu.sp
    → stack_pop m ≡ ok (m.cpu.memory m.cpu.sp, tick_to (popped_byte m.cpu) m)
unfolding stack_pop
stack_pop_lem m plain =
    let e = read_memory-plain (timer_tick m).cpu.sp (timer_tick m) (rw (timer_tick-cpu m) plain) in
    rw e (rw (timer_tick-cpu m))

pub stack_pop_16bit_lem :
    (m : Machine)
    → IsPlain m.cpu.sp
    → IsPlain (u16 (m.cpu.sp + 1))
    → stack_pop_16bit m
      ≡ ok (
        m.cpu.memory m.cpu.sp + m.cpu.memory (u16 (m.cpu.sp + 1)) * 256,
        two_ticks_to (popped_byte m.cpu) (popped m.cpu) m,
      )
unfolding stack_pop_16bit
stack_pop_16bit_lem m h h' =
    rw (stack_pop_lem m h) (rw (stack_pop_lem (tick_to (popped_byte m.cpu) m) h'))

module _ (v : ℕ) (c : Cpu) (hv : v < 65536) (room : HasRoom c.sp) where
  pub top_of-pushed :
      (pushed v c).memory (pushed v c).sp + (pushed v c).memory (u16 ((pushed v c).sp + 1)) * 256
      ≡ v
  top_of-pushed = ground arith

  pub same_sp : (popped (pushed v c)).sp ≡ c.sp
  same_sp = omega arith

  same_cells :
      (k : ℕ)
      → (pushed v c).memory k ≡ update (update c.memory (c.sp - 1) (msb v)) (c.sp - 2) (lsb v) k
  same_cells k = ground arith

-- Where the stack has room in plain memory, a word that is pushed is popped again. SP comes back, the
-- two bytes below it hold the word, low byte first, a delayed `EI` is delivered, and the CPU is
-- otherwise as before.
pub stack_pop_16bit-stack_push_16bit :
    (v : ℕ) (m : Machine)
    → v < 65536
    → HasRoom m.cpu.sp
    → (m1 : Machine) × (m2 : Machine) × (stack_push_16bit v m ≡ ok m1)
      × (stack_pop_16bit m1 ≡ ok (v, m2))
      × (m2.cpu ≡ record (m.cpu) {
        ime_scheduled = false;
        memory = update (update m.cpu.memory (m.cpu.sp - 1) (msb v)) (m.cpu.sp - 2) (lsb v);
      })
stack_pop_16bit-stack_push_16bit v m hv room =
    let c = pushed v m.cpu in
    let m1 = two_ticks_to (pushed_byte (msb v) m.cpu) c m in
    let m2 = two_ticks_to (popped_byte c) (popped c) m1 in
    (
      m1,
      m2,
      stack_push_16bit_lem v m room,
      stack_pop_16bit_lem m1 (ground arith) (ground arith)
          ∙ ap (λ x. ok (x, m2)) (top_of-pushed v m.cpu hv room),
      λ i. record (m.cpu) {
        ime_scheduled = false;
        sp = same_sp v m.cpu hv room i;
        memory = fun_ext (same_cells v m.cpu hv room) i;
      },
    )
