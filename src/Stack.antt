-- ===== src/Stack.antt =====
-- include/cpu/stack.h, and the reads at PC of include/cpu/instruction.h and
-- src/cpu/instruction_fetch.c.
pub mod Words
use emu_gb.Base.{ℕ, ◌+◌, ◌*◌, Outcome, ok, ◌>>=◌, u16, msb, lsb}
use emu_gb.Machine.{Machine, on_cpu}
use emu_gb.Timer.Ticks.{timer_tick}
use emu_gb.Memory.{read_memory, write_memory}

unfoldable pub stack_push : ℕ → Machine → Outcome Machine
stack_push val m =
    let m1 = timer_tick m in
    let sp = u16 (m1.cpu.sp + 65535) in write_memory sp val (on_cpu (λ c. record c { sp = sp }) m1)

unfoldable pub stack_push_16bit : ℕ → Machine → Outcome Machine
unfolding stack_push
stack_push_16bit val m = do m1 ← stack_push (msb val) m; stack_push (lsb val) m1

unfoldable pub stack_pop : Machine → Outcome (ℕ × Machine)
stack_pop m = do
  let m1 = timer_tick m
  val ← read_memory m1.cpu.sp m1
  ok (val, on_cpu (λ c. record c { sp = u16 (c.sp + 1) }) m1)

-- The two bytes have disjoint bits, so `lsb | (msb << 8)` is a sum.
unfoldable pub stack_pop_16bit : Machine → Outcome (ℕ × Machine)
unfolding stack_pop
stack_pop_16bit m = do (low, m1) ← stack_pop m; (high, m2) ← stack_pop m1; ok (low + high * 256, m2)

-- The byte at PC, which moves on: `fetch_opcode`, and `read_8bit_data` alike.
unfoldable pub fetch_opcode : Machine → Outcome (ℕ × Machine)
fetch_opcode m = do
  let m1 = timer_tick m
  val ← read_memory m1.cpu.pc m1
  ok (val, on_cpu (λ c. record c { pc = u16 (c.pc + 1) }) m1)

unfoldable pub read_8bit_data : Machine → Outcome (ℕ × Machine)
read_8bit_data m = do
  let m1 = timer_tick m
  val ← read_memory m1.cpu.pc m1
  ok (val, on_cpu (λ c. record c { pc = u16 (c.pc + 1) }) m1)

unfoldable pub read_16bit_data : Machine → Outcome (ℕ × Machine)
unfolding read_8bit_data
read_16bit_data m = do
  (low, m1) ← read_8bit_data m
  (high, m2) ← read_8bit_data m1
  ok (high * 256 + low, m2)
