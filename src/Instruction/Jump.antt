-- ===== src/Instruction/Jump.antt =====
-- src/cpu/instruction.c: jumps, calls and returns. Each gives the cycles that the source returns.
pub mod Calls
use emu_gb.Base.{
  ℕ, ◌+◌, Bool, true, Outcome, ok, err, fatal, ◌>>=◌, ◌==◌, ◌&&◌, if◌then◌else◌, u8, u16,
  sign_extend,
}
use emu_gb.Cpu.{reg_pc, read_register_16bit, write_register_16bit}
use emu_gb.Interrupt.{interrupt_set_ime}
use emu_gb.Machine.{Machine, on_cpu, on_interrupts}
use emu_gb.Timer.Ticks.{timer_tick}
use emu_gb.Stack.{stack_push_16bit, stack_pop_16bit}
use emu_gb.Instruction.{Instruction, has_type, no_operand}

abbrev pub get_pc : Machine → ℕ
get_pc m = read_register_16bit reg_pc m.cpu

abbrev pub set_pc : ℕ → Machine → Machine
set_pc val m = on_cpu (write_register_16bit reg_pc val) m

unfoldable pub jp : Instruction → Machine → ℕ × Machine
jp i m =
    if i.condition
    then (i.cycle_count, set_pc i.address (timer_tick m))
    else (i.cycle_count_false, m)

-- `exits` is the option `exit_infinite_loop`.
unfoldable pub jr : Bool → Instruction → Machine → Outcome (ℕ × Machine)
jr exits i m =
    if exits && u8 i.value == 0xFE
    then err fatal
    else if i.condition
    then (let m1 = timer_tick m in
        ok (i.cycle_count_false, set_pc (u16 (get_pc m1 + sign_extend i.value)) m1))
    else ok (i.cycle_count_false, m)

unfoldable pub call : Instruction → Machine → Outcome (ℕ × Machine)
call i m =
    if i.condition
    then (do
      let m1 = timer_tick m
      m2 ← stack_push_16bit (get_pc m1) m1
      ok (i.cycle_count, set_pc i.address m2))
    else ok (i.cycle_count_false, m)

unfoldable pub ret : Instruction → Machine → Outcome (ℕ × Machine)
ret i m =
    let m1 = if has_type i no_operand then m else timer_tick m in
    if i.condition
    then (do (pc, m2) ← stack_pop_16bit m1; ok (i.cycle_count, set_pc pc (timer_tick m2)))
    else ok (i.cycle_count_false, m1)

unfoldable pub reti : Instruction → Machine → Outcome (ℕ × Machine)
reti i m = do
  (pc, m1) ← stack_pop_16bit m
  ok (i.cycle_count, on_interrupts (interrupt_set_ime true) (set_pc pc (timer_tick m1)))

unfoldable pub rst : Instruction → Machine → Outcome (ℕ × Machine)
rst i m = do
  let m1 = timer_tick m
  m2 ← stack_push_16bit (get_pc m1) m1
  ok (i.cycle_count, set_pc i.value m2)
