-- ===== src/Instruction/Execute.antt =====
-- src/cpu/instruction.c: the handlers that are left, and the dispatch over the instruction's name.
use emu_gb.Base.{ℕ, Bool, true, false, Outcome, ok, err, fatal, ◌>>=◌}
use emu_gb.Cpu.{Cpu}
use emu_gb.Interrupt.{interrupt_set_ime}
use emu_gb.Timer.{timer_div}
use emu_gb.Machine.{Machine, on_cpu, on_interrupts}
use emu_gb.Memory.{write_memory}
use emu_gb.Stack.{fetch_opcode}
use emu_gb.Instruction.{
  InName, in_adc, in_add, in_and, in_call, in_cb, in_ccf, in_cp, in_cpl, in_daa, in_dec, in_di,
  in_ei, in_err, in_halt, in_inc, in_jp, in_jr, in_ld, in_ldh, in_nop, in_or, in_pop, in_push,
  in_ret, in_reti, in_rla, in_rlca, in_rra, in_rrca, in_rst, in_sbc, in_scf, in_stop, in_sub,
  in_xor, Instruction,
}
use emu_gb.Instruction.Fetch.{fetch_instruction}
use emu_gb.Instruction.Alu
use emu_gb.Instruction.Rotate
use emu_gb.Instruction.Memory
use emu_gb.Instruction.Jump
use emu_gb.Instruction.Cb.{cb_execute_instruction}

unfoldable pub halt : Cpu → Cpu
halt c = record c { halt = true }

unfoldable pub ei : Cpu → Cpu
ei c = record c { ime_scheduled = true }

unfoldable pub di : Machine → Machine
di m = on_interrupts (interrupt_set_ime false) m

-- The message that STOP is not implemented is left out.
unfoldable pub stop : Machine → Outcome Machine
stop m = write_memory timer_div 0 m

-- `return in.cycle_count` behind a handler's work.
abbrev pub done : Instruction → Machine → Outcome (ℕ × Machine)
done i m = ok (i.cycle_count, m)

abbrev pub done_if : Instruction → Outcome Machine → Outcome (ℕ × Machine)
done_if i r = do m ← r; ok (i.cycle_count, m)

-- `g_instruction_handlers`.
unfoldable pub handle : Bool → InName → Instruction → Machine → Outcome (ℕ × Machine)
unfolding halt ei di stop
handle exits in_err i m = err fatal
handle exits in_nop i m = done i m
handle exits in_jp i m = ok (Jump.jp i m)
handle exits in_jr i m = Jump.jr exits i m
handle exits in_call i m = Jump.call i m
handle exits in_ret i m = Jump.ret i m
handle exits in_reti i m = Jump.reti i m
handle exits in_rst i m = Jump.rst i m
handle exits in_ld i m = done_if i (Memory.ld i m)
handle exits in_ldh i m = done_if i (Memory.ldh i m)
handle exits in_di i m = done i (di m)
handle exits in_ei i m = done i (on_cpu ei m)
handle exits in_ccf i m = done i (on_cpu Alu.ccf m)
handle exits in_scf i m = done i (on_cpu Alu.scf m)
handle exits in_daa i m = done i (on_cpu Alu.daa m)
handle exits in_cpl i m = done i (on_cpu Alu.cpl m)
handle exits in_push i m = done_if i (Memory.push i m)
handle exits in_pop i m = done_if i (Memory.pop i m)
handle exits in_inc i m = done_if i (Memory.inc i m)
handle exits in_dec i m = done_if i (Memory.dec i m)
handle exits in_add i m = done i (on_cpu (Alu.add i) m)
handle exits in_adc i m = done i (on_cpu (Alu.adc i) m)
handle exits in_sub i m = done i (on_cpu (Alu.sub i) m)
handle exits in_sbc i m = done i (on_cpu (Alu.sbc i) m)
handle exits in_and i m = done i (on_cpu (Alu.and i) m)
handle exits in_or i m = done i (on_cpu (Alu.or i) m)
handle exits in_xor i m = done i (on_cpu (Alu.xor i) m)
handle exits in_cp i m = done i (on_cpu (Alu.cp i) m)
handle exits in_rla i m = done i (on_cpu Rotate.rla m)
handle exits in_rlca i m = done i (on_cpu Rotate.rlca m)
handle exits in_rra i m = done i (on_cpu Rotate.rra m)
handle exits in_rrca i m = done i (on_cpu Rotate.rrca m)
handle exits in_stop i m = done_if i (stop m)
handle exits in_halt i m = done i (on_cpu halt m)
handle exits in_cb i m = cb_execute_instruction m

-- `exits` is the option `exit_infinite_loop`.
unfoldable pub execute_instruction : Bool → Machine → Outcome (ℕ × Machine)
unfolding handle
execute_instruction exits m = do
  (opcode, m1) ← fetch_opcode m
  (i, m2) ← fetch_instruction opcode m1
  handle exits i.instruction i m2
