-- ===== src/Interrupt/Service.antt =====
-- src/cpu/interrupt.c: `handle_interrupts`.
use emu_gb.Base.{
  ℕ, zero, suc, ◌+◌, false, Outcome, ok, ◌>>=◌, ◌&&◌, if◌then◌else◌, complement, bit_and,
}
use emu_gb.Cpu.{reg_pc, read_register_16bit, write_register_16bit}
use emu_gb.Interrupt.{
  flag, iv_vblank, if_address, read_interrupt, write_interrupt, interrupt_is_set,
  interrupt_is_enabled,
}
use emu_gb.Machine.{Machine, on_cpu, on_interrupts}
use emu_gb.Timer.Ticks.{timer_tick, timer_ticks}
use emu_gb.Stack.{stack_push_16bit}

unfoldable pub handle_interrupt : ℕ → Machine → Outcome Machine
handle_interrupt vector m = do
  let m1 = timer_ticks 2 m
  m2 ← stack_push_16bit (read_register_16bit reg_pc m1.cpu) m1
  let m3 = timer_tick m2
  ok (on_cpu (write_register_16bit reg_pc vector) m3)

-- The body of the loop for a vector that is set and enabled.
unfoldable pub accept : ℕ → Machine → Outcome (ℕ × Machine)
accept vector m =
    let m1 = on_cpu (λ c. record c { halt = false }) m in
    if m1.interrupts.ime
    then (do
      m2 ← handle_interrupt vector m1
      let pending = read_interrupt if_address m2.interrupts
      let left = bit_and pending (complement (flag vector))
      ok (5, on_interrupts (write_interrupt if_address left) m2))
    else ok (0, m1)

-- The loop over the vectors, with the rounds that are left.
unfoldable pub scan : ℕ → ℕ → Machine → Outcome (ℕ × Machine)
unfolding accept handle_interrupt
scan zero vector m = ok (0, m)
scan (suc rounds) vector m =
    let rest = scan rounds (vector + 0x8) m in
    if interrupt_is_set vector m.interrupts && interrupt_is_enabled vector m.interrupts
    then accept vector m
    else rest

unfoldable pub handle_interrupts : Machine → Outcome (ℕ × Machine)
unfolding scan
handle_interrupts m = scan 5 iv_vblank m
