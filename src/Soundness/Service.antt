-- ===== src/Soundness/Service.antt =====
-- `handle_interrupts` of src/cpu/interrupt.c, on any cartridge that meets the contract.
use emu_gb.Base.{ℕ, zero, suc, ◌+◌, false, Ends, >>=-Ends, if-Ends, ◌&&◌}
use emu_gb.Cpu.{reg_pc, read_register_16bit}
use emu_gb.Cartridge.{Cartridge}
use emu_gb.Machine.{Machine, on_cpu}
use emu_gb.Interrupt.{if_address, interrupt_is_set, interrupt_is_enabled}
use emu_gb.Interrupt.Service.{handle_interrupt, accept, scan, handle_interrupts}
use emu_gb.Timer.Ticks.{timer_ticks, timer_tick}
use emu_gb.Stack.{stack_push_16bit}
use emu_gb.Soundness.{IsMachine, Contract}
use emu_gb.Soundness.Access.{
  with_cpu, with_interrupts, set_bits-IsCpu, write_interrupt-IsInterrupts, timer_tick-IsMachine,
  timer_ticks-IsMachine,
}
use emu_gb.Soundness.Bus.{stack_push_16bit-Ends, Reads}
use emu_gb.Soundness.Jumps

module _ {IsSound : Cartridge → Type 0} {Stop : Type 0} (k : Contract IsSound Stop) where
  handle_interrupt-Ends :
      (vector : ℕ) (m : Machine)
      → IsMachine IsSound m
      → Ends Stop (handle_interrupt vector m) (IsMachine IsSound)
  unfolding handle_interrupt
  handle_interrupt-Ends vector m h =
      let h1 = timer_ticks-IsMachine 2 m h in
      >>=-Ends Stop (IsMachine IsSound) (IsMachine IsSound)
        (stack_push_16bit (read_register_16bit reg_pc (timer_ticks 2 m).cpu) (timer_ticks 2 m)) _
        (stack_push_16bit-Ends k _ (timer_ticks 2 m) h1)
        (λ m2 good. Jumps.set_pc-IsMachine vector (timer_tick m2) (timer_tick-IsMachine m2 good))

  wake-IsMachine :
      (m : Machine)
      → IsMachine IsSound m
      → IsMachine IsSound (on_cpu (λ c. record c { halt = false }) m)
  wake-IsMachine m h = with_cpu _ m (set_bits-IsCpu false _ _ m.cpu h.is_cpu) h

  accept-Ends : (vector : ℕ) (m : Machine) → IsMachine IsSound m → Reads k (accept vector m)
  unfolding accept
  accept-Ends vector m h =
      let m1 = on_cpu (λ c. record c { halt = false }) m in
      if-Ends Stop (λ (x : ℕ × Machine). IsMachine IsSound x.1) m1.interrupts.ime _ _
        (>>=-Ends Stop (IsMachine IsSound) _ (handle_interrupt vector m1) _
          (handle_interrupt-Ends vector m1 (wake-IsMachine m h))
          (λ m2 good.
            with_interrupts _ m2
              (write_interrupt-IsInterrupts if_address _ m2.interrupts good.is_interrupts) good))
        (wake-IsMachine m h)

  scan-Ends :
      (rounds vector : ℕ) (m : Machine) → IsMachine IsSound m → Reads k (scan rounds vector m)
  unfolding scan
  scan-Ends zero vector m h = h
  scan-Ends (suc rounds) vector m h =
      if-Ends Stop (λ (x : ℕ × Machine). IsMachine IsSound x.1)
        (interrupt_is_set vector m.interrupts && interrupt_is_enabled vector m.interrupts) _ _
        (accept-Ends vector m h) (scan-Ends rounds (vector + 0x8) m h)

  pub handle_interrupts-Ends : (m : Machine) → IsMachine IsSound m → Reads k (handle_interrupts m)
  unfolding handle_interrupts
  handle_interrupts-Ends m h = scan-Ends 5 _ m h
