-- ===== src/Program/Halt.antt =====
-- The loop of src/main.c while the CPU is halted.
use emu_gb.Base.{ℕ, ◌<◌, ◌≡◌, ◌∙◌, Bool, true, false, ok}
use emu_gb.Machine.{Machine}
use emu_gb.Interrupt.{interrupt_is_set, interrupt_is_enabled}
use emu_gb.Interrupt.Priority.{is_waiting, handle_interrupts-idle}
use emu_gb.Timer.Ticks.{timer_tick}
use emu_gb.Timer.Frame.{timer_ticks-interrupts, timer_tick-cpu}
use emu_gb.Program.{TestRom, round}

-- The CPU is halted, nothing is both requested and enabled, and the timer has no request pending.
pub record IsIdle (m : Machine) : Type 0 where
  pub halted : m.cpu.halt ≡ true
  pub no_overflow : m.timer.tima_overflow ≡ false
  pub none_waits : (j : ℕ) → j < 5 → is_waiting j m ≡ false

tick_waits :
    (m : Machine) (j : ℕ)
    → m.timer.tima_overflow ≡ false
    → is_waiting j (timer_tick m) ≡ is_waiting j m
unfolding timer_tick interrupt_is_set interrupt_is_enabled
tick_waits m j quiet = rw (timer_ticks-interrupts 1 m, quiet)

-- While nothing is both requested and enabled and the timer has no request pending, a round of the
-- loop with a halted CPU, without the option for test ROMs, is one tick of the timer, and changes
-- nothing of the CPU but a delayed `EI`.
pub round-waits :
    (exits : Bool) (t : TestRom) (m : Machine)
    → IsIdle m
    → (round exits false (t, m) ≡ ok (t, timer_tick m))
      × ((timer_tick m).cpu ≡ record (m.cpu) { ime_scheduled = false })
unfolding round
round-waits exits t m idle =
    let none : (j : ℕ) → j < 5 → is_waiting j (timer_tick m) ≡ false =
      λ j h. tick_waits m j idle.no_overflow ∙ idle.none_waits j h in
    (simp (idle.halted, handle_interrupts-idle (timer_tick m) none), timer_tick-cpu m)
