-- ===== src/Tests/Timing.antt =====
-- The timer and the interrupts.
use emu_gb.Timer.Batch.{overflows, timer_ticks-timer_tick}
use emu_gb.Base.{if◌then◌else◌, ℕ, zero, suc, ◌<◌, ◌≤◌, ◌≡◌, refl, arith, inl, false, ok, Returns}
use emu_gb.Machine.{Machine}
use emu_gb.Timer.Ticks.{timer_ticks, deliver_overflow, timer_tick, frequency}
use emu_gb.Timer.Cycle.{timer_tick_lem, run_cycles, run_cycles-counts, next_timer, next_interrupts}
use emu_gb.Interrupt.{interrupt_is_set, interrupt_is_enabled}
use emu_gb.Interrupt.Service.{handle_interrupts}
use emu_gb.Interrupt.Priority.{IsFirst, is_waiting}
use emu_gb.Interrupt.Serve.{IsServed, handle_interrupts-IsServed}
use emu_gb.Program.{rounds}
use emu_gb.Program.Wake.{IsAsleep, rounds_wake}
use emu_gb.Program.Halt.{IsIdle}
use emu_gb.Tests.Data.{no_output, cpu, machine, masked, quiet, timer}

timer_tick_lem_example : timer_tick machine ≡ record machine {
  cpu = record cpu { ime_scheduled = false };
  timer = next_timer timer;
  interrupts = next_interrupts machine;
}
timer_tick_lem_example = timer_tick_lem machine (omega arith) (omega arith)

-- From 0xFFFE on, DIV reaches a multiple of 4 three times in 10 cycles.
run_cycles-counts_example :
    (run_cycles 10 machine).timer ≡ record timer { div = 0x0008; tima = 0xF3 }
unfolding frequency
run_cycles-counts_example =
    run_cycles-counts 10 machine refl refl (omega arith) (omega arith) (omega arith)

-- Of the interrupts only the timer's, the third, waits.
none_before_timer :
    (m : Machine) → m.interrupts.ie_reg ≡ 4 → (j : ℕ) → j < 2 → is_waiting j m ≡ false
unfolding interrupt_is_set interrupt_is_enabled
none_before_timer m e zero h = rw e (ground arith)
none_before_timer m e (suc zero) h = rw e (ground arith)
none_before_timer m e (suc (suc j)) h = absurd (omega arith)

timer-IsFirst : IsFirst 2 machine
unfolding interrupt_is_set interrupt_is_enabled
timer-IsFirst = record {
  in_range = omega arith;
  waits = refl;
  none_before = none_before_timer machine refl;
}

masked-IsFirst : IsFirst 2 masked
unfolding interrupt_is_set interrupt_is_enabled
masked-IsFirst = record {
  in_range = omega arith;
  waits = refl;
  none_before = none_before_timer masked refl;
}

none_waits : (j : ℕ) → j < 5 → is_waiting j quiet ≡ false
unfolding interrupt_is_set interrupt_is_enabled
none_waits zero h = refl
none_waits (suc zero) h = refl
none_waits (suc (suc zero)) h = refl
none_waits (suc (suc (suc zero))) h = refl
none_waits (suc (suc (suc (suc zero)))) h = refl
none_waits (suc (suc (suc (suc (suc j))))) h = absurd (omega arith)

handle_interrupts-IsServed_example :
    (after : Machine) × (handle_interrupts machine ≡ ok (5, after)) × IsServed 2 machine after
handle_interrupts-IsServed_example =
    handle_interrupts-IsServed 2 machine timer-IsFirst refl
      (omega arith, omega arith, inl (omega arith, omega arith), inl (omega arith, omega arith))
      (omega arith)

quiet-IsIdle : IsIdle quiet
quiet-IsIdle = record { halted = refl; no_overflow = refl; none_waits = none_waits }

-- Halted with IME off; the timer is on, and its interrupt enabled.
abbrev asleep : Machine
asleep = record machine { interrupts = record { if_reg = 0; ie_reg = 0x04; ime = false } }

asleep-IsAsleep : IsAsleep asleep
unfolding interrupt_is_enabled
asleep-IsAsleep = record {
  running = refl;
  halted = refl;
  masked = refl;
  no_ei = refl;
  timer_on = refl;
  enabled = refl;
  tima_byte = omega arith;
  tma_byte = omega arith;
  if_byte = omega arith;
}

rounds_wake_example :
    (n : ℕ) × (n ≤ 65537) × Returns (rounds false n (no_output, asleep)) (λ s. s.1.cpu.halt ≡ false)
rounds_wake_example = rounds_wake false no_output asleep asleep-IsAsleep

timer_ticks-timer_tick_example : timer_tick (timer_tick machine) ≡ (
    if overflows machine.timer
    then deliver_overflow (timer_ticks 2 machine)
    else timer_ticks 2 machine)
timer_ticks-timer_tick_example = timer_ticks-timer_tick machine (omega arith) (omega arith)
