-- ===== src/Timer/Frame.antt =====
-- What `timer_ticks` of src/cpu/timer.c leaves alone, for any number of ticks.
use emu_gb.Base.{ℕ, ◌≡◌, arith, false, ◌||◌, if◌then◌else◌, u8, bit_or}
use emu_gb.Machine.{Machine}
use emu_gb.Interrupt.{interrupt_request, interrupt_set_ime}
use emu_gb.Timer.Ticks.{timer_ticks, timer_tick}

module _ (n : ℕ) (m : Machine) where
  -- Of the CPU only the delayed `EI` is touched.
  pub timer_ticks-cpu : (timer_ticks n m).cpu ≡ record (m.cpu) { ime_scheduled = false }
  unfolding timer_ticks
  timer_ticks-cpu = ground arith

  pub timer_ticks-cartridge : (timer_ticks n m).cartridge ≡ m.cartridge
  unfolding timer_ticks
  timer_ticks-cartridge = ground arith

  -- Only the timer's own request is added to IF, and IE stays.
  pub timer_ticks-interrupts : (timer_ticks n m).interrupts ≡ record (m.interrupts) {
    if_reg =
        if m.timer.tima_overflow then u8 (bit_or m.interrupts.if_reg 4) else m.interrupts.if_reg;
    ime = m.cpu.ime_scheduled || m.interrupts.ime;
  }
  unfolding timer_ticks interrupt_request interrupt_set_ime
  timer_ticks-interrupts = ground arith

module _ (m : Machine) where
  pub timer_tick-cpu : (timer_tick m).cpu ≡ record (m.cpu) { ime_scheduled = false }
  unfolding timer_tick
  timer_tick-cpu = timer_ticks-cpu 1 m

  pub timer_tick-cartridge : (timer_tick m).cartridge ≡ m.cartridge
  unfolding timer_tick
  timer_tick-cartridge = timer_ticks-cartridge 1 m
