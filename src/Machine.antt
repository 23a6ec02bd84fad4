-- ===== src/Machine.antt =====
-- The global state of the emulator: `g_cpu`, `g_timer`, the interrupt registers and `g_cartridge`
-- with the statics beside them.
use emu_gb.Cpu.{Cpu}
use emu_gb.Timer.{Timer}
use emu_gb.Interrupt.{Interrupts}
use emu_gb.Cartridge.{Cartridge}

pub record Machine : Type 0 where
  pub cpu : Cpu
  pub timer : Timer
  pub interrupts : Interrupts
  pub cartridge : Cartridge

-- An operation of one part, applied to the whole.
abbrev pub on_cpu : (Cpu → Cpu) → Machine → Machine
on_cpu f m = record m { cpu = f m.cpu }

abbrev pub on_timer : (Timer → Timer) → Machine → Machine
on_timer f m = record m { timer = f m.timer }

abbrev pub on_interrupts : (Interrupts → Interrupts) → Machine → Machine
on_interrupts f m = record m { interrupts = f m.interrupts }
