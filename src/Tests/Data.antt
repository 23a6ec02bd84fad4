-- ===== src/Tests/Data.antt =====
-- The states of the tests: a small program in work RAM, and a cartridge with 64 KB of ROM.
use emu_gb.Base.{ℕ, ◌+◌, ◌/◌, ◌==◌, true, false, if◌then◌else◌}
use emu_gb.Cpu.{Cpu}
use emu_gb.Timer.{Timer}
use emu_gb.Interrupt.{Interrupts}
use emu_gb.Cartridge.{Cartridge}
use emu_gb.Machine.{Machine}
use emu_gb.Program.{TestRom}
use emu_gb.Instruction.{a16, Instruction, in_add, a_r8}

-- `LD HL,0x1234` at 0xC000, and 0 elsewhere.
abbrev pub code : ℕ → ℕ
code k = if k == 0xC000 then 0x21 else if k == 0xC001 then 0x34 else if k == 0xC002 then 0x12 else 0

-- A holds 0x45, F the flag C, and B the byte 0x38.
abbrev pub bytes : ℕ → ℕ
bytes k = if k == 0 then 0x45 else if k == 1 then 0x10 else if k == 2 then 0x38 else 0

abbrev pub cpu : Cpu
cpu = record {
  r8 = bytes;
  pc = 0xC001;
  sp = 0xDFFE;
  memory = code;
  halt = true;
  ime_scheduled = false;
  is_running = true;
}

-- TIMA is enabled with a period of 4 cycles.
abbrev pub timer : Timer
timer = record { div = 0xFFFE; tima = 0xF0; tma = 0x20; tac = 0x05; tima_overflow = false }

-- VBLANK and TIMA are requested, TIMA alone is enabled.
abbrev pub interrupts : Interrupts
interrupts = record { if_reg = 0x05; ie_reg = 0x04; ime = true }

-- Every cell of the ROM holds the number of its 256-byte page.
abbrev pub cartridge : Cartridge
cartridge = record {
  multicart = false;
  rom_size = 0x10000;
  ram_size = 0x8000;
  rom = λ k. k / 0x100;
  ram = λ k. 0;
  chip = record { ram_g = 0x0A; rom_bank = 2; ram_bank = 0; mode = false };
  ram_access = true;
  rtc = record {
    time = 900;
    writable = λ k. if k == 1 then 2 else 0;
    readable = λ k. k + 40;
    mapped_register = 0;
    last_value = 0;
  };
  now = 1075;
}

abbrev pub shut : Cartridge
shut = record cartridge { ram_access = false }

abbrev pub machine : Machine
machine = record { cpu = cpu; timer = timer; interrupts = interrupts; cartridge = cartridge }

abbrev pub masked : Machine
masked = record machine { interrupts = record interrupts { ime = false } }

abbrev pub quiet : Machine
quiet = record machine { interrupts = record interrupts { ie_reg = 0 } }

-- An operation on A and B.
abbrev pub with_b : Instruction
with_b = record {
  instruction = in_add;
  operands = a_r8;
  pc = 0xC000;
  reg1 = 0;
  reg2 = 2;
  address = 0;
  condition = false;
  value = 0;
  cycle_count = 1;
  cycle_count_false = 0;
}

-- A call or a return whose condition holds.
abbrev pub taken_call : Instruction
taken_call = record with_b { operands = a16; address = 0xC100; condition = true; cycle_count = 6 }

abbrev pub no_output : TestRom
no_output = record { output = λ k. 0; output_size = 0; last_output_size = 0 }
