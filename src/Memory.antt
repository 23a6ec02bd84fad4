-- ===== src/Memory.antt =====
-- src/cpu/memory.c and src/io.c: the memory map.
pub mod Plain
use emu_gb.Base.{
  ℕ, ◌+◌, ◌-◌, ◌*◌, Bool, Outcome, ok, err, undefined, ◌>>=◌, ltb, leb, ◌==◌, ◌&&◌, if◌then◌else◌,
  u8, u16, msb, lsb, update,
}
use emu_gb.Cpu.{Cpu}
use emu_gb.Timer.{read_timer, write_timer, timer_div, timer_tac}
use emu_gb.Interrupt.{read_interrupt, write_interrupt, if_address}
use emu_gb.Cartridge.{rom_bank_switchable}
use emu_gb.Cartridge.Bus.{read_cartridge, read_cartridge_16bit, write_cartridge}
use emu_gb.Machine.{Machine, on_cpu, on_timer, on_interrupts}

abbrev pub reserved_unused : ℕ
reserved_unused = 0xFF00

abbrev pub io_ports : ℕ
io_ports = 0xFF80

abbrev pub interrupt_enable_flags : ℕ
interrupt_enable_flags = 0xFFFF

-- The macros `BETWEEN` and `IN_RANGE`.
abbrev pub between : ℕ → ℕ → ℕ → Bool
between x a b = leb a x && leb x b

abbrev pub in_range : ℕ → ℕ → ℕ → Bool
in_range x a b = leb a x && ltb x (b - 1)

-- `g_cpu.memory[address] = val`.
abbrev pub store : ℕ → ℕ → Cpu → Cpu
store address val c = record c { memory = update c.memory address (u8 val) }

unfoldable pub write_io : ℕ → ℕ → Machine → Machine
write_io address val m =
    if between address timer_div timer_tac
    then on_timer (write_timer address val) m
    else if address == if_address
    then on_interrupts (write_interrupt if_address val) m
    else on_cpu (store address val) m

unfoldable pub read_io : ℕ → Machine → ℕ
read_io address m =
    if between address timer_div timer_tac
    then read_timer address m.timer
    else if address == if_address
    then read_interrupt if_address m.interrupts
    else m.cpu.memory address

unfoldable pub write_memory : ℕ → ℕ → Machine → Outcome Machine
unfolding write_io
write_memory address val m =
    if ltb address rom_bank_switchable
    then (do g ← write_cartridge address val m.cartridge; ok (record m { cartridge = g }))
    else if in_range address reserved_unused io_ports
    then ok (write_io address val m)
    else if address == interrupt_enable_flags
    then ok (on_interrupts (write_interrupt address val) m)
    else ok (on_cpu (store address val) m)

unfoldable pub write_memory_16bit : ℕ → ℕ → Machine → Outcome Machine
unfolding write_memory
write_memory_16bit address val m = do
  m1 ← write_memory address (lsb val) m
  write_memory (u16 (address + 1)) (msb val) m1

unfoldable pub read_memory : ℕ → Machine → Outcome ℕ
unfolding read_io
read_memory address m =
    if ltb address rom_bank_switchable
    then read_cartridge address m.cartridge
    else if in_range address reserved_unused io_ports
    then ok (read_io address m)
    else if address == interrupt_enable_flags
    then ok (read_interrupt address m.interrupts)
    else ok (m.cpu.memory address)

-- `memory` has 2 ^ 16 cells, and `address + 1` is an `int`.
unfoldable pub read_memory_16bit : ℕ → Machine → Outcome ℕ
read_memory_16bit address m =
    if ltb address rom_bank_switchable
    then read_cartridge_16bit address m.cartridge
    else if ltb (address + 1) 65536
    then ok (m.cpu.memory address + m.cpu.memory (address + 1) * 256)
    else err undefined
