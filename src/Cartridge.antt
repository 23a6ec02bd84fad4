-- ===== src/Cartridge.antt =====
-- src/cartridge and include/cartridge: the loaded image, the registers of the bank controllers and
-- the clock of an MBC3. The children are the controllers, the bus in front of them and the loader.
pub mod Mbc1
pub mod Mbc2
pub mod Clock
pub mod Mbc3
pub mod Bus
pub mod Loader
pub mod Dump
pub mod Info
use emu_gb.Base.{ℕ, Bool, false, Error, Outcome, ok, err, undefined, ltb, if◌then◌else◌, u8, update}

-- `cartridge_type`: the last header value of each type.
abbrev pub rom_only : ℕ
rom_only = 0x0

abbrev pub mbc1_type : ℕ
mbc1_type = 0x03

abbrev pub mbc2_type : ℕ
mbc2_type = 0x06

abbrev pub mbc3_type : ℕ
mbc3_type = 0x13

-- The areas of include/cpu/memory.h and include/cartridge/memory.h.
abbrev pub ram_gate : ℕ
ram_gate = 0x2000

abbrev pub rom_bank_end : ℕ
rom_bank_end = 0x4000

abbrev pub rom_bank2 : ℕ
rom_bank2 = 0x6000

abbrev pub rom_bank_switchable : ℕ
rom_bank_switchable = 0x8000

abbrev pub video_ram : ℕ
video_ram = 0xA000

abbrev pub external_ram : ℕ
external_ram = 0xC000

-- `struct chip_registers_t`.
pub record ChipRegisters : Type 0 where
  pub ram_g : ℕ
  pub rom_bank : ℕ
  pub ram_bank : ℕ
  pub mode : Bool

-- `struct mbc3_rtc_register`, and the statics of mbc3.c.
pub record Rtc : Type 0 where
  pub time : ℕ
  pub writable : ℕ → ℕ
  pub readable : ℕ → ℕ
  pub mapped_register : ℕ
  pub last_value : ℕ

-- `struct cartridge`, the chip and the variable `g_ram_access`. `now` is what `time(NULL)` returns
-- during the present instruction; the environment moves it.
pub record Cartridge : Type 0 where
  pub multicart : Bool
  pub rom_size : ℕ
  pub ram_size : ℕ
  pub rom : ℕ → ℕ
  pub ram : ℕ → ℕ
  pub chip : ChipRegisters
  pub ram_access : Bool
  pub rtc : Rtc
  pub now : ℕ

-- Fields of `struct cartridge_header`, by their place in the image.
abbrev pub header_type : Cartridge → ℕ
header_type g = g.rom 0x147

abbrev pub header_rom_size : Cartridge → ℕ
header_rom_size g = g.rom 0x148

abbrev pub header_ram_size : Cartridge → ℕ
header_ram_size g = g.rom 0x149

abbrev pub header_rom_version : Cartridge → ℕ
header_rom_version g = g.rom 0x14C

-- A read or a write of `rom` with no test before it.
unfoldable pub read_rom : ℕ → Cartridge → Outcome ℕ
read_rom k g = if ltb k g.rom_size then ok (g.rom k) else err undefined

abbrev pub update_rom : ℕ → ℕ → Cartridge → Cartridge
update_rom k val g = record g { rom = update g.rom k (u8 val) }

unfoldable pub write_rom : ℕ → ℕ → Cartridge → Outcome Cartridge
write_rom k val g = if ltb k g.rom_size then ok (update_rom k val g) else err undefined

-- The same behind `assert(k < size)` and behind `ASSERT_MSG(k < size, …)`.
abbrev pub read_below : Error → ℕ → (ℕ → ℕ) → ℕ → Outcome ℕ
read_below e size cells k = if ltb k size then ok (cells k) else err e

unfoldable pub write_ram : Error → ℕ → ℕ → Cartridge → Outcome Cartridge
write_ram e k val g =
    if ltb k g.ram_size then ok (record g { ram = update g.ram k (u8 val) }) else err e

-- `VIDEO_RAM <= address && address < EXTERNAL_RAM`.
abbrev pub is_ram : ℕ → Bool
is_ram address = if ltb address video_ram then false else ltb address external_ram
