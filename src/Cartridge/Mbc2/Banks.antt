-- ===== src/Cartridge/Mbc2/Banks.antt =====
-- The banks and the built-in RAM of src/cartridge/mbc2.c.
use emu_gb.Base.{
  has_bit, if◌then◌else◌, ℕ, ◌+◌, ◌-◌, ◌*◌, ◌%◌, ◌<◌, ◌≤◌, ◌≡◌, arith, true, ok, Ensures, Returns,
  ◌==◌,
}
use emu_gb.Cartridge.{Cartridge, is_ram}
use emu_gb.Cartridge.Mbc2.{read_mbc2, write_mbc2}

pub record IsChip (g : Cartridge) : Type 0 where
  pub gate_fits : g.chip.ram_g < 16
  pub bank_pos : 0 < g.chip.rom_bank
  pub bank_fits : g.chip.rom_bank < 16

-- A write to any address that returns keeps the registers in range, and the ROM and its size as they
-- are.
pub write_mbc2-IsChip :
    (a v : ℕ) (g : Cartridge)
    → IsChip g
    → Ensures (write_mbc2 a v g) (λ g'. IsChip g' × (g'.rom ≡ g.rom) × (g'.rom_size ≡ g.rom_size))
unfolding write_mbc2
write_mbc2-IsChip a v g h = ground arith

-- A write below 0x4000 returns. Bit 8 of the address tells the two registers apart: clear, the low
-- four bits of the value go to the RAM gate; set, to the ROM bank, where 0 becomes 1. The other
-- register stays.
pub write_mbc2-registers :
    (a v : ℕ) (g : Cartridge)
    → a < 0x4000
    → Returns (write_mbc2 a v g) (λ g'.
      (g'.chip.ram_g ≡ (if has_bit a 8 then g.chip.ram_g else v % 16))
      × (g'.chip.rom_bank
          ≡ (if has_bit a 8 then (if v % 16 == 0 then 1 else v % 16) else g.chip.rom_bank)))
unfolding write_mbc2
write_mbc2-registers a v g h = ground arith

-- With registers in range the area from 0x4000 to 0x7FFF shows the selected bank, if the ROM has it.
pub read_mbc2-bank :
    (a : ℕ) (g : Cartridge)
    → IsChip g
    → 0x4000 ≤ a
    → a < 0x8000
    → g.chip.rom_bank * 0x4000 + (a - 0x4000) < g.rom_size
    → read_mbc2 a g ≡ ok (g.rom (g.chip.rom_bank * 0x4000 + (a - 0x4000)))
unfolding read_mbc2
read_mbc2-bank a g h low high fits = ground arith

-- Below 0x4000 only 13 bits of the address are used: the area from 0x2000 to 0x3FFF reads like the
-- one from 0 to 0x1FFF, whatever the ROM of at least 16 KB holds there.
pub read_mbc2_mirror :
    (a : ℕ) (g : Cartridge)
    → 0x2000 ≤ a
    → a < 0x4000
    → 0x4000 ≤ g.rom_size
    → read_mbc2 a g ≡ ok (g.rom (a - 0x2000))
unfolding read_mbc2
read_mbc2_mirror a g low high size = ground arith

-- With the gate open, at an address of the RAM area that the RAM has, a write returns, and the low
-- four bits of the value are read back.
pub read_mbc2-ram :
    (a v : ℕ) (g : Cartridge)
    → is_ram a ≡ true
    → g.ram_access ≡ true
    → a - 0xA000 < g.ram_size
    → Returns (write_mbc2 a v g) (λ g'. read_mbc2 a g' ≡ ok (v % 16))
unfolding read_mbc2 write_mbc2
read_mbc2-ram a v g in_ram gate fits = ground arith
