-- ===== src/Cartridge/Mbc1/Banks.antt =====
-- The banks of src/cartridge/mbc1.c: which cell an address stands for, and what writes change.
use emu_gb.Base.{
  ℕ, ◌+◌, ◌-◌, ◌*◌, ◌%◌, ◌<◌, ◌≤◌, ◌≡◌, arith, true, false, ok, Ensures, Returns, if◌then◌else◌,
}
use emu_gb.Cartridge.{Cartridge, is_ram}
use emu_gb.Cartridge.Mbc1.{read_mbc1, write_mbc1}

-- The registers fit their width, and bank 0 is never selected.
pub record IsChip (g : Cartridge) : Type 0 where
  pub gate_fits : g.chip.ram_g < 16
  pub bank_pos : 0 < g.chip.rom_bank
  pub bank_fits : g.chip.rom_bank < 32
  pub ram_bank_fits : g.chip.ram_bank < 4

-- A write to any address that returns keeps the registers in range.
pub write_mbc1-IsChip : (a v : ℕ) (g : Cartridge) → IsChip g → Ensures (write_mbc1 a v g) IsChip
unfolding write_mbc1
write_mbc1-IsChip a v g h = ground arith

-- No write that returns changes the ROM or the sizes.
pub write_mbc1-rom :
    (a v : ℕ) (g : Cartridge)
    → Ensures
        (write_mbc1 a v g)
        (λ g'. (g'.rom ≡ g.rom) × (g'.rom_size ≡ g.rom_size) × (g'.ram_size ≡ g.ram_size))
unfolding write_mbc1
write_mbc1-rom a v g = ground arith

-- The bank that the area from 0x4000 shows.
abbrev pub selected : Cartridge → ℕ
selected g =
    if g.multicart
    then g.chip.ram_bank * 16 + g.chip.rom_bank % 16
    else g.chip.ram_bank * 32 + g.chip.rom_bank

-- With registers in range the area from 0x4000 to 0x7FFF shows the selected bank, one of 128, if the
-- ROM has it.
pub read_mbc1-bank :
    (a : ℕ) (g : Cartridge)
    → IsChip g
    → 0x4000 ≤ a
    → a < 0x8000
    → selected g * 0x4000 + (a - 0x4000) < g.rom_size
    → (selected g < 128) × (read_mbc1 a g ≡ ok (g.rom (selected g * 0x4000 + (a - 0x4000))))
unfolding read_mbc1
read_mbc1-bank a g h low high fits = (ground arith, ground arith)

-- On a cartridge that is no multicart, and with 0 in the RAM bank register, a bank from 1 to 31 that
-- is written to an address from 0x2000 to 0x3FFF is seen from 0x4000 to 0x7FFF, if the ROM has it.
pub read_mbc1-write_mbc1 :
    (a b n : ℕ) (g : Cartridge)
    → g.chip.ram_bank ≡ 0
    → g.multicart ≡ false
    → 0x2000 ≤ b
    → b < 0x4000
    → 0x4000 ≤ a
    → a < 0x8000
    → 0 < n
    → n < 32
    → n * 0x4000 + (a - 0x4000) < g.rom_size
    → Returns (write_mbc1 b n g) (λ g'. read_mbc1 a g' ≡ ok (g.rom (n * 0x4000 + (a - 0x4000))))
unfolding read_mbc1 write_mbc1
read_mbc1-write_mbc1 a b n g zero_bank single lb hb la ha pos lt fits = ground arith

-- With the gate open, and 32 KB of RAM, a byte that is written to the RAM area is read back from the
-- same address.
pub read_mbc1-ram :
    (a v : ℕ) (g : Cartridge)
    → IsChip g
    → is_ram a ≡ true
    → g.ram_access ≡ true
    → v < 256
    → 0x8000 ≤ g.ram_size
    → Returns (write_mbc1 a v g) (λ g'. read_mbc1 a g' ≡ ok v)
unfolding read_mbc1 write_mbc1
read_mbc1-ram a v g h in_ram gate hv fits = ground arith
