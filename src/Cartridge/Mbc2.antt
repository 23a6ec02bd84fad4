-- ===== src/Cartridge/Mbc2.antt =====
-- src/cartridge/mbc2.c: the bank controller MBC2.
pub mod Banks
use emu_gb.Base.{
  ℕ, ◌+◌, ◌-◌, ◌*◌, ◌^◌, ◌==◌, Outcome, ok, err, fatal, ◌>>=◌, ltb, ◌&&◌, not, if◌then◌else◌, u16,
  low_bits, has_bit,
}
use emu_gb.Cartridge.{Cartridge, rom_bank_end, rom_bank_switchable, read_below, write_ram, is_ram}

-- `compute_physical_adress`. `1 << 14 | x` is a sum, since `x` has 14 bits.
unfoldable pub compute_physical_adress : ℕ → Cartridge → Outcome ℕ
compute_physical_adress address g =
    if is_ram address
    then ok (address - 0xA000)
    else if ltb address rom_bank_end
    then ok (low_bits address 13)
    else if ltb address rom_bank_switchable
    then (if g.chip.rom_bank == 0
        then ok (2 ^ 14 + low_bits address 14)
        else ok (g.chip.rom_bank * 2 ^ 14 + low_bits address 14))
    else err fatal

unfoldable pub write_mbc2 : ℕ → ℕ → Cartridge → Outcome Cartridge
unfolding compute_physical_adress write_ram
write_mbc2 address val g =
    if ltb address rom_bank_end && not (has_bit address 8)
    then (let ram_g = low_bits val 4 in
        ok (record g { chip = record (g.chip) { ram_g = ram_g }; ram_access = ram_g == 0xA }))
    else if ltb address rom_bank_end && has_bit address 8
    then (let bank = low_bits val 4 in
        ok (record g { chip = record (g.chip) { rom_bank = if bank == 0 then 1 else bank } }))
    else if is_ram address && g.ram_access
    then (do
      physical ← compute_physical_adress address g
      write_ram fatal (u16 physical) (low_bits val 4) g)
    else ok g

unfoldable pub read_mbc2 : ℕ → Cartridge → Outcome ℕ
unfolding compute_physical_adress
read_mbc2 address g = if is_ram address && not g.ram_access then ok 0xFF else do
  physical ← compute_physical_adress address g
  (if is_ram address
      then read_below fatal g.ram_size g.ram physical
      else read_below fatal g.rom_size g.rom physical)
