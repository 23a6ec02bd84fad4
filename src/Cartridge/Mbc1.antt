-- ===== src/Cartridge/Mbc1.antt =====
-- src/cartridge/mbc1.c: the bank controller MBC1.
pub mod Banks
use emu_gb.Base.{
  ℕ, ◌+◌, ◌*◌, ◌^◌, ◌==◌, Outcome, ok, err, fatal, abort, ◌>>=◌, ltb, ◌&&◌, if◌then◌else◌, u8, u16,
  msb, lsb, low_bits, has_bit, not,
}
use emu_gb.Cartridge.{
  Cartridge, ram_gate, rom_bank_end, rom_bank2, rom_bank_switchable, read_below, write_ram, is_ram,
}

-- `compute_physical_address`. `bank` is a `u8`.
unfoldable pub compute_physical_address : ℕ → Cartridge → Outcome ℕ
compute_physical_address address g =
    let bank_size : ℕ = if g.multicart then 4 else 5 in
    let chip = g.chip in
    let high = u8 (chip.ram_bank * 2 ^ bank_size) in
    if is_ram address
    then ok (low_bits address 13 + (if chip.mode then chip.ram_bank else 0) * 2 ^ 13)
    else if ltb address 0x4000
    then ok (low_bits address 14 + (if chip.mode then high else 0) * 2 ^ 14)
    else if ltb address 0x8000
    then (let low =
          if chip.rom_bank == 0
          then 1
          else if g.multicart
          then low_bits chip.rom_bank 4
          else chip.rom_bank in
        ok (low_bits address 14 + u8 (high + low) * 2 ^ 14))
    else err fatal

unfoldable pub write_mbc1 : ℕ → ℕ → Cartridge → Outcome Cartridge
unfolding compute_physical_address write_ram
write_mbc1 address val g =
    if ltb address ram_gate
    then (let ram_g = low_bits val 4 in
        ok (record g { chip = record (g.chip) { ram_g = ram_g }; ram_access = ram_g == 0xA }))
    else if ltb address rom_bank_end
    then (let bank = low_bits val 5 in
        ok (record g { chip = record (g.chip) { rom_bank = if bank == 0 then 1 else bank } }))
    else if ltb address rom_bank2
    then ok (record g { chip = record (g.chip) { ram_bank = low_bits val 2 } })
    else if ltb address rom_bank_switchable
    then ok (record g { chip = record (g.chip) { mode = has_bit val 0 } })
    else if is_ram address && g.ram_access
    then (do physical ← compute_physical_address address g; write_ram abort (u16 physical) val g)
    else ok g

-- `WRITE_16_FUNCTION(mbc1)`.
unfoldable pub write_mbc1_16bit : ℕ → ℕ → Cartridge → Outcome Cartridge
unfolding write_mbc1
write_mbc1_16bit address val g = do
  g1 ← write_mbc1 address (lsb val) g
  write_mbc1 (u16 (address + 1)) (msb val) g1

unfoldable pub read_mbc1 : ℕ → Cartridge → Outcome ℕ
unfolding compute_physical_address
read_mbc1 address g = if is_ram address && not g.ram_access then ok 0xFF else do
  physical ← compute_physical_address address g
  (if is_ram address
      then read_below fatal g.ram_size g.ram physical
      else read_below fatal g.rom_size g.rom physical)

-- `READ_16_FUNCTION(mbc1)`.
unfoldable pub read_mbc1_16bit : ℕ → Cartridge → Outcome ℕ
unfolding read_mbc1
read_mbc1_16bit address g = do
  low ← read_mbc1 address g
  high ← read_mbc1 (u16 (address + 1)) g
  ok (u16 (low + high * 256))
