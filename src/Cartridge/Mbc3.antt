-- ===== src/Cartridge/Mbc3.antt =====
-- src/cartridge/mbc3.c: the bank controller MBC3.
pub mod Banks
use emu_gb.Base.{
  ℕ, ◌+◌, ◌-◌, ◌*◌, ◌^◌, ◌==◌, Bool, Outcome, ok, err, fatal, ◌>>=◌, ltb, leb, ◌&&◌, not,
  if◌then◌else◌, u8, low_bits, to_bool, update, bit_and,
}
use emu_gb.Cartridge.{
  Cartridge, ram_gate, rom_bank_end, rom_bank2, rom_bank_switchable, read_rom, write_rom,
  read_below, is_ram,
}
use emu_gb.Cartridge.Clock.{update_rtc, latch_rtc}

-- `compute_physical_addresss`.
unfoldable pub compute_physical_addresss : ℕ → Cartridge → Outcome ℕ
compute_physical_addresss address g =
    let chip = g.chip in
    let high = u8 (chip.ram_bank * 2 ^ 5) in
    if is_ram address
    then ok (low_bits address 13 + (if chip.mode then chip.ram_bank else 0) * 2 ^ 13)
    else if ltb address 0x4000
    then ok (low_bits address 14 + (if chip.mode then high else 0) * 2 ^ 14)
    else if ltb address 0x8000
    then ok (low_bits address 14 + u8 (high + chip.rom_bank) * 2 ^ 14)
    else err fatal

-- The mapped register is one of the clock's.
abbrev pub is_rtc : ℕ → Bool
is_rtc register = leb 0x8 register && leb register 0xC

unfoldable pub write_mbc3 : ℕ → ℕ → Cartridge → Outcome Cartridge
unfolding update_rtc latch_rtc read_rom write_rom
write_mbc3 address val g =
    let rtc = g.rtc in
    if ltb address ram_gate
    then (do
      cell ← read_rom address g
      ok (record g {
        chip = record (g.chip) { ram_g = low_bits val 4 };
        ram_access = to_bool (bit_and cell 10);
      }))
    else if ltb address rom_bank_end
    then ok (record g { chip = record (g.chip) { rom_bank = if u8 val == 0 then 1 else u8 val } })
    else if ltb address rom_bank2
    then ok (record g {
      chip = if leb val 0x3 then record (g.chip) { ram_bank = low_bits val 2 } else g.chip;
      rtc = record rtc { mapped_register = u8 val };
    })
    else if ltb address rom_bank_switchable
    then (let r1 = if val == 0x01 && rtc.last_value == 0x00 then latch_rtc g.now rtc else rtc in
        ok (record g { rtc = record r1 { last_value = u8 val } }))
    else if is_ram address && g.ram_access
    then (if ltb rtc.mapped_register 0x03
        then write_rom address val g
        else if is_rtc rtc.mapped_register
        then (let r1 = update_rtc g.now rtc in
            ok (record g {
              rtc = record r1 {
                writable = update r1.writable (rtc.mapped_register - 0x8) (u8 val);
              };
            }))
        else ok g)
    else ok g

unfoldable pub read_mbc3 : ℕ → Cartridge → Outcome ℕ
unfolding compute_physical_addresss
read_mbc3 address g =
    if is_ram address && not g.ram_access
    then ok 0xFF
    else if is_rtc g.rtc.mapped_register
    then ok (g.rtc.readable (g.rtc.mapped_register - 0x8))
    else do
      physical ← compute_physical_addresss address g
      read_below fatal g.rom_size g.rom physical
