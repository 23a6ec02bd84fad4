-- ===== src/Tests/Controllers.antt =====
-- The bank controllers and the clock.
use emu_gb.Base.{◌<◌, ◌≡◌, refl, arith, true, Returns, ok, has_bit}
use emu_gb.Cartridge.{Cartridge}
use emu_gb.Cartridge.Mbc1.{read_mbc1, write_mbc1}
use emu_gb.Cartridge.Mbc1.Banks.{
  write_mbc1-IsChip, write_mbc1-rom, read_mbc1-bank, read_mbc1-write_mbc1, read_mbc1-ram,
}
use emu_gb.Cartridge.Mbc1.Banks
use emu_gb.Cartridge.Mbc2.{read_mbc2, write_mbc2}
use emu_gb.Cartridge.Mbc2.Banks.{
  write_mbc2-IsChip, write_mbc2-registers, read_mbc2-bank, read_mbc2_mirror, read_mbc2-ram,
}
use emu_gb.Cartridge.Mbc3.{read_mbc3, write_mbc3}
use emu_gb.Cartridge.Mbc3.Banks.{mapped_clock_hides_rom, gate_ignores_value}
use emu_gb.Cartridge.Clock.{counted, split_time, latch_rtc, rtc_days_hi}
use emu_gb.Cartridge.Clock.Days.{
  counted-split_time, counted_loses_days, latch_rtc-counts, latch_rtc_stands_still,
}
use emu_gb.Tests.Data.{cartridge}

abbrev Mbc1Chip : Cartridge → Type 0
Mbc1Chip = emu_gb.Cartridge.Mbc1.Banks.IsChip

abbrev Mbc2Chip : Cartridge → Type 0
Mbc2Chip = emu_gb.Cartridge.Mbc2.Banks.IsChip

mbc1_chip : Mbc1Chip cartridge
mbc1_chip = record {
  gate_fits = omega arith;
  bank_pos = omega arith;
  bank_fits = omega arith;
  ram_bank_fits = omega arith;
}

mbc2_chip : Mbc2Chip cartridge
mbc2_chip = record { gate_fits = omega arith; bank_pos = omega arith; bank_fits = omega arith }

read_mbc1-bank_example : (2 < 128) × (read_mbc1 0x4100 cartridge ≡ ok 0x81)
read_mbc1-bank_example =
    read_mbc1-bank 0x4100 cartridge mbc1_chip (omega arith) (omega arith) (omega arith)

read_mbc1-ram_example :
    Returns (write_mbc1 0xA123 0x5A cartridge) (λ g'. read_mbc1 0xA123 g' ≡ ok 0x5A)
read_mbc1-ram_example =
    read_mbc1-ram 0xA123 0x5A cartridge mbc1_chip refl refl (omega arith) (omega arith)

read_mbc2-bank_example : read_mbc2 0x4100 cartridge ≡ ok 0x81
read_mbc2-bank_example =
    read_mbc2-bank 0x4100 cartridge mbc2_chip (omega arith) (omega arith) (omega arith)

-- The page 0x21 reads as the page 0x01.
read_mbc2_mirror_example : read_mbc2 0x2100 cartridge ≡ ok 0x01
read_mbc2_mirror_example =
    read_mbc2_mirror 0x2100 cartridge (omega arith) (omega arith) (omega arith)

-- With the hours selected the program at 0x0150 cannot be read.
mapped_clock_hides_rom_example :
    Returns (write_mbc3 0x4000 0x0A cartridge) (λ g'. read_mbc3 0x0150 g' ≡ ok 42)
mapped_clock_hides_rom_example =
    mapped_clock_hides_rom 0x0150 0x4000 0x0A cartridge (omega arith) (omega arith) (omega arith)
      (omega arith) refl

gate_ignores_value_example : Returns (write_mbc3 0x0200 0x0A cartridge) (λ g'.
    Returns
      (write_mbc3 0x0200 0x00 cartridge)
      (λ g''. (g'.ram_access ≡ g''.ram_access) × (g'.ram_access ≡ true)))
gate_ignores_value_example =
    gate_ignores_value 0x0200 0x0A 0x00 cartridge (omega arith) (omega arith)

counted-split_time_example : counted (split_time 100000 cartridge.rtc.writable) ≡ 100000
counted-split_time_example = counted-split_time 100000 cartridge.rtc.writable (omega arith)

-- 300 days.
counted_loses_days_example :
    (counted (split_time 25920000 cartridge.rtc.writable) ≡ 3801600)
    × (has_bit (split_time 25920000 cartridge.rtc.writable rtc_days_hi) 7 ≡ true)
counted_loses_days_example =
    counted_loses_days 25920000 cartridge.rtc.writable (omega arith) (omega arith)

latch_rtc-counts_example : counted (latch_rtc 1010 cartridge.rtc).readable ≡ 230
unfolding counted
latch_rtc-counts_example =
    latch_rtc-counts 1010 cartridge.rtc refl (omega arith) (unfold counted in omega arith)

-- The time 1000 has bit 6 set.
latch_rtc_stands_still_example :
    counted (latch_rtc 5000 (record (cartridge.rtc) { time = 1000 })).readable ≡ 120
unfolding counted
latch_rtc_stands_still_example =
    latch_rtc_stands_still 5000 (record (cartridge.rtc) { time = 1000 }) refl
      (unfold counted in omega arith)
