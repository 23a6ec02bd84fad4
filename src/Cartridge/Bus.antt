-- ===== src/Cartridge/Bus.antt =====
-- src/cartridge/memory.c: the access to the cartridge by its type.
use emu_gb.Base.{
  ℕ, ◌+◌, ◌*◌, ◌==◌, Outcome, ok, err, abort, ◌>>=◌, ltb, leb, if◌then◌else◌, u16, msb, lsb,
}
use emu_gb.Cartridge.{
  Cartridge, rom_only, mbc1_type, mbc2_type, mbc3_type, header_type, read_rom, read_below,
  update_rom,
}
use emu_gb.Cartridge.Mbc1.{read_mbc1, write_mbc1}
use emu_gb.Cartridge.Mbc2.{read_mbc2, write_mbc2}
use emu_gb.Cartridge.Mbc3.{read_mbc3, write_mbc3}

unfoldable pub read_cartridge : ℕ → Cartridge → Outcome ℕ
read_cartridge address g =
    let kind = header_type g in
    if kind == rom_only
    then read_below abort g.rom_size g.rom address
    else if leb kind mbc1_type
    then read_mbc1 address g
    else if leb kind mbc2_type
    then read_mbc2 address g
    else if leb kind mbc3_type
    then read_mbc3 address g
    else read_rom address g

unfoldable pub read_cartridge_16bit : ℕ → Cartridge → Outcome ℕ
read_cartridge_16bit address g = do
  low ← read_cartridge address g
  high ← read_cartridge (u16 (address + 1)) g
  ok (u16 (low + high * 256))

unfoldable pub write_cartridge : ℕ → ℕ → Cartridge → Outcome Cartridge
write_cartridge address val g =
    let kind = header_type g in
    if kind == rom_only
    then (if ltb address g.rom_size then ok (update_rom address val g) else err abort)
    else if leb kind mbc1_type
    then write_mbc1 address val g
    else if leb kind mbc2_type
    then write_mbc2 address val g
    else if leb kind mbc3_type
    then write_mbc3 address val g
    else ok g

unfoldable pub write_cartridge_16bit : ℕ → ℕ → Cartridge → Outcome Cartridge
write_cartridge_16bit address val g = do
  g1 ← write_cartridge address (lsb val) g
  write_cartridge (u16 (address + 1)) (msb val) g1
