-- ===== src/Cartridge/Dump.antt =====
-- The dumps of src/cartridge/mbc1.c, mbc2.c and mbc3.c, which read every bank in turn. The sum of the
-- bytes is kept here, though the source does not use it. All three go through the MBC1 functions.
use emu_gb.Base.{
  ℕ, zero, suc, ◌+◌, ◌*◌, ◌/◌, ◌%◌, ◌^◌, ◌==◌, Outcome, ok, err, undefined, ◌>>=◌, ◌≤◌, ◌<◌, ◌≡◌,
  true, refl, arith, passes, passes_lem, ◌||◌, ltb, if◌then◌else◌, u8, low_bits,
}
use emu_gb.Cartridge.{Cartridge, header_rom_size}
use emu_gb.Cartridge.Mbc1.{read_mbc1, write_mbc1}

-- `2 << (rom_size + 1)` as a `u8`; a shift that leaves an `int` is undefined.
unfoldable pub num_banks : Cartridge → Outcome ℕ
num_banks g =
    let code = header_rom_size g in
    if ltb code 29 then ok (u8 (2 * 2 ^ (code + 1))) else err undefined

-- The inner loop, with the bytes that are left. `buf` is an `unsigned`.
unfoldable pub read_bank : ℕ → ℕ → ℕ → Cartridge → Outcome ℕ
read_bank zero address buf g = ok buf
read_bank (suc left) address buf g = do
  val ← read_mbc1 address g
  read_bank left (address + 1) ((buf + val) % 2 ^ 32) g

-- The outer loop, with the banks that are left, over a body for one bank.
unfoldable pub dump_banks :
    (ℕ → ℕ × Cartridge → Outcome (ℕ × Cartridge)) → ℕ → ℕ → ℕ × Cartridge → Outcome (ℕ × Cartridge)
dump_banks body zero bank s = ok s
dump_banks body (suc left) bank s = do s1 ← body bank s; dump_banks body left (bank + 1) s1

-- The selection of a bank, and its first address.
unfoldable pub select_mbc1 : ℕ → Cartridge → Outcome (ℕ × Cartridge)
select_mbc1 bank g = do
  g1 ← write_mbc1 0x2000 bank g
  let shift : ℕ = if g1.multicart then 4 else 5
  g2 ← write_mbc1 0x4000 (bank / 2 ^ shift) g1
  ok (if low_bits bank shift == 0 then 0x0000 else 0x4000, g2)

unfoldable pub select_mbc2 : ℕ → Cartridge → Outcome (ℕ × Cartridge)
select_mbc2 bank g = do g1 ← write_mbc1 0x2100 bank g; ok (if bank == 0 then 0x0000 else 0x4000, g1)

unfoldable pub select_mbc3 : ℕ → Cartridge → Outcome (ℕ × Cartridge)
select_mbc3 bank g = do
  g1 ← write_mbc1 0x2000 bank g
  g2 ← write_mbc1 0x4000 (bank / 2 ^ 5) g1
  ok (if low_bits bank 5 == 0 then 0x0000 else 0x4000, g2)

abbrev pub dump_bank :
    (ℕ → Cartridge → Outcome (ℕ × Cartridge)) → ℕ → ℕ × Cartridge → Outcome (ℕ × Cartridge)
dump_bank select bank (buf, g) = do
  (bank_start, g1) ← select bank g
  buf1 ← read_bank 0x4000 bank_start buf g1
  ok (buf1, g1)

unfoldable pub dump_mbc1 : Cartridge → Outcome (ℕ × Cartridge)
unfolding dump_banks num_banks
dump_mbc1 g = do
  banks ← num_banks g
  g1 ← write_mbc1 0x6000 0x01 g
  dump_banks (dump_bank select_mbc1) banks 0 (0, g1)

unfoldable pub dump_mbc2 : Cartridge → Outcome (ℕ × Cartridge)
unfolding dump_banks num_banks
dump_mbc2 g = do banks ← num_banks g; dump_banks (dump_bank select_mbc2) banks 0 (0, g)

unfoldable pub dump_mbc3 : Cartridge → Outcome (ℕ × Cartridge)
unfolding dump_banks num_banks
dump_mbc3 g = do
  banks ← num_banks g
  g1 ← write_mbc1 0x6000 0x01 g
  dump_banks (dump_bank select_mbc3) banks 0 (0, g1)

codes_checked : passes (λ code. ltb code 6 || u8 (2 * 2 ^ (code + 1)) == 0) 29 ≡ true
unfolding passes
codes_checked = refl

num_banks_overflow :
    (g : Cartridge) → 6 ≤ header_rom_size g → header_rom_size g < 29 → num_banks g ≡ ok 0
unfolding num_banks
num_banks_overflow g low high =
    ground
      (arith, passes_lem (λ code. ltb code 6 || u8 (2 * 2 ^ (code + 1)) == 0) 29 codes_checked high)

-- From the size code 6 on, 64 banks and more, the number of banks does not fit a `u8` and becomes 0: no
-- dump reads a byte, that of an MBC2 changes nothing, and the others set the banking mode alone.
pub dumps_of_large :
    (g : Cartridge)
    → 6 ≤ header_rom_size g
    → header_rom_size g < 29
    → (dump_mbc1 g ≡ ok (0, record g { chip = record (g.chip) { mode = true } }))
      × (dump_mbc2 g ≡ ok (0, g))
      × (dump_mbc3 g ≡ ok (0, record g { chip = record (g.chip) { mode = true } }))
unfolding dump_mbc1 dump_mbc2 dump_mbc3 write_mbc1
dumps_of_large g low high =
    let none = num_banks_overflow g low high in (simp none, simp none, simp none)
