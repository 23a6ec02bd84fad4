-- ===== src/Soundness/Dumps.antt =====
-- The dump of src/cartridge/mbc1.c on a ROM of full size.
use emu_gb.Base.{ℕ, zero, suc, ◌+◌, ◌<◌, ◌≤◌, arith, Returns, >>=-Returns}
use emu_gb.Cartridge.{Cartridge, header_rom_size}
use emu_gb.Cartridge.Mbc1.{read_mbc1, write_mbc1}
use emu_gb.Cartridge.Dump.{num_banks, read_bank, dump_banks, dump_bank, select_mbc1, dump_mbc1}
use emu_gb.Soundness.Controllers.{IsMbc1, read_mbc1-Ends, write_mbc1-Ends}
use emu_gb.Soundness.Run.{Ends_never}

read-Returns : (a : ℕ) (g : Cartridge) → IsMbc1 g → a < 0x8000 → Returns (read_mbc1 a g) (λ _. Unit)
read-Returns a g h low = Ends_never (λ _. Unit) (read_mbc1 a g) (read_mbc1-Ends a g low h)

write-Returns :
    (a v : ℕ) (g : Cartridge) → IsMbc1 g → a < 0x8000 → Returns (write_mbc1 a v g) IsMbc1
write-Returns a v g h low = Ends_never IsMbc1 (write_mbc1 a v g) (write_mbc1-Ends a g low v h)

read_bank-Returns :
    (left address buf : ℕ) (g : Cartridge)
    → IsMbc1 g
    → address + left ≤ 0x8000
    → Returns (read_bank left address buf g) (λ _. Unit)
unfolding read_bank
read_bank-Returns zero address buf g h fits = tt
read_bank-Returns (suc left) address buf g h fits =
    >>=-Returns (λ _. Unit) (λ _. Unit) (read_mbc1 address g) _
      (read-Returns address g h (omega arith))
      (λ val _. read_bank-Returns left (address + 1) _ g h (omega arith))

-- A bank is selected, and starts at one of the two halves of the area.
abbrev IsSelected : ℕ × Cartridge → Type 0
IsSelected s = (s.0 ≤ 0x4000) × IsMbc1 s.1

select_mbc1-Returns :
    (bank : ℕ) (g : Cartridge) → IsMbc1 g → Returns (select_mbc1 bank g) IsSelected
unfolding select_mbc1
select_mbc1-Returns bank g h =
    >>=-Returns IsMbc1 IsSelected (write_mbc1 0x2000 bank g) _
      (write-Returns 0x2000 bank g h (omega arith))
      (λ g1 h1.
        >>=-Returns IsMbc1 IsSelected (write_mbc1 0x4000 _ g1) _
          (write-Returns 0x4000 _ g1 h1 (omega arith)) (λ g2 h2. (ground arith, h2)))

dump_bank-Returns :
    (bank : ℕ) (s : ℕ × Cartridge)
    → IsMbc1 s.1
    → Returns (dump_bank select_mbc1 bank s) (λ s'. IsMbc1 s'.1)
dump_bank-Returns bank (buf, g) h =
    >>=-Returns IsSelected (λ (s' : ℕ × Cartridge). IsMbc1 s'.1) (select_mbc1 bank g) _
      (select_mbc1-Returns bank g h)
      (λ t (start, h1).
        >>=-Returns (λ _. Unit) (λ (s' : ℕ × Cartridge). IsMbc1 s'.1) (read_bank 0x4000 t.0 buf t.1)
          _ (read_bank-Returns 0x4000 t.0 buf t.1 h1 (omega arith)) (λ b _. h1))

dump_banks-Returns :
    (left bank : ℕ) (s : ℕ × Cartridge)
    → IsMbc1 s.1
    → Returns (dump_banks (dump_bank select_mbc1) left bank s) (λ s'. IsMbc1 s'.1)
unfolding dump_banks
dump_banks-Returns zero bank s h = h
dump_banks-Returns (suc left) bank s h =
    >>=-Returns (λ (s' : ℕ × Cartridge). IsMbc1 s'.1) (λ s'. IsMbc1 s'.1)
      (dump_bank select_mbc1 bank s) _ (dump_bank-Returns bank s h)
      (λ s1 h1. dump_banks-Returns left (bank + 1) s1 h1)

-- On an MBC1 cartridge with a ROM of 2 MB and a size code for which the shift is defined, the dump reads
-- only bytes that the ROM has, and returns with registers in range.
pub dump_mbc1-Returns :
    (g : Cartridge) → IsMbc1 g → header_rom_size g < 29 → Returns (dump_mbc1 g) (λ s. IsMbc1 s.1)
unfolding dump_mbc1 num_banks
dump_mbc1-Returns g h code =
    >>=-Returns (λ _. Unit) (λ (s : ℕ × Cartridge). IsMbc1 s.1) (num_banks g) _ (ground arith)
      (λ banks _.
        >>=-Returns IsMbc1 (λ (s : ℕ × Cartridge). IsMbc1 s.1) (write_mbc1 0x6000 0x01 g) _
          (write-Returns 0x6000 0x01 g h (omega arith))
          (λ g1 h1. dump_banks-Returns banks 0 (0, g1) h1))
