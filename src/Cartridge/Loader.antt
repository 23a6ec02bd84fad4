-- ===== src/Cartridge/Loader.antt =====
-- src/cartridge/cartridge.c: `load_cartridge` on the bytes of a file. Opening and reading the file is
-- left out: `size` and `image` are its length and its bytes, and `fresh` is what `malloc` returns.
pub mod Multicart
use emu_gb.Base.{
  ℕ, zero, suc, ◌+◌, ◌-◌, ◌*◌, ◌^◌, ◌==◌, Bool, true, false, not, ◌&&◌, List, [], ◌∷◌, Outcome, ok,
  err, fatal, undefined, ◌>>=◌, ltb, leb, if◌then◌else◌, u8, to_bool,
}
use emu_gb.Cartridge.{
  Cartridge, rom_only, mbc1_type, mbc2_type, header_type, header_rom_size, header_ram_size,
  header_rom_version,
}
use emu_gb.Cartridge.Bus.{read_cartridge}

-- `g_nintendo_logo`.
abbrev pub nintendo_logo : List ℕ
nintendo_logo =
    0xCE ∷ 0xED ∷ 0x66 ∷ 0x66 ∷ 0xCC ∷ 0x0D ∷ 0x00 ∷ 0x0B ∷ 0x03 ∷ 0x73 ∷ 0x00 ∷ 0x83 ∷ 0x00 ∷ 0x0C
    ∷ 0x00 ∷ 0x0D ∷ 0x00 ∷ 0x08 ∷ 0x11 ∷ 0x1F ∷ 0x88 ∷ 0x89 ∷ 0x00 ∷ 0x0E ∷ 0xDC ∷ 0xCC ∷ 0x6E
    ∷ 0xE6 ∷ 0xDD ∷ 0xDD ∷ 0xD9 ∷ 0x99 ∷ 0xBB ∷ 0xBB ∷ 0x67 ∷ 0x63 ∷ 0x6E ∷ 0x0E ∷ 0xEC ∷ 0xCC
    ∷ 0xDD ∷ 0xDC ∷ 0x99 ∷ 0x9F ∷ 0xBB ∷ 0xB9 ∷ 0x33 ∷ 0x3E ∷ []

-- `sum` after the bytes below `n`.
unfoldable pub header_sum : ℕ → (ℕ → ℕ) → ℕ
header_sum zero rom = 0
header_sum (suc n) rom = u8 (header_sum n rom + 257 - rom n)

unfoldable pub verify_header_checksum : Cartridge → Bool
unfolding header_sum
verify_header_checksum g = header_sum 0x14D g.rom == 0

-- The inner loop of `check_multicart`: the bytes from `address` on are those of the list.
unfoldable pub has_logo : List ℕ → ℕ → Cartridge → Outcome Bool
has_logo [] address g = ok true
has_logo (b ∷ bytes) address g = do
  cell ← read_cartridge address g
  rest ← (if cell == b then has_logo bytes (address + 1) g else ok false)
  ok rest

abbrev pub select_bank : ℕ → Cartridge → Cartridge
select_bank bank g = record g { chip = record (g.chip) { ram_bank = bank } }

-- The outer loop, with the rounds that are left.
unfoldable pub count_games : ℕ → ℕ → ℕ → Cartridge → Outcome ℕ
unfolding has_logo
count_games zero bank nb_games g = ok nb_games
count_games (suc rounds) bank nb_games g = do
  found ← has_logo nintendo_logo 0x0104 (select_bank bank g)
  count_games rounds (bank + 1) (if found then nb_games else nb_games - 1) g

unfoldable pub check_multicart : Cartridge → Outcome Cartridge
unfolding count_games
check_multicart g = if ltb (header_rom_size g) 8 then ok (record g { multicart = false }) else do
  let g1 = record g { multicart = true; chip = record (g.chip) { rom_bank = 0; mode = true } }
  nb_games ← count_games 4 0 4 g1
  ok (record g1 { multicart = to_bool nb_games; chip = record (g1.chip) { mode = false } })

-- The size of the RAM by its code in the header.
unfoldable pub ram_size_of : ℕ → ℕ
ram_size_of code =
    if code == 2
    then 2 * 2 ^ 13
    else if code == 3
    then 2 * 2 ^ 15
    else if code == 4
    then 2 * 2 ^ 17
    else if code == 5
    then 2 * 2 ^ 16
    else 0

-- An empty file stops the program, and the header of a shorter one is read out of bounds.
unfoldable pub load_cartridge : ℕ → (ℕ → ℕ) → (ℕ → ℕ) → Cartridge → Outcome Cartridge
unfolding verify_header_checksum check_multicart ram_size_of
load_cartridge size image fresh g =
    if size == 0
    then err fatal
    else if ltb size 0x14D
    then err undefined
    else (let g1 = record g { rom_size = size; rom = image; multicart = false } in
        let version = header_rom_version g1 in
        let built_in = ltb mbc1_type version && leb version mbc2_type in
        let g2 = record g1 {
          ram_size = if built_in then 512 else ram_size_of (header_ram_size g1);
          ram = fresh;
        } in
        if verify_header_checksum g2
        then err fatal
        else if not (header_type g2 == rom_only) && leb (header_type g2) mbc1_type
        then check_multicart g2
        else ok g2)
