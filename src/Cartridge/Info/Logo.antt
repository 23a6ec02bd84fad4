-- ===== src/Cartridge/Info/Logo.antt =====
-- The logo that src/cartridge/cartridge.c prints, and the cartridges whose type it cannot name.
use Prim.Native.String.{String}
use emu_gb.Base.{
  ℕ, ◌+◌, ◌-◌, ◌*◌, ◌/◌, ◌%◌, ◌<◌, ◌≤◌, ◌≡◌, refl, arith, Bool, true, false, ◌==◌, List, [], err,
  undefined, Returns, Ensures, Ensures_weaken, passes, passes_lem, eqb, eqb-eq, if◌then◌else◌,
  get_or, length, has_bit, ltb, leb, ◌&&◌, inl, inr, Bool-cases, after_any,
}
use emu_gb.Cartridge.{Cartridge, read_rom, header_rom_size, mbc1_type, mbc2_type}
use emu_gb.Cartridge.Loader.{
  nintendo_logo, check_multicart, count_games, ram_size_of, load_cartridge,
}
use emu_gb.Cartridge.Info.{print_nintendo_logo, cartridge_info}
use emu_gb.Options.{Options}
use emu_gb.Options.Log.{Arg}

-- The logo lies in the header as two rows of twelve tiles of 4 by 4 pixels: two bytes each, a row of
-- pixels in half a byte, from the upper half on, and the left pixel in the upper bit.
abbrev pub tile_pixel : ℕ → ℕ → Bool
tile_pixel y x =
    let tile = y / 4 * 12 + x / 4 in
    let byte = get_or nintendo_logo (2 * tile + y % 4 / 2) 0 in
    has_bit byte ((if y % 2 == 0 then 7 else 3) - x % 4)

abbrev pixel : ℕ → ℕ → Bool
pixel y x = get_or (get_or print_nintendo_logo y []) x false

pixels_checked : passes (λ y. passes (λ x. eqb (pixel y x) (tile_pixel y x)) 48) 8 ≡ true
unfolding passes print_nintendo_logo
pixels_checked = refl

rows_checked : passes (λ y. length (get_or print_nintendo_logo y []) == 48) 8 ≡ true
unfolding passes print_nintendo_logo
rows_checked = refl

-- The logo is printed in 8 rows of 48 characters, a star for every pixel of the tiles that is set and a
-- space for every other one.
pub print_nintendo_logo_lem :
    (y x : ℕ)
    → y < 8
    → x < 48
    → (length print_nintendo_logo ≡ 8)
      × (length (get_or print_nintendo_logo y []) ≡ 48)
      × (get_or (get_or print_nintendo_logo y []) x false ≡ tile_pixel y x)
unfolding print_nintendo_logo
print_nintendo_logo_lem y x hy hx = (
  refl,
  ground
      (arith, passes_lem (λ y. length (get_or print_nintendo_logo y []) == 48) 8 rows_checked hy),
  eqb-eq _ _ (
      passes_lem _ 48
        (passes_lem (λ y. passes (λ x. eqb (pixel y x) (tile_pixel y x)) 48) 8 pixels_checked hy)
        hx),
)

-- What the loader leaves of the file.
abbrev IsImage : ℕ → (ℕ → ℕ) → Cartridge → Type 0
IsImage size image g = (g.rom_size ≡ size) × (g.rom ≡ image)

check_multicart-IsImage : (g : Cartridge) → Ensures (check_multicart g) (IsImage g.rom_size g.rom)
unfolding check_multicart
check_multicart-IsImage g = elim (Bool-cases (ltb (header_rom_size g) 8)) [
  | inl small ↦ rw small (refl, refl)
  | inr large ↦ rw large (
      after_any (IsImage g.rom_size g.rom)
        (count_games 4 0 4
          (record g { multicart = true; chip = record (g.chip) { rom_bank = 0; mode = true } }))
        _ (λ nb_games. (refl, refl)))
]

load_cartridge-IsImage :
    (size : ℕ) (image fresh : ℕ → ℕ) (g : Cartridge)
    → Ensures (load_cartridge size image fresh g) (IsImage size image)
unfolding load_cartridge
load_cartridge-IsImage size image fresh g =
    let built_in = ltb mbc1_type (image 0x14C) && leb (image 0x14C) mbc2_type in
    ground (
      arith,
      check_multicart-IsImage (record g {
        rom_size = size;
        rom = image;
        multicart = false;
        ram_size = if built_in then 512 else ram_size_of (image 0x149);
        ram = fresh;
      }),
    )

cartridge_info-types :
    (asprintf : String → List Arg → String) (filename title : String) (o : Options) (size : ℕ)
    (image : ℕ → ℕ) (g : Cartridge)
    → 0x150 ≤ size
    → IsImage size image g
    → (image 0x147 < 35
        → Returns (cartridge_info asprintf filename title o g) (λ lines. length lines ≡ 9))
      × (35 ≤ image 0x147 → cartridge_info asprintf filename title o g ≡ err undefined)
unfolding cartridge_info read_rom
cartridge_info-types asprintf filename title o size image g large h = ground (arith, h)

-- After an image of at least 0x150 bytes is loaded, the information has nine lines, if the byte of the
-- type at 0x147 is below 35; from 35 on the name of the type is read beyond the table.
pub cartridge_info-load_cartridge :
    (asprintf : String → List Arg → String) (filename title : String) (o : Options) (size : ℕ)
    (image fresh : ℕ → ℕ) (g : Cartridge)
    → 0x150 ≤ size
    → Ensures (load_cartridge size image fresh g) (λ g'.
      (image 0x147 < 35
        → Returns (cartridge_info asprintf filename title o g') (λ lines. length lines ≡ 9))
      × (35 ≤ image 0x147 → cartridge_info asprintf filename title o g' ≡ err undefined))
cartridge_info-load_cartridge asprintf filename title o size image fresh g large =
    Ensures_weaken (IsImage size image) _ (load_cartridge size image fresh g)
      (λ g' h. cartridge_info-types asprintf filename title o size image g' large h)
      (load_cartridge-IsImage size image fresh g)
