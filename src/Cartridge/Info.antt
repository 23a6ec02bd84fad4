-- ===== src/Cartridge/Info.antt =====
-- What src/cartridge/cartridge.c prints of a loaded cartridge.
pub mod Logo
use Prim.Native.String.{String}
use emu_gb.Base.{
  ℕ, zero, suc, ◌+◌, ◌-◌, ◌*◌, ◌/◌, ◌%◌, ◌^◌, ◌==◌, Bool, Option, none, some, List, [], ◌∷◌, ◌++◌,
  Outcome, ok, ◌>>=◌, if◌then◌else◌, get_or, low_bits, has_bit, to_bool,
}
use emu_gb.Cartridge.{Cartridge, read_rom}
use emu_gb.Cartridge.Loader.{nintendo_logo}
use emu_gb.Options.{Options, log_info}
use emu_gb.Options.Log.{Stream, log_print, Arg, str, num, name_at, logged}

-- The half byte that is printed for `x` in row `y`: the byte at `i`, which starts at the left of the row.
abbrev pub logo_nibble : ℕ → ℕ → ℕ
logo_nibble y x =
    let i = y / 2 % 2 + y / 4 * 24 + 2 * x in
    let byte = get_or nintendo_logo i 0 in if y % 2 == 0 then byte / 16 else low_bits byte 4

-- Its four characters, with the bits that are left: `true` is a star, `false` a space.
unfoldable pub put_bits : ℕ → ℕ → List Bool
put_bits zero n = []
put_bits (suc b) n = has_bit n b ∷ put_bits b n

-- The characters of a row from `x` on, with the half bytes that are left.
unfoldable pub put_row : ℕ → ℕ → ℕ → List Bool
unfolding put_bits
put_row zero y x = []
put_row (suc left) y x = put_bits 4 (logo_nibble y x) ++ put_row left y (x + 1)

unfoldable pub put_rows : ℕ → ℕ → List (List Bool)
unfolding put_row
put_rows zero y = []
put_rows (suc left) y = put_row 12 y 0 ∷ put_rows left (y + 1)

unfoldable pub print_nintendo_logo : List (List Bool)
unfolding put_rows
print_nintendo_logo = put_rows 8 0

unfoldable pub g_rom_types : List String
g_rom_types =
    "ROM ONLY" ∷ "MBC1" ∷ "MBC1+RAM" ∷ "MBC1+RAM+BATTERY" ∷ "0x04 ???" ∷ "MBC2" ∷ "MBC2+BATTERY"
    ∷ "0x07 ???" ∷ "ROM+RAM 1" ∷ "ROM+RAM+BATTERY 1" ∷ "0x0A ???" ∷ "MMM01" ∷ "MMM01+RAM"
    ∷ "MMM01+RAM+BATTERY" ∷ "0x0E ???" ∷ "MBC3+TIMER+BATTERY" ∷ "MBC3+TIMER+RAM+BATTERY 2" ∷ "MBC3"
    ∷ "MBC3+RAM 2" ∷ "MBC3+RAM+BATTERY 2" ∷ "0x14 ???" ∷ "0x15 ???" ∷ "0x16 ???" ∷ "0x17 ???"
    ∷ "0x18 ???" ∷ "MBC5" ∷ "MBC5+RAM" ∷ "MBC5+RAM+BATTERY" ∷ "MBC5+RUMBLE" ∷ "MBC5+RUMBLE+RAM"
    ∷ "MBC5+RUMBLE+RAM+BATTERY" ∷ "0x1F ???" ∷ "MBC6" ∷ "0x21 ???"
    ∷ "MBC7+SENSOR+RUMBLE+RAM+BATTERY" ∷ []

-- `REVERSE16`: the halves have disjoint bits, so their `|` is a sum.
abbrev pub reverse16 : ℕ → ℕ
reverse16 x = (x / 2 ^ 8 + x * 2 ^ 8) % 2 ^ 16

-- The lines behind the logo. `filename` is the path, and `title` what `%s` prints of the bytes from 0x134
-- on.
module _ (asprintf : String → List Arg → String) (filename title : String) where
  unfoldable pub cartridge_info : Options → Cartridge → Outcome (List (Option (Stream × String)))
  unfolding g_rom_types
  cartridge_info o g = do
    let line : String → List Arg → Option (Stream × String) =
        λ format args. logged (log_print log_info o) (asprintf format args)
    dst_code ← read_rom 0x14A g
    type ← read_rom 0x147 g
    type_name ← name_at g_rom_types type
    rom_size ← read_rom 0x148 g
    ram_size ← read_rom 0x149 g
    low ← read_rom 0x14E g
    high ← read_rom 0x14F g
    header_checksum ← read_rom 0x14D g
    ok (
        line "Cartridge information:" []
        ∷ line "\tPath      : %s" (str filename ∷ [])
        ∷ line "\tTitle     : %s" (str title ∷ [])
        ∷ line "\tRegion    : %s" (str (if to_bool dst_code then "EU/US" else "Japan") ∷ [])
        ∷ line "\tType      : %s" (str type_name ∷ [])
        ∷ line "\tROM Size  : [0x%02X] 0x%04X KB" (num rom_size ∷ num g.rom_size ∷ [])
        ∷ line "\tRAM Size  : [0x%02X] 0x%04X KB" (num ram_size ∷ num g.ram_size ∷ [])
        ∷ line "\tMulticart : %s" (str (if g.multicart then "YES" else "NO") ∷ [])
        ∷ line "\tChecksum  : global=0x%04X, header=0x%02X"
            (num (reverse16 (low + high * 256)) ∷ num header_checksum ∷ [])
        ∷ [])
