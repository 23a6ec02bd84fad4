-- ===== src/Tests/CommandLine.antt =====
-- The parser of the options with an argp that knows arguments alone, and what is printed at the start.
use Prim.Native.String.{String}
use text.Mathlib.Text
use emu_gb.Base.{Option, some}
use emu_gb.Soundness.Controllers.{IsCartridge}
use emu_gb.Program.Start.{start}
use emu_gb.Program.Start.Ready.{IsAccepted, IsStarted, inserted, start-IsStarted}
use emu_gb.Cartridge.Loader.{header_sum}
use emu_gb.Tests.Runs.{running, running-IsMachine, full-IsCartridge}
use emu_gb.Base.{
  ℕ, ◌+◌, ◌≡◌, arith, [], ◌∷◌, none, ok, err, length, get_or, false, ◌<◌, ◌≤◌, if◌then◌else◌, ◌==◌,
  Ensures, List, refl, fatal, undefined, ◌>>=◌, Returns,
}
use emu_gb.Tests.Data.{cartridge}
use emu_gb.Cartridge.Loader.{load_cartridge}
use emu_gb.Cartridge.Info.{print_nintendo_logo, cartridge_info}
use emu_gb.Cartridge.Info.Logo.{print_nintendo_logo_lem, tile_pixel, cartridge_info-load_cartridge}
use emu_gb.Options.{default_options, key_arg, key_end, Argp}

-- Every word is an argument, from the number `n` on.
abbrev words_from : ℕ → Argp
words_from n p [] o = do (r, o1) ← p key_end "" n o; ok o1
words_from n p (word ∷ rest) o = do (r, o1) ← p key_arg word n o; words_from (n + 1) p rest o1

print_nintendo_logo_example :
    (length print_nintendo_logo ≡ 8)
    × (length (get_or print_nintendo_logo 2 []) ≡ 48)
    × (get_or (get_or print_nintendo_logo 2 []) 5 false ≡ tile_pixel 2 5)
print_nintendo_logo_example = print_nintendo_logo_lem 2 5 (omega arith) (omega arith)

-- An image of a type without a name.
abbrev unnamed : ℕ → ℕ
unnamed k = if k == 0x147 then 0xFE else 0

cartridge_info-load_cartridge_example :
    Ensures (load_cartridge 0x8000 unnamed unnamed cartridge) (λ g'.
      (unnamed 0x147 < 35
        → Returns
            (cartridge_info (λ f args. f) "a.gb" "A" default_options g')
            (λ lines. length lines ≡ 9))
      × (35 ≤ unnamed 0x147
          → cartridge_info (λ f args. f) "a.gb" "A" default_options g' ≡ err undefined))
cartridge_info-load_cartridge_example =
    cartridge_info-load_cartridge (λ f args. f) "a.gb" "A" default_options 0x8000 unnamed unnamed
      cartridge (omega arith)

-- A system with one file, of an MBC1 with 32 KB and no RAM.
abbrev file_bytes : ℕ → ℕ
file_bytes k = if k == 0x147 then 1 else 0

abbrev one_file : String → Option (ℕ × (ℕ → ℕ))
one_file path = if Text.◌==◌ path "a.gb" then some (0x8000, file_bytes) else none

abbrev one_word : List String
one_word = "a.gb" ∷ []

file_sum : header_sum 0x14D file_bytes ≡ 76
unfolding header_sum
file_sum = refl

file-IsAccepted : IsAccepted 0x8000 file_bytes
file-IsAccepted = record {
  has_header = omega arith;
  sum = (λ zero_sum. omega (arith, file_sum, zero_sum));
  named = omega arith;
  small = λ low high. omega arith;
}

start-IsStarted_example :
    Returns
      (start (λ f args. f) (err fatal) (words_from 0) one_file (λ k. 0) (λ g. "A") one_word running)
      (IsStarted "a.gb" (inserted 0x8000 file_bytes (λ k. 0) running.cartridge) running)
start-IsStarted_example =
    start-IsStarted (λ f args. f) (err fatal) (words_from 0) one_file (λ k. 0) (λ g. "A") "a.gb"
      0x8000 file_bytes running (λ o. refl) refl file-IsAccepted (record { at = λ k. ground arith })
      (record { at = λ k. omega arith }) (running-IsMachine IsCartridge (full-IsCartridge 1))
