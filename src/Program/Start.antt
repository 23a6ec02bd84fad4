-- ===== src/Program/Start.antt =====
-- src/main.c before the loop: the options, the cartridge and the resets.
pub mod Ready
use Prim.Native.String.{String, slice}
use emu_gb.Base.{ℕ, ◌-◌, Option, none, some, List, Outcome, ok, err, fatal, undefined, ◌>>=◌}
use emu_gb.Cartridge.{Cartridge}
use emu_gb.Cartridge.Loader.{load_cartridge}
use emu_gb.Cartridge.Info.{cartridge_info}
use emu_gb.Machine.{Machine}
use emu_gb.Options.{Options, Argp, parse_options, default_options}
use emu_gb.Options.Log.{Arg}
use emu_gb.Program.{power_on}

abbrev rom_max_filename_size : ℕ
rom_max_filename_size = 1024

-- `fopen` gives the length and the bytes of a file, or nothing; `fresh` is what `malloc` returns; `title`
-- is what `%s` prints of the title in the header.
module _ (asprintf : String → List Arg → String) (argp_usage : Outcome {0} Unit) (argp_parse : Argp)
    (fopen : String → Option (ℕ × (ℕ → ℕ))) (fresh : ℕ → ℕ) (title : Cartridge → String) where
  unfoldable pub open_cartridge : Option (ℕ × (ℕ → ℕ)) → Cartridge → Outcome Cartridge
  open_cartridge none g = err fatal
  open_cartridge (some (size, image)) g = load_cartridge size image fresh g

  -- The path of the cartridge, `args[0]`; a NULL pointer is no path.
  unfoldable pub rom_path : Options → Outcome String
  rom_path o = elim o.args [ some path ↦ ok path | none ↦ err undefined ]

  -- The field `filename`, to which `strncpy` copies the bytes of the path that fit.
  unfoldable pub filename : String → String
  filename path = slice path 0 (rom_max_filename_size - 1)

  unfoldable pub start : List String → Machine → Outcome (Options × Machine)
  unfolding rom_path filename open_cartridge
  start argv m = do
    o ← parse_options argp_usage argp_parse argv default_options
    path ← rom_path o
    g ← open_cartridge (fopen path) m.cartridge
    lines ← cartridge_info asprintf (filename path) (title g) o g
    ok (o, power_on (record m { cartridge = g }))
