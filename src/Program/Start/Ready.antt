-- ===== src/Program/Start/Ready.antt =====
-- The start of src/main.c with the path of a cartridge on the command line.
use Prim.Native.String.{String}
use emu_gb.Base.{
  ℕ, ◌<◌, ◌≤◌, ◌≡◌, ◌≢◌, sym, ap, refl, arith, Bool, true, false, ltb, leb, ◌&&◌, ◌==◌, not,
  if◌then◌else◌, some, Option, [], ◌∷◌, List, Outcome, ok, ◌>>=◌, Returns, >>=-Returns,
}
use emu_gb.Cpu.{reg_af, reg_bc, reg_de, reg_hl, read_register_16bit, reset_cpu}
use emu_gb.Cartridge.{Cartridge, rom_only, mbc1_type, header_type, header_rom_size}
use emu_gb.Cartridge.Loader.{
  load_cartridge, check_multicart, header_sum, verify_header_checksum, ram_size_of,
}
use emu_gb.Cartridge.Info.{cartridge_info}
use emu_gb.Cartridge.Info.Logo.{cartridge_info-load_cartridge}
use emu_gb.Machine.{Machine}
use emu_gb.Options.{Options, Argp, parse_opt, parse_options, key_arg, key_end, default_options}
use emu_gb.Options.Log.{Arg}
use emu_gb.Program.{power_on}
use emu_gb.Program.Start.{start, open_cartridge, rom_path, filename}
use emu_gb.Soundness.{IsMachine}
use emu_gb.Soundness.Controllers.{IsBytes, IsCartridge}
use emu_gb.Soundness.Run.{power_on-IsMachine}

-- How argp hands one word that is no option to this parser, which accepts it: as an argument with the number
-- 0, and then the end.
abbrev pub OnOneWord : Outcome {0} Unit → Argp → String → Type 0
OnOneWord argp_usage argp_parse path =
    (o : Options)
    → argp_parse (parse_opt argp_usage) (path ∷ []) o ≡ (do
      (r0, o0) ← parse_opt argp_usage key_arg path 0 o
      (r1, o1) ← parse_opt argp_usage key_end "" 1 o0
      ok o1)

-- The header of a cartridge that the program takes, with no search for several logos.
pub record IsAccepted (size : ℕ) (image : ℕ → ℕ) : Type 0 where
  pub has_header : 0x150 ≤ size
  pub sum : header_sum 0x14D image ≢ 0
  pub named : image 0x147 < 35
  pub small : 1 ≤ image 0x147 → image 0x147 ≤ 3 → image 0x148 < 8

-- The cartridge with the image in it.
abbrev pub inserted : ℕ → (ℕ → ℕ) → (ℕ → ℕ) → Cartridge → Cartridge
inserted size image fresh g = record g {
  rom_size = size;
  rom = image;
  multicart = false;
  ram_size = if ltb 3 (image 0x14C) && leb (image 0x14C) 6 then 512 else ram_size_of (image 0x149);
  ram = fresh;
}

-- The state in which the loop starts.
pub record IsStarted (path : String) (g : Cartridge) (m : Machine) (r : Options × Machine)
    : Type 0 where
  pub options : r.0 ≡ record default_options { args = some path }
  pub cartridge : r.1.cartridge ≡ g
  pub pc : r.1.cpu.pc ≡ 0x0100
  pub sp : r.1.cpu.sp ≡ 0xFFFE
  pub af : read_register_16bit reg_af r.1.cpu ≡ 0x01B0
  pub bc : read_register_16bit reg_bc r.1.cpu ≡ 0x0013
  pub de : read_register_16bit reg_de r.1.cpu ≡ 0x00D8
  pub hl : read_register_16bit reg_hl r.1.cpu ≡ 0x014D
  pub running : r.1.cpu.is_running ≡ true
  pub awake : r.1.cpu.halt ≡ false
  pub same_memory : r.1.cpu.memory ≡ m.cpu.memory
  pub same_interrupts : r.1.interrupts ≡ m.interrupts
  pub in_width : IsMachine IsCartridge r.1

differ : (x : ℕ) → x ≢ 0 → (x == 0) ≡ false
differ x ne = ground arith

passed :
    (search few : Bool) (g' g : Cartridge) (r : Outcome Cartridge)
    → (search ≡ true → few ≡ true)
    → g' ≡ g
    → (if search then (if few then ok g' else r) else ok g) ≡ ok g
passed false few g' g r small same = refl
passed true few g' g r small same = rw (small refl, same) refl

-- A cartridge that is not searched for logos.
checked :
    (g : Cartridge)
    → g.multicart ≡ false
    → (1 ≤ header_type g → header_type g ≤ 3 → header_rom_size g < 8)
    → (if not (header_type g == rom_only) && leb (header_type g) mbc1_type
        then check_multicart g
        else ok g)
      ≡ ok g
unfolding check_multicart
checked g single small =
    passed (not (header_type g == rom_only) && leb (header_type g) mbc1_type)
      (ltb (header_rom_size g) 8) (record g { multicart = false }) g _ (λ mbc1. ground arith)
      (ap (λ b. record g { multicart = b }) (sym single))

load_cartridge_lem :
    (size : ℕ) (image fresh : ℕ → ℕ) (g : Cartridge)
    → IsAccepted size image
    → load_cartridge size image fresh g ≡ ok (inserted size image fresh g)
unfolding load_cartridge verify_header_checksum check_multicart
load_cartridge_lem size image fresh g h =
    let large = h.has_header in
    let some_bytes : (size == 0) ≡ false = ground arith in
    let long : ltb size 0x14D ≡ false = ground arith in
    let sum : (header_sum 0x14D image == 0) ≡ false = differ (header_sum 0x14D image) h.sum in
    rw (some_bytes, long, sum) (checked (inserted size image fresh g) refl h.small)

power_on-IsStarted :
    (path : String) (g : Cartridge) (m : Machine)
    → IsMachine IsCartridge (record m { cartridge = g })
    → IsStarted path g m
        (record default_options { args = some path }, power_on (record m { cartridge = g }))
unfolding power_on reset_cpu read_register_16bit
power_on-IsStarted path g m h = record {
  options = refl;
  cartridge = refl;
  pc = refl;
  sp = refl;
  af = refl;
  bc = refl;
  de = refl;
  hl = refl;
  running = refl;
  awake = refl;
  same_memory = refl;
  same_interrupts = refl;
  in_width = power_on-IsMachine (record m { cartridge = g }) h;
}

module _ (asprintf : String → List Arg → String) (argp_usage : Outcome {0} Unit) (argp_parse : Argp)
    (fopen : String → Option (ℕ × (ℕ → ℕ))) (fresh : ℕ → ℕ) (title : Cartridge → String) where
  -- With the path of a file as the one word of the command line, which argp hands to the parser as
  -- an argument before the end, the program gets to its loop, if the file has at least 0x150
  -- bytes, the sum that the program takes over its bytes below 0x14D is not 0, its type is below
  -- 35 and, from 1 to 3, its size code is below 8: with the path in the options, the bytes of the
  -- file in the cartridge, the registers of the reset, PC at 0x0100, and memory and interrupt
  -- registers as before; every register, memory cell and bank register is in its width, as the
  -- bytes of the file and of fresh memory and the variables were.
  pub start-IsStarted :
      (path : String) (size : ℕ) (image : ℕ → ℕ) (m : Machine)
      → OnOneWord argp_usage argp_parse path
      → fopen path ≡ some (size, image)
      → IsAccepted size image
      → IsBytes image
      → IsBytes fresh
      → IsMachine IsCartridge m
      → Returns
          (start asprintf argp_usage argp_parse fopen fresh title (path ∷ []) m)
          (IsStarted path (inserted size image fresh m.cartridge) m)
  unfolding start parse_options parse_opt rom_path open_cartridge
  start-IsStarted path size image m word file accepted bytes cells h =
      let o : Options = record default_options { args = some path } in
      let g = inserted size image fresh m.cartridge in
      let name = filename asprintf argp_usage argp_parse fopen fresh title in
      let loads = load_cartridge_lem size image fresh m.cartridge accepted in
      let (named, rest) = rw loads at (
        cartridge_info-load_cartridge asprintf (name path) (title g) o size image fresh m.cartridge
          accepted.has_header) in
      rw (word default_options, file, loads)
        (>>=-Returns _ _ (cartridge_info asprintf (name path) (title g) o g) _
          (named accepted.named)
          (λ lines nine. power_on-IsStarted path g m (record {
            is_cpu = h.is_cpu;
            is_timer = h.is_timer;
            is_interrupts = h.is_interrupts;
            is_cartridge = record {
              rom_bytes = bytes;
              ram_bytes = cells;
              is_chip = h.is_cartridge.is_chip;
            };
          })))
