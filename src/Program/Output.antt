-- ===== src/Program/Output.antt =====
-- src/test_rom.c and src/main.c: the output of a test ROM, taken byte by byte and shown.
pub mod Text
pub mod Poll
use Prim.Native.String.{String}
use emu_gb.Base.{
  sym, inr, inl, Bool-cases, ◌||◌, get_or, ℕ, zero, suc, ◌+◌, ◌<◌, ◌==◌, ◌≡◌, ◌≢◌, refl, arith,
  true, false, not, ◌&&◌, List, [], ◌∷◌, ◌++◌, length, Option, none, some, Outcome, ok, err,
  undefined, ◌>>=◌, Returns, ltb, if◌then◌else◌, update, u16,
}
use emu_gb.Machine.{on_cpu, Machine}
use emu_gb.Memory.{store, read_memory, write_memory, read_io, write_io}
use emu_gb.Options.{Options, log_info}
use emu_gb.Options.Log.{Stream, stdout, Arg, chars, log_print}
use emu_gb.Program.{TestRom, test_rom_update, test_check, test_value, check_true, round}

abbrev pub output_cells : ℕ
output_cells = 1024

-- The characters of a string from cell `k` on, where `n` cells are left; one without an end is read out of
-- bounds.
unfoldable pub c_string : ℕ → ℕ → (ℕ → ℕ) → Outcome (List ℕ)
c_string zero k cells = err undefined
c_string (suc n) k cells =
    let rest = c_string n (k + 1) cells in
    if cells k == 0 then ok [] else (do text ← rest; ok (cells k ∷ text))

abbrev pub shown : TestRom → TestRom
shown t = record t { last_output_size = t.output_size }

module _ (asprintf : String → List Arg → String) (o : Options) where
  -- A line of the result, where the options let it through.
  unfoldable pub print_result : Option Stream → TestRom → Outcome (Option (Stream × String))
  unfolding c_string
  print_result none t = ok none
  print_result (some stream) t = do
    text ← c_string output_cells 0 t.output
    ok (some (stream, asprintf "test result: %s" (chars text ∷ [])))

  unfoldable pub test_rom_print : TestRom → Outcome (Option (Stream × String) × TestRom)
  unfolding print_result
  test_rom_print t =
      if not (t.output 0 == 0) && ltb t.last_output_size t.output_size
      then (do line ← print_result (log_print log_info o) t; ok (line, shown t))
      else ok (none, t)

  -- What the loop does at its end for a test ROM.
  unfoldable pub poll : TestRom × Machine → Outcome (Option (Stream × String) × (TestRom × Machine))
  unfolding test_rom_print
  poll s = do (t, m) ← test_rom_update s; (line, t1) ← test_rom_print t; ok (line, (t1, m))

  -- The body of the loop, with the line that it shows.
  unfoldable pub turn : TestRom × Machine → Outcome (Option (Stream × String) × (TestRom × Machine))
  unfolding poll
  turn s = do s1 ← round o.exit_infinite_loop false s; (if o.blargg then poll s1 else ok (none, s1))
