-- ===== src/Program/Output/Poll.antt =====
-- The output of a test ROM, from one poll of src/main.c to the next.
use Prim.Native.String.{String}
use emu_gb.Base.{
  after_any, Bool, >>=-Ensures, Ensures, sym, inr, inl, Bool-cases, ◌||◌, get_or, ℕ, ◌+◌, ◌<◌, ◌==◌,
  ◌≡◌, ◌≢◌, refl, arith, true, false, List, [], ◌∷◌, ◌++◌, length, Option, none, some, Outcome, ok,
  err, undefined, ◌>>=◌, Returns, ltb, if◌then◌else◌, update, u16,
}
use emu_gb.Machine.{on_cpu, Machine}
use emu_gb.Memory.{store, read_memory, write_memory, read_io, write_io}
use emu_gb.Options.{Options, log_info}
use emu_gb.Options.Log.{Stream, stdout, Arg, chars, log_print}
use emu_gb.Program.{
  execute_instruction, timer_tick, handle_interrupts, TestRom, test_rom_update, test_check,
  test_value, check_true, round,
}
use emu_gb.Program.Output.{output_cells, shown, print_result, test_rom_print, poll, turn}
use emu_gb.Program.Output.Text.{
  IsText, c_string-IsText, IsOutput, get_or-snoc, snoc-IsText, length-snoc, starts_at_first,
}

-- The options decide whether a line of the result is shown.
abbrev pub result_line : (String → List Arg → String) → Options → List ℕ → Option (Stream × String)
result_line asprintf o text =
    if ltb log_info o.log_level
    then none
    else some (stdout, asprintf "test result: %s" (chars text ∷ []))

-- A byte behind the text.
test_rom_update-IsOutput :
    (text : List ℕ) (t : TestRom) (m : Machine)
    → IsOutput text t
    → length text < output_cells
    → m.cpu.memory test_check ≡ check_true
    → test_rom_update (t, m)
      ≡ ok (
        record t {
          output = update t.output (length text) (m.cpu.memory test_value);
          output_size = length text + 1;
        },
        on_cpu (store test_check 0) m,
      )
unfolding test_rom_update read_memory read_io write_memory write_io
test_rom_update-IsOutput text t m h fits asked =
    let next : u16 (length text + 1) ≡ length text + 1 = omega arith in
    let room : ltb (length text) 1024 ≡ true = ground arith in rw (asked, h.size, room, next) refl

module _ (asprintf : String → List Arg → String) (o : Options) where
  print_result-IsText :
      (text : List ℕ) (t : TestRom)
      → ((j : ℕ) → t.output j ≡ get_or text j 0)
      → IsText text
      → print_result asprintf o (log_print log_info o) t ≡ (
          if ltb log_info o.log_level || ltb (length text) output_cells
          then ok (result_line asprintf o text)
          else err undefined)
  unfolding print_result log_print
  print_result-IsText text t h is_text =
      let same : (j : ℕ) → 0 + j ≡ j = λ j. omega arith in
      let read = c_string-IsText output_cells 0 text t.output (λ j. rw (same j) (h j)) is_text in
      elim (Bool-cases (ltb log_info o.log_level)) [
        | inl hidden ↦ simp hidden refl
        | inr visible ↦ simp visible (rw read (ground arith))
      ]

  test_rom_print-IsText :
      (text : List ℕ) (t : TestRom)
      → ((j : ℕ) → t.output j ≡ get_or text j 0)
      → IsText text
      → t.output 0 ≢ 0
      → t.last_output_size < t.output_size
      → test_rom_print asprintf o t ≡ (
          if ltb log_info o.log_level || ltb (length text) output_cells
          then ok (result_line asprintf o text, shown t)
          else err undefined)
  unfolding test_rom_print
  test_rom_print-IsText text t h is_text starts more =
      let line = print_result-IsText text t h is_text in
      let not_empty : (t.output 0 == 0) ≡ false = ground arith in
      let is_new : ltb t.last_output_size t.output_size ≡ true = ground arith in
      rw (not_empty, is_new) (rw line (ground arith))

  -- A ROM that asks for it has its byte, which is not 0, put behind the text.
  module _ (text : List ℕ) (t : TestRom) (m : Machine) (h : IsOutput text t)
      (some_v : m.cpu.memory test_value ≢ 0) (asked : m.cpu.memory test_check ≡ check_true) where
    abbrev taken : TestRom
    taken = record t {
      output = update t.output (length text) (m.cpu.memory test_value);
      output_size = length text + 1;
      last_output_size = length text + 1;
    }

    abbrev longer : List ℕ
    longer = text ++ m.cpu.memory test_value ∷ []

    taken-IsOutput : IsOutput longer taken
    taken-IsOutput =
        let size = length-snoc text (m.cpu.memory test_value) in
        record {
          stored = λ j. rw (get_or-snoc text (m.cpu.memory test_value) j, h.stored j) refl;
          is_text = snoc-IsText text (m.cpu.memory test_value) h.is_text some_v;
          size = sym size;
          seen = sym size;
        }

    poll-taken :
        length text < output_cells
        → poll asprintf o (t, m) ≡ (
            if ltb log_info o.log_level || ltb (length longer) output_cells
            then ok (result_line asprintf o longer, (taken, on_cpu (store test_check 0) m))
            else err undefined)
    unfolding poll
    poll-taken room =
        let good = taken-IsOutput in
        rw (test_rom_update-IsOutput text t m h room asked) (
          rw
            (test_rom_print-IsText longer (record taken { last_output_size = t.last_output_size })
              good.stored good.is_text
              (rw (good.stored 0) (starts_at_first text (m.cpu.memory test_value) good.is_text))
              (omega (arith, h.seen)))
            (ground arith))

    -- Where a ROM asks for it with 0x81 at 0xFF02 and holds a byte other than 0 at 0xFF01, and the text so far
    -- has fewer than 1023 characters and was shown, a poll takes the byte behind the text, shows the whole text,
    -- unless the log level hides it, and sets 0xFF02 to 0; nothing else of the machine changes.
    pub poll-IsOutput :
        length text < 1023
        → Returns (poll asprintf o (t, m)) (λ r.
          (r.0 ≡ result_line asprintf o longer)
          × IsOutput longer r.1.0
          × (r.1.1 ≡ on_cpu (store test_check 0) m))
    poll-IsOutput room =
        let fits : (ltb log_info o.log_level || ltb (length longer) output_cells) ≡ true =
          rw (length-snoc text (m.cpu.memory test_value)) (ground arith) in
        rw (poll-taken (omega arith), fits) (refl, taken-IsOutput, refl)

    -- The character with the number 1024 leaves no cell for the end of the text: where the log level shows the
    -- text, the poll reads beyond the buffer.
    pub poll_full :
        length text ≡ 1023 → o.log_level ≡ log_info → poll asprintf o (t, m) ≡ err undefined
    poll_full full level =
        let beyond : (ltb log_info o.log_level || ltb (length longer) output_cells) ≡ false =
          rw (length-snoc text (m.cpu.memory test_value), full, level) refl in
        rw (poll-taken (omega arith), beyond) refl

known : {A : Type 0} (r : Outcome A) → Ensures r (λ x. r ≡ ok x)
known (ok x) = refl
known (err e) = tt

round-test_rom_update :
    (exits : Bool) (s : TestRom × Machine)
    → round exits true s ≡ (do s1 ← round exits false s; test_rom_update s1)
unfolding round
round-test_rom_update exits (t, m) = first (
    if m.cpu.halt
    then ok (timer_tick m)
    else (do (cycles, m1) ← execute_instruction exits m; ok m1))
  where
    second :
        (r : Outcome (ℕ × Machine))
        → (do (cycles, m2) ← r; test_rom_update (t, m2))
          ≡ (do s1 ← (do (cycles, m2) ← r; ok (t, m2)); test_rom_update s1)
    second (ok r) = refl
    second (err e) = refl

    first :
        (r : Outcome Machine)
        → (do m1 ← r; (cycles, m2) ← handle_interrupts m1; test_rom_update (t, m2)) ≡ (do
          s1 ← (do m1 ← r; (cycles, m2) ← handle_interrupts m1; ok (t, m2))
          test_rom_update s1)
    first (ok m1) = second (handle_interrupts m1)
    first (err e) = refl

module _ (asprintf : String → List Arg → String) (o : Options) where
  poll-test_rom_update :
      (s : TestRom × Machine)
      → Ensures (poll asprintf o s) (λ r. (t : TestRom) × (test_rom_update s ≡ ok (t, r.1.1)))
  unfolding poll
  poll-test_rom_update s =
      >>=-Ensures _ (λ r. (t : TestRom) × (test_rom_update s ≡ ok (t, r.1.1))) (test_rom_update s) _
        (known (test_rom_update s))
        (λ s1 e.
          after_any (λ r. (t : TestRom) × (test_rom_update s ≡ ok (t, r.1.1)))
            (test_rom_print asprintf o s1.0) _ (λ shown. (s1.0, e)))

  -- A body of the loop that returns leaves the machine of its round, whether a line is shown or not.
  pub turn-round :
      (s : TestRom × Machine)
      → Ensures
          (turn asprintf o s)
          (λ r. (t : TestRom) × (round o.exit_infinite_loop o.blargg s ≡ ok (t, r.1.1)))
  unfolding turn
  turn-round s = go o.blargg refl
    where
      go :
          (b : Bool)
          → o.blargg ≡ b
          → Ensures
              (turn asprintf o s)
              (λ r. (t : TestRom) × (round o.exit_infinite_loop b s ≡ ok (t, r.1.1)))
      go true tests =
          let part = round o.exit_infinite_loop false s in
          let same = round-test_rom_update o.exit_infinite_loop s in
          simp tests (
            >>=-Ensures _ (λ r. (t : TestRom) × (round o.exit_infinite_loop true s ≡ ok (t, r.1.1)))
              part _ (known part) (λ s1 e. rw (same, e) (poll-test_rom_update s1)))
      go false plain =
          let part = round o.exit_infinite_loop false s in
          simp plain (
            >>=-Ensures _
              (λ r. (t : TestRom) × (round o.exit_infinite_loop false s ≡ ok (t, r.1.1))) part _
              (known part) (λ s1 e. (s1.0, e)))
