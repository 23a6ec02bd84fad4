-- ===== src/Program.antt =====
-- src/main.c and src/test_rom.c: one round of the main loop.
pub mod Halt
pub mod Wake
pub mod Start
pub mod Output
use emu_gb.Base.{
  ℕ, zero, suc, false, ◌+◌, ◌==◌, Bool, Outcome, ok, err, undefined, ◌>>=◌, ltb, if◌then◌else◌, u16,
  update,
}
use emu_gb.Machine.{Machine}
use emu_gb.Cpu.{reset_cpu}
use emu_gb.Timer.{reset_timer}
use emu_gb.Timer.Ticks.{timer_tick}
use emu_gb.Memory.{read_memory, write_memory}
use emu_gb.Interrupt.Service.{handle_interrupts}
use emu_gb.Instruction.Execute.{execute_instruction}

abbrev pub test_check : ℕ
test_check = 0xFF02

abbrev pub test_value : ℕ
test_value = 0xFF01

abbrev pub check_true : ℕ
check_true = 0x81

-- The statics `g_output` and `g_output_size`, and `last_output_size` of `test_rom_print`.
pub record TestRom : Type 0 where
  pub output : ℕ → ℕ
  pub output_size : ℕ
  pub last_output_size : ℕ

-- The buffer has 1024 cells.
unfoldable pub test_rom_update : TestRom × Machine → Outcome (TestRom × Machine)
test_rom_update (t, m) = do
  check ← read_memory test_check m
  (if check == check_true
      then (do
        val ← read_memory test_value m
        t1 ←
            (if ltb t.output_size 1024
              then ok (record t {
                output = update t.output t.output_size val;
                output_size = u16 (t.output_size + 1);
              })
              else err undefined)
        m1 ← write_memory test_check 0 m
        ok (t1, m1))
      else ok (t, m))

-- The state in which the loop starts.
unfoldable pub power_on : Machine → Machine
power_on m = record m { cpu = reset_cpu m.cpu; timer = reset_timer m.timer }

-- The body of the loop up to `test_rom_print`. `exits` and `blargg` are options.
unfoldable pub round : Bool → Bool → TestRom × Machine → Outcome (TestRom × Machine)
unfolding test_rom_update
round exits blargg (t, m) = do
  m1 ←
      (if m.cpu.halt
        then ok (timer_tick m)
        else (do (cycles, m1) ← execute_instruction exits m; ok m1))
  (cycles, m2) ← handle_interrupts m1
  (if blargg then test_rom_update (t, m2) else ok (t, m2))

-- The loop for at most `n` rounds, without the option for test ROMs.
unfoldable pub rounds : Bool → ℕ → TestRom × Machine → Outcome (TestRom × Machine)
rounds exits zero s = ok s
rounds exits (suc n) s =
    if s.1.cpu.is_running then (do s1 ← round exits false s; rounds exits n s1) else ok s
