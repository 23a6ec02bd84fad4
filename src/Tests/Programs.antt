-- ===== src/Tests/Programs.antt =====
-- A program with a loop in work RAM.
use emu_gb.Base.{ℕ, ◌==◌, ◌≡◌, refl, arith, true, false, Returns, if◌then◌else◌, IsByte}
use emu_gb.Cpu.{reg_a, reg_b, reg_c}
use emu_gb.Cpu.Flag.{get_flag}
use emu_gb.Cpu.View.{flags, flags_of}
use emu_gb.Machine.{Machine}
use emu_gb.Program.{rounds}
use emu_gb.Reference.{State, a, b, c, load_byte, add, operate, decrement, step}
use emu_gb.Reference.Decode.{place}
use emu_gb.Reference.Shows.{Shows}
use emu_gb.Reference.Place.{IsReady, Holds, are_there-Holds}
use emu_gb.Reference.Jump.{if_nz}
use emu_gb.Reference.Config.{Config, config}
use emu_gb.Reference.Code.{basic, jump}
use emu_gb.Reference.Runs.{Runs, stays, does, Arrives, rounds-Runs}
use emu_gb.Reference.Multiply.{multiply_bytes, rounds_multiply}
use emu_gb.Tests.Data.{machine, no_output}

-- The program, from 0xC001 on.
abbrev program : ℕ → ℕ
program k =
    if k == 0xC001
    then 0x3E
    else if k == 0xC003
    then 0x81
    else if k == 0xC004
    then 0x05
    else if k == 0xC005
    then 0x20
    else if k == 0xC006
    then 0xFC
    else 0

-- B holds 3, C 5, A 0x45, and the carry is set.
abbrev factors : ℕ → ℕ
factors k =
    if k == 0 then 0x45 else if k == 1 then 0x10 else if k == 2 then 3 else if k == 3 then 5 else 0

abbrev programmed : Machine
programmed = record machine {
  cpu = record (machine.cpu) { r8 = factors; memory = program; halt = false };
  interrupts = record (machine.interrupts) { ie_reg = 0 };
}

programmed-IsReady : IsReady programmed
programmed-IsReady = record { running = refl; awake = refl; disabled = refl }

factors-IsByte : (k : ℕ) → IsByte (factors k)
factors-IsByte k = ground arith

program-Holds : Holds multiply_bytes 0xC001 program
program-Holds = are_there-Holds multiply_bytes 0xC001 program refl (omega arith) (omega arith)

abbrev at_first : State
at_first = record { value = λ r. factors (place r); fs = flags false false false true }

at_first-Shows : Shows at_first programmed.cpu
unfolding flags_of get_flag
at_first-Shows = record {
  values = λ r. refl;
  bytes = λ r. factors-IsByte (place r);
  flags_shown = refl;
}

-- The state after the first pass through the loop.
abbrev at_second : State
at_second = step (decrement b) (step (operate add c) (step (load_byte a 0) at_first))

-- Four steps, up to the jump back.
abbrev jumped_back : Config
jumped_back = record (config at_second programmed.cpu) { pc = 0xC003 }

first_pass-Runs : Runs 4 (config at_first programmed.cpu) jumped_back
first_pass-Runs =
    let h = program-Holds in
    does (basic (load_byte a 0)) (h.0, h.1, h.2, (h.3.0, h.3.1, h.3.2, tt)) tt
      (does (basic (operate add c)) (h.3.3.0, h.3.3.1, h.3.3.2, tt) tt
        (does (basic (decrement b)) (h.3.3.3.0, h.3.3.3.1, h.3.3.3.2, tt) tt
          (does (jump if_nz 0xFC) h.3.3.3.3 (omega arith) stays)))

rounds-Runs_example :
    Returns (rounds false 4 (no_output, programmed)) (Arrives jumped_back no_output)
rounds-Runs_example =
    rounds-Runs false no_output programmed first_pass-Runs programmed-IsReady
      (record { shown = at_first-Shows; there = refl })

rounds_multiply_example : Returns (rounds false 10 (no_output, programmed)) (λ r.
    (r.1.cpu.r8 reg_a ≡ 15)
    × (r.1.cpu.r8 reg_b ≡ 0)
    × (r.1.cpu.r8 reg_c ≡ 5)
    × (r.1.cpu.pc ≡ 0xC007)
    × (r.1.cpu.memory ≡ program)
    × (r.1.cpu.sp ≡ 0xDFFE))
rounds_multiply_example =
    rounds_multiply false no_output programmed programmed-IsReady factors-IsByte program-Holds
      (omega arith) (omega arith)
