-- ===== src/Tests/Output.antt =====
-- The output of a test ROM, the search for several games, and an opcode that the processor does not have.
use emu_gb.Base.{
  ◌<◌, sym, ℕ, zero, suc, ◌+◌, ◌-◌, ◌==◌, ◌≡◌, refl, arith, true, false, List, [], ◌∷◌, length,
  get_or, Returns, ltb, ◌&&◌, if◌then◌else◌, inl, ◌++◌,
}
use emu_gb.Cartridge.{Cartridge}
use emu_gb.Cartridge.Loader.{check_multicart, nintendo_logo}
use emu_gb.Cartridge.Loader.Multicart.{IsStored, check_multicart-IsStored}
use emu_gb.Machine.{Machine, on_cpu}
use emu_gb.Memory.{store}
use emu_gb.Options.{default_options}
use emu_gb.Program.{TestRom, test_check}
use emu_gb.Program.Output.{poll}
use emu_gb.Program.Output.Text.{IsText, IsOutput}
use emu_gb.Program.Output.Poll.{result_line, poll-IsOutput}
use emu_gb.Instruction.Execute.{execute_instruction}
use emu_gb.Cpu.View.{forget_flags}
use emu_gb.Reference.Step.{moved}
use emu_gb.Timer.Ticks.{timer_tick}
use emu_gb.Reference.Undefined.{xd3, jumped, execute_instruction-Undefined}
use emu_gb.Tests.Data.{machine, cartridge}

-- The letter A, `n` times.
letters : ℕ → List ℕ
letters zero = []
letters (suc n) = 0x41 ∷ letters n

letters-IsText : (n : ℕ) → IsText (letters n)
unfolding letters
letters-IsText zero = tt
letters-IsText (suc n) = (omega arith, letters-IsText n)

length-letters : (n : ℕ) → length (letters n) ≡ n
unfolding letters
length-letters zero = refl
length-letters (suc n) = omega (arith, length-letters n)

-- The ROM has the byte 0x42 ready.
abbrev asking : Machine
asking = record machine {
  cpu = record (machine.cpu) {
    memory = λ k. if k == 0xFF01 then 0x42 else if k == 0xFF02 then 0x81 else 0;
  };
}

put_out : ℕ → TestRom
put_out n = record { output = λ j. get_or (letters n) j 0; output_size = n; last_output_size = n }

put_out-IsOutput : (n : ℕ) → IsOutput (letters n) (put_out n)
unfolding put_out
put_out-IsOutput n = record {
  stored = λ j. refl;
  is_text = letters-IsText n;
  size = sym (length-letters n);
  seen = sym (length-letters n);
}

poll-IsOutput_example :
    Returns (poll (λ format args. format) default_options (put_out 2, asking)) (λ r.
      (r.0 ≡ result_line (λ format args. format) default_options (letters 2 ++ 0x42 ∷ []))
      × IsOutput (letters 2 ++ 0x42 ∷ []) r.1.0
      × (r.1.1 ≡ on_cpu (store test_check 0) asking))
poll-IsOutput_example =
    poll-IsOutput (λ format args. format) default_options (letters 2) (put_out 2) asking
      (put_out-IsOutput 2) (omega arith) refl (omega (arith, length-letters 2))

-- An MBC1 with 2 MB of ROM, the size code 8, and the logo in its first bank.
abbrev single : Cartridge
single = record cartridge {
  rom_size = 0x200000;
  rom = λ k.
      if k == 0x147
      then 1
      else if k == 0x148
      then 8
      else if ltb k 0x134 && ltb 0x103 k
      then get_or nintendo_logo (k - 0x104) 0
      else 0;
}

get_or-IsStored :
    (bytes : List ℕ) (k : ℕ) (rom : ℕ → ℕ)
    → ((j : ℕ) → j < length bytes → rom (k + j) ≡ get_or bytes j 0)
    → IsStored bytes k rom
get_or-IsStored [] k rom h = tt
get_or-IsStored (b ∷ bytes) k rom h =
    let here : k + 0 ≡ k = omega arith in
    let next : (j : ℕ) → k + 1 + j ≡ k + suc j = λ j. omega arith in
    (
      rw here at (h 0 (omega arith)),
      get_or-IsStored bytes (k + 1) rom (λ j low. rw (next j) (h (suc j) (omega arith))),
    )

logo_stored : (j : ℕ) → j < length nintendo_logo → single.rom (0x104 + j) ≡ get_or nintendo_logo j 0
logo_stored j low = let same : 0x104 + j - 0x104 ≡ j = omega arith in rw same (ground arith)

check_multicart-IsStored_example : Returns (check_multicart single) (λ g. g.multicart ≡ true)
check_multicart-IsStored_example =
    check_multicart-IsStored single
      (record {
        type_low = omega arith;
        type_high = omega arith;
        bank_fits = omega arith;
        ram_bank_fits = omega arith;
        size_fits = omega arith;
      })
      (omega arith) (get_or-IsStored nintendo_logo 0x104 single.rom logo_stored)

abbrev at_none : Machine
at_none = record machine {
  cpu = record (machine.cpu) { memory = λ k. if k == 0xC001 then 0xD3 else 0 };
}

execute_instruction-Undefined_example : Returns (execute_instruction false at_none) (λ r.
    (r.0 ≡ 0)
    × (forget_flags r.1.cpu
        ≡ forget_flags
            (record (at_none.cpu) { pc = jumped (moved 1 at_none.cpu); ime_scheduled = false }))
    × (r.1.timer ≡ (timer_tick at_none).timer)
    × (r.1.interrupts ≡ (timer_tick at_none).interrupts)
    × (r.1.cartridge ≡ at_none.cartridge))
execute_instruction-Undefined_example =
    execute_instruction-Undefined false xd3 at_none (inl (omega arith, omega arith)) refl
      (omega arith)
