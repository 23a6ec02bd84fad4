-- ===== src/Tests/Runs.antt =====
-- Rounds of the loop and dumps on a cartridge of full size, and operations behind 0xCB.
use Prim.Native.String.{String}
use emu_gb.Base.{
  some, none, ◌⊎◌, ℕ, ◌%◌, ◌==◌, ◌≡◌, ◌≢◌, refl, arith, true, false, inl, ok, err, fatal, undefined,
  Returns, Ensures, if◌then◌else◌,
}
use emu_gb.Cartridge.{Cartridge}
use emu_gb.Cartridge.Dump.{dump_mbc1, dump_mbc2, dump_mbc3}
use emu_gb.Machine.{Machine}
use emu_gb.Memory.{read_memory, read_memory_16bit}
use emu_gb.Timer.Ticks.{timer_tick}
use emu_gb.Stack.{fetch_opcode}
use emu_gb.Instruction.Opcodes.{g_opcodes}
use emu_gb.Instruction.Cb.{CbInstruction, rotate, handle_cb}
use emu_gb.Instruction.Cb.Register.{OnRegister}
use emu_gb.Instruction.Cb.Rotations.{IsRotated, rotate-bits}
use emu_gb.Instruction.Cb.Change.{HasChanged, handle_cb-bits}
use emu_gb.Cartridge.Dump.{dumps_of_large}
use emu_gb.Program.{round}
use emu_gb.Soundness.{IsMachine}
use emu_gb.Soundness.Opcodes.{reads_word}
use emu_gb.Soundness.Controllers.{IsCartridge, IsSupported, IsMbc1}
use emu_gb.Soundness.Run.{round-Returns}
use emu_gb.Soundness.Words.{read_memory_16bit-stops}
use emu_gb.Soundness.ExternalRam.{round-ram}
use emu_gb.Soundness.Dumps.{dump_mbc1-Returns}
use emu_gb.Options.{Options, default_options}
use emu_gb.Options.Log.{stdout}
use emu_gb.Instruction.Fetch.{fetch_instruction}
use emu_gb.Instruction.Display.{display_instruction}
use emu_gb.Instruction.Display.Shown.{display_instruction-fetch_instruction}
use emu_gb.Tests.Data.{no_output, machine, cartridge}

-- An MBC1 with 2 MB of ROM and the size code `size`.
abbrev full : ℕ → Cartridge
full size = record cartridge {
  rom_size = 0x200000;
  rom = λ k. if k == 0x147 then 1 else if k == 0x148 then size % 256 else k % 256;
}

full-IsMbc1 : (size : ℕ) → IsMbc1 (full size)
full-IsMbc1 size = record {
  type_low = omega arith;
  type_high = omega arith;
  bank_fits = omega arith;
  ram_bank_fits = omega arith;
  size_fits = omega arith;
}

pub full-IsCartridge : (size : ℕ) → IsCartridge (full size)
full-IsCartridge size = record {
  rom_bytes = record { at = λ k. ground arith };
  ram_bytes = record { at = λ k. omega arith };
  is_chip = (omega arith, omega arith, omega arith);
}

-- The CPU runs, and the opcode at PC is `INC (HL)`.
abbrev pub running : Machine
running = record machine { cpu = record (machine.cpu) { halt = false }; cartridge = full 1 }

pub running-IsMachine :
    (IsSound : Cartridge → Type 0) → IsSound (full 1) → IsMachine IsSound running
running-IsMachine IsSound h = record {
  is_cpu = record {
    r8_byte = λ k. ground arith;
    pc_word = omega arith;
    sp_word = omega arith;
    memory_byte = λ k. ground arith;
  };
  is_timer = record {
    div_word = omega arith;
    tima_byte = omega arith;
    tma_byte = omega arith;
    tac_byte = omega arith;
  };
  is_interrupts = record { if_byte = omega arith; ie_byte = omega arith };
  is_cartridge = h;
}

fetched : Returns (fetch_opcode running) (λ r. r.0 ≡ 0x34)
unfolding fetch_opcode read_memory timer_tick
fetched = refl

no_word :
    (opcode : ℕ) (m1 : Machine)
    → fetch_opcode running ≡ ok (opcode, m1)
    → reads_word (g_opcodes opcode).operands ≡ false
unfolding g_opcodes
no_word opcode m1 e = let is_inc : opcode ≡ 0x34 = rw e at fetched in rw is_inc refl

round-Returns_example :
    Returns (round false false (no_output, running)) (λ x. IsMachine IsSupported x.1)
round-Returns_example =
    round-Returns no_output running (running-IsMachine IsSupported (inl (full-IsMbc1 1)))
      (λ runs. no_word)

round-ram_example :
    Ensures (round true true (no_output, running)) (λ x. x.1.cartridge.ram ≡ (full 1).ram)
round-ram_example =
    round-ram true true no_output running (running-IsMachine IsCartridge (full-IsCartridge 1))

read_memory_16bit-stops_example :
    (read_memory_16bit 0x7FFF running ≡ err fatal)
    × (read_memory_16bit 0xFFFF running ≡ err undefined)
    × (◌≢◌ {A = ℕ} 0x4000 0x7FFF
        → ◌≢◌ {A = ℕ} 0x4000 0xFFFF
        → Returns (read_memory_16bit 0x4000 running) (λ _. Unit))
read_memory_16bit-stops_example =
    read_memory_16bit-stops 0x4000 running (inl (full-IsMbc1 1)) (omega arith)

dump_mbc1-Returns_example : Returns (dump_mbc1 (full 4)) (λ s. IsMbc1 s.1)
dump_mbc1-Returns_example = dump_mbc1-Returns (full 4) (full-IsMbc1 4) (omega arith)

dumps_of_large_example :
    (dump_mbc1 (full 6) ≡ ok (0, record (full 6) { chip = record ((full 6).chip) { mode = true } }))
    × (dump_mbc2 (full 6) ≡ ok (0, full 6))
    × (dump_mbc3 (full 6)
        ≡ ok (0, record (full 6) { chip = record ((full 6).chip) { mode = true } }))
dumps_of_large_example = dumps_of_large (full 6) (omega arith) (omega arith)

-- An operation on bit 3 of B, which holds 0x38; as a rotation it is RR.
abbrev on_b : ℕ → CbInstruction
on_b kind = record { kind = kind; bit_index = 3; address = 0; is_address = false; reg = 2 }

at_b : (kind : ℕ) → OnRegister (on_b kind) running.cpu 0x38
at_b kind = record {
  no_address = refl;
  named = omega arith;
  no_flags = omega arith;
  value = refl;
  is_byte = omega arith;
}

rotate-bits_example : Returns (rotate (on_b 0) running) (IsRotated (on_b 0) running)
rotate-bits_example = rotate-bits (on_b 0) running 0x38 (at_b 0) (omega arith)

handle_cb-bits_example : Returns (handle_cb (on_b 2) running) (HasChanged (on_b 2) running false)
handle_cb-bits_example =
    handle_cb-bits (on_b 2) running 0x38 (at_b 2) (omega arith) (omega arith) (omega arith)

abbrev traced : Options
traced = record default_options { trace = true }

-- A printer that gives the format back; `LD B,C` is traced.
display_instruction-fetch_instruction_example : Ensures (fetch_instruction 0x41 running) (λ r.
    Returns (display_instruction (λ format args. format) r.0 r.1 traced) (λ shown.
      ((true ≡ true) × (line : String) × (shown ≡ some (stdout, line)))
      ⊎ ((true ≡ false) × (shown ≡ none))))
display_instruction-fetch_instruction_example =
    display_instruction-fetch_instruction (λ format args. format) 0x41 running traced
      (running-IsMachine IsSupported (inl (full-IsMbc1 1)))
