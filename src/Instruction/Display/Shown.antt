-- ===== src/Instruction/Display/Shown.antt =====
-- When src/cpu/instruction_display.c shows an instruction, and that it returns.
use Prim.Native.String.{String}
use emu_gb.Base.{
  ℕ, ◌+◌, ◌<◌, ◌≡◌, ◌⊎◌, refl, arith, Bool, true, false, Option, none, some, List, Outcome, ok, err,
  Returns, Ensures, Ends, >>=-Returns, u16,
}
use emu_gb.Machine.{Machine}
use emu_gb.Memory.{read_memory}
use emu_gb.Options.{Options}
use emu_gb.Options.Log.{Arg, name_at, Stream, stdout, log_print}
use emu_gb.Instruction.{InName, OperandType, Instruction, r8_r8, a_r8}
use emu_gb.Instruction.Display.{
  name_number, g_instruction_names, g_register_names, register_name, display_operands,
  display_bytes, display_instruction,
}
use emu_gb.Instruction.Opcodes.{g_opcodes}
use emu_gb.Instruction.Fetch.{
  fetch_operands, fetch_instruction, find_register, find_register_16bit,
  find_register_16bit_push_pop, with_value, with_address, read_later, read_later_16bit,
}
use emu_gb.Cartridge.Bus.{read_cartridge, write_cartridge}
use emu_gb.Soundness.{IsMachine, Contract}
use emu_gb.Soundness.Fetch.{fetch_instruction-Ends}
use emu_gb.Soundness.Bus.{read_memory-Ends}
use emu_gb.Soundness.Run.{Ends_never}
use emu_gb.Soundness.Controllers.{IsSupported, Contract-IsSupported}

register_name-Returns : (reg : ℕ) → reg < 15 → Returns (register_name reg) (λ _. Unit)
unfolding g_register_names
register_name-Returns reg h = ground arith

name-Returns : (n : InName) → Returns (name_at g_instruction_names (name_number n)) (λ _. Unit)
unfolding name_number g_instruction_names
name-Returns n = ground arith

-- The types whose display names the second register.
abbrev shows_reg2 : OperandType → Bool
shows_reg2 r8_r8 = true
shows_reg2 a_r8 = true
shows_reg2 _ = false

-- The registers that are displayed have names.
abbrev NamesRegisters : Instruction → Type 0
NamesRegisters i = (i.reg1 < 15) × (shows_reg2 i.operands ≡ true → i.reg2 < 15)

fetch_operands-NamesRegisters :
    (t : OperandType) (opcode : ℕ) (i : Instruction) (m : Machine)
    → i.reg1 < 15
    → i.operands ≡ t
    → Ensures (fetch_operands t opcode i m) (λ r. NamesRegisters r.0)
unfolding fetch_operands find_register find_register_16bit find_register_16bit_push_pop with_value
    with_address read_later read_later_16bit
fetch_operands-NamesRegisters t opcode i m r1 e = ground arith

fetch_instruction-NamesRegisters :
    (opcode : ℕ) (m : Machine) → Ensures (fetch_instruction opcode m) (λ r. NamesRegisters r.0)
unfolding fetch_instruction
fetch_instruction-NamesRegisters opcode m =
    fetch_operands-NamesRegisters (g_opcodes opcode).operands opcode _ _ (omega arith) refl

-- A line on the standard output where traces are on, and nothing where they are off.
abbrev Shows : Options → Option (Stream × String) → Type 0
Shows o shown =
    ((o.trace ≡ true) × (line : String) × (shown ≡ some (stdout, line)))
    ⊎ ((o.trace ≡ false) × (shown ≡ none))

module _ (asprintf : String → List Arg → String) (i : Instruction) (named : NamesRegisters i) where
  display_operands-Returns :
      (t : OperandType) → i.operands ≡ t → Returns (display_operands asprintf i t) (λ _. Unit)
  unfolding display_operands
  display_operands-Returns t e =
      ground (arith, register_name-Returns i.reg1, register_name-Returns i.reg2, named)

  display_bytes-Returns :
      (m : Machine) → IsMachine IsSupported m → Returns (display_bytes asprintf i m) (λ _. Unit)
  unfolding display_bytes
  display_bytes-Returns m h =
      let reads : (a : ℕ) → Returns (read_memory a m) (λ _. Unit) = λ a.
        Ends_never (λ _. Unit) (read_memory a m) (read_memory-Ends Contract-IsSupported a m h) in
      >>=-Returns (λ _. Unit) (λ _. Unit) (read_memory i.pc m) _ (reads i.pc)
        (λ b0 _.
          >>=-Returns (λ _. Unit) (λ _. Unit) (read_memory (u16 (i.pc + 1)) m) _
            (reads (u16 (i.pc + 1)))
            (λ b1 _.
              >>=-Returns (λ _. Unit) (λ _. Unit) (read_memory (u16 (i.pc + 2)) m) _
                (reads (u16 (i.pc + 2))) (λ b2 _. tt)))

  display_instruction-Shows :
      (m : Machine) (o : Options)
      → IsMachine IsSupported m
      → Returns (display_instruction asprintf i m o) (Shows o)
  unfolding display_instruction log_print
  display_instruction-Shows m o h = ground (
    arith,
    display_operands-Returns i.operands refl,
    name-Returns i.instruction,
    display_bytes-Returns m h,
  )

Ends_forget : {A : Type 0} (P : A → Type 0) (r : Outcome A) → Ends ⊥ r P → Ends Unit r P
Ends_forget P (ok a) h = h
Ends_forget P (err e) h = tt

-- The same cartridges, where the program may stop.
may_stop : Contract IsSupported Unit
may_stop = record {
  read_ends = λ a g h low.
      Ends_forget (λ _. Unit) (read_cartridge a g) (Contract-IsSupported.read_ends a g h low);
  write_ends = λ a v g h low.
      Ends_forget IsSupported (write_cartridge a v g) (Contract-IsSupported.write_ends a v g h low);
}

fetched-Shows :
    (asprintf : String → List Arg → String) (o : Options) (name : InName)
    (r : Outcome (Instruction × Machine))
    → Ends Unit r (λ x. IsMachine IsSupported x.1 × (x.0.instruction ≡ name))
    → Ensures r (λ x. NamesRegisters x.0)
    → Ensures r (λ x. Returns (display_instruction asprintf x.0 x.1 o) (Shows o))
fetched-Shows asprintf o name (ok x) h named =
    display_instruction-Shows asprintf x.0 named x.1 o h.0
fetched-Shows asprintf o name (err e) h named = tt

-- With a supported cartridge of full size, the display of every fetched instruction returns: all the
-- names that it looks up are in their tables. It shows a line where traces are on, on the standard
-- output and whatever the log level, and nothing where they are off.
pub display_instruction-fetch_instruction :
    (asprintf : String → List Arg → String) (opcode : ℕ) (m : Machine) (o : Options)
    → IsMachine IsSupported m
    → Ensures (fetch_instruction opcode m) (λ r.
      Returns (display_instruction asprintf r.0 r.1 o) (λ shown.
        ((o.trace ≡ true) × (line : String) × (shown ≡ some (stdout, line)))
        ⊎ ((o.trace ≡ false) × (shown ≡ none))))
display_instruction-fetch_instruction asprintf opcode m o h =
    fetched-Shows asprintf o (g_opcodes opcode).name (fetch_instruction opcode m)
      (fetch_instruction-Ends may_stop m h opcode (λ _. tt))
      (fetch_instruction-NamesRegisters opcode m)
