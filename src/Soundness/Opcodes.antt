-- ===== src/Soundness/Opcodes.antt =====
-- What the table of src/cpu/instruction_fetch.c says of every opcode.
use emu_gb.Base.{
  ℕ, zero, suc, ◌≤◌, ◌≡◌, refl, Bool, true, false, arith, List, [], ◌∷◌, get_or, length, passes,
  passes_lem, ◌&&◌, not, ◌==◌, inl, inr, Bool-cases, ltb, ltb→lt,
}
use emu_gb.Instruction.{
  in_err, InName, entry, in_adc, opcode_y, opcode_z, OperandType, err_operand, r8, r8_r8, r8_d8,
  r8_hl_rel, a_r16_rel, a_d16_rel, a_r8, hl_rel_r8,
}
use emu_gb.Instruction.Opcodes.{g_opcodes, table}

-- The digits of the opcode that an operand type turns into a register by `find_register`, which stops
-- the program at the digit 6.
abbrev pub names_register : OperandType → ℕ → Bool
names_register r8 opcode = not (opcode_y opcode == 6)
names_register r8_d8 opcode = not (opcode_y opcode == 6)
names_register r8_hl_rel opcode = not (opcode_y opcode == 6)
names_register r8_r8 opcode = not (opcode_y opcode == 6) && not (opcode_z opcode == 6)
names_register a_r8 opcode = not (opcode_z opcode == 6)
names_register hl_rel_r8 opcode = not (opcode_z opcode == 6)
names_register _ opcode = true

-- The operand types that read a word from an address in a register or in the program.
abbrev pub reads_word : OperandType → Bool
reads_word a_r16_rel = true
reads_word a_d16_rel = true
reads_word _ = false

registers_checked : passes (λ k. names_register (g_opcodes k).operands k) 256 ≡ true
unfolding passes g_opcodes
registers_checked = refl

get_or-beyond : {A : Type 0} (xs : List A) (k : ℕ) (d : A) → length xs ≤ k → get_or xs k d ≡ d
get_or-beyond [] k d h = refl
get_or-beyond (x ∷ xs) zero d h = absurd (omega arith)
get_or-beyond (x ∷ xs) (suc k) d h = get_or-beyond xs k d (omega arith)

pub g_opcodes-beyond : (opcode : ℕ) → 256 ≤ opcode → g_opcodes opcode ≡ entry in_adc err_operand 0 0
unfolding g_opcodes table
g_opcodes-beyond opcode h = get_or-beyond table opcode _ h

-- The table uses these types only where the digits name a register.
pub opcode_names_register : (opcode : ℕ) → names_register (g_opcodes opcode).operands opcode ≡ true
opcode_names_register opcode = elim (Bool-cases (ltb opcode 256)) [
  | inl low ↦
      passes_lem (λ k. names_register (g_opcodes k).operands k) 256 registers_checked
        (ltb→lt opcode 256 low)
  | inr high ↦ rw (g_opcodes-beyond opcode (ground arith))
]

abbrev pub is_err : InName → Bool
is_err in_err = true
is_err _ = false

names_checked : passes (λ k. not (is_err (g_opcodes k).name)) 256 ≡ true
unfolding passes g_opcodes
names_checked = refl

-- No opcode has the name that stops the program.
pub opcode_is_no_err : (opcode : ℕ) → not (is_err (g_opcodes opcode).name) ≡ true
opcode_is_no_err opcode = elim (Bool-cases (ltb opcode 256)) [
  | inl low ↦
      passes_lem (λ k. not (is_err (g_opcodes k).name)) 256 names_checked (ltb→lt opcode 256 low)
  | inr high ↦ rw (g_opcodes-beyond opcode (ground arith))
]
