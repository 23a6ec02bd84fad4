-- ===== src/Instruction/Opcodes/Loads.antt =====
-- src/cpu/instruction_fetch.c: the rows 0x4 to 0x7 of `g_opcodes`.
use emu_gb.Base.{List, [], ◌∷◌}
use emu_gb.Instruction.{InType, entry, hl_rel_r8, in_halt, in_ld, no_operand, r8_hl_rel, r8_r8}

unfoldable pub row_4 : List InType
row_4 =
    entry in_ld r8_r8 1 0
    ∷ entry in_ld r8_r8 1 0
    ∷ entry in_ld r8_r8 1 0
    ∷ entry in_ld r8_r8 1 0
    ∷ entry in_ld r8_r8 1 0
    ∷ entry in_ld r8_r8 1 0
    ∷ entry in_ld r8_hl_rel 2 0
    ∷ entry in_ld r8_r8 1 0
    ∷ entry in_ld r8_r8 1 0
    ∷ entry in_ld r8_r8 1 0
    ∷ entry in_ld r8_r8 1 0
    ∷ entry in_ld r8_r8 1 0
    ∷ entry in_ld r8_r8 1 0
    ∷ entry in_ld r8_r8 1 0
    ∷ entry in_ld r8_hl_rel 2 0
    ∷ entry in_ld r8_r8 1 0
    ∷ []

unfoldable pub row_5 : List InType
row_5 =
    entry in_ld r8_r8 1 0
    ∷ entry in_ld r8_r8 1 0
    ∷ entry in_ld r8_r8 1 0
    ∷ entry in_ld r8_r8 1 0
    ∷ entry in_ld r8_r8 1 0
    ∷ entry in_ld r8_r8 1 0
    ∷ entry in_ld r8_hl_rel 2 0
    ∷ entry in_ld r8_r8 1 0
    ∷ entry in_ld r8_r8 1 0
    ∷ entry in_ld r8_r8 1 0
    ∷ entry in_ld r8_r8 1 0
    ∷ entry in_ld r8_r8 1 0
    ∷ entry in_ld r8_r8 1 0
    ∷ entry in_ld r8_r8 1 0
    ∷ entry in_ld r8_hl_rel 2 0
    ∷ entry in_ld r8_r8 1 0
    ∷ []

unfoldable pub row_6 : List InType
row_6 =
    entry in_ld r8_r8 1 0
    ∷ entry in_ld r8_r8 1 0
    ∷ entry in_ld r8_r8 1 0
    ∷ entry in_ld r8_r8 1 0
    ∷ entry in_ld r8_r8 1 0
    ∷ entry in_ld r8_r8 1 0
    ∷ entry in_ld r8_hl_rel 2 0
    ∷ entry in_ld r8_r8 1 0
    ∷ entry in_ld r8_r8 1 0
    ∷ entry in_ld r8_r8 1 0
    ∷ entry in_ld r8_r8 1 0
    ∷ entry in_ld r8_r8 1 0
    ∷ entry in_ld r8_r8 1 0
    ∷ entry in_ld r8_r8 1 0
    ∷ entry in_ld r8_hl_rel 2 0
    ∷ entry in_ld r8_r8 1 0
    ∷ []

unfoldable pub row_7 : List InType
row_7 =
    entry in_ld hl_rel_r8 2 0
    ∷ entry in_ld hl_rel_r8 2 0
    ∷ entry in_ld hl_rel_r8 2 0
    ∷ entry in_ld hl_rel_r8 2 0
    ∷ entry in_ld hl_rel_r8 2 0
    ∷ entry in_ld hl_rel_r8 2 0
    ∷ entry in_halt no_operand 1 0
    ∷ entry in_ld hl_rel_r8 2 0
    ∷ entry in_ld r8_r8 1 0
    ∷ entry in_ld r8_r8 1 0
    ∷ entry in_ld r8_r8 1 0
    ∷ entry in_ld r8_r8 1 0
    ∷ entry in_ld r8_r8 1 0
    ∷ entry in_ld r8_r8 1 0
    ∷ entry in_ld r8_hl_rel 2 0
    ∷ entry in_ld r8_r8 1 0
    ∷ []
