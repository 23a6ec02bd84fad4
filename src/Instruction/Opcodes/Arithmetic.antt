-- ===== src/Instruction/Opcodes/Arithmetic.antt =====
-- src/cpu/instruction_fetch.c: the rows 0x8 to 0xB of `g_opcodes`.
use emu_gb.Base.{List, [], ◌∷◌}
use emu_gb.Instruction.{
  InType, entry, a_hl_rel, a_r8, in_adc, in_add, in_and, in_cp, in_or, in_sbc, in_sub, in_xor,
}

unfoldable pub row_8 : List InType
row_8 =
    entry in_add a_r8 1 0
    ∷ entry in_add a_r8 1 0
    ∷ entry in_add a_r8 1 0
    ∷ entry in_add a_r8 1 0
    ∷ entry in_add a_r8 1 0
    ∷ entry in_add a_r8 1 0
    ∷ entry in_add a_hl_rel 2 0
    ∷ entry in_add a_r8 1 0
    ∷ entry in_adc a_r8 1 0
    ∷ entry in_adc a_r8 1 0
    ∷ entry in_adc a_r8 1 0
    ∷ entry in_adc a_r8 1 0
    ∷ entry in_adc a_r8 1 0
    ∷ entry in_adc a_r8 1 0
    ∷ entry in_adc a_hl_rel 2 0
    ∷ entry in_adc a_r8 1 0
    ∷ []

unfoldable pub row_9 : List InType
row_9 =
    entry in_sub a_r8 1 0
    ∷ entry in_sub a_r8 1 0
    ∷ entry in_sub a_r8 1 0
    ∷ entry in_sub a_r8 1 0
    ∷ entry in_sub a_r8 1 0
    ∷ entry in_sub a_r8 1 0
    ∷ entry in_sub a_hl_rel 2 0
    ∷ entry in_sub a_r8 1 0
    ∷ entry in_sbc a_r8 1 0
    ∷ entry in_sbc a_r8 1 0
    ∷ entry in_sbc a_r8 1 0
    ∷ entry in_sbc a_r8 1 0
    ∷ entry in_sbc a_r8 1 0
    ∷ entry in_sbc a_r8 1 0
    ∷ entry in_sbc a_hl_rel 2 0
    ∷ entry in_sbc a_r8 1 0
    ∷ []

unfoldable pub row_a : List InType
row_a =
    entry in_and a_r8 1 0
    ∷ entry in_and a_r8 1 0
    ∷ entry in_and a_r8 1 0
    ∷ entry in_and a_r8 1 0
    ∷ entry in_and a_r8 1 0
    ∷ entry in_and a_r8 1 0
    ∷ entry in_and a_hl_rel 2 0
    ∷ entry in_and a_r8 1 0
    ∷ entry in_xor a_r8 1 0
    ∷ entry in_xor a_r8 1 0
    ∷ entry in_xor a_r8 1 0
    ∷ entry in_xor a_r8 1 0
    ∷ entry in_xor a_r8 1 0
    ∷ entry in_xor a_r8 1 0
    ∷ entry in_xor a_hl_rel 2 0
    ∷ entry in_xor a_r8 1 0
    ∷ []

unfoldable pub row_b : List InType
row_b =
    entry in_or a_r8 1 0
    ∷ entry in_or a_r8 1 0
    ∷ entry in_or a_r8 1 0
    ∷ entry in_or a_r8 1 0
    ∷ entry in_or a_r8 1 0
    ∷ entry in_or a_r8 1 0
    ∷ entry in_or a_hl_rel 2 0
    ∷ entry in_or a_r8 1 0
    ∷ entry in_cp a_r8 1 0
    ∷ entry in_cp a_r8 1 0
    ∷ entry in_cp a_r8 1 0
    ∷ entry in_cp a_r8 1 0
    ∷ entry in_cp a_r8 1 0
    ∷ entry in_cp a_r8 1 0
    ∷ entry in_cp a_hl_rel 2 0
    ∷ entry in_cp a_r8 1 0
    ∷ []
