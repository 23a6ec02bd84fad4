-- ===== src/Instruction/Opcodes/Misc.antt =====
-- src/cpu/instruction_fetch.c: the rows 0x0 to 0x3 of `g_opcodes`.
use emu_gb.Base.{List, [], ◌∷◌}
use emu_gb.Instruction.{
  InType, entry, a_hld, a_hli, a_r16_rel, d16_rel_sp, flag_s8, hl_r16, hl_rel, hl_rel_d8, hld_a,
  hli_a, in_add, in_ccf, in_cpl, in_daa, in_dec, in_inc, in_jr, in_ld, in_nop, in_rla, in_rlca,
  in_rra, in_rrca, in_scf, in_stop, no_operand, r16, r16_d16, r16_rel_a, r8, r8_d8, s8,
}

unfoldable pub row_0 : List InType
row_0 =
    entry in_nop no_operand 1 0
    ∷ entry in_ld r16_d16 3 0
    ∷ entry in_ld r16_rel_a 2 0
    ∷ entry in_inc r16 2 0
    ∷ entry in_inc r8 1 0
    ∷ entry in_dec r8 1 0
    ∷ entry in_ld r8_d8 2 0
    ∷ entry in_rlca no_operand 1 0
    ∷ entry in_ld d16_rel_sp 5 0
    ∷ entry in_add hl_r16 2 0
    ∷ entry in_ld a_r16_rel 2 0
    ∷ entry in_dec r16 2 0
    ∷ entry in_inc r8 1 0
    ∷ entry in_dec r8 1 0
    ∷ entry in_ld r8_d8 2 0
    ∷ entry in_rrca no_operand 1 0
    ∷ []

unfoldable pub row_1 : List InType
row_1 =
    entry in_stop no_operand 1 0
    ∷ entry in_ld r16_d16 3 0
    ∷ entry in_ld r16_rel_a 2 0
    ∷ entry in_inc r16 2 0
    ∷ entry in_inc r8 1 0
    ∷ entry in_dec r8 1 0
    ∷ entry in_ld r8_d8 2 0
    ∷ entry in_rla no_operand 1 0
    ∷ entry in_jr s8 3 0
    ∷ entry in_add hl_r16 2 0
    ∷ entry in_ld a_r16_rel 2 0
    ∷ entry in_dec r16 2 0
    ∷ entry in_inc r8 1 0
    ∷ entry in_dec r8 1 0
    ∷ entry in_ld r8_d8 2 0
    ∷ entry in_rra no_operand 1 0
    ∷ []

unfoldable pub row_2 : List InType
row_2 =
    entry in_jr flag_s8 3 2
    ∷ entry in_ld r16_d16 3 0
    ∷ entry in_ld hli_a 2 0
    ∷ entry in_inc r16 2 0
    ∷ entry in_inc r8 1 0
    ∷ entry in_dec r8 1 0
    ∷ entry in_ld r8_d8 2 0
    ∷ entry in_daa no_operand 1 0
    ∷ entry in_jr flag_s8 3 2
    ∷ entry in_add hl_r16 2 0
    ∷ entry in_ld a_hli 2 0
    ∷ entry in_dec r16 2 0
    ∷ entry in_inc r8 1 0
    ∷ entry in_dec r8 1 0
    ∷ entry in_ld r8_d8 2 0
    ∷ entry in_cpl no_operand 1 0
    ∷ []

unfoldable pub row_3 : List InType
row_3 =
    entry in_jr flag_s8 3 2
    ∷ entry in_ld r16_d16 3 0
    ∷ entry in_ld hld_a 2 0
    ∷ entry in_inc r16 2 0
    ∷ entry in_inc hl_rel 3 0
    ∷ entry in_dec hl_rel 3 0
    ∷ entry in_ld hl_rel_d8 3 0
    ∷ entry in_scf no_operand 1 0
    ∷ entry in_jr flag_s8 3 2
    ∷ entry in_add hl_r16 2 0
    ∷ entry in_ld a_hld 2 0
    ∷ entry in_dec r16 2 0
    ∷ entry in_inc r8 1 0
    ∷ entry in_dec r8 1 0
    ∷ entry in_ld r8_d8 2 0
    ∷ entry in_ccf no_operand 1 0
    ∷ []
