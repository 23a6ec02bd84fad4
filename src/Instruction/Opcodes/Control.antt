-- ===== src/Instruction/Opcodes/Control.antt =====
-- src/cpu/instruction_fetch.c: the rows 0xC to 0xF of `g_opcodes`. An opcode that the source does
-- not list has the entry that C fills with zeros: the first constructors, and no cycles.
use emu_gb.Base.{List, [], ◌∷◌}
use emu_gb.Instruction.{
  InType, entry, a16, a_c_rel, a_d16_rel, a_d8, a_d8_rel, c_rel_a, d16_rel_a, d8_rel_a, err_operand,
  flag_a16, flag_operand, hl_rel, hl_s8, in_adc, in_add, in_and, in_call, in_cb, in_cp, in_di,
  in_ei, in_jp, in_ld, in_ldh, in_or, in_pop, in_push, in_ret, in_reti, in_rst, in_sbc, in_sub,
  in_xor, no_operand, r16, rst_operand, sp_hl, sp_s8,
}

unfoldable pub row_c : List InType
row_c =
    entry in_ret flag_operand 5 2
    ∷ entry in_pop r16 3 0
    ∷ entry in_jp flag_a16 4 3
    ∷ entry in_jp a16 4 0
    ∷ entry in_call flag_a16 6 3
    ∷ entry in_push r16 4 0
    ∷ entry in_add a_d8 2 0
    ∷ entry in_rst rst_operand 4 0
    ∷ entry in_ret flag_operand 5 2
    ∷ entry in_ret no_operand 4 0
    ∷ entry in_jp flag_a16 4 3
    ∷ entry in_cb no_operand 1 0
    ∷ entry in_call flag_a16 6 3
    ∷ entry in_call a16 6 0
    ∷ entry in_adc a_d8 2 0
    ∷ entry in_rst rst_operand 4 0
    ∷ []

unfoldable pub row_d : List InType
row_d =
    entry in_ret flag_operand 5 2
    ∷ entry in_pop r16 3 0
    ∷ entry in_jp flag_a16 4 3
    ∷ entry in_adc err_operand 0 0
    ∷ entry in_call flag_a16 6 3
    ∷ entry in_push r16 4 0
    ∷ entry in_sub a_d8 2 0
    ∷ entry in_rst rst_operand 4 0
    ∷ entry in_ret flag_operand 5 2
    ∷ entry in_reti no_operand 4 0
    ∷ entry in_jp flag_a16 4 3
    ∷ entry in_adc err_operand 0 0
    ∷ entry in_call flag_a16 6 3
    ∷ entry in_adc err_operand 0 0
    ∷ entry in_sbc a_d8 2 0
    ∷ entry in_rst rst_operand 4 0
    ∷ []

unfoldable pub row_e : List InType
row_e =
    entry in_ldh d8_rel_a 3 0
    ∷ entry in_pop r16 3 0
    ∷ entry in_ldh c_rel_a 2 0
    ∷ entry in_adc err_operand 0 0
    ∷ entry in_adc err_operand 0 0
    ∷ entry in_push r16 4 0
    ∷ entry in_and a_d8 2 0
    ∷ entry in_rst rst_operand 4 0
    ∷ entry in_add sp_s8 4 0
    ∷ entry in_jp hl_rel 1 0
    ∷ entry in_ld d16_rel_a 4 0
    ∷ entry in_adc err_operand 0 0
    ∷ entry in_adc err_operand 0 0
    ∷ entry in_adc err_operand 0 0
    ∷ entry in_xor a_d8 2 0
    ∷ entry in_rst rst_operand 4 0
    ∷ []

unfoldable pub row_f : List InType
row_f =
    entry in_ldh a_d8_rel 3 0
    ∷ entry in_pop r16 3 0
    ∷ entry in_ldh a_c_rel 2 0
    ∷ entry in_di no_operand 1 0
    ∷ entry in_adc err_operand 0 0
    ∷ entry in_push r16 4 0
    ∷ entry in_or a_d8 2 0
    ∷ entry in_rst rst_operand 4 0
    ∷ entry in_ld hl_s8 4 0
    ∷ entry in_ld sp_hl 2 0
    ∷ entry in_ld a_d16_rel 4 0
    ∷ entry in_ei no_operand 1 0
    ∷ entry in_adc err_operand 0 0
    ∷ entry in_adc err_operand 0 0
    ∷ entry in_cp a_d8 2 0
    ∷ entry in_rst rst_operand 4 0
    ∷ []
