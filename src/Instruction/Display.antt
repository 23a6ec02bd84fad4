-- ===== src/Instruction/Display.antt =====
-- src/cpu/instruction_display.c: the trace of an instruction. `asprintf`, of the C library, is a parameter.
pub mod Shown
use Prim.Native.String.{String}
use emu_gb.Base.{
  ℕ, ◌+◌, ◌%◌, Bool, not, Option, none, some, List, [], ◌∷◌, Outcome, ok, err, undefined, ◌>>=◌,
  ltb, if◌then◌else◌, length, get_or, u16,
}
use emu_gb.Cpu.{reg_af, reg_bc, reg_de, reg_hl, read_register_16bit}
use emu_gb.Machine.{Machine}
use emu_gb.Memory.{read_memory}
use emu_gb.Options.{Options, log_trace}
use emu_gb.Options.Log.{Stream, log_print, Arg, str, num, signed, name_at, logged}
use emu_gb.Instruction.{
  InName, in_adc, in_add, in_and, in_call, in_cb, in_ccf, in_cp, in_cpl, in_daa, in_dec, in_di,
  in_ei, in_err, in_halt, in_inc, in_jp, in_jr, in_ld, in_ldh, in_nop, in_or, in_pop, in_push,
  in_ret, in_reti, in_rla, in_rlca, in_rra, in_rrca, in_rst, in_sbc, in_scf, in_stop, in_sub,
  in_xor, OperandType, err_operand, no_operand, r8, r16, a16, hl_rel, s8, flag_operand, rst_operand,
  d8, flag_a16, flag_s8, r8_r8, r8_d8, r8_hl_rel, a_r16_rel, a_d16_rel, r16_d16, sp_hl, sp_s8,
  a_hld, a_hli, a_c_rel, a_d8_rel, a_r8, a_d8, a_hl_rel, hl_r16, hl_s8, hl_rel_r8, hl_rel_d8,
  r16_rel_a, d16_rel_a, d16_rel_sp, hld_a, hli_a, c_rel_a, d8_rel_a, Instruction,
}

-- The numbers that C gives to the names.
unfoldable pub name_number : InName → ℕ
name_number in_adc = 0
name_number in_add = 1
name_number in_and = 2
name_number in_call = 3
name_number in_cb = 4
name_number in_ccf = 5
name_number in_cp = 6
name_number in_cpl = 7
name_number in_daa = 8
name_number in_dec = 9
name_number in_di = 10
name_number in_ei = 11
name_number in_err = 12
name_number in_halt = 13
name_number in_inc = 14
name_number in_jp = 15
name_number in_jr = 16
name_number in_ld = 17
name_number in_ldh = 18
name_number in_nop = 19
name_number in_or = 20
name_number in_pop = 21
name_number in_push = 22
name_number in_ret = 23
name_number in_reti = 24
name_number in_rla = 25
name_number in_rlca = 26
name_number in_rra = 27
name_number in_rrca = 28
name_number in_rst = 29
name_number in_sbc = 30
name_number in_scf = 31
name_number in_stop = 32
name_number in_sub = 33
name_number in_xor = 34

unfoldable pub g_instruction_names : List String
g_instruction_names =
    "ADC" ∷ "ADD" ∷ "AND" ∷ "CALL" ∷ "CB" ∷ "CCF" ∷ "CP" ∷ "CPL" ∷ "DAA" ∷ "DEC" ∷ "DI" ∷ "EI"
    ∷ "ERR" ∷ "HALT" ∷ "INC" ∷ "JP" ∷ "JR" ∷ "LD" ∷ "LDH" ∷ "NOP" ∷ "OR" ∷ "POP" ∷ "PUSH" ∷ "RET"
    ∷ "RETI" ∷ "RLA" ∷ "RLCA" ∷ "RRA" ∷ "RRCA" ∷ "RST" ∷ "SBC" ∷ "SCF" ∷ "STOP" ∷ "SUB" ∷ "XOR" ∷ []

unfoldable pub g_register_names : List String
g_register_names =
    "A" ∷ "F" ∷ "B" ∷ "C" ∷ "D" ∷ "E" ∷ "H" ∷ "L" ∷ "PC" ∷ "SP" ∷ "AF" ∷ "BC" ∷ "DE" ∷ "HL" ∷ "???"
    ∷ []

-- A read of the array.
abbrev pub register_name : ℕ → Outcome String
register_name reg = name_at g_register_names reg

module _ (asprintf : String → List Arg → String) (i : Instruction) where
  abbrev text : String → Outcome String
  text s = ok (asprintf s [])

  abbrev one : String → Arg → Outcome String
  one format a = ok (asprintf format (a ∷ []))

  abbrev condition : Arg
  condition = str (if i.condition then "TRUE" else "FALSE")

  -- The cast `(i8)in.data`.
  abbrev signed_data : Arg
  signed_data = signed (i.value % 256)

  abbrev reg1 : String → List Arg → Outcome String
  reg1 format rest = do name ← register_name i.reg1; ok (asprintf format (str name ∷ rest))

  -- The `switch` over the operand type.
  unfoldable pub display_operands : OperandType → Outcome String
  unfolding g_register_names
  display_operands r16 = reg1 "%s" []
  display_operands r8 = reg1 "%s" []
  display_operands flag_operand = one "%s, " condition
  display_operands flag_s8 = ok (asprintf "%s, %i" (condition ∷ signed_data ∷ []))
  display_operands s8 = one "%i" signed_data
  display_operands flag_a16 = ok (asprintf "%s, 0x%04X" (condition ∷ num i.address ∷ []))
  display_operands a16 = one "0x%04X" (num i.address)
  display_operands hl_rel = text "(HL)"
  display_operands rst_operand = one "0x%04X" (num i.value)
  display_operands r8_r8 = do
    to ← register_name i.reg1
    from ← register_name i.reg2
    ok (asprintf "%s, %s" (str to ∷ str from ∷ []))
  display_operands r8_d8 = reg1 "%s, 0x%02X" (num i.value ∷ [])
  display_operands r8_hl_rel = reg1 "%s, (HL) (=0x%02X)" (num i.value ∷ [])
  display_operands a_r16_rel = one "A, 0x%02X" (num i.value)
  display_operands a_d16_rel = one "A, 0x%04X" (num i.value)
  display_operands hl_rel_r8 = reg1 "(HL), %s" []
  display_operands hl_rel_d8 = one "(HL), 0x%02X" (num i.value)
  display_operands r16_rel_a = one "0x%04X, A" (num i.address)
  display_operands d16_rel_a = one "(0x%04X), A" (num i.address)
  display_operands r16_d16 = reg1 "%s, 0x%04X" (num i.value ∷ [])
  display_operands d16_rel_sp = one "(0x%04X), SP" (num i.value)
  display_operands sp_hl = text "SP, HL"
  display_operands hli_a = text "(HL+), A"
  display_operands hld_a = text "(HL-), A"
  display_operands a_hli = text "A, (HL+)"
  display_operands a_hld = text "A, (HL-)"
  display_operands a_c_rel = text "A, (C)"
  display_operands a_d8_rel = one "A, 0x%02X" (num i.value)
  display_operands c_rel_a = text "(C), A"
  display_operands d8_rel_a = one "(0x%02X), A" (num i.address)
  display_operands a_r8 = do from ← register_name i.reg2; ok (asprintf "A, %s" (str from ∷ []))
  display_operands a_d8 = one "A, 0x%02X" (num i.value)
  display_operands a_hl_rel = text "A, (HL)"
  display_operands _ = text "   "

  -- The three bytes at PC.
  unfoldable pub display_bytes : Machine → Outcome String
  display_bytes m = do
    b0 ← read_memory i.pc m
    b1 ← read_memory (u16 (i.pc + 1)) m
    b2 ← read_memory (u16 (i.pc + 2)) m
    ok (asprintf "(%02X %02X %02X) " (num b0 ∷ num b1 ∷ num b2 ∷ []))

  unfoldable pub display_registers : Machine → String
  display_registers m =
      let pair : ℕ → Arg = λ reg. num (read_register_16bit reg m.cpu) in
      asprintf "AF=0x%04X BC=0x%04X DE=0x%04X HL=0x%04X"
        (pair reg_af ∷ pair reg_bc ∷ pair reg_de ∷ pair reg_hl ∷ [])

  -- The line that is logged, with its stream, if one is.
  unfoldable pub display_instruction : Machine → Options → Outcome (Option (Stream × String))
  unfolding name_number g_instruction_names
  display_instruction m o = if not o.trace then ok none else (do
    operands ← display_operands i.operands
    name ← name_at g_instruction_names (name_number i.instruction)
    let opcode = asprintf "[0x%04X] %-4.4s " (num i.pc ∷ str name ∷ [])
    parameters ← display_bytes m
    let registers = display_registers m
    let line =
        asprintf "%s%-15.32s%s%s" (str opcode ∷ str operands ∷ str parameters ∷ str registers ∷ [])
    ok (logged (log_print log_trace o) line))
