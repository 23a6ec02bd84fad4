-- ===== src/Instruction.antt =====
-- include/cpu/instruction.h and src/cpu/instruction_fetch.c: the decoded instruction.
pub mod Opcodes
pub mod Fetch
pub mod Alu
pub mod Rotate
pub mod Memory
pub mod Jump
pub mod Cb
pub mod Execute
pub mod Display
use emu_gb.Base.{ℕ, ◌/◌, ◌%◌, ◌^◌, ◌==◌, Bool, ltb, leb, ◌&&◌}

-- `instruction_name`, in the order of the enumeration.
pub data InName : Type 0 where
  in_adc in_add in_and in_call in_cb in_ccf in_cp in_cpl in_daa in_dec in_di in_ei : InName
  in_err in_halt in_inc in_jp in_jr in_ld in_ldh in_nop in_or in_pop in_push in_ret : InName
  in_reti in_rla in_rlca in_rra in_rrca in_rst in_sbc in_scf in_stop in_sub in_xor : InName

-- `operand_type`, in the order of the enumeration.
pub data OperandType : Type 0 where
  err_operand no_operand r8 r16 a16 hl_rel s8 flag_operand rst_operand d8 flag_a16 : OperandType
  flag_s8 r8_r8 r8_d8 r8_hl_rel a_r16_rel a_d16_rel r16_d16 sp_hl sp_s8 a_hld a_hli : OperandType
  a_c_rel a_d8_rel a_r8 a_d8 a_hl_rel hl_r16 hl_s8 hl_rel_r8 hl_rel_d8 r16_rel_a : OperandType
  d16_rel_a d16_rel_sp hld_a hli_a c_rel_a d8_rel_a : OperandType

-- The numbers that C gives to the operand types.
unfoldable pub operand_number : OperandType → ℕ
operand_number err_operand = 0
operand_number no_operand = 1
operand_number r8 = 2
operand_number r16 = 3
operand_number a16 = 4
operand_number hl_rel = 5
operand_number s8 = 6
operand_number flag_operand = 7
operand_number rst_operand = 8
operand_number d8 = 9
operand_number flag_a16 = 10
operand_number flag_s8 = 11
operand_number r8_r8 = 12
operand_number r8_d8 = 13
operand_number r8_hl_rel = 14
operand_number a_r16_rel = 15
operand_number a_d16_rel = 16
operand_number r16_d16 = 17
operand_number sp_hl = 18
operand_number sp_s8 = 19
operand_number a_hld = 20
operand_number a_hli = 21
operand_number a_c_rel = 22
operand_number a_d8_rel = 23
operand_number a_r8 = 24
operand_number a_d8 = 25
operand_number a_hl_rel = 26
operand_number hl_r16 = 27
operand_number hl_s8 = 28
operand_number hl_rel_r8 = 29
operand_number hl_rel_d8 = 30
operand_number r16_rel_a = 31
operand_number d16_rel_a = 32
operand_number d16_rel_sp = 33
operand_number hld_a = 34
operand_number hli_a = 35
operand_number c_rel_a = 36
operand_number d8_rel_a = 37

-- `IS_DST_REGISTER`.
unfoldable pub is_dst_register : OperandType → Bool
unfolding operand_number
is_dst_register t =
    leb (operand_number r8_r8) (operand_number t)
    && ltb (operand_number t) (operand_number hl_rel_r8)

-- `struct in_type`: an entry of the opcode table.
pub record InType : Type 0 where
  pub name : InName
  pub operands : OperandType
  pub cycle_count : ℕ
  pub cycle_count_false : ℕ

abbrev pub entry : InName → OperandType → ℕ → ℕ → InType
entry n t c f = record { name = n; operands = t; cycle_count = c; cycle_count_false = f }

-- `struct instruction`, with the field `type` spelled `operands`, and `data` spelled `value`.
pub record Instruction : Type 0 where
  pub instruction : InName
  pub operands : OperandType
  pub pc : ℕ
  pub reg1 : ℕ
  pub reg2 : ℕ
  pub address : ℕ
  pub condition : Bool
  pub value : ℕ
  pub cycle_count : ℕ
  pub cycle_count_false : ℕ

-- The octal digits of an opcode: `OPCODE_X`, `OPCODE_Y`, `OPCODE_Z`, `OPCODE_P`, `OPCODE_FLAG`.
abbrev pub opcode_x : ℕ → ℕ
opcode_x opcode = opcode / 2 ^ 6

abbrev pub opcode_y : ℕ → ℕ
opcode_y opcode = opcode / 2 ^ 3 % 8

abbrev pub opcode_z : ℕ → ℕ
opcode_z opcode = opcode % 8

abbrev pub opcode_p : ℕ → ℕ
opcode_p opcode = opcode / 2 ^ 4 % 4

abbrev pub opcode_flag : ℕ → ℕ
opcode_flag opcode = opcode_y opcode % 4

-- `in.type == t`.
abbrev pub has_type : Instruction → OperandType → Bool
has_type i t = operand_number i.operands == operand_number t
