-- ===== src/Instruction/Fetch.antt =====
-- src/cpu/instruction_fetch.c: the operands of an instruction are read before it runs.
pub mod Length
use emu_gb.Base.{
  ℕ, ◌+◌, ◌*◌, ◌==◌, Bool, true, false, not, Outcome, ok, err, fatal, ◌>>=◌, if◌then◌else◌, u16,
}
use emu_gb.Cpu.{
  reg_a, reg_b, reg_c, reg_sp, reg_pc, reg_af, reg_bc, reg_hl, reg_err, read_register,
  read_register_16bit, write_register_16bit,
}
use emu_gb.Cpu.Flag.{flag_z, flag_c, get_flag}
use emu_gb.Machine.{Machine, on_cpu}
use emu_gb.Timer.Ticks.{timer_tick}
use emu_gb.Memory.{read_memory, read_memory_16bit}
use emu_gb.Stack.{read_8bit_data, read_16bit_data}
use emu_gb.Instruction.{
  InName, in_pop, in_push, OperandType, err_operand, no_operand, r8, r16, a16, hl_rel, s8,
  flag_operand, rst_operand, d8, flag_a16, flag_s8, r8_r8, r8_d8, r8_hl_rel, a_r16_rel, a_d16_rel,
  r16_d16, sp_hl, sp_s8, a_hld, a_hli, a_c_rel, a_d8_rel, a_r8, a_d8, a_hl_rel, hl_r16, hl_s8,
  hl_rel_r8, hl_rel_d8, r16_rel_a, d16_rel_a, d16_rel_sp, hld_a, hli_a, c_rel_a, d8_rel_a,
  Instruction, opcode_y, opcode_z, opcode_p, opcode_flag,
}
use emu_gb.Instruction.Opcodes.{g_opcodes}

unfoldable pub find_register : ℕ → Outcome ℕ
find_register code =
    if code == 0x7 then ok reg_a else if code == 0x6 then err fatal else ok (reg_b + code)

unfoldable pub find_register_16bit : ℕ → ℕ
find_register_16bit code = if code == 0x3 then reg_sp else reg_bc + code

unfoldable pub find_register_16bit_push_pop : ℕ → ℕ
find_register_16bit_push_pop code = if code == 0x3 then reg_af else reg_bc + code

unfoldable pub read_flag : ℕ → Machine → Bool
read_flag code m =
    if code == 0x0
    then not (get_flag flag_z m.cpu)
    else if code == 0x1
    then get_flag flag_z m.cpu
    else if code == 0x2
    then not (get_flag flag_c m.cpu)
    else if code == 0x3
    then get_flag flag_c m.cpu
    else true

-- `in.instruction == IN_POP || in.instruction == IN_PUSH`.
unfoldable pub is_push_pop : InName → Bool
is_push_pop in_pop = true
is_push_pop in_push = true
is_push_pop _ = false

abbrev pub hl : Machine → ℕ
hl m = read_register_16bit reg_hl m.cpu

-- `HL` after an access with `HLI` or `HLD`.
unfoldable pub set_hl : ℕ → Machine → Machine
set_hl val m = on_cpu (write_register_16bit reg_hl val) m

-- The loads of one immediate value behind some registers.
unfoldable pub with_value : Outcome (ℕ × Machine) → Instruction → Outcome (Instruction × Machine)
with_value read i = do (val, m) ← read; ok (record i { value = val }, m)

unfoldable pub with_address : Outcome (ℕ × Machine) → Instruction → Outcome (Instruction × Machine)
with_address read i = do (val, m) ← read; ok (record i { address = val }, m)

-- A byte from memory, one cycle later.
unfoldable pub read_later : ℕ → Machine → Outcome (ℕ × Machine)
read_later address m = do let m1 = timer_tick m; val ← read_memory address m1; ok (val, m1)

unfoldable pub read_later_16bit : ℕ → Machine → Outcome (ℕ × Machine)
read_later_16bit address m = do
  let m1 = timer_tick m
  val ← read_memory_16bit address m1
  ok (val, m1)

-- The part of the `switch` for destinations in memory; all other types have no operand left to fetch.
unfoldable pub fetch_dst_address :
    OperandType → ℕ → Instruction → Machine → Outcome (Instruction × Machine)
fetch_dst_address hl_rel_r8 opcode i m = do
  from ← find_register (opcode_z opcode)
  ok (record i { address = hl m; reg1 = from }, m)
fetch_dst_address hl_rel_d8 opcode i m = with_value (read_8bit_data m) (record i { address = hl m })
fetch_dst_address r16_rel_a opcode i m =
    let to = find_register_16bit (opcode_p opcode) in
    ok (record i { address = read_register_16bit to m.cpu; reg1 = reg_a }, m)
fetch_dst_address d16_rel_a opcode i m =
    with_address (read_16bit_data m) (record i { reg1 = reg_a })
fetch_dst_address d16_rel_sp opcode i m = do
  (address, m1) ← read_16bit_data m
  ok (record i { address = address; value = read_register_16bit reg_sp m1.cpu }, m1)
fetch_dst_address hld_a opcode i m =
    ok (record i { address = hl m; reg1 = reg_a }, set_hl (u16 (hl m + 65535)) m)
fetch_dst_address hli_a opcode i m =
    ok (record i { address = hl m; reg1 = reg_a }, set_hl (u16 (hl m + 1)) m)
fetch_dst_address c_rel_a opcode i m =
    ok (record i { address = u16 (read_register reg_c m.cpu + 0xFF00); reg1 = reg_a }, m)
fetch_dst_address d8_rel_a opcode i m = do
  (offset, m1) ← read_8bit_data m
  ok (record i { address = u16 (offset + 0xFF00); reg1 = reg_a }, m1)
fetch_dst_address _ opcode i m = ok (i, m)

-- The `switch` over the operand type.
unfoldable pub fetch_operands :
    OperandType → ℕ → Instruction → Machine → Outcome (Instruction × Machine)
unfolding fetch_dst_address
fetch_operands r8 opcode i m = do
  reg ← find_register (opcode_y opcode)
  ok (record i { reg1 = reg }, m)
fetch_operands r16 opcode i m =
    let p = opcode_p opcode in
    let reg =
      if is_push_pop i.instruction then find_register_16bit_push_pop p else find_register_16bit p in
    ok (record i { reg1 = reg }, m)
fetch_operands a16 opcode i m = with_address (read_16bit_data m) i
fetch_operands hl_rel opcode i m = ok (record i { address = hl m }, m)
fetch_operands flag_a16 opcode i m =
    with_address (read_16bit_data m) (record i { condition = read_flag (opcode_flag opcode) m })
fetch_operands s8 opcode i m = with_value (read_8bit_data m) i
fetch_operands flag_s8 opcode i m =
    with_value (read_8bit_data m) (record i { condition = read_flag (opcode_flag opcode) m })
fetch_operands flag_operand opcode i m =
    ok (record i { condition = read_flag (opcode_flag opcode) m }, m)
fetch_operands rst_operand opcode i m = ok (record i { value = opcode_y opcode * 8 }, m)
fetch_operands d8 opcode i m = with_value (read_8bit_data m) i
fetch_operands r8_r8 opcode i m = do
  to ← find_register (opcode_y opcode)
  from ← find_register (opcode_z opcode)
  ok (record i { reg1 = to; reg2 = from }, m)
fetch_operands r8_d8 opcode i m = do
  reg ← find_register (opcode_y opcode)
  with_value (read_8bit_data m) (record i { reg1 = reg })
fetch_operands r8_hl_rel opcode i m = do
  reg ← find_register (opcode_y opcode)
  with_value (read_later (hl (timer_tick m)) m) (record i { reg1 = reg })
fetch_operands a_r16_rel opcode i m =
    let from = find_register_16bit (opcode_p opcode) in
    with_value (read_later_16bit (read_register_16bit from (timer_tick m).cpu) m)
      (record i { reg1 = reg_a })
fetch_operands a_d16_rel opcode i m = do
  (address, m1) ← read_16bit_data (timer_tick m)
  val ← read_memory_16bit address m1
  ok (record i { reg1 = reg_a; value = val }, m1)
fetch_operands r16_d16 opcode i m =
    with_value (read_16bit_data m) (record i { reg1 = find_register_16bit (opcode_p opcode) })
fetch_operands sp_hl opcode i m = ok (record i { reg1 = reg_sp; reg2 = reg_hl }, m)
fetch_operands a_hld opcode i m = do
  (val, m1) ← read_later (hl (timer_tick m)) m
  ok (record i { reg1 = reg_a; value = val }, set_hl (u16 (hl m1 + 65535)) m1)
fetch_operands a_hli opcode i m = do
  (val, m1) ← read_later (hl (timer_tick m)) m
  ok (record i { reg1 = reg_a; value = val }, set_hl (u16 (hl m1 + 1)) m1)
fetch_operands a_c_rel opcode i m =
    with_value (read_later (read_register reg_c (timer_tick m).cpu + 0xFF00) m)
      (record i { reg1 = reg_a })
fetch_operands a_d8_rel opcode i m = do
  (offset, m1) ← read_8bit_data (timer_tick m)
  val ← read_memory (offset + 0xFF00) m1
  ok (record i { reg1 = reg_a; value = val }, m1)
fetch_operands a_r8 opcode i m = do
  from ← find_register (opcode_z opcode)
  ok (record i { reg1 = reg_a; reg2 = from }, m)
fetch_operands a_d8 opcode i m = with_value (read_8bit_data m) (record i { reg1 = reg_a })
fetch_operands a_hl_rel opcode i m =
    with_value (read_later (hl (timer_tick m)) m) (record i { reg1 = reg_a })
fetch_operands hl_r16 opcode i m =
    ok (record i { reg1 = reg_hl; reg2 = find_register_16bit (opcode_p opcode) }, m)
fetch_operands hl_s8 opcode i m = with_value (read_8bit_data m) (record i { reg1 = reg_hl })
fetch_operands sp_s8 opcode i m = with_value (read_8bit_data m) (record i { reg1 = reg_sp })
fetch_operands t opcode i m = fetch_dst_address t opcode i m

-- The initial value of `in`. The initialiser lists five values, which fill the first five fields;
-- C fills the rest with zeros.
unfoldable pub new_instruction : ℕ → ℕ → Instruction
new_instruction opcode pc =
    let t = g_opcodes opcode in
    record {
      instruction = t.name;
      operands = t.operands;
      pc = u16 (pc + 65535);
      reg1 = reg_err;
      reg2 = 0xdead;
      address = 0;
      condition = true;
      value = 0;
      cycle_count = t.cycle_count;
      cycle_count_false = t.cycle_count_false;
    }

unfoldable pub fetch_instruction : ℕ → Machine → Outcome (Instruction × Machine)
unfolding new_instruction fetch_operands
fetch_instruction opcode m =
    let i = new_instruction opcode (read_register_16bit reg_pc m.cpu) in
    fetch_operands i.operands opcode i m
