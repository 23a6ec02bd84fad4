-- ===== src/Instruction/Cb.antt =====
-- src/cpu/instruction_cb.c: the instructions behind the prefix 0xCB.
pub mod Register
pub mod Rotations
pub mod Change
use emu_gb.Base.{
  ℕ, ◌+◌, ◌*◌, ◌/◌, ◌^◌, ◌==◌, Bool, true, false, not, Outcome, ok, ◌>>=◌, if◌then◌else◌, u8,
  low_bits, has_bit, to_ℕ, complement, bit_and, bit_or,
}
use emu_gb.Cpu.{reg_a, reg_b, reg_hl, read_register, read_register_16bit, write_register}
use emu_gb.Cpu.Flag.{flag_z, flag_n, flag_h, flag_c, set_flag, get_flag}
use emu_gb.Machine.{Machine, on_cpu}
use emu_gb.Timer.Ticks.{timer_tick}
use emu_gb.Memory.{read_memory, write_memory}
use emu_gb.Stack.{fetch_opcode}
use emu_gb.Instruction.{opcode_x, opcode_y, opcode_z}

-- `struct cb_instruction`. `bit` and `rot_type` share one place, here `bit_index`.
pub record CbInstruction : Type 0 where
  pub kind : ℕ
  pub bit_index : ℕ
  pub address : ℕ
  pub is_address : Bool
  pub reg : ℕ

-- The instruction that a second opcode stands for. C leaves the unused one of `address` and `reg`
-- undefined; no handler reads it.
unfoldable pub decode_cb : ℕ → Machine → CbInstruction
decode_cb opcode m =
    let z = opcode_z opcode in
    record {
      kind = opcode_x opcode;
      bit_index = opcode_y opcode;
      address = read_register_16bit reg_hl m.cpu;
      is_address = z == 0x6;
      reg = if z == 0x7 then reg_a else reg_b + z;
    }

unfoldable pub fetch_cb_instruction : Machine → Outcome (CbInstruction × Machine)
unfolding decode_cb
fetch_cb_instruction m = do
  (opcode, m1) ← fetch_opcode m
  let i = decode_cb opcode m1
  ok (i, if i.is_address then timer_tick m1 else m1)

unfoldable pub read_operand : CbInstruction → Machine → Outcome ℕ
read_operand i m = if i.is_address then read_memory i.address m else ok (read_register i.reg m.cpu)

unfoldable pub write_operand : CbInstruction → ℕ → Machine → Outcome Machine
write_operand i val m =
    if i.is_address
    then write_memory i.address val (timer_tick m)
    else ok (on_cpu (write_register i.reg val) m)

-- The flags behind a rotation or a shift.
unfoldable pub set_hnz : ℕ → Machine → Machine
set_hnz val m =
    on_cpu (λ c. set_flag flag_z (val == 0) (set_flag flag_n false (set_flag flag_h false c))) m

abbrev pub set_carry : Bool → Machine → Machine
set_carry b m = on_cpu (set_flag flag_c b) m

-- The end that all rotations and shifts share.
unfoldable pub write_back : CbInstruction → ℕ → Machine → Outcome (ℕ × Machine)
unfolding write_operand set_hnz
write_back i val m = do m1 ← write_operand i val m; ok (1 + 2 * to_ℕ i.is_address, set_hnz val m1)

-- The carry as a number, from the state.
abbrev pub carry : Machine → ℕ
carry m = to_ℕ (get_flag flag_c m.cpu)

module _ (i : CbInstruction) (m : Machine) where
  unfoldable pub rlc : Outcome (ℕ × Machine)
  rlc = do
    val ← read_operand i m
    let m1 = set_carry (has_bit val 7) m
    write_back i (u8 (val * 2 + carry m1)) m1

  unfoldable pub rrc : Outcome (ℕ × Machine)
  rrc = do
    val ← read_operand i m
    let m1 = set_carry (has_bit val 0) m
    write_back i (u8 (val / 2 + carry m1 * 128)) m1

  unfoldable pub rl : Outcome (ℕ × Machine)
  rl = do
    val ← read_operand i m
    write_back i (u8 (val * 2 + carry m)) (set_carry (has_bit val 7) m)

  unfoldable pub rr : Outcome (ℕ × Machine)
  rr = do
    val ← read_operand i m
    write_back i (u8 (val / 2 + carry m * 128)) (set_carry (has_bit val 0) m)

  unfoldable pub sla : Outcome (ℕ × Machine)
  sla = do val ← read_operand i m; write_back i (u8 (val * 2)) (set_carry (has_bit val 7) m)

  -- The memory operand is read at HL.
  unfoldable pub sra : Outcome (ℕ × Machine)
  sra = do
    val ← read_operand (record i { address = read_register_16bit reg_hl m.cpu }) m
    write_back i (u8 (bit_or (val / 2) (bit_and val 0x80))) (set_carry (has_bit val 0) m)

  -- The nibbles have disjoint bits, so their `|` is a sum.
  unfoldable pub swap : Outcome (ℕ × Machine)
  swap = do
    val ← read_operand i m
    let swapped = low_bits (val / 16) 4 + low_bits val 4 * 16
    m1 ← write_operand i swapped m
    ok (1 + 2 * to_ℕ i.is_address, set_hnz swapped (set_carry false m1))

  unfoldable pub srl : Outcome (ℕ × Machine)
  srl = do val ← read_operand i m; write_back i (val / 2) (set_carry (has_bit val 0) m)

  unfoldable pub test_bit : Outcome (ℕ × Machine)
  test_bit = do
    val ← read_operand i m
    ok (
      1 + to_ℕ i.is_address,
      on_cpu
          (λ c.
            set_flag flag_h true
              (set_flag flag_n false (set_flag flag_z (not (has_bit val i.bit_index)) c)))
          m,
    )

  unfoldable pub res : Outcome (ℕ × Machine)
  res = do
    val ← read_operand i m
    m1 ← write_operand i (u8 (bit_and val (complement (2 ^ i.bit_index)))) m
    ok (1 + 2 * to_ℕ i.is_address, m1)

  unfoldable pub set : Outcome (ℕ × Machine)
  set = do
    val ← read_operand i m
    m1 ← write_operand i (u8 (bit_or val (2 ^ i.bit_index))) m
    ok (1 + 2 * to_ℕ i.is_address, m1)

  -- `g_rot_list[in.rot_type]`, an index below 8.
  unfoldable pub rotate : Outcome (ℕ × Machine)
  rotate =
      let y = i.bit_index in
      if y == 0
      then rlc
      else if y == 1
      then rrc
      else if y == 2
      then rl
      else if y == 3
      then rr
      else if y == 4
      then sla
      else if y == 5
      then sra
      else if y == 6
      then swap
      else srl

  -- `handlers[in.type]`, an index below 4.
  unfoldable pub handle_cb : Outcome (ℕ × Machine)
  unfolding rotate
  handle_cb =
      if i.kind == 0
      then rotate
      else if i.kind == 1
      then test_bit
      else if i.kind == 2
      then res
      else set

unfoldable pub cb_execute_instruction : Machine → Outcome (ℕ × Machine)
unfolding fetch_cb_instruction
cb_execute_instruction m = do (i, m1) ← fetch_cb_instruction m; handle_cb i m1
