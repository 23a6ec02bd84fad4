-- ===== src/Instruction/Alu.antt =====
-- src/cpu/instruction.c: the arithmetic and logical handlers that work on registers alone. Each
-- returns `in.cycle_count`, which the dispatcher adds.
pub mod Operand
pub mod Sums
pub mod Logic
pub mod Decimal
use emu_gb.Base.{
  ℕ, ◌+◌, ◌-◌, ◌==◌, Bool, true, false, not, ltb, ◌||◌, if◌then◌else◌, u8, u16, low_bits, has_bit,
  sign_extend, to_ℕ, complement, bit_and, bit_or, bit_xor,
}
use emu_gb.Cpu.{
  Cpu, reg_a, read_register, read_register_16bit, write_register, write_register_16bit,
}
use emu_gb.Cpu.Flag.{flag_z, flag_n, flag_h, flag_c, set_flag, set_all_flags, get_flag}
use emu_gb.Instruction.{Instruction, has_type, a_r8, a_d8, a_hl_rel, hl_r16, sp_s8}

unfoldable pub add : Instruction → Cpu → Cpu
add i c =
    let val = read_register_16bit i.reg1 c in
    let operand =
      if has_type i a_r8 || has_type i hl_r16 then read_register_16bit i.reg2 c else i.value in
    let c1 = set_flag flag_n false c in
    let c2 =
      if has_type i hl_r16
      then set_flag flag_h (has_bit (low_bits val 12 + low_bits operand 12) 12)
          (set_flag flag_c (has_bit (val + operand) 16) c1)
      else set_flag flag_z (low_bits (val + operand) 8 == 0) (
          set_flag flag_h (has_bit (low_bits val 4 + low_bits operand 4) 4)
            (set_flag flag_c (has_bit (low_bits val 8 + low_bits operand 8) 8) c1)) in
    if has_type i sp_s8
    then write_register_16bit i.reg1 (u16 (val + sign_extend operand)) (set_flag flag_z false c2)
    else write_register_16bit i.reg1 (u16 (val + operand)) c2

unfoldable pub adc : Instruction → Cpu → Cpu
adc i c =
    let cy = to_ℕ (get_flag flag_c c) in
    let val = read_register_16bit i.reg1 c in
    let added =
      if has_type i a_hl_rel || has_type i a_d8 then i.value else read_register_16bit i.reg2 c in
    let c1 = set_flag flag_n false c in
    let c2 = set_flag flag_h (has_bit (low_bits val 4 + low_bits added 4 + cy) 4) c1 in
    let c3 = set_flag flag_c (has_bit (val + added + cy) 8) c2 in
    let c4 = set_flag flag_z (low_bits (val + added + cy) 8 == 0) c3 in
    write_register_16bit i.reg1 (u16 (val + added + cy)) c4

unfoldable pub sub : Instruction → Cpu → Cpu
sub i c =
    let val = read_register_16bit i.reg1 c in
    let operand = if has_type i a_r8 then read_register i.reg2 c else i.value in
    let c1 = set_flag flag_n true c in
    let c2 = set_flag flag_z (val == operand) c1 in
    let c3 = set_flag flag_c (ltb val operand) c2 in
    let c4 = set_flag flag_h (ltb (low_bits val 4) (low_bits operand 4)) c3 in
    write_register i.reg1 (u8 (val + 65536 - operand)) c4

-- The differences are taken modulo the width of the variable that holds them.
unfoldable pub sbc : Instruction → Cpu → Cpu
sbc i c =
    let val = read_register i.reg1 c in
    let subbed =
      if has_type i a_hl_rel || has_type i a_d8 then i.value else read_register_16bit i.reg2 c in
    let cy = to_ℕ (get_flag flag_c c) in
    let half = u8 (low_bits val 4 + 256 - low_bits subbed 4 - cy) in
    let full = u16 (val + 131072 - subbed - cy) in
    let result = u8 (val + 131072 - (subbed + cy)) in
    let c1 = write_register i.reg1 result c in
    let c2 = set_flag flag_n true c1 in
    let c3 = set_flag flag_z (result == 0) c2 in
    let c4 = set_flag flag_h (has_bit half 4) c3 in set_flag flag_c (has_bit full 8) c4

-- `in.data`, after the assignment that `and`, `or`, `xor` and `cp` begin with.
unfoldable pub operand : Instruction → Cpu → ℕ
operand i c = if has_type i a_r8 then read_register i.reg2 c else i.value

unfoldable pub and : Instruction → Cpu → Cpu
unfolding operand
and i c =
    let result = bit_and (read_register reg_a c) (operand i c) in
    set_all_flags (result == 0) false true false (write_register reg_a (u8 result) c)

unfoldable pub or : Instruction → Cpu → Cpu
unfolding operand
or i c =
    let result = bit_or (read_register reg_a c) (operand i c) in
    set_all_flags (result == 0) false false false (write_register reg_a (u8 result) c)

unfoldable pub xor : Instruction → Cpu → Cpu
unfolding operand
xor i c =
    let result = bit_xor (read_register reg_a c) (operand i c) in
    set_all_flags (result == 0) false false false (write_register reg_a (u8 result) c)

unfoldable pub cp : Instruction → Cpu → Cpu
unfolding operand
cp i c =
    let a = read_register reg_a c in
    let b = operand i c in
    let c1 = set_flag flag_z (a == b) c in
    let c2 = set_flag flag_h (ltb (low_bits a 4) (low_bits b 4)) c1 in
    let c3 = set_flag flag_c (ltb a b) c2 in set_flag flag_n true c3

unfoldable pub ccf : Cpu → Cpu
ccf c =
    let c2 = set_flag flag_h false (set_flag flag_n false c) in
    set_flag flag_c (not (get_flag flag_c c2)) c2

unfoldable pub scf : Cpu → Cpu
scf c = set_flag flag_c true (set_flag flag_h false (set_flag flag_n false c))

-- The accumulator and the carry that `daa` computes, from A and the flags N, H and C.
unfoldable pub adjust : ℕ → Bool → Bool → Bool → ℕ × Bool
adjust a false half carry =
    let high = carry || ltb 0x99 a in
    let a1 = if high then u8 (a + 0x60) else a in
    let a2 = if half || ltb 0x09 (low_bits a1 4) then u8 (a1 + 0x06) else a1 in (a2, high)
adjust a true half carry =
    let a1 = if carry then u8 (a + 256 - 0x60) else a in
    let a2 = if half then u8 (a1 + 256 - 0x06) else a1 in (a2, carry)

unfoldable pub daa : Cpu → Cpu
unfolding adjust
daa c =
    let (a, carry) =
      adjust (read_register reg_a c) (get_flag flag_n c) (get_flag flag_h c) (get_flag flag_c c) in
    let c1 = if carry then set_flag flag_c true c else c in
    let c2 = write_register reg_a a c1 in set_flag flag_z (a == 0) (set_flag flag_h false c2)

unfoldable pub cpl : Cpu → Cpu
cpl c =
    set_flag flag_h true
      (set_flag flag_n true (write_register reg_a (u8 (complement (read_register reg_a c))) c))
