-- ===== src/Instruction/Rotate.antt =====
-- src/cpu/instruction.c: the rotations of A.
use emu_gb.Base.{◌+◌, ◌*◌, ◌/◌, false, u8, bit, has_bit, to_ℕ}
use emu_gb.Cpu.{Cpu, reg_a, read_register, write_register}
use emu_gb.Cpu.Flag.{flag_z, flag_n, flag_h, flag_c, set_flag, get_flag}

-- The last three calls of each handler.
unfoldable pub clear_hnz : Cpu → Cpu
clear_hnz c = set_flag flag_z false (set_flag flag_n false (set_flag flag_h false c))

-- The bit 0 of `a << 1` is clear, so `(a << 1) | c` is a sum.
unfoldable pub rla : Cpu → Cpu
unfolding clear_hnz
rla c =
    let a = read_register reg_a c in
    let cy = to_ℕ (get_flag flag_c c) in
    let c1 = set_flag flag_c (has_bit a 7) c in
    clear_hnz (write_register reg_a (u8 (a * 2 + cy)) c1)

unfoldable pub rlca : Cpu → Cpu
unfolding clear_hnz
rlca c =
    let a = read_register reg_a c in
    let c1 = set_flag flag_c (has_bit a 7) c in
    clear_hnz (write_register reg_a (u8 (a * 2 + bit a 7)) c1)

unfoldable pub rra : Cpu → Cpu
unfolding clear_hnz
rra c =
    let a = read_register reg_a c in
    let cy = to_ℕ (get_flag flag_c c) in
    let c1 = set_flag flag_c (has_bit a 0) c in
    clear_hnz (write_register reg_a (u8 (a / 2 + cy * 128)) c1)

unfoldable pub rrca : Cpu → Cpu
unfolding clear_hnz
rrca c =
    let a = read_register reg_a c in
    let c1 = set_flag flag_c (has_bit a 0) c in
    clear_hnz (write_register reg_a (u8 (a / 2 + to_ℕ (get_flag flag_c c1) * 128)) c1)
