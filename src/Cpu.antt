-- ===== src/Cpu.antt =====
-- src/cpu/cpu.c and include/cpu/cpu.h: the state of the CPU and the access to its registers.
pub mod Flag
pub mod Flags
pub mod View
pub mod Registers
use emu_gb.Base.{
  ℕ, ◌+◌, ◌-◌, ◌*◌, ◌%◌, ◌==◌, Bool, true, false, ltb, leb, if◌then◌else◌, u8, u16, msb, lsb,
  update,
}

-- `cpu_register_name`. The names are numbers, since the code computes with them.
abbrev pub reg_a : ℕ
reg_a = 0

abbrev pub reg_f : ℕ
reg_f = 1

abbrev pub reg_b : ℕ
reg_b = 2

abbrev pub reg_c : ℕ
reg_c = 3

abbrev pub reg_pc : ℕ
reg_pc = 8

abbrev pub reg_sp : ℕ
reg_sp = 9

abbrev pub reg_af : ℕ
reg_af = 10

abbrev pub reg_bc : ℕ
reg_bc = 11

abbrev pub reg_de : ℕ
reg_de = 12

abbrev pub reg_hl : ℕ
reg_hl = 13

abbrev pub reg_err : ℕ
reg_err = 14

-- `IS_16BIT`.
abbrev pub is_16bit : ℕ → Bool
is_16bit reg = leb reg_pc reg

-- `struct gb_cpu`. `r8` holds the eight byte registers `a` to `l` at their offsets 0 to 7.
pub record Cpu : Type 0 where
  pub r8 : ℕ → ℕ
  pub pc : ℕ
  pub sp : ℕ
  pub memory : ℕ → ℕ
  pub halt : Bool
  pub ime_scheduled : Bool
  pub is_running : Bool

-- `*(REGISTERS + k)` on a little-endian host: `pc` and `sp` lie behind the byte registers, and the
-- memory array behind them.
unfoldable pub byte_at : ℕ → Cpu → ℕ
byte_at k c =
    if ltb k 8
    then c.r8 k
    else if k == 8
    then lsb c.pc
    else if k == 9
    then msb c.pc
    else if k == 10
    then lsb c.sp
    else if k == 11
    then msb c.sp
    else c.memory (k - 12)

unfoldable pub set_byte : ℕ → ℕ → Cpu → Cpu
set_byte k v c =
    if ltb k 8
    then record c { r8 = update c.r8 k v }
    else if k == 8
    then record c { pc = msb c.pc * 256 + v }
    else if k == 9
    then record c { pc = v * 256 + lsb c.pc }
    else if k == 10
    then record c { sp = msb c.sp * 256 + v }
    else if k == 11
    then record c { sp = v * 256 + lsb c.sp }
    else record c { memory = update c.memory (k - 12) v }

unfoldable pub write_register : ℕ → ℕ → Cpu → Cpu
unfolding set_byte
write_register reg val c =
    let v = u8 val in
    if is_16bit reg
    then (if reg == reg_pc
        then record c { pc = v }
        else if reg == reg_sp
        then record c { sp = v }
        else set_byte (2 * (reg % reg_af) + 1) v c)
    else set_byte reg v c

unfoldable pub write_register_16bit : ℕ → ℕ → Cpu → Cpu
unfolding set_byte
write_register_16bit reg val c =
    let v = u16 val in
    if is_16bit reg
    then (if reg == reg_pc
        then record c { pc = v }
        else if reg == reg_sp
        then record c { sp = v }
        else set_byte (2 * (reg % reg_af) + 1) (lsb v) (set_byte (2 * (reg % reg_af)) (msb v) c))
    else set_byte reg (lsb v) c

unfoldable pub read_register : ℕ → Cpu → ℕ
unfolding byte_at
read_register reg c =
    if is_16bit reg
    then (if reg == reg_pc
        then lsb c.pc
        else if reg == reg_sp
        then lsb c.sp
        else byte_at (2 * (reg % reg_af) + 1) c)
    else byte_at reg c

unfoldable pub read_register_16bit : ℕ → Cpu → ℕ
unfolding byte_at
read_register_16bit reg c =
    if is_16bit reg
    then (if reg == reg_pc
        then c.pc
        else if reg == reg_sp
        then c.sp
        else byte_at (2 * (reg % reg_af)) c * 256 + byte_at (2 * (reg % reg_af) + 1) c)
    else byte_at reg c

unfoldable pub reset_cpu : Cpu → Cpu
unfolding write_register_16bit
reset_cpu c =
    let c1 = record c { pc = 0x0100; sp = 0xFFFE } in
    let c2 = write_register_16bit reg_af 0x01B0 c1 in
    let c3 = write_register_16bit reg_bc 0x0013 c2 in
    let c4 = write_register_16bit reg_de 0x00D8 c3 in
    let c5 = write_register_16bit reg_hl 0x014D c4 in
    record c5 { halt = false; ime_scheduled = false; is_running = true }
