-- ===== src/Reference/Decode.antt =====
-- The fetch of src/cpu/instruction_fetch.c on the instructions of the reference machine.
use emu_gb.Base.{ℕ, ◌+◌, ◌*◌, ◌≡◌, refl, true, Outcome, ok, ◌>>=◌, u16}
use emu_gb.Cpu.{reg_a, reg_pc, read_register_16bit}
use emu_gb.Machine.{Machine}
use emu_gb.Stack.{read_8bit_data}
use emu_gb.Instruction.{
  InName, in_add, in_adc, in_sub, in_sbc, in_and, in_xor, in_or, in_cp, in_ld, in_inc, in_dec,
  OperandType, a_r8, a_d8, r8, r8_r8, r8_d8, Instruction,
}
use emu_gb.Instruction.Opcodes.{g_opcodes}
use emu_gb.Instruction.Fetch.{fetch_instruction, find_register, with_value}
use emu_gb.Reference.{
  Register, b, c, d, e, h, l, a, code, Operation, add, adc, sub, sbc, and, xor, or, cp, number,
}

-- The place of a register in `enum cpu_register_name`.
abbrev pub place : Register → ℕ
place b = 2
place c = 3
place d = 4
place e = 5
place h = 6
place l = 7
place a = 0

abbrev pub name : Operation → InName
name add = in_add
name adc = in_adc
name sub = in_sub
name sbc = in_sbc
name and = in_and
name xor = in_xor
name or = in_or
name cp = in_cp

-- The fetched instruction, of `cycles` cycles.
abbrev pub decoded : InName → OperandType → ℕ → ℕ → ℕ → ℕ → Machine → Instruction
decoded n t reg1 reg2 value cycles m = record {
  instruction = n;
  operands = t;
  pc = u16 (read_register_16bit reg_pc m.cpu + 65535);
  reg1 = reg1;
  reg2 = reg2;
  address = 0;
  condition = true;
  value = value;
  cycle_count = cycles;
  cycle_count_false = 0;
}

-- The byte behind the opcode becomes the value of the instruction.
abbrev pub immediate : (ℕ → Instruction) → Machine → Outcome (Instruction × Machine)
immediate i m = do (n, m1) ← read_8bit_data m; ok (i n, m1)

pub fetch-load :
    (to from : Register) (m : Machine)
    → fetch_instruction (64 + code to * 8 + code from) m
      ≡ ok (decoded in_ld r8_r8 (place to) (place from) 0 1 m, m)
unfolding fetch_instruction g_opcodes find_register
fetch-load b b m = refl
fetch-load c b m = refl
fetch-load d b m = refl
fetch-load e b m = refl
fetch-load h b m = refl
fetch-load l b m = refl
fetch-load a b m = refl
fetch-load _ _ m = refl

pub fetch-load_byte :
    (to : Register) (m : Machine)
    → fetch_instruction (6 + code to * 8) m
      ≡ immediate (λ n. decoded in_ld r8_d8 (place to) 0xdead n 2 m) m
unfolding fetch_instruction g_opcodes find_register with_value
fetch-load_byte b m = refl
fetch-load_byte _ m = refl

pub fetch-increment :
    (r : Register) (m : Machine)
    → fetch_instruction (4 + code r * 8) m ≡ ok (decoded in_inc r8 (place r) 0xdead 0 1 m, m)
unfolding fetch_instruction g_opcodes find_register
fetch-increment b m = refl
fetch-increment _ m = refl

pub fetch-decrement :
    (r : Register) (m : Machine)
    → fetch_instruction (5 + code r * 8) m ≡ ok (decoded in_dec r8 (place r) 0xdead 0 1 m, m)
unfolding fetch_instruction g_opcodes find_register
fetch-decrement b m = refl
fetch-decrement _ m = refl

pub fetch-operate :
    (f : Operation) (r : Register) (m : Machine)
    → fetch_instruction (128 + number f * 8 + code r) m
      ≡ ok (decoded (name f) a_r8 reg_a (place r) 0 1 m, m)
unfolding fetch_instruction g_opcodes find_register
fetch-operate add b m = refl
fetch-operate adc b m = refl
fetch-operate sub b m = refl
fetch-operate sbc b m = refl
fetch-operate and b m = refl
fetch-operate xor b m = refl
fetch-operate or b m = refl
fetch-operate cp b m = refl
fetch-operate _ _ m = refl

pub fetch-operate_byte :
    (f : Operation) (m : Machine)
    → fetch_instruction (198 + number f * 8) m
      ≡ immediate (λ n. decoded (name f) a_d8 reg_a 0xdead n 2 m) m
unfolding fetch_instruction g_opcodes with_value
fetch-operate_byte add m = refl
fetch-operate_byte _ m = refl
