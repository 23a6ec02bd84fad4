-- ===== src/Instruction/Opcodes/Decoding.antt =====
-- The regular blocks of `g_opcodes` against the octal digits of the opcode.
use emu_gb.Base.{ℕ, ◌+◌, ◌*◌, ◌≡◌, refl}
use emu_gb.Instruction.{
  InName, entry, a_r8, a_hl_rel, r8_r8, r8_hl_rel, hl_rel_r8, no_operand, in_add, in_adc, in_sub,
  in_sbc, in_and, in_xor, in_or, in_cp, in_ld, in_halt, opcode_y, opcode_z, InType,
}
use emu_gb.Instruction.Opcodes.{g_opcodes}

pub data Digit : Type 0 where
  d0 d1 d2 d3 d4 d5 d6 d7 : Digit

abbrev pub value : Digit → ℕ
value d0 = 0
value d1 = 1
value d2 = 2
value d3 = 3
value d4 = 4
value d5 = 5
value d6 = 6
value d7 = 7

-- The opcode with the given octal digits.
abbrev pub octal : ℕ → Digit → Digit → ℕ
octal x y z = x * 64 + value y * 8 + value z

-- The eight operations on A.
abbrev pub operation : Digit → InName
operation d0 = in_add
operation d1 = in_adc
operation d2 = in_sub
operation d3 = in_sbc
operation d4 = in_and
operation d5 = in_xor
operation d6 = in_or
operation d7 = in_cp

-- The digit 6 stands for the byte at HL, which takes one cycle more.
abbrev pub arithmetic : Digit → Digit → InType
arithmetic y d6 = entry (operation y) a_hl_rel 2 0
arithmetic y _ = entry (operation y) a_r8 1 0

abbrev pub load : Digit → Digit → InType
load d6 d6 = entry in_halt no_operand 1 0
load d6 _ = entry in_ld hl_rel_r8 2 0
load _ d6 = entry in_ld r8_hl_rel 2 0
load _ _ = entry in_ld r8_r8 1 0

every_digit :
    (P : Digit → Type 0) → P d0 → P d1 → P d2 → P d3 → P d4 → P d5 → P d6 → P d7 → (z : Digit) → P z
every_digit P a b c d e f g h d0 = a
every_digit P a b c d e f g h d1 = b
every_digit P a b c d e f g h d2 = c
every_digit P a b c d e f g h d3 = d
every_digit P a b c d e f g h d4 = e
every_digit P a b c d e f g h d5 = f
every_digit P a b c d e f g h d6 = g
every_digit P a b c d e f g h d7 = h

-- The table has the expected entry at the opcode, and the macros find its digits.
abbrev pub Decodes : ℕ → (Digit → Digit → InType) → Digit → Digit → Type 0
Decodes x expected y z =
    (g_opcodes (octal x y z) ≡ expected y z)
    × (opcode_y (octal x y z) ≡ value y)
    × (opcode_z (octal x y z) ≡ value z)

-- In the opcodes from 0x80 to 0xBF the digit `y` selects the operation on A and the digit `z` the
-- operand, and `OPCODE_Y` and `OPCODE_Z` find these digits.
pub g_opcodes-arithmetic : (y z : Digit) → Decodes 2 arithmetic y z
unfolding g_opcodes
g_opcodes-arithmetic d0 z =
    every_digit (Decodes 2 arithmetic d0) (refl, refl, refl) (refl, refl, refl) (refl, refl, refl)
      (refl, refl, refl) (refl, refl, refl) (refl, refl, refl) (refl, refl, refl) (refl, refl, refl)
      z
g_opcodes-arithmetic d1 z =
    every_digit (Decodes 2 arithmetic d1) (refl, refl, refl) (refl, refl, refl) (refl, refl, refl)
      (refl, refl, refl) (refl, refl, refl) (refl, refl, refl) (refl, refl, refl) (refl, refl, refl)
      z
g_opcodes-arithmetic d2 z =
    every_digit (Decodes 2 arithmetic d2) (refl, refl, refl) (refl, refl, refl) (refl, refl, refl)
      (refl, refl, refl) (refl, refl, refl) (refl, refl, refl) (refl, refl, refl) (refl, refl, refl)
      z
g_opcodes-arithmetic d3 z =
    every_digit (Decodes 2 arithmetic d3) (refl, refl, refl) (refl, refl, refl) (refl, refl, refl)
      (refl, refl, refl) (refl, refl, refl) (refl, refl, refl) (refl, refl, refl) (refl, refl, refl)
      z
g_opcodes-arithmetic d4 z =
    every_digit (Decodes 2 arithmetic d4) (refl, refl, refl) (refl, refl, refl) (refl, refl, refl)
      (refl, refl, refl) (refl, refl, refl) (refl, refl, refl) (refl, refl, refl) (refl, refl, refl)
      z
g_opcodes-arithmetic d5 z =
    every_digit (Decodes 2 arithmetic d5) (refl, refl, refl) (refl, refl, refl) (refl, refl, refl)
      (refl, refl, refl) (refl, refl, refl) (refl, refl, refl) (refl, refl, refl) (refl, refl, refl)
      z
g_opcodes-arithmetic d6 z =
    every_digit (Decodes 2 arithmetic d6) (refl, refl, refl) (refl, refl, refl) (refl, refl, refl)
      (refl, refl, refl) (refl, refl, refl) (refl, refl, refl) (refl, refl, refl) (refl, refl, refl)
      z
g_opcodes-arithmetic d7 z =
    every_digit (Decodes 2 arithmetic d7) (refl, refl, refl) (refl, refl, refl) (refl, refl, refl)
      (refl, refl, refl) (refl, refl, refl) (refl, refl, refl) (refl, refl, refl) (refl, refl, refl)
      z

-- The opcodes from 0x40 to 0x7F load the register `z` into the register `y`, where 6 stands for the
-- byte at HL, and are HALT where both are 6; `OPCODE_Y` and `OPCODE_Z` find these digits.
pub g_opcodes-load : (y z : Digit) → Decodes 1 load y z
unfolding g_opcodes
g_opcodes-load d0 z =
    every_digit (Decodes 1 load d0) (refl, refl, refl) (refl, refl, refl) (refl, refl, refl)
      (refl, refl, refl) (refl, refl, refl) (refl, refl, refl) (refl, refl, refl) (refl, refl, refl)
      z
g_opcodes-load d1 z =
    every_digit (Decodes 1 load d1) (refl, refl, refl) (refl, refl, refl) (refl, refl, refl)
      (refl, refl, refl) (refl, refl, refl) (refl, refl, refl) (refl, refl, refl) (refl, refl, refl)
      z
g_opcodes-load d2 z =
    every_digit (Decodes 1 load d2) (refl, refl, refl) (refl, refl, refl) (refl, refl, refl)
      (refl, refl, refl) (refl, refl, refl) (refl, refl, refl) (refl, refl, refl) (refl, refl, refl)
      z
g_opcodes-load d3 z =
    every_digit (Decodes 1 load d3) (refl, refl, refl) (refl, refl, refl) (refl, refl, refl)
      (refl, refl, refl) (refl, refl, refl) (refl, refl, refl) (refl, refl, refl) (refl, refl, refl)
      z
g_opcodes-load d4 z =
    every_digit (Decodes 1 load d4) (refl, refl, refl) (refl, refl, refl) (refl, refl, refl)
      (refl, refl, refl) (refl, refl, refl) (refl, refl, refl) (refl, refl, refl) (refl, refl, refl)
      z
g_opcodes-load d5 z =
    every_digit (Decodes 1 load d5) (refl, refl, refl) (refl, refl, refl) (refl, refl, refl)
      (refl, refl, refl) (refl, refl, refl) (refl, refl, refl) (refl, refl, refl) (refl, refl, refl)
      z
g_opcodes-load d6 z =
    every_digit (Decodes 1 load d6) (refl, refl, refl) (refl, refl, refl) (refl, refl, refl)
      (refl, refl, refl) (refl, refl, refl) (refl, refl, refl) (refl, refl, refl) (refl, refl, refl)
      z
g_opcodes-load d7 z =
    every_digit (Decodes 1 load d7) (refl, refl, refl) (refl, refl, refl) (refl, refl, refl)
      (refl, refl, refl) (refl, refl, refl) (refl, refl, refl) (refl, refl, refl) (refl, refl, refl)
      z
