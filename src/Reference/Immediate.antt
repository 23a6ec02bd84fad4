-- ===== src/Reference/Immediate.antt =====
-- A word behind the opcode, as src/cpu/instruction_fetch.c reads it.
use emu_gb.Base.{ℕ, ◌+◌, ◌*◌, ◌≡◌, ◌∙◌, refl, arith, ok, [], ◌∷◌}
use emu_gb.Machine.{Machine}
use emu_gb.Stack.{read_16bit_data}
use emu_gb.Stack.Words.{tick_to}
use emu_gb.Reference.Step.{moved, read_8bit_data-plain, tick-enabled}
use emu_gb.Reference.Place.{Holds}

-- The machine behind the opcode and one, two or three bytes of the instruction.
abbrev pub behind_one : Machine → Machine
behind_one m = tick_to (moved 1 m.cpu) m

abbrev pub behind_two : Machine → Machine
behind_two m = tick_to (moved 2 m.cpu) (behind_one m)

abbrev pub behind_three : Machine → Machine
behind_three m = tick_to (moved 3 m.cpu) (behind_two m)

pub read_word :
    (m : Machine) (low high : ℕ)
    → Holds (low ∷ high ∷ []) (m.cpu.pc + 1) m.cpu.memory
    → read_16bit_data (behind_one m) ≡ ok (high * 256 + low, behind_three m)
unfolding read_16bit_data
read_word m low high (cell, plain, byte, (cell', plain', byte', rest)) =
    let two : m.cpu.pc + 1 + 1 ≡ m.cpu.pc + 2 = omega arith in
    let three : m.cpu.pc + 2 + 1 ≡ m.cpu.pc + 3 = omega arith in
    let first = rw two at (read_8bit_data-plain (behind_one m) plain) in
    let second = rw three at (read_8bit_data-plain (behind_two m) (rw two at plain')) in
    rw first (rw second (rw (cell, rw two at cell') refl))

pub word-enabled : (m : Machine) → (behind_three m).interrupts.ie_reg ≡ m.interrupts.ie_reg
word-enabled m = tick-enabled (behind_two m) ∙ tick-enabled (behind_one m) ∙ tick-enabled m
