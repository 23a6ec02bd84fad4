-- ===== src/Reference/Undefined.antt =====
-- The opcodes that the processor does not have, through src/cpu/instruction_fetch.c and
-- src/cpu/instruction.c.
use emu_gb.Base.{ℕ, ◌+◌, ◌*◌, ◌/◌, ◌%◌, ◌<◌, ◌≡◌, ap, refl, arith, Bool, false, to_ℕ, Returns, ok}
use emu_gb.Cpu.{Cpu, read_register_16bit, write_register_16bit}
use emu_gb.Cpu.Flag.{flag_c, get_flag, set_flag}
use emu_gb.Cpu.View.{forget_flags, cpu_laws}
use emu_gb.Machine.{Machine}
use emu_gb.Memory.Plain.{IsPlain}
use emu_gb.Stack.Words.{tick_to}
use emu_gb.Timer.Ticks.{timer_tick}
use emu_gb.Timer.Frame.{timer_tick-cartridge}
use emu_gb.Instruction.{operand_number, in_adc, err_operand, Instruction}
use emu_gb.Instruction.Alu
use emu_gb.Instruction.Execute.{execute_instruction, handle}
use emu_gb.Instruction.Opcodes.{g_opcodes}
use emu_gb.Instruction.Fetch.{fetch_instruction}
use emu_gb.Reference.Decode.{decoded}
use emu_gb.Reference.Step.{moved, fetch_opcode-plain}

pub data Undefined : Type 0 where
  xd3 xdb xdd xe3 xe4 xeb xec xed xf4 xfc xfd : Undefined

abbrev pub opcode_of : Undefined → ℕ
opcode_of xd3 = 0xD3
opcode_of xdb = 0xDB
opcode_of xdd = 0xDD
opcode_of xe3 = 0xE3
opcode_of xe4 = 0xE4
opcode_of xeb = 0xEB
opcode_of xec = 0xEC
opcode_of xed = 0xED
opcode_of xf4 = 0xF4
opcode_of xfc = 0xFC
opcode_of xfd = 0xFD

fetch_undefined :
    (u : Undefined) (m : Machine)
    → fetch_instruction (opcode_of u) m ≡ ok (decoded in_adc err_operand 14 0xdead 0 0 m, m)
unfolding fetch_instruction g_opcodes
fetch_undefined xd3 m = refl
fetch_undefined _ m = refl

-- The two bytes of a word, swapped.
abbrev pub swapped : ℕ → ℕ
swapped x = x % 256 * 256 + x / 256

write_err : (v : ℕ) (c : Cpu) → write_register_16bit 14 v c ≡ record c { pc = swapped (v % 65536) }
unfolding write_register_16bit
write_err v c = ground arith

read_err : (c : Cpu) → c.pc < 65536 → read_register_16bit 14 c ≡ swapped c.pc
unfolding read_register_16bit
read_err c h = ground arith

read_dead : (c : Cpu) → c.sp < 65536 → read_register_16bit 0xdead c ≡ swapped c.sp
unfolding read_register_16bit
read_dead c h = ground arith

-- The place that such an opcode goes to: a sum of PC, SP and the carry.
abbrev pub jumped : Cpu → ℕ
jumped c = swapped ((swapped c.pc + swapped c.sp + to_ℕ (get_flag flag_c c)) % 65536)

same_but_pc :
    (x : ℕ) (d c : Cpu)
    → forget_flags d ≡ forget_flags c
    → forget_flags (record d { pc = x }) ≡ forget_flags (record c { pc = x })
unfolding forget_flags
same_but_pc x d c h = ap (λ (e : Cpu). record e { pc = x }) h

four_flags :
    (f g h k : ℕ) (b b' b'' b3 : Bool) (c : Cpu)
    → forget_flags (set_flag f b (set_flag g b' (set_flag h b'' (set_flag k b3 c))))
      ≡ forget_flags c
four_flags f g h k b b' b'' b3 c = simp cpu_laws

adc_err :
    (i : Instruction) (c : Cpu)
    → i.reg1 ≡ 14
    → i.reg2 ≡ 0xdead
    → i.operands ≡ err_operand
    → c.pc < 65536
    → c.sp < 65536
    → forget_flags (Alu.adc i c) ≡ forget_flags (record c { pc = jumped c })
unfolding Alu.adc operand_number
adc_err i c h1 h2 h3 pc sp =
    let cut : (x : ℕ) → x % 65536 % 65536 ≡ x % 65536 = λ x. omega arith in
    rw (h1, h2, h3)
      (rw (read_err c pc, read_dead c sp, write_err)
        (rw (cut (swapped c.pc + swapped c.sp + to_ℕ (get_flag flag_c c)))
          (same_but_pc (jumped c) _ c (four_flags _ _ _ _ _ _ _ _ c))))

-- At an opcode that the processor does not have, in memory above the cartridge, the program does
-- not stop: the instruction returns 0 cycles, and but for the flags the CPU changes PC alone, to
-- the sum of PC behind the opcode, SP and the carry flag, with the bytes of the words and of their
-- sum swapped, and has no delayed EI any more. The fetch before it is one cycle: the timer, IF, IE
-- and IME are as a tick leaves them, and the cartridge is as before.
pub execute_instruction-Undefined :
    (exits : Bool) (u : Undefined) (m : Machine)
    → IsPlain m.cpu.pc
    → m.cpu.memory m.cpu.pc ≡ opcode_of u
    → m.cpu.sp < 65536
    → Returns (execute_instruction exits m) (λ r.
      (r.0 ≡ 0)
      × (forget_flags r.1.cpu
          ≡ forget_flags (record (m.cpu) { pc = jumped (moved 1 m.cpu); ime_scheduled = false }))
      × (r.1.timer ≡ (timer_tick m).timer)
      × (r.1.interrupts ≡ (timer_tick m).interrupts)
      × (r.1.cartridge ≡ m.cartridge))
unfolding execute_instruction handle
execute_instruction-Undefined exits u m plain opcode sp = rw (fetch_opcode-plain m plain) (
    rw opcode (
      rw (fetch_undefined u (tick_to (moved 1 m.cpu) m)) (
        refl,
        adc_err _ (moved 1 m.cpu) refl refl refl (omega arith) sp,
        refl,
        refl,
        timer_tick-cartridge m,
      )))
