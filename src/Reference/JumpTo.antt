-- ===== src/Reference/JumpTo.antt =====
-- The absolute jumps of src/cpu/instruction.c against those of the reference machine.
use emu_gb.Base.{
  ℕ, ◌+◌, ◌*◌, ◌<◌, ◌≡◌, ◌∙◌, refl, arith, Bool, true, false, List, [], ◌∷◌, ok, ◌>>=◌, Returns,
  if◌then◌else◌, u16,
}
use emu_gb.Cpu.{reg_pc, read_register_16bit, write_register_16bit}
use emu_gb.Cpu.View.{Flags}
use emu_gb.Machine.{Machine}
use emu_gb.Stack.{read_16bit_data}
use emu_gb.Timer.Frame.{timer_tick-cpu}
use emu_gb.Instruction.{OperandType, in_jp, a16, flag_a16, Instruction}
use emu_gb.Instruction.Jump
use emu_gb.Instruction.Opcodes.{g_opcodes}
use emu_gb.Instruction.Fetch.{fetch_instruction, with_address, read_flag}
use emu_gb.Instruction.Execute.{execute_instruction, handle}
use emu_gb.Reference.Place.{Holds}
use emu_gb.Reference.Immediate.{behind_one, behind_three, read_word, word-enabled}
use emu_gb.Reference.{State}
use emu_gb.Reference.Shows.{Shows, forget_r8}
use emu_gb.Reference.Step.{moved, fetch_opcode-plain, tick-enabled, moved_shows}
use emu_gb.Reference.Jump.{
  Condition, always, if_nz, if_z, if_nc, if_c, holds, jump_flag, jump_flag-holds, shows_at,
}

abbrev pub jump_to_code : Condition → ℕ
jump_to_code always = 0xC3
jump_to_code if_nz = 0xC2
jump_to_code if_z = 0xCA
jump_to_code if_nc = 0xD2
jump_to_code if_c = 0xDA

-- The bytes of a jump to a place, of which the low byte comes first.
abbrev pub encode_jump_to : Condition → ℕ → ℕ → List ℕ
encode_jump_to c low high = jump_to_code c ∷ low ∷ high ∷ []

-- PC behind the jump.
abbrev pub landing : Condition → ℕ → ℕ → Flags → ℕ → ℕ
landing c low high fs pc = if holds c fs then high * 256 + low else pc + 3

jump_to_type : Condition → OperandType
jump_to_type always = a16
jump_to_type _ = flag_a16

jump_to_cycles : Condition → ℕ
jump_to_cycles always = 0
jump_to_cycles _ = 3

abbrev jumping_to : Condition → ℕ → Machine → Instruction
jumping_to c address m = record {
  instruction = in_jp;
  operands = jump_to_type c;
  pc = u16 (read_register_16bit reg_pc m.cpu + 65535);
  reg1 = 14;
  reg2 = 0xdead;
  address = address;
  condition = jump_flag c m;
  value = 0;
  cycle_count = 4;
  cycle_count_false = jump_to_cycles c;
}

fetch-jump_to :
    (c : Condition) (m : Machine)
    → fetch_instruction (jump_to_code c) m
      ≡ (do (address, m1) ← read_16bit_data m; ok (jumping_to c address m, m1))
unfolding fetch_instruction g_opcodes with_address read_flag jump_flag jump_to_type jump_to_cycles
fetch-jump_to always m = refl
fetch-jump_to if_nz m = refl
fetch-jump_to if_z m = refl
fetch-jump_to if_nc m = refl
fetch-jump_to if_c m = refl

-- Where the jump leaves the CPU.
abbrev pub JumpsTo : Condition → ℕ → ℕ → State → Machine → ℕ × Machine → Type 0
JumpsTo c low high s m r =
    Shows s r.1.cpu
    × (forget_r8 r.1.cpu
        ≡ forget_r8 (record (moved 3 m.cpu) { pc = landing c low high s.fs m.cpu.pc }))
    × (r.1.interrupts.ie_reg ≡ m.interrupts.ie_reg)

jp-JumpsTo :
    (b : Bool) (i : Instruction) (x : ℕ) (s : State) (m m3 : Machine)
    → i.condition ≡ b
    → i.address ≡ x
    → x < 65536
    → Shows s m.cpu
    → m3.cpu ≡ moved 3 m.cpu
    → m3.interrupts.ie_reg ≡ m.interrupts.ie_reg
    → Shows s (Jump.jp i m3).1.cpu
      × (forget_r8 (Jump.jp i m3).1.cpu
          ≡ forget_r8 (record (moved 3 m.cpu) { pc = if b then x else m.cpu.pc + 3 }))
      × ((Jump.jp i m3).1.interrupts.ie_reg ≡ m.interrupts.ie_reg)
unfolding Jump.jp write_register_16bit
jp-JumpsTo true i x s m m3 cond place word shown cpu enabled =
    let there : u16 x ≡ x = omega arith in
    rw (place, cond)
      (rw (timer_tick-cpu m3, cpu)
        (rw there (
          shows_at x s m.cpu shown,
          refl,
          tick-enabled (record m3 { cpu = moved 3 m.cpu }) ∙ enabled,
        )))
jp-JumpsTo false i x s m m3 cond place word shown cpu enabled =
    rw cond (rw cpu (moved_shows 3 s m.cpu shown, refl, enabled))

pub jump_to-JumpsTo :
    (exits : Bool) (c : Condition) (low high : ℕ) (s : State) (m : Machine)
    → Shows s m.cpu
    → Holds (encode_jump_to c low high) m.cpu.pc m.cpu.memory
    → Returns (execute_instruction exits m) (JumpsTo c low high s m)
unfolding execute_instruction handle
jump_to-JumpsTo exits c low high s m shown (here, plain, byte, word) =
    rw (fetch_opcode-plain m plain) (
      rw here (
        rw (fetch-jump_to c (behind_one m)) (
          rw (read_word m low high word) (
            jp-JumpsTo (holds c s.fs) (jumping_to c (high * 256 + low) (behind_one m))
              (high * 256 + low) s m (behind_three m)
              (jump_flag-holds c s (behind_one m) (moved_shows 1 s m.cpu shown)) refl
              (omega (arith, word)) shown refl (word-enabled m)))))
