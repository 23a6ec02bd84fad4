-- ===== src/Reference/Jump.antt =====
-- The relative jumps of src/cpu/instruction.c against those of the reference machine.
use emu_gb.Base.{
  ℕ, ◌+◌, ◌-◌, ◌%◌, ◌<◌, ◌≡◌, ◌≢◌, ◌==◌, ◌∙◌, ◌&&◌, refl, ap, arith, Bool, true, false, not, ltb,
  List, [], ◌∷◌, Returns, IsByte, if◌then◌else◌, u8, u16, sign_extend,
}
use emu_gb.Cpu.{Cpu, reg_pc, read_register_16bit, write_register_16bit}
use emu_gb.Cpu.Flag.{get_flag, flag_z, flag_c}
use emu_gb.Cpu.View.{Flags, flags_of}
use emu_gb.Machine.{Machine}
use emu_gb.Memory.Plain.{IsPlain}
use emu_gb.Stack.Words.{tick_to}
use emu_gb.Timer.Frame.{timer_tick-cpu}
use emu_gb.Instruction.{OperandType, in_jr, s8, flag_s8, Instruction}
use emu_gb.Instruction.Jump
use emu_gb.Instruction.Jump.{set_pc, get_pc}
use emu_gb.Instruction.Opcodes.{g_opcodes}
use emu_gb.Instruction.Fetch.{fetch_instruction, with_value, read_flag}
use emu_gb.Instruction.Execute.{execute_instruction, handle}
use emu_gb.Reference.{State}
use emu_gb.Reference.Decode.{immediate}
use emu_gb.Reference.Shows.{Shows, forget_r8}
use emu_gb.Reference.Step.{
  moved, fetch_opcode-plain, read_second, tick-enabled, twice-enabled, moved_shows,
}

-- The conditions of a jump.
pub data Condition : Type 0 where
  always if_nz if_z if_nc if_c : Condition

abbrev pub holds : Condition → Flags → Bool
holds always fs = true
holds if_nz fs = not fs.zf
holds if_z fs = fs.zf
holds if_nc fs = not fs.cf
holds if_c fs = fs.cf

abbrev pub jump_code : Condition → ℕ
jump_code always = 0x18
jump_code if_nz = 0x20
jump_code if_z = 0x28
jump_code if_nc = 0x30
jump_code if_c = 0x38

-- The bytes of a jump by `n`, a byte that stands for a number from -128 to 127.
abbrev pub encode_jump : Condition → ℕ → List ℕ
encode_jump c n = jump_code c ∷ n ∷ []

-- The place that a jump at `pc` goes to.
abbrev pub aim : ℕ → ℕ → ℕ
aim n pc = (if ltb n 128 then pc + 2 + n else pc + 2 + n + 65536 - 256) % 65536

-- PC behind a jump at `pc`.
abbrev pub target : Condition → ℕ → Flags → ℕ → ℕ
target c n fs pc = if holds c fs then aim n pc else pc + 2

jump_type : Condition → OperandType
jump_type always = s8
jump_type _ = flag_s8

cycles_false : Condition → ℕ
cycles_false always = 0
cycles_false _ = 2

unfoldable pub jump_flag : Condition → Machine → Bool
jump_flag always m = true
jump_flag if_nz m = not (get_flag flag_z m.cpu)
jump_flag if_z m = get_flag flag_z m.cpu
jump_flag if_nc m = not (get_flag flag_c m.cpu)
jump_flag if_c m = get_flag flag_c m.cpu

abbrev jumping : Condition → ℕ → Machine → Instruction
jumping c n m = record {
  instruction = in_jr;
  operands = jump_type c;
  pc = u16 (read_register_16bit reg_pc m.cpu + 65535);
  reg1 = 14;
  reg2 = 0xdead;
  address = 0;
  condition = jump_flag c m;
  value = n;
  cycle_count = 3;
  cycle_count_false = cycles_false c;
}

fetch-jump :
    (c : Condition) (m : Machine)
    → fetch_instruction (jump_code c) m ≡ immediate (λ n. jumping c n m) m
unfolding fetch_instruction g_opcodes with_value read_flag jump_type jump_flag cycles_false
fetch-jump always m = refl
fetch-jump if_nz m = refl
fetch-jump if_z m = refl
fetch-jump if_nc m = refl
fetch-jump if_c m = refl

pub jump_flag-holds :
    (c : Condition) (s : State) (m : Machine) → Shows s m.cpu → jump_flag c m ≡ holds c s.fs
unfolding jump_flag flags_of
jump_flag-holds always s m shown = refl
jump_flag-holds if_nz s m shown = ap (λ (fs : Flags). not fs.zf) shown.flags_shown
jump_flag-holds if_z s m shown = ap (λ (fs : Flags). fs.zf) shown.flags_shown
jump_flag-holds if_nc s m shown = ap (λ (fs : Flags). not fs.cf) shown.flags_shown
jump_flag-holds if_c s m shown = ap (λ (fs : Flags). fs.cf) shown.flags_shown

pub shows_at :
    (x : ℕ) (s : State) (p : Cpu) → Shows s p → Shows s (record p { pc = x; ime_scheduled = false })
unfolding flags_of get_flag
shows_at x s p shown = record {
  values = shown.values;
  bytes = shown.bytes;
  flags_shown = shown.flags_shown;
}

-- The handler on a machine behind the two bytes.
jr-Jumps :
    (exits b : Bool) (i : Instruction) (n : ℕ) (s : State) (m m2 : Machine)
    → i.condition ≡ b
    → i.value ≡ n
    → IsByte n
    → n ≢ 0xFE
    → Shows s m.cpu
    → m2.cpu ≡ moved 2 m.cpu
    → m2.interrupts.ie_reg ≡ m.interrupts.ie_reg
    → m.cpu.pc + 2 < 65536
    → Returns (Jump.jr exits i m2) (λ r.
      Shows s r.1.cpu
      × (forget_r8 r.1.cpu
          ≡ forget_r8 (record (moved 2 m.cpu) { pc = if b then aim n m.cpu.pc else m.cpu.pc + 2 }))
      × (r.1.interrupts.ie_reg ≡ m.interrupts.ie_reg))
unfolding Jump.jr write_register_16bit read_register_16bit
jr-Jumps exits true i n s m m2 cond val byte not_itself shown cpu enabled room =
    let other : (exits && u8 n == 0xFE) ≡ false = ground arith in
    let there : u16 (u16 (m.cpu.pc + 2 + sign_extend n)) ≡ aim n m.cpu.pc = ground arith in
    rw (val, other, cond)
      (rw (timer_tick-cpu m2, cpu)
        (rw there (
          shows_at (aim n m.cpu.pc) s m.cpu shown,
          refl,
          tick-enabled (record m2 { cpu = moved 2 m.cpu }) ∙ enabled,
        )))
jr-Jumps exits false i n s m m2 cond val byte not_itself shown cpu enabled room =
    let other : (exits && u8 n == 0xFE) ≡ false = ground arith in
    rw (val, other, cond) (rw cpu (moved_shows 2 s m.cpu shown, refl, enabled))

-- Where the jump leaves the CPU.
abbrev pub Jumps : Condition → ℕ → State → Machine → ℕ × Machine → Type 0
Jumps c n s m r =
    Shows s r.1.cpu
    × (forget_r8 r.1.cpu ≡ forget_r8 (record (moved 2 m.cpu) { pc = target c n s.fs m.cpu.pc }))
    × (r.1.interrupts.ie_reg ≡ m.interrupts.ie_reg)

module _ (exits : Bool) (c : Condition) (n : ℕ) (s : State) (m : Machine) (shown : Shows s m.cpu)
    (plain : IsPlain m.cpu.pc) (plain' : IsPlain (m.cpu.pc + 1))
    (here : m.cpu.memory m.cpu.pc ≡ jump_code c) (there : m.cpu.memory (m.cpu.pc + 1) ≡ n)
    (byte : IsByte n) (not_itself : n ≢ 0xFE) where
  pub jump-Jumps : Returns (execute_instruction exits m) (Jumps c n s m)
  unfolding execute_instruction handle Jump.jr
  jump-Jumps = rw (fetch_opcode-plain m plain) (
      rw here (
        rw (fetch-jump c (tick_to (moved 1 m.cpu) m)) (
          rw (read_second exits s m shown plain n plain' there byte) (
            (jr-Jumps exits (holds c s.fs) (jumping c n (tick_to (moved 1 m.cpu) m)) n s m
              (tick_to (moved 2 m.cpu) (tick_to (moved 1 m.cpu) m))
              (jump_flag-holds c s (tick_to (moved 1 m.cpu) m) (moved_shows 1 s m.cpu shown)) refl
              byte not_itself shown refl (twice-enabled exits s m shown plain n plain' there byte)
              (omega arith))))))
