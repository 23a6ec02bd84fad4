-- ===== src/Reference/Call.antt =====
-- Calls of src/cpu/instruction.c against those of the reference machine.
use emu_gb.Base.{
  ℕ, ◌+◌, ◌-◌, ◌*◌, ◌/◌, ◌%◌, ◌<◌, ◌≡◌, ◌∙◌, refl, ap, arith, Bool, true, false, ok, ◌>>=◌, Returns,
  u8, u16, msb, lsb, List, [], ◌∷◌, update, if◌then◌else◌,
}
use emu_gb.Cpu.{Cpu, reg_pc, read_register_16bit, write_register_16bit}
use emu_gb.Machine.{Machine}
use emu_gb.Stack.{read_16bit_data, stack_push_16bit}
use emu_gb.Stack.Words.{tick_to, HasRoom, pushed, pushed_byte, two_ticks_to, stack_push_16bit_lem}
use emu_gb.Instruction.{OperandType, Instruction, in_call, a16, flag_a16}
use emu_gb.Instruction.Jump
use emu_gb.Instruction.Fetch.{fetch_instruction, with_address, read_flag}
use emu_gb.Instruction.Opcodes.{g_opcodes}
use emu_gb.Instruction.Execute.{execute_instruction, handle}
use emu_gb.Reference.{State}
use emu_gb.Reference.Shows.{Shows}
use emu_gb.Reference.Step.{moved, fetch_opcode-plain, moved_shows, tick-enabled}
use emu_gb.Reference.Jump.{
  Condition, always, if_nz, if_z, if_nc, if_c, holds, jump_flag, jump_flag-holds,
}
use emu_gb.Reference.Place.{Holds}
use emu_gb.Reference.Config.{Config, config, Steps, known-Steps}
use emu_gb.Reference.Indirect.{tick_form}
use emu_gb.Reference.Immediate.{read_word, word-enabled, behind_one, behind_three}

-- The memory below a word that was pushed.
abbrev pub with_word : ℕ → ℕ → (ℕ → ℕ) → ℕ → ℕ
with_word v sp memory = update (update memory (sp - 1) (v / 256)) (sp - 2) (v % 256)

pub push_word :
    (v : ℕ) (m : Machine)
    → v < 65536
    → HasRoom m.cpu.sp
    → (m1 : Machine) × (stack_push_16bit v m ≡ ok m1)
      × (m1.cpu ≡ record (m.cpu) {
        ime_scheduled = false;
        sp = m.cpu.sp - 2;
        memory = with_word v m.cpu.sp m.cpu.memory;
      })
      × (m1.interrupts.ie_reg ≡ m.interrupts.ie_reg)
push_word v m word room =
    let upper : u8 (msb v) ≡ v / 256 = omega arith in
    let lower : u8 (lsb v) ≡ v % 256 = omega arith in
    let two : m.cpu.sp - 1 - 1 ≡ m.cpu.sp - 2 = omega arith in
    (
      two_ticks_to (pushed_byte (msb v) m.cpu) (pushed v m.cpu) m,
      stack_push_16bit_lem v m room,
      rw (upper, lower, two) refl,
      tick-enabled (tick_to (pushed_byte (msb v) m.cpu) m) ∙ tick-enabled m,
    )

abbrev pub call_code : Condition → ℕ
call_code always = 0xCD
call_code if_nz = 0xC4
call_code if_z = 0xCC
call_code if_nc = 0xD4
call_code if_c = 0xDC

abbrev pub encode_call : Condition → ℕ → ℕ → List ℕ
encode_call f low high = call_code f ∷ low ∷ high ∷ []

-- Where it leads, taken or passed.
abbrev called : Bool → ℕ → ℕ → Config → Config
called taken n address x =
    if taken
    then record x { pc = address; sp = x.sp - 2; memory = with_word (x.pc + n) x.sp x.memory }
    else record x { pc = x.pc + n }

abbrev pub after_call : Condition → ℕ → ℕ → Config → Config
after_call f low high x = called (holds f x.regs.fs) 3 (high * 256 + low) x

call_type : Condition → OperandType
call_type always = a16
call_type _ = flag_a16

unfoldable pub cycles_of : Condition → ℕ → ℕ → ℕ
cycles_of always n k = n
cycles_of _ n k = k

abbrev calling : Condition → ℕ → Machine → Instruction
calling f address m = record {
  instruction = in_call;
  operands = call_type f;
  pc = u16 (read_register_16bit reg_pc m.cpu + 65535);
  reg1 = 14;
  reg2 = 0xdead;
  address = address;
  condition = jump_flag f m;
  value = 0;
  cycle_count = 6;
  cycle_count_false = cycles_of f 0 3;
}

fetch-call :
    (f : Condition) (m : Machine)
    → fetch_instruction (call_code f) m
      ≡ (do (address, m1) ← read_16bit_data m; ok (calling f address m, m1))
unfolding fetch_instruction g_opcodes with_address read_flag jump_flag call_type cycles_of
fetch-call always m = refl
fetch-call if_nz m = refl
fetch-call if_z m = refl
fetch-call if_nc m = refl
fetch-call if_c m = refl

-- The handlers, on a machine behind the bytes of the instruction.
module _ (i : Instruction) (s : State) (m : Machine) (shown : Shows s m.cpu) where
  call-Steps_taken :
      (n address : ℕ) (m1 : Machine)
      → i.condition ≡ true
      → i.address ≡ address
      → address < 65536
      → m1.cpu ≡ moved n m.cpu
      → m1.interrupts.ie_reg ≡ m.interrupts.ie_reg
      → m.cpu.pc + n < 65536
      → HasRoom m.cpu.sp
      → Returns (Jump.call i m1) (λ r.
        Steps
          (record (config s m.cpu) {
            pc = address;
            sp = m.cpu.sp - 2;
            memory = with_word (m.cpu.pc + n) m.cpu.sp m.cpu.memory;
          })
          m
          r.1)
  unfolding Jump.call read_register_16bit write_register_16bit
  call-Steps_taken n address m1 taken target fits cpu enabled word room =
      let start : Machine = record m1 { cpu = moved n m.cpu } in
      let (m2, pushed_it, after, kept) =
        push_word (m.cpu.pc + n) (tick_to (moved n m.cpu) start) word room in
      let narrow : u16 address ≡ address = omega arith in
      rw (taken, target, tick_form m1, cpu)
        (rw (pushed_it, narrow)
          (known-Steps s _ m _ shown (ap (λ (q : Cpu). record q { pc = address }) after) refl refl
            refl (kept ∙ tick-enabled start ∙ enabled)))

  call-Steps_passed :
      (n : ℕ) (m1 : Machine)
      → i.condition ≡ false
      → m1.cpu ≡ moved n m.cpu
      → m1.interrupts.ie_reg ≡ m.interrupts.ie_reg
      → Returns (Jump.call i m1) (λ r. Steps (record (config s m.cpu) { pc = m.cpu.pc + n }) m r.1)
  unfolding Jump.call
  call-Steps_passed n m1 passed cpu enabled =
      rw passed (known-Steps s (moved n m.cpu) m m1 shown cpu refl refl refl enabled)

  call-Steps_either :
      (b : Bool) (n address : ℕ) (m1 : Machine)
      → i.condition ≡ b
      → i.address ≡ address
      → address < 65536
      → m1.cpu ≡ moved n m.cpu
      → m1.interrupts.ie_reg ≡ m.interrupts.ie_reg
      → m.cpu.pc + n < 65536
      → (b ≡ true → HasRoom m.cpu.sp)
      → Returns (Jump.call i m1) (λ r. Steps (called b n address (config s m.cpu)) m r.1)
  call-Steps_either true n address m1 cond target fits cpu enabled word room =
      call-Steps_taken n address m1 cond target fits cpu enabled word (room refl)
  call-Steps_either false n address m1 cond target fits cpu enabled word room =
      call-Steps_passed n m1 cond cpu enabled

module _ (exits : Bool) (f : Condition) (s : State) (m : Machine) (shown : Shows s m.cpu) where
  pub call-Steps :
      (low high : ℕ)
      → Holds (encode_call f low high) m.cpu.pc m.cpu.memory
      → (holds f s.fs ≡ true → HasRoom m.cpu.sp)
      → Returns
          (execute_instruction exits m)
          (λ r. Steps (after_call f low high (config s m.cpu)) m r.1)
  unfolding execute_instruction handle
  call-Steps low high (here, plain, byte, held) room =
      rw (fetch_opcode-plain m plain, here, fetch-call f (behind_one m), read_word m low high held)
        (call-Steps_either (calling f (high * 256 + low) (behind_one m)) s m shown (holds f s.fs) 3
          (high * 256 + low) (behind_three m)
          (jump_flag-holds f s (behind_one m) (moved_shows 1 s m.cpu shown)) refl
          (omega (arith, held)) refl (word-enabled m) (omega arith) room)
