-- ===== src/Reference/Saves.antt =====
-- PUSH and POP of register pairs of src/cpu/instruction.c against those of the reference machine.
use emu_gb.Base.{
  ℕ, ◌+◌, ◌-◌, ◌*◌, ◌%◌, ◌≡◌, ◌∙◌, refl, ap, arith, Bool, ok, Returns, List, [], ◌∷◌, bit_and, u8,
  to_bool,
}
use emu_gb.Base.Bits.{bit_and_16, bit_and_32, bit_and_64, bit_and_128, bit_and_240}
use emu_gb.Cpu.{Cpu, reg_f}
use emu_gb.Cpu.Flag.{get_flag}
use emu_gb.Cpu.View.{flags_of, flags_ext}
use emu_gb.Machine.{Machine}
use emu_gb.Memory.Plain.{IsPlain}
use emu_gb.Stack.Words.{tick_to, HasRoom}
use emu_gb.Instruction.{in_push, in_pop, r16}
use emu_gb.Instruction.Memory
use emu_gb.Instruction.Memory.{clear_unused}
use emu_gb.Instruction.Fetch.{fetch_instruction, find_register_16bit_push_pop, is_push_pop}
use emu_gb.Instruction.Opcodes.{g_opcodes}
use emu_gb.Instruction.Execute.{execute_instruction, handle}
use emu_gb.Reference.{State}
use emu_gb.Reference.Decode.{decoded}
use emu_gb.Reference.Shows.{Shows, Becomes, flags-Becomes, shows_r8}
use emu_gb.Reference.Step.{moved, fetch_opcode-plain, moved_shows, tick-enabled}
use emu_gb.Reference.Config.{Config, config, Steps, known-Steps, forget_r8-Steps}
use emu_gb.Reference.Indirect.{tick_form}
use emu_gb.Reference.Immediate.{behind_one}
use emu_gb.Reference.Pairs.{
  Pair, bc, de, hl, pair_code, pair_place, word, put_word, read_pair, write_pair,
}
use emu_gb.Reference.Call.{with_word, push_word}
use emu_gb.Reference.Return.{top, HasWord, pop_word}

abbrev pub encode_push : Pair → List ℕ
encode_push q = (197 + pair_code q * 16) ∷ []

abbrev pub encode_pop : Pair → List ℕ
encode_pop q = (193 + pair_code q * 16) ∷ []

abbrev pub after_push : Pair → Config → Config
after_push q x = record x {
  pc = x.pc + 1;
  sp = x.sp - 2;
  memory = with_word (word q x.regs) x.sp x.memory;
}

abbrev pub after_pop : Pair → Config → Config
after_pop q x = record x {
  pc = x.pc + 1;
  sp = x.sp + 2;
  regs = put_word q (top x.sp x.memory) x.regs;
}

fetch-push :
    (q : Pair) (m : Machine)
    → fetch_instruction (197 + pair_code q * 16) m
      ≡ ok (decoded in_push r16 (pair_place q) 0xdead 0 4 m, m)
unfolding fetch_instruction g_opcodes find_register_16bit_push_pop is_push_pop
fetch-push bc m = refl
fetch-push de m = refl
fetch-push hl m = refl

fetch-pop :
    (q : Pair) (m : Machine)
    → fetch_instruction (193 + pair_code q * 16) m
      ≡ ok (decoded in_pop r16 (pair_place q) 0xdead 0 3 m, m)
unfolding fetch_instruction g_opcodes find_register_16bit_push_pop is_push_pop
fetch-pop bc m = refl
fetch-pop de m = refl
fetch-pop hl m = refl

-- The unused bits of F are none of the flags.
flags_of-clear_unused : (p : Cpu) → flags_of (clear_unused p) ≡ flags_of p
unfolding flags_of get_flag clear_unused
flags_of-clear_unused p =
    let f = p.r8 reg_f in
    let kept : bit_and f 240 ≡ u8 f - f % 16 = bit_and_240 f in
    let z : bit_and (bit_and f 240) 128 ≡ bit_and f 128 =
      omega (arith, kept, bit_and_128 (bit_and f 240), bit_and_128 f) in
    let n : bit_and (bit_and f 240) 64 ≡ bit_and f 64 =
      omega (arith, kept, bit_and_64 (bit_and f 240), bit_and_64 f) in
    let h : bit_and (bit_and f 240) 32 ≡ bit_and f 32 =
      omega (arith, kept, bit_and_32 (bit_and f 240), bit_and_32 f) in
    let c : bit_and (bit_and f 240) 16 ≡ bit_and f 16 =
      omega (arith, kept, bit_and_16 (bit_and f 240), bit_and_16 f) in
    flags_ext _ _ (ap to_bool z) (ap to_bool n) (ap to_bool h) (ap to_bool c)

clear_unused-Becomes :
    (s : State) (before p : Cpu) → Becomes s before p → Becomes s before (clear_unused p)
unfolding clear_unused
clear_unused-Becomes s before p now =
    flags-Becomes s s.fs before p (clear_unused p) now (λ k ne. ground arith)
      (flags_of-clear_unused p ∙ now.0.flags_shown) refl

module _ (exits : Bool) (q : Pair) (s : State) (m : Machine) (shown : Shows s m.cpu)
    (plain : IsPlain m.cpu.pc) where
  pub push-Steps :
      m.cpu.memory m.cpu.pc ≡ 197 + pair_code q * 16
      → HasRoom m.cpu.sp
      → Returns (execute_instruction exits m) (λ r. Steps (after_push q (config s m.cpu)) m r.1)
  unfolding execute_instruction handle Memory.push
  push-Steps opcode room =
      let first = moved_shows 1 s m.cpu shown in
      let (m1, pushed_it, after, kept) =
        push_word (word q s) (tick_to (moved 1 m.cpu) (behind_one m)) (omega (arith, shown.bytes))
          room in
      rw
        (
          fetch_opcode-plain m plain,
          opcode,
          fetch-push q (behind_one m),
          tick_form (behind_one m),
          read_pair q s (moved 1 m.cpu) first,
        )
        (rw pushed_it (
          known-Steps s _ m m1 shown after refl refl refl
            (kept ∙ tick-enabled (behind_one m) ∙ tick-enabled m)))

  pub pop-Steps :
      m.cpu.memory m.cpu.pc ≡ 193 + pair_code q * 16
      → HasWord m.cpu.sp m.cpu.memory
      → Returns (execute_instruction exits m) (λ r. Steps (after_pop q (config s m.cpu)) m r.1)
  unfolding execute_instruction handle Memory.pop
  pop-Steps opcode has =
      let (m1, popped_it, after, kept) = pop_word (behind_one m) has in
      rw (fetch_opcode-plain m plain, opcode, fetch-pop q (behind_one m), popped_it)
        (rw after (
          let p = record (moved 1 m.cpu) { sp = m.cpu.sp + 2 } in
          let did = clear_unused-Becomes (put_word q (top m.cpu.sp m.cpu.memory) s) p _ (
            write_pair q (top m.cpu.sp m.cpu.memory) s p (shows_r8 s m.cpu p refl shown)
              (omega (arith, has))) in
          forget_r8-Steps _ p m _ did.0 did.1 refl refl (kept ∙ tick-enabled m)))
