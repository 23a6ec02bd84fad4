-- ===== src/Reference/Pairs.antt =====
-- The instructions on register pairs of src/cpu/instruction.c against those of the reference machine.
use emu_gb.Base.{
  ℕ, ◌+◌, ◌*◌, ◌/◌, ◌%◌, ◌<◌, ◌≡◌, ◌∙◌, refl, arith, Bool, ok, ◌>>=◌, Returns, u16, msb, lsb, List,
  [], ◌∷◌, length, update, true,
}
use emu_gb.Cpu.{Cpu, read_register_16bit, write_register_16bit, is_16bit}
use emu_gb.Machine.{Machine}
use emu_gb.Memory.Plain.{IsPlain}
use emu_gb.Stack.{read_16bit_data}
use emu_gb.Stack.Words.{tick_to}
use emu_gb.Instruction.{
  Instruction, in_ld, in_inc, in_dec, r16, r16_d16, operand_number, is_dst_register,
}
use emu_gb.Instruction.Memory
use emu_gb.Instruction.Memory.{ld_by_type, base_value, add_to_operand, inc_flags, dec_flags}
use emu_gb.Instruction.Fetch.{fetch_instruction, with_value, find_register_16bit, is_push_pop}
use emu_gb.Instruction.Opcodes.{g_opcodes}
use emu_gb.Instruction.Execute.{execute_instruction, handle}
use emu_gb.Reference.{State, Register, b, c, d, e, h, l, put}
use emu_gb.Reference.Decode.{place, decoded}
use emu_gb.Reference.Shows.{Shows, Becomes, put-Becomes}
use emu_gb.Reference.Step.{moved, fetch_opcode-plain, moved_shows, tick-enabled}
use emu_gb.Reference.Config.{Config, config, Steps, forget_r8-Steps}
use emu_gb.Reference.Indirect.{tick_form}
use emu_gb.Reference.Place.{Holds}
use emu_gb.Reference.Immediate.{read_word, word-enabled}

pub data Pair : Type 0 where
  bc de hl : Pair

abbrev pub high : Pair → Register
high bc = b
high de = d
high hl = h

abbrev pub low : Pair → Register
low bc = c
low de = e
low hl = l

-- The two bits of a pair, and its place in `enum cpu_register_name`.
abbrev pub pair_code : Pair → ℕ
pair_code bc = 0
pair_code de = 1
pair_code hl = 2

abbrev pub pair_place : Pair → ℕ
pair_place bc = 11
pair_place de = 12
pair_place hl = 13

abbrev pub word : Pair → State → ℕ
word q s = s.value (high q) * 256 + s.value (low q)

abbrev pub put_word : Pair → ℕ → State → State
put_word q v s = put (low q) (v % 256) (put (high q) (v / 256) s)

pub read_pair :
    (q : Pair) (s : State) (p : Cpu) → Shows s p → read_register_16bit (pair_place q) p ≡ word q s
unfolding read_register_16bit
read_pair bc s p shown = rw (shown.values b, shown.values c) refl
read_pair de s p shown = rw (shown.values d, shown.values e) refl
read_pair hl s p shown = rw (shown.values h, shown.values l) refl

two-Becomes :
    (r q : Register) (v : ℕ) (s : State) (p : Cpu)
    → Shows s p
    → v < 65536
    → Becomes
        (put q (v % 256) (put r (v / 256) s))
        p
        (record p { r8 = update (update p.r8 (place r) (msb (u16 v))) (place q) (lsb (u16 v)) })
two-Becomes r q v s p shown fits =
    let upper : msb (u16 v) ≡ v / 256 = omega arith in
    let lower : lsb (u16 v) ≡ v % 256 = omega arith in
    let one = put-Becomes r (v / 256) s p shown (omega arith) in
    rw (upper, lower)
      (put-Becomes q (v % 256) (put r (v / 256) s)
        (record p { r8 = update p.r8 (place r) (v / 256) }) one.0 (omega arith))

pub write_pair :
    (q : Pair) (v : ℕ) (s : State) (p : Cpu)
    → Shows s p
    → v < 65536
    → Becomes (put_word q v s) p (write_register_16bit (pair_place q) v p)
unfolding write_register_16bit
write_pair bc v s p shown fits = two-Becomes b c v s p shown fits
write_pair de v s p shown fits = two-Becomes d e v s p shown fits
write_pair hl v s p shown fits = two-Becomes h l v s p shown fits

-- The instructions on a pair, their bytes and where they lead.
pub data Wide : Type 0 where
  increase decrease : Pair → Wide
  load_word : Pair → ℕ → ℕ → Wide

abbrev pub encode_wide : Wide → List ℕ
encode_wide (increase q) = (3 + pair_code q * 16) ∷ []
encode_wide (decrease q) = (11 + pair_code q * 16) ∷ []
encode_wide (load_word q low_byte high_byte) = (1 + pair_code q * 16) ∷ low_byte ∷ high_byte ∷ []

abbrev pub step_wide : Wide → State → State
step_wide (increase q) s = put_word q ((word q s + 1) % 65536) s
step_wide (decrease q) s = put_word q ((word q s + 65535) % 65536) s
step_wide (load_word q low_byte high_byte) s = put_word q (high_byte * 256 + low_byte) s

abbrev pub after_wide : Wide → Config → Config
after_wide w x = record x { pc = x.pc + length (encode_wide w); regs = step_wide w x.regs }

fetch-increase :
    (q : Pair) (m : Machine)
    → fetch_instruction (3 + pair_code q * 16) m
      ≡ ok (decoded in_inc r16 (pair_place q) 0xdead 0 2 m, m)
unfolding fetch_instruction g_opcodes find_register_16bit is_push_pop
fetch-increase bc m = refl
fetch-increase de m = refl
fetch-increase hl m = refl

fetch-decrease :
    (q : Pair) (m : Machine)
    → fetch_instruction (11 + pair_code q * 16) m
      ≡ ok (decoded in_dec r16 (pair_place q) 0xdead 0 2 m, m)
unfolding fetch_instruction g_opcodes find_register_16bit is_push_pop
fetch-decrease bc m = refl
fetch-decrease de m = refl
fetch-decrease hl m = refl

fetch-load_word :
    (q : Pair) (m : Machine)
    → fetch_instruction (1 + pair_code q * 16) m
      ≡ (do (v, m1) ← read_16bit_data m; ok (decoded in_ld r16_d16 (pair_place q) 0xdead v 3 m, m1))
unfolding fetch_instruction g_opcodes find_register_16bit with_value
fetch-load_word bc m = refl
fetch-load_word de m = refl
fetch-load_word hl m = refl

pair_wide : (q : Pair) → is_16bit (pair_place q) ≡ true
pair_wide bc = refl
pair_wide de = refl
pair_wide hl = refl

module _ (exits : Bool) (s : State) (m : Machine) (shown : Shows s m.cpu)
    (plain : IsPlain m.cpu.pc) where
  first_shows : Shows s (moved 1 m.cpu)
  first_shows = moved_shows 1 s m.cpu shown

  -- The addition of `n` to a pair.
  add-Steps :
      (q : Pair) (n : ℕ) (i : Instruction)
      → i.operands ≡ r16
      → i.reg1 ≡ pair_place q
      → Returns
          (add_to_operand n i (tick_to (moved 1 m.cpu) m))
          (λ m1. Steps (config (put_word q ((word q s + n) % 65536) s) (moved 1 m.cpu)) m m1)
  unfolding add_to_operand operand_number
  add-Steps q n i type target =
      rw (type, target)
        (rw (pair_wide q) (
          rw (tick_form (tick_to (moved 1 m.cpu) m), read_pair q s (moved 1 m.cpu) first_shows)
            (let did =
                write_pair q ((word q s + n) % 65536) s (moved 1 m.cpu) first_shows (omega arith) in
              forget_r8-Steps _ (moved 1 m.cpu) m _ did.0 did.1 refl refl
                (tick-enabled (tick_to (moved 1 m.cpu) m) ∙ tick-enabled m))))

  pub increase-Steps :
      (q : Pair)
      → m.cpu.memory m.cpu.pc ≡ 3 + pair_code q * 16
      → Returns
          (execute_instruction exits m)
          (λ r. Steps (after_wide (increase q) (config s m.cpu)) m r.1)
  unfolding execute_instruction handle Memory.inc base_value operand_number add_to_operand
  increase-Steps q opcode = rw (fetch_opcode-plain m plain) (
      rw opcode (
        rw (fetch-increase q (tick_to (moved 1 m.cpu) m)) (
          add-Steps q 1 (decoded in_inc r16 (pair_place q) 0xdead 0 2 (tick_to (moved 1 m.cpu) m))
            refl refl)))

  pub decrease-Steps :
      (q : Pair)
      → m.cpu.memory m.cpu.pc ≡ 11 + pair_code q * 16
      → Returns
          (execute_instruction exits m)
          (λ r. Steps (after_wide (decrease q) (config s m.cpu)) m r.1)
  unfolding execute_instruction handle Memory.dec base_value operand_number add_to_operand
  decrease-Steps q opcode = rw (fetch_opcode-plain m plain) (
      rw opcode (
        rw (fetch-decrease q (tick_to (moved 1 m.cpu) m)) (
          add-Steps q 65535
            (decoded in_dec r16 (pair_place q) 0xdead 0 2 (tick_to (moved 1 m.cpu) m)) refl refl)))

  pub load_word-Steps :
      (q : Pair) (low_byte high_byte : ℕ)
      → Holds (encode_wide (load_word q low_byte high_byte)) m.cpu.pc m.cpu.memory
      → Returns
          (execute_instruction exits m)
          (λ r. Steps (after_wide (load_word q low_byte high_byte) (config s m.cpu)) m r.1)
  unfolding execute_instruction handle Memory.ld ld_by_type operand_number is_dst_register
  load_word-Steps q low_byte high_byte (here, first, byte, operand) =
      rw (fetch_opcode-plain m plain) (
        rw here (
          rw (fetch-load_word q (tick_to (moved 1 m.cpu) m)) (
            rw (read_word m low_byte high_byte operand) (
              let did =
                write_pair q (high_byte * 256 + low_byte) s (moved 3 m.cpu)
                  (moved_shows 3 s m.cpu shown) (omega arith) in
              forget_r8-Steps _ (moved 3 m.cpu) m _ did.0 did.1 refl refl (word-enabled m)))))
