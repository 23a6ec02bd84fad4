-- ===== src/Reference/Step.antt =====
-- One instruction of the program against one step of the reference machine.
use emu_gb.Base.{
  ap, to_ℕ, ℕ, ◌+◌, ◌*◌, ◌%◌, ◌≡◌, ◌∙◌, refl, inl, inr, arith, Bool, false, length, ok, Returns,
  u16, lsb, IsByte,
}
use emu_gb.Cpu.{Cpu, reg_a, write_register_16bit, read_register_16bit, is_16bit}
use emu_gb.Cpu.Flag.{get_flag}
use emu_gb.Cpu.View.{Flags, flags_of}
use emu_gb.Machine.{Machine}
use emu_gb.Timer.Ticks.{timer_tick}
use emu_gb.Timer.Frame.{timer_tick-cpu, timer_ticks-interrupts}
use emu_gb.Memory.Plain.{IsPlain, read_memory-plain}
use emu_gb.Stack.{fetch_opcode, read_8bit_data}
use emu_gb.Stack.Words.{tick_to}
use emu_gb.Instruction.{Instruction, operand_number, is_dst_register}
use emu_gb.Instruction.Memory
use emu_gb.Instruction.Memory.{base_value, add_to_operand, ld_by_type}
use emu_gb.Instruction.Alu.Operand.{OnBytes, read_register_16bit_r8}
use emu_gb.Instruction.Alu.Sums.{carry_in}
use emu_gb.Instruction.Execute.{execute_instruction, handle}
use emu_gb.Reference.{
  Adjustment, rrca, rra, digit, adjusted, adjusted_flags, adjust_a, nop, adjust, State, Register, a,
  code, put, Operation, number, Op, load, load_byte, increment, decrement, operate, operate_byte,
  encode, step, result, result_flags, operate_on,
}
use emu_gb.Reference.Decode.{
  place, fetch-load, fetch-load_byte, fetch-increment, fetch-decrement, fetch-operate,
  fetch-operate_byte,
}
use emu_gb.Reference.Operate.{handler, handle-name, handler-Meets}
use emu_gb.Reference.Adjust.{adjuster, adjuster-Adjusts, handle-adjustment, fetch-adjust, fetch-nop}
use emu_gb.Reference.Shows.{
  Shows, Becomes, place_fits, write_register_16bit_r8, put-Becomes, Computes-Becomes, inc-Becomes,
  dec-Becomes,
}

-- The CPU with PC moved on, behind a delayed `EI`.
abbrev pub moved : ℕ → Cpu → Cpu
moved n p = record p { ime_scheduled = false; pc = p.pc + n }

pub tick-enabled : (m : Machine) → (timer_tick m).interrupts.ie_reg ≡ m.interrupts.ie_reg
unfolding timer_tick
tick-enabled m = rw (timer_ticks-interrupts 1 m)

pub fetch_opcode-plain :
    (m : Machine)
    → IsPlain m.cpu.pc
    → fetch_opcode m ≡ ok (m.cpu.memory m.cpu.pc, tick_to (moved 1 m.cpu) m)
unfolding fetch_opcode
fetch_opcode-plain m plain =
    let next : u16 (m.cpu.pc + 1) ≡ m.cpu.pc + 1 = omega arith in
    rw (timer_tick-cpu m) (
      rw (
        read_memory-plain m.cpu.pc (tick_to (record (m.cpu) { ime_scheduled = false }) m) plain,
        next,
      ))

pub read_8bit_data-plain :
    (m : Machine)
    → IsPlain m.cpu.pc
    → read_8bit_data m ≡ ok (m.cpu.memory m.cpu.pc, tick_to (moved 1 m.cpu) m)
unfolding read_8bit_data
read_8bit_data-plain m plain =
    let next : u16 (m.cpu.pc + 1) ≡ m.cpu.pc + 1 = omega arith in
    rw (timer_tick-cpu m) (
      rw (
        read_memory-plain m.cpu.pc (tick_to (record (m.cpu) { ime_scheduled = false }) m) plain,
        next,
      ))

result-IsByte : (f : Operation) (x y k : ℕ) → IsByte x → IsByte (result f x y k)
result-IsByte Operation.add x y k h = omega arith
result-IsByte _ x y k h = omega arith

carry_shown : (s : State) (p : Cpu) → Shows s p → carry_in p ≡ to_ℕ s.fs.cf
unfolding flags_of
carry_shown s p shown = ap (λ (fs : Flags). to_ℕ fs.cf) shown.flags_shown

pub operate-Becomes :
    (f : Operation) (y : ℕ) (i : Instruction) (s : State) (p : Cpu)
    → Shows s p
    → OnBytes i p y
    → Becomes (operate_on f y s) p (handler f i p)
operate-Becomes f y i s p shown on =
    let x = s.value a in
    let k = to_ℕ s.fs.cf in
    Computes-Becomes (result f x y k) (result_flags f x y k) s p (handler f i p) shown
      (rw (shown.values a, carry_shown s p shown) at (handler-Meets on f))
      (result-IsByte f x y k (shown.bytes a))

adjusted-IsByte : (f : Adjustment) (x : ℕ) (fs : Flags) → IsByte x → IsByte (adjusted f x fs)
adjusted-IsByte rrca x fs h = ground arith
adjusted-IsByte rra x fs h = ground arith
adjusted-IsByte _ x fs h = ground arith

adjust-Becomes :
    (f : Adjustment) (s : State) (p : Cpu) → Shows s p → Becomes (adjust_a f s) p (adjuster f p)
adjust-Becomes f s p shown =
    let x = s.value a in
    let in_a : IsByte (p.r8 reg_a) = rw (shown.values a) (shown.bytes a) in
    Computes-Becomes (adjusted f x s.fs) (adjusted_flags f x s.fs) s p (adjuster f p) shown
      (rw (shown.values a, shown.flags_shown) at (adjuster-Adjusts p in_a f))
      (adjusted-IsByte f x s.fs (shown.bytes a))

-- The instruction returns after as many cycles as it has bytes, and the CPU goes to the next state; no
-- interrupt is enabled or disabled.
pub record Does (op : Op) (s : State) (m : Machine) (r : ℕ × Machine) : Type 0 where
  pub cycles : r.0 ≡ length (encode op)
  pub becomes : Becomes (step op s) (moved (length (encode op)) m.cpu) r.1.cpu
  pub enabled : r.1.interrupts.ie_reg ≡ m.interrupts.ie_reg

pub moved_shows : (n : ℕ) (s : State) (p : Cpu) → Shows s p → Shows s (moved n p)
unfolding flags_of get_flag
moved_shows n s p shown = record {
  values = shown.values;
  bytes = shown.bytes;
  flags_shown = shown.flags_shown;
}

-- A byte that is written through the 16-bit function.
pub write-Becomes :
    (r : Register) (v : ℕ) (s : State) (p : Cpu)
    → Shows s p
    → IsByte v
    → Becomes (put r v s) p (write_register_16bit (place r) v p)
write-Becomes r v s p shown byte =
    let low : lsb (u16 v) ≡ v = omega arith in
    rw (write_register_16bit_r8 (place r) v p (place_fits r))
      (rw low (put-Becomes r v s p shown byte))

pub read_shown :
    (r : Register) (s : State) (p : Cpu) → Shows s p → read_register_16bit (place r) p ≡ s.value r
read_shown r s p shown = read_register_16bit_r8 (place r) p (place_fits r) ∙ shown.values r

module _ (exits : Bool) (s : State) (m : Machine) (shown : Shows s m.cpu)
    (plain : IsPlain m.cpu.pc) where
  next_shows : Shows s (moved 1 m.cpu)
  next_shows = moved_shows 1 s m.cpu shown

  pub nop-Does : m.cpu.memory m.cpu.pc ≡ 0 → Returns (execute_instruction exits m) (Does nop s m)
  unfolding execute_instruction handle
  nop-Does opcode = rw (fetch_opcode-plain m plain) (
      rw opcode (
        rw (fetch-nop (tick_to (moved 1 m.cpu) m))
          (record { cycles = refl; becomes = (next_shows, refl); enabled = tick-enabled m })))

  pub adjust-Does :
      (f : Adjustment)
      → m.cpu.memory m.cpu.pc ≡ 7 + digit f * 8
      → Returns (execute_instruction exits m) (Does (adjust f) s m)
  unfolding execute_instruction
  adjust-Does f opcode = rw (fetch_opcode-plain m plain) (
      rw opcode (
        rw (fetch-adjust f (tick_to (moved 1 m.cpu) m)) (
          rw (handle-adjustment exits f _ _) (record {
            cycles = refl;
            becomes = adjust-Becomes f s (moved 1 m.cpu) next_shows;
            enabled = tick-enabled m;
          }))))

  pub operate-Does :
      (f : Operation) (r : Register)
      → m.cpu.memory m.cpu.pc ≡ 128 + number f * 8 + code r
      → Returns (execute_instruction exits m) (Does (operate f r) s m)
  unfolding execute_instruction
  operate-Does f r opcode = rw (fetch_opcode-plain m plain) (
      rw opcode (
        rw (fetch-operate f r (tick_to (moved 1 m.cpu) m)) (
          rw (handle-name exits f _ _) (record {
            cycles = refl;
            becomes = operate-Becomes f (s.value r) _ s (moved 1 m.cpu) next_shows (record {
              target = refl;
              source = inl (refl, place_fits r, shown.values r);
              a_byte = rw (shown.values a) (shown.bytes a);
              b_byte = shown.bytes r;
            });
            enabled = tick-enabled m;
          }))))

  pub load-Does :
      (to from : Register)
      → m.cpu.memory m.cpu.pc ≡ 64 + code to * 8 + code from
      → Returns (execute_instruction exits m) (Does (load to from) s m)
  unfolding execute_instruction handle Memory.ld ld_by_type operand_number
  load-Does to from opcode = rw (fetch_opcode-plain m plain) (
      rw opcode (
        rw (fetch-load to from (tick_to (moved 1 m.cpu) m)) (
          rw (read_shown from s (moved 1 m.cpu) next_shows) (record {
            cycles = refl;
            becomes =
                write-Becomes to (s.value from) s (moved 1 m.cpu) next_shows (shown.bytes from);
            enabled = tick-enabled m;
          }))))

  pub increment-Does :
      (r : Register)
      → m.cpu.memory m.cpu.pc ≡ 4 + code r * 8
      → Returns (execute_instruction exits m) (Does (increment r) s m)
  unfolding execute_instruction handle Memory.inc base_value add_to_operand operand_number
  increment-Does r opcode =
      let sum : lsb (u16 (u16 (s.value r + 1))) ≡ (s.value r + 1) % 256 = omega arith in
      let narrow : is_16bit (place r) ≡ false = ground (arith, place_fits r) in
      rw (fetch_opcode-plain m plain) (
        rw opcode (
          rw (fetch-increment r (tick_to (moved 1 m.cpu) m)) (
            rw (read_shown r s (moved 1 m.cpu) next_shows, narrow)
              (rw
                (
                  read_shown r s (moved 1 m.cpu) next_shows,
                  write_register_16bit_r8 (place r) _ (moved 1 m.cpu) (place_fits r),
                )
                (rw sum (record {
                  cycles = refl;
                  becomes = inc-Becomes r s (moved 1 m.cpu) next_shows;
                  enabled = tick-enabled m;
                }))))))

  pub decrement-Does :
      (r : Register)
      → m.cpu.memory m.cpu.pc ≡ 5 + code r * 8
      → Returns (execute_instruction exits m) (Does (decrement r) s m)
  unfolding execute_instruction handle Memory.dec base_value add_to_operand operand_number
  decrement-Does r opcode =
      let sum : lsb (u16 (u16 (s.value r + 65535))) ≡ (s.value r + 255) % 256 = omega arith in
      let narrow : is_16bit (place r) ≡ false = ground (arith, place_fits r) in
      rw (fetch_opcode-plain m plain) (
        rw opcode (
          rw (fetch-decrement r (tick_to (moved 1 m.cpu) m)) (
            rw (read_shown r s (moved 1 m.cpu) next_shows, narrow)
              (rw
                (
                  read_shown r s (moved 1 m.cpu) next_shows,
                  write_register_16bit_r8 (place r) _ (moved 1 m.cpu) (place_fits r),
                )
                (rw sum (record {
                  cycles = refl;
                  becomes = dec-Becomes r s (moved 1 m.cpu) next_shows;
                  enabled = tick-enabled m;
                }))))))

  -- An immediate byte behind the opcode.
  module _ (n : ℕ) (plain' : IsPlain (m.cpu.pc + 1)) (there : m.cpu.memory (m.cpu.pc + 1) ≡ n)
      (byte : IsByte n) where
    pub read_second :
        read_8bit_data (tick_to (moved 1 m.cpu) m)
        ≡ ok (n, tick_to (moved 2 m.cpu) (tick_to (moved 1 m.cpu) m))
    read_second =
        let two : m.cpu.pc + 1 + 1 ≡ m.cpu.pc + 2 = omega arith in
        rw two at (rw there at (read_8bit_data-plain (tick_to (moved 1 m.cpu) m) plain'))

    second_shows : Shows s (moved 2 m.cpu)
    second_shows = moved_shows 2 s m.cpu shown

    pub twice-enabled :
        (timer_tick (tick_to (moved 1 m.cpu) m)).interrupts.ie_reg ≡ m.interrupts.ie_reg
    twice-enabled = tick-enabled (tick_to (moved 1 m.cpu) m) ∙ tick-enabled m

    pub load_byte-Does :
        (to : Register)
        → m.cpu.memory m.cpu.pc ≡ 6 + code to * 8
        → Returns (execute_instruction exits m) (Does (load_byte to n) s m)
    unfolding execute_instruction handle Memory.ld ld_by_type operand_number is_dst_register
    load_byte-Does to opcode = rw (fetch_opcode-plain m plain) (
        rw opcode (
          rw (fetch-load_byte to (tick_to (moved 1 m.cpu) m)) (
            rw read_second (record {
              cycles = refl;
              becomes = write-Becomes to n s (moved 2 m.cpu) second_shows byte;
              enabled = twice-enabled;
            }))))

    pub operate_byte-Does :
        (f : Operation)
        → m.cpu.memory m.cpu.pc ≡ 198 + number f * 8
        → Returns (execute_instruction exits m) (Does (operate_byte f n) s m)
    unfolding execute_instruction
    operate_byte-Does f opcode = rw (fetch_opcode-plain m plain) (
        rw opcode (
          rw (fetch-operate_byte f (tick_to (moved 1 m.cpu) m)) (
            rw read_second (
              rw (handle-name exits f _ _) (record {
                cycles = refl;
                becomes = operate-Becomes f n _ s (moved 2 m.cpu) second_shows (record {
                  target = refl;
                  source = inr (inl refl, refl);
                  a_byte = rw (shown.values a) (shown.bytes a);
                  b_byte = byte;
                });
                enabled = twice-enabled;
              })))))
