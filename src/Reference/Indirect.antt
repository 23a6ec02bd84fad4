-- ===== src/Reference/Indirect.antt =====
-- The instructions on the byte at HL of src/cpu/instruction.c against those of the reference machine.
use emu_gb.Base.{
  ℕ, ◌+◌, ◌*◌, ◌≡◌, ◌∙◌, refl, ap, arith, inr, Bool, false, ok, ◌>>=◌, Returns, IsByte, u8, update,
  List, [], ◌∷◌,
}
use emu_gb.Cpu.{Cpu, reg_a, reg_hl, read_register, read_register_16bit}
use emu_gb.Machine.{Machine}
use emu_gb.Memory.Plain.{IsPlain, read_memory-plain, write_memory-plain}
use emu_gb.Stack.Words.{tick_to}
use emu_gb.Timer.Ticks.{timer_tick}
use emu_gb.Timer.Frame.{timer_tick-cpu}
use emu_gb.Instruction.{in_ld, r8_hl_rel, hl_rel_r8, a_hl_rel, operand_number, is_dst_register}
use emu_gb.Instruction.Memory
use emu_gb.Instruction.Memory.{ld_by_type}
use emu_gb.Instruction.Fetch.{fetch_instruction, with_value, read_later, find_register}
use emu_gb.Instruction.Opcodes.{g_opcodes}
use emu_gb.Instruction.Execute.{execute_instruction, handle}
use emu_gb.Instruction.Alu.Operand.{read_register_r8}
use emu_gb.Reference.{State, Register, a, b, h, l, add, code, put, Operation, number, operate_on}
use emu_gb.Reference.Decode.{place, name, decoded}
use emu_gb.Reference.Operate.{handle-name}
use emu_gb.Reference.Shows.{Shows, place_fits, shows_r8}
use emu_gb.Reference.Step.{
  moved, fetch_opcode-plain, moved_shows, tick-enabled, write-Becomes, operate-Becomes,
}
use emu_gb.Reference.Config.{Config, config, Steps, forget_r8-Steps}

-- The place that H and L name.
abbrev pub at_hl : State → ℕ
at_hl s = s.value h * 256 + s.value l

pub tick_form : (m : Machine) → timer_tick m ≡ tick_to (record (m.cpu) { ime_scheduled = false }) m
tick_form m = ap (λ (c : Cpu). record (timer_tick m) { cpu = c }) (timer_tick-cpu m)

pub read_hl : (s : State) (p : Cpu) → Shows s p → read_register_16bit reg_hl p ≡ at_hl s
unfolding read_register_16bit
read_hl s p shown = rw (shown.values h, shown.values l) refl

read_byte : (r : Register) (s : State) (p : Cpu) → Shows s p → read_register (place r) p ≡ s.value r
read_byte r s p shown = read_register_r8 (place r) p (place_fits r) ∙ shown.values r

fetch-load_hl :
    (to : Register) (m : Machine)
    → fetch_instruction (70 + code to * 8) m ≡ (do
      (n, m1) ← read_later (read_register_16bit reg_hl (timer_tick m).cpu) m
      ok (decoded in_ld r8_hl_rel (place to) 0xdead n 2 m, m1))
unfolding fetch_instruction g_opcodes find_register with_value
fetch-load_hl b m = refl
fetch-load_hl _ m = refl

fetch-store_hl :
    (from : Register) (m : Machine)
    → fetch_instruction (112 + code from) m
      ≡ ok (
        record (decoded in_ld hl_rel_r8 (place from) 0xdead 0 2 m) {
          address = read_register_16bit reg_hl m.cpu;
        },
        m,
      )
unfolding fetch_instruction g_opcodes find_register
fetch-store_hl b m = refl
fetch-store_hl _ m = refl

fetch-operate_hl :
    (f : Operation) (m : Machine)
    → fetch_instruction (134 + number f * 8) m ≡ (do
      (n, m1) ← read_later (read_register_16bit reg_hl (timer_tick m).cpu) m
      ok (decoded (name f) a_hl_rel reg_a 0xdead n 2 m, m1))
unfolding fetch_instruction g_opcodes with_value
fetch-operate_hl add m = refl
fetch-operate_hl _ m = refl

-- The bytes of the loads and stores at HL, and of the operations on the byte there.
abbrev pub encode_load_hl : Register → List ℕ
encode_load_hl to = (70 + code to * 8) ∷ []

abbrev pub encode_store_hl : Register → List ℕ
encode_store_hl from = (112 + code from) ∷ []

abbrev pub encode_operate_hl : Operation → List ℕ
encode_operate_hl f = (134 + number f * 8) ∷ []

-- Where they lead.
abbrev pub after_load_hl : Register → Config → Config
after_load_hl to x = record x { pc = x.pc + 1; regs = put to (x.memory (at_hl x.regs)) x.regs }

abbrev pub after_store_hl : Register → Config → Config
after_store_hl from x = record x {
  pc = x.pc + 1;
  memory = update x.memory (at_hl x.regs) (x.regs.value from);
}

abbrev pub after_operate_hl : Operation → Config → Config
after_operate_hl f x = record x {
  pc = x.pc + 1;
  regs = operate_on f (x.memory (at_hl x.regs)) x.regs;
}

read_later-plain :
    (k : ℕ) (m : Machine)
    → IsPlain k
    → read_later k m ≡ ok (m.cpu.memory k, tick_to (record (m.cpu) { ime_scheduled = false }) m)
unfolding read_later
read_later-plain k m plain =
    rw (tick_form m)
      (rw (read_memory-plain k (tick_to (record (m.cpu) { ime_scheduled = false }) m) plain) refl)

module _ (exits : Bool) (s : State) (m : Machine) (shown : Shows s m.cpu) (plain : IsPlain m.cpu.pc)
    (plain' : IsPlain (at_hl s)) where
  first : Machine
  first = tick_to (moved 1 m.cpu) m

  first_shows : Shows s (moved 1 m.cpu)
  first_shows = moved_shows 1 s m.cpu shown

  read_at_hl :
      read_later
        (read_register_16bit reg_hl (timer_tick (tick_to (moved 1 m.cpu) m)).cpu)
        (tick_to (moved 1 m.cpu) m)
      ≡ ok (m.cpu.memory (at_hl s), tick_to (moved 1 m.cpu) (tick_to (moved 1 m.cpu) m))
  read_at_hl =
      rw (timer_tick-cpu (tick_to (moved 1 m.cpu) m), read_hl s (moved 1 m.cpu) first_shows)
        (read_later-plain (at_hl s) (tick_to (moved 1 m.cpu) m) plain')

  twice : (timer_tick (tick_to (moved 1 m.cpu) m)).interrupts.ie_reg ≡ m.interrupts.ie_reg
  twice = tick-enabled (tick_to (moved 1 m.cpu) m) ∙ tick-enabled m

  pub load_hl-Steps :
      (to : Register)
      → m.cpu.memory m.cpu.pc ≡ 70 + code to * 8
      → IsByte (m.cpu.memory (at_hl s))
      → Returns (execute_instruction exits m) (λ r. Steps (after_load_hl to (config s m.cpu)) m r.1)
  unfolding execute_instruction handle Memory.ld ld_by_type operand_number is_dst_register
  load_hl-Steps to opcode byte = rw (fetch_opcode-plain m plain) (
      rw opcode (
        rw (fetch-load_hl to (tick_to (moved 1 m.cpu) m)) (
          rw read_at_hl (
            let did =
              write-Becomes to (m.cpu.memory (at_hl s)) s (moved 1 m.cpu) first_shows byte in
            forget_r8-Steps _ (moved 1 m.cpu) m _ did.0 did.1 refl refl twice))))

  pub operate_hl-Steps :
      (f : Operation)
      → m.cpu.memory m.cpu.pc ≡ 134 + number f * 8
      → IsByte (m.cpu.memory (at_hl s))
      → Returns
          (execute_instruction exits m)
          (λ r. Steps (after_operate_hl f (config s m.cpu)) m r.1)
  unfolding execute_instruction
  operate_hl-Steps f opcode byte = rw (fetch_opcode-plain m plain) (
      rw opcode (
        rw (fetch-operate_hl f (tick_to (moved 1 m.cpu) m)) (
          rw read_at_hl (
            rw (handle-name exits f _ _) (
              let did =
                operate-Becomes f (m.cpu.memory (at_hl s)) _ s (moved 1 m.cpu) first_shows (record {
                  target = refl;
                  source = inr (inr refl, refl);
                  a_byte = rw (shown.values a) (shown.bytes a);
                  b_byte = byte;
                }) in
              forget_r8-Steps _ (moved 1 m.cpu) m _ did.0 did.1 refl refl twice)))))

  pub store_hl-Steps :
      (from : Register)
      → m.cpu.memory m.cpu.pc ≡ 112 + code from
      → Returns
          (execute_instruction exits m)
          (λ r. Steps (after_store_hl from (config s m.cpu)) m r.1)
  unfolding execute_instruction handle Memory.ld ld_by_type operand_number is_dst_register
  store_hl-Steps from opcode =
      let byte : u8 (s.value from) ≡ s.value from = omega (arith, shown.bytes from) in
      rw (fetch_opcode-plain m plain) (
        rw opcode (
          rw (fetch-store_hl from (tick_to (moved 1 m.cpu) m)) (
            rw (read_hl s (moved 1 m.cpu) first_shows, tick_form (tick_to (moved 1 m.cpu) m))
              (rw (write_memory-plain (at_hl s) _ _ plain') (
                rw (read_byte from s (moved 1 m.cpu) first_shows, byte)
                  (record {
                    is_at = record { shown = shows_r8 s m.cpu _ refl shown; there = refl };
                    running = refl;
                    awake = refl;
                    enabled = twice;
                  }))))))
