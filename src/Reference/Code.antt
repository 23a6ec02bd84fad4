-- ===== src/Reference/Code.antt =====
-- One instruction of the reference machine, against execute_instruction of src/cpu/instruction.c.
use emu_gb.Base.{ℕ, ◌≡◌, ◌≢◌, refl, Bool, true, List, Returns, Returns_weaken, IsByte}
use mathlib.Core.Path.{subst}
use emu_gb.Machine.{Machine}
use emu_gb.Memory.Plain.{IsPlain}
use emu_gb.Stack.Words.{HasRoom}
use emu_gb.Instruction.Execute.{execute_instruction}
use emu_gb.Reference.{State, Register, Op, Operation, encode}
use emu_gb.Reference.Shows.{Shows}
use emu_gb.Reference.Step.{moved}
use emu_gb.Reference.Place.{Holds}
use emu_gb.Reference.Jump.{Condition, holds, encode_jump, target, Jumps, jump-Jumps}
use emu_gb.Reference.JumpTo.{encode_jump_to, landing, JumpsTo, jump_to-JumpsTo}
use emu_gb.Reference.Config.{Config, config, Steps, IsAt, after_op, op-Steps, forget_r8-Steps}
use emu_gb.Reference.Indirect.{
  at_hl, encode_load_hl, encode_store_hl, encode_operate_hl, after_load_hl, after_store_hl,
  after_operate_hl, load_hl-Steps, store_hl-Steps, operate_hl-Steps,
}
use emu_gb.Reference.Pairs.{
  Pair, Wide, increase, decrease, load_word, encode_wide, after_wide, increase-Steps,
  decrease-Steps, load_word-Steps,
}
use emu_gb.Reference.Saves.{encode_push, encode_pop, after_push, after_pop, push-Steps, pop-Steps}
use emu_gb.Reference.Call.{encode_call, after_call, call-Steps}
use emu_gb.Reference.Return.{encode_return, after_return, HasWord, return-Steps}

-- The instructions: those on byte registers, on the byte at HL and on register pairs, PUSH and POP of these, the jumps, calls and
-- returns.
pub data Code : Type 0 where
  basic : Op → Code
  load_hl : (to : Register) → Code
  store_hl : (from : Register) → Code
  operate_hl : Operation → Code
  wide : Wide → Code
  push pop : Pair → Code
  jump : Condition → (k : ℕ) → Code
  jump_to : Condition → (low high : ℕ) → Code
  call : Condition → (low high : ℕ) → Code
  return : Condition → Code

abbrev pub bytes_of : Code → List ℕ
bytes_of (basic op) = encode op
bytes_of (load_hl to) = encode_load_hl to
bytes_of (store_hl from) = encode_store_hl from
bytes_of (operate_hl f) = encode_operate_hl f
bytes_of (wide w) = encode_wide w
bytes_of (push q) = encode_push q
bytes_of (pop q) = encode_pop q
bytes_of (jump c k) = encode_jump c k
bytes_of (jump_to c low high) = encode_jump_to c low high
bytes_of (call c low high) = encode_call c low high
bytes_of (return c) = encode_return c

-- Where an instruction takes the machine.
abbrev pub after : Code → Config → Config
after (basic op) x = after_op op x
after (load_hl to) x = after_load_hl to x
after (store_hl from) x = after_store_hl from x
after (operate_hl f) x = after_operate_hl f x
after (wide w) x = after_wide w x
after (push q) x = after_push q x
after (pop q) x = after_pop q x
after (jump c k) x = record x { pc = target c k x.regs.fs x.pc }
after (jump_to c low high) x = record x { pc = landing c low high x.regs.fs x.pc }
after (call c low high) x = after_call c low high x
after (return c) x = after_return c x

-- The cells that an instruction reads and writes are of the array alone, and hold bytes; a jump does not go
-- to itself, where the program stops with the option `--exit-infinite-loop`.
abbrev pub IsFit : Code → Config → Type 0
IsFit (load_hl to) x = IsPlain (at_hl x.regs) × IsByte (x.memory (at_hl x.regs))
IsFit (store_hl from) x = IsPlain (at_hl x.regs)
IsFit (operate_hl f) x = IsPlain (at_hl x.regs) × IsByte (x.memory (at_hl x.regs))
IsFit (push q) x = HasRoom x.sp
IsFit (pop q) x = HasWord x.sp x.memory
IsFit (jump c k) x = k ≢ 0xFE
IsFit (call c low high) x = holds c x.regs.fs ≡ true → HasRoom x.sp
IsFit (return c) x = holds c x.regs.fs ≡ true → HasWord x.sp x.memory
IsFit _ x = Unit {0}

module _ (exits : Bool) (s : State) (m : Machine) (shown : Shows s m.cpu) where
  wide-Steps :
      (w : Wide)
      → Holds (encode_wide w) m.cpu.pc m.cpu.memory
      → Returns (execute_instruction exits m) (λ r. Steps (after_wide w (config s m.cpu)) m r.1)
  wide-Steps (increase q) (here, plain, byte, rest) = increase-Steps exits s m shown plain q here
  wide-Steps (decrease q) (here, plain, byte, rest) = decrease-Steps exits s m shown plain q here
  wide-Steps (load_word q low high) held = load_word-Steps exits s m shown held.1 q low high held

  jump-Steps :
      (c : Condition) (k : ℕ)
      → Holds (encode_jump c k) m.cpu.pc m.cpu.memory
      → k ≢ 0xFE
      → Returns (execute_instruction exits m) (λ r. Steps (after (jump c k) (config s m.cpu)) m r.1)
  jump-Steps c k (here, plain, byte, (there, plain', byte', rest)) other =
      Returns_weaken (Jumps c k s m) (λ r. Steps (after (jump c k) (config s m.cpu)) m r.1)
        (execute_instruction exits m)
        (λ r did.
          forget_r8-Steps s (record (moved 2 m.cpu) { pc = target c k s.fs m.cpu.pc }) m r.1 did.0
            did.1 refl refl did.2)
        (jump-Jumps exits c k s m shown plain plain' here there byte' other)

  jump_to-Steps :
      (c : Condition) (low high : ℕ)
      → Holds (encode_jump_to c low high) m.cpu.pc m.cpu.memory
      → Returns
          (execute_instruction exits m)
          (λ r. Steps (after (jump_to c low high) (config s m.cpu)) m r.1)
  jump_to-Steps c low high held =
      Returns_weaken (JumpsTo c low high s m)
        (λ r. Steps (after (jump_to c low high) (config s m.cpu)) m r.1)
        (execute_instruction exits m)
        (λ r did.
          forget_r8-Steps s (record (moved 3 m.cpu) { pc = landing c low high s.fs m.cpu.pc }) m r.1
            did.0 did.1 refl refl did.2)
        (jump_to-JumpsTo exits c low high s m shown held)

  code-Steps :
      (i : Code)
      → Holds (bytes_of i) m.cpu.pc m.cpu.memory
      → IsFit i (config s m.cpu)
      → Returns (execute_instruction exits m) (λ r. Steps (after i (config s m.cpu)) m r.1)
  code-Steps (basic op) held fit = op-Steps exits op s m shown held
  code-Steps (load_hl to) (here, plain, first, rest) (plain', byte) =
      load_hl-Steps exits s m shown plain plain' to here byte
  code-Steps (store_hl from) (here, plain, first, rest) plain' =
      store_hl-Steps exits s m shown plain plain' from here
  code-Steps (operate_hl f) (here, plain, first, rest) (plain', byte) =
      operate_hl-Steps exits s m shown plain plain' f here byte
  code-Steps (wide w) held fit = wide-Steps w held
  code-Steps (push q) held room = push-Steps exits q s m shown held.1 held.0 room
  code-Steps (pop q) held has = pop-Steps exits q s m shown held.1 held.0 has
  code-Steps (jump c k) held other = jump-Steps c k held other
  code-Steps (jump_to c low high) held fit = jump_to-Steps c low high held
  code-Steps (call c low high) held room = call-Steps exits c s m shown low high held room
  code-Steps (return c) held has = return-Steps exits c s m shown held has

pub execute_instruction-Steps :
    (exits : Bool) (i : Code) (x : Config) (m : Machine)
    → IsAt x m
    → Holds (bytes_of i) x.pc x.memory
    → IsFit i x
    → Returns (execute_instruction exits m) (λ r. Steps (after i x) m r.1)
execute_instruction-Steps exits i x m at =
    subst
      (λ z.
        Holds (bytes_of i) z.pc z.memory
        → IsFit i z
        → Returns (execute_instruction exits m) (λ r. Steps (after i z) m r.1))
      at.there (code-Steps exits x.regs m at.shown i)
