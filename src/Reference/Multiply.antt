-- ===== src/Reference/Multiply.antt =====
-- A program with a loop, run by src/main.c: the product of B and C by repeated addition.
use emu_gb.Base.{
  ℕ, ◌≤◌, ◌-◌, zero, suc, ◌+◌, ◌*◌, ◌%◌, ◌<◌, ◌≡◌, ◌∙◌, refl, sym, ap, arith, Bool, List, ◌++◌,
  IsByte, Returns, Returns_weaken,
}
use Prim.Native.Nat.mul
use emu_gb.Cpu.{reg_a, reg_b, reg_c}
use emu_gb.Cpu.View.{flags_of}
use emu_gb.Machine.{Machine}
use emu_gb.Program.{TestRom, rounds}
use emu_gb.Reference.{State, a, b, c, add, load_byte, operate, decrement, encode, step}
use emu_gb.Reference.Decode.{place}
use emu_gb.Reference.Shows.{Shows}
use emu_gb.Reference.Place.{Holds, IsReady}
use emu_gb.Reference.Jump.{if_nz, encode_jump, target}
use emu_gb.Reference.Config.{Config, config}
use emu_gb.Reference.Code.{basic, jump, after}
use emu_gb.Reference.Runs.{Runs, stays, does, Arrives, rounds-Runs}

-- `LD A,0`, and the loop `ADD A,C`, `DEC B`, `JR NZ,-4`.
abbrev pub loop_bytes : List ℕ
loop_bytes = encode (operate add c) ++ (encode (decrement b) ++ encode_jump if_nz 0xFC)

abbrev pub multiply_bytes : List ℕ
multiply_bytes = encode (load_byte a 0) ++ loop_bytes

-- A state behind the loop.
record IsProduct (x y before : ℕ) (end : State) : Type 0 where
  sum : end.value a ≡ (before + x * y) % 256
  done : end.value b ≡ 0
  same : end.value c ≡ y

-- One addition more, modulo 256.
sum_next : (x y k : ℕ) → ((x + y) % 256 + k * y) % 256 ≡ (x + suc k * y) % 256
sum_next x y k = rw (mul.suc k y) (omega arith)

module _ (x : Config) (held : Holds loop_bytes x.pc x.memory) (room : x.pc + 4 < 65536) where
  -- The loop in a state, and its end.
  abbrev at_loop : State → Config
  at_loop s = record x { regs = s }

  abbrev behind_loop : State → Config
  behind_loop s = record x { pc = x.pc + 4; regs = s }

  abbrev looped : State → State
  looped s = step (decrement b) (step (operate add c) s)

  once :
      {n : ℕ} {y : Config} (s : State)
      → Runs n (record x { pc = target if_nz 0xFC (looped s).fs (x.pc + 1 + 1); regs = looped s }) y
      → Runs (suc (suc (suc n))) (at_loop s) y
  once s rest =
      does (basic (operate add c)) (held.0, held.1, held.2, tt) tt
        (does (basic (decrement b)) (held.3.0, held.3.1, held.3.2, tt) tt
          (does (jump if_nz 0xFC) held.3.3 (omega arith) rest))

  loop-Runs :
      (k : ℕ) (s : State)
      → k < 255
      → s.value b ≡ suc k
      → (end : State) × Runs (3 * suc k) (at_loop s) (behind_loop end)
        × IsProduct (suc k) (s.value c) (s.value a) end
  loop-Runs zero s fits counter =
      let last : target if_nz 0xFC (looped s).fs (x.pc + 1 + 1) ≡ x.pc + 4 =
        rw counter (omega arith) in
      (
        looped s,
        once s (rw last stays),
        record {
          sum = (let one : 1 * s.value c ≡ s.value c = omega arith in rw one refl);
          done = rw counter refl;
          same = refl;
        },
      )
  loop-Runs (suc k) s fits counter =
      let down : (s.value b + 255) % 256 ≡ suc k = rw counter (omega arith) in
      let back : target if_nz 0xFC (looped s).fs (x.pc + 1 + 1) ≡ x.pc = rw down (ground arith) in
      let count : 3 * suc (suc k) ≡ suc (suc (suc (3 * suc k))) = omega arith in
      let (end, rest, product) = loop-Runs k (looped s) (omega arith) down in
      (
        end,
        rw count (once s (rw back rest)),
        record {
          sum = product.sum ∙ sum_next (s.value a) (s.value c) (suc k);
          done = product.done;
          same = product.same;
        },
      )

-- The state that the registers show.
abbrev pub state_of : Machine → State
state_of m = record { value = λ r. m.cpu.r8 (place r); fs = flags_of m.cpu }

pub state_of-Shows : (m : Machine) → ((k : ℕ) → IsByte (m.cpu.r8 k)) → Shows (state_of m) m.cpu
state_of-Shows m bytes = record {
  values = λ r. refl;
  bytes = λ r. bytes (place r);
  flags_shown = refl;
}

-- Where no interrupt is enabled and the CPU is not halted, the program `LD A,0`, `ADD A,C`, `DEC B`, `JR NZ,-4`,
-- in memory above the cartridge, ends for every B but 0, after 1 + 3 * B rounds of the loop, none of which stops
-- the program, with the product of B and C modulo 256 in A; B is 0, and C, memory and SP are as before.
pub rounds_multiply :
    (exits : Bool) (t : TestRom) (m : Machine)
    → IsReady m
    → ((k : ℕ) → IsByte (m.cpu.r8 k))
    → Holds multiply_bytes m.cpu.pc m.cpu.memory
    → m.cpu.pc + 6 < 65536
    → 1 ≤ m.cpu.r8 reg_b
    → Returns (rounds exits (1 + 3 * m.cpu.r8 reg_b) (t, m)) (λ r.
      (r.1.cpu.r8 reg_a ≡ (m.cpu.r8 reg_b * m.cpu.r8 reg_c) % 256)
      × (r.1.cpu.r8 reg_b ≡ 0)
      × (r.1.cpu.r8 reg_c ≡ m.cpu.r8 reg_c)
      × (r.1.cpu.pc ≡ m.cpu.pc + 6)
      × (r.1.cpu.memory ≡ m.cpu.memory)
      × (r.1.cpu.sp ≡ m.cpu.sp))
rounds_multiply exits t m ready bytes held room some_b =
    let s = state_of m in
    let k = m.cpu.r8 reg_b - 1 in
    let counter : m.cpu.r8 reg_b ≡ suc k = omega arith in
    let two : m.cpu.pc + 1 + 1 ≡ m.cpu.pc + 2 = omega arith in
    let rest : Holds loop_bytes (m.cpu.pc + 2) m.cpu.memory = rw two at held.3.3 in
    let x = config s m.cpu in
    let start = after (basic (load_byte a 0)) x in
    let (end, run, product) =
      loop-Runs start rest (omega arith) k (step (load_byte a 0) s) (omega (arith, bytes reg_b))
        counter in
    let whole : Runs (suc (3 * suc k)) x (record start { pc = m.cpu.pc + 2 + 4; regs = end }) =
      does (basic (load_byte a 0)) (held.0, held.1, held.2, (held.3.0, held.3.1, held.3.2, tt)) tt
        run in
    let count : 1 + 3 * m.cpu.r8 reg_b ≡ suc (3 * suc k) = omega (arith, counter) in
    let behind : m.cpu.pc + 2 + 4 ≡ m.cpu.pc + 6 = omega arith in
    let total : 0 + suc k * m.cpu.r8 reg_c ≡ m.cpu.r8 reg_b * m.cpu.r8 reg_c =
      omega arith ∙ ap (λ x. x * m.cpu.r8 reg_c) (sym counter) in
    rw count (
      Returns_weaken (Arrives (record start { pc = m.cpu.pc + 2 + 4; regs = end }) t) _
        (rounds exits (suc (3 * suc k)) (t, m))
        (λ r arrived. (
          arrived.is_at.shown.values a ∙ product.sum ∙ ap (λ x. x % 256) total,
          arrived.is_at.shown.values b ∙ product.done,
          arrived.is_at.shown.values c ∙ product.same,
          ap (λ (y : Config). y.pc) arrived.is_at.there ∙ behind,
          ap (λ (y : Config). y.memory) arrived.is_at.there,
          ap (λ (y : Config). y.sp) arrived.is_at.there,
        ))
        (rounds-Runs exits t m whole ready
          (record { shown = state_of-Shows m bytes; there = refl })))
