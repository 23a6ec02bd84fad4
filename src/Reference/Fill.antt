-- ===== src/Reference/Fill.antt =====
-- A program that writes to memory, run by src/main.c: B cells from HL on become the byte in A.
use emu_gb.Base.{
  ℕ, ◌≤◌, ◌-◌, zero, suc, ◌+◌, ◌*◌, ◌%◌, ◌<◌, ◌≡◌, ◌∙◌, ◌⊎◌, inl, inr, refl, ap, arith, Bool, List,
  ◌++◌, IsByte, Returns, Returns_weaken, update,
}
use emu_gb.Cpu.{reg_a, reg_b, reg_hl, read_register_16bit}
use emu_gb.Machine.{Machine}
use emu_gb.Program.{TestRom, rounds}
use emu_gb.Reference.{State, a, b, h, l, decrement, encode, step}
use emu_gb.Reference.Place.{Holds, Holds-update, IsReady}
use emu_gb.Reference.Jump.{if_nz, target}
use emu_gb.Reference.Config.{Config, config}
use emu_gb.Reference.Indirect.{at_hl, read_hl}
use emu_gb.Reference.Pairs.{hl, increase, put_word}
use emu_gb.Reference.Code.{basic, store_hl, wide, jump, bytes_of}
use emu_gb.Reference.Runs.{Runs, stays, does, Arrives, rounds-Runs}
use emu_gb.Reference.Multiply.{state_of, state_of-Shows}

-- `LD (HL),A`, `INC HL`, `DEC B`, `JR NZ,-5`.
abbrev pub fill_bytes : List ℕ
fill_bytes =
    bytes_of (store_hl a)
    ++ (bytes_of (wide (increase hl)) ++ (encode (decrement b) ++ bytes_of (jump if_nz 0xFB)))

-- The cells from HL on lie in the array alone, and are not those of the program.
record HasCells (n : ℕ) (x : Config) : Type 0 where
  from : 0x8000 ≤ at_hl x.regs
  room : at_hl x.regs + n ≤ 0xFF00
  apart : (at_hl x.regs + n ≤ x.pc) ⊎ (x.pc + 5 ≤ at_hl x.regs)
  high_byte : IsByte (x.regs.value h)
  low_byte : IsByte (x.regs.value l)
  held : Holds fill_bytes x.pc x.memory
  behind : x.pc + 5 < 65536

-- Behind `n` passes: `n` cells from HL on are filled, and no other is touched.
record IsFilled (n : ℕ) (x y : Config) : Type 0 where
  inside : (k : ℕ) → at_hl x.regs ≤ k → k < at_hl x.regs + n → y.memory k ≡ x.regs.value a
  outside : (k : ℕ) → (k < at_hl x.regs) ⊎ (at_hl x.regs + n ≤ k) → y.memory k ≡ x.memory k
  done : y.regs.value b ≡ 0
  same : y.regs.value a ≡ x.regs.value a
  moved : at_hl y.regs ≡ at_hl x.regs + n
  passed : y.pc ≡ x.pc + 5
  same_sp : y.sp ≡ x.sp

module _ (x : Config) where
  abbrev filled_one : ℕ → ℕ
  filled_one = update x.memory (at_hl x.regs) (x.regs.value a)

  abbrev passed_once : State
  passed_once = step (decrement b) (put_word hl ((at_hl x.regs + 1) % 65536) x.regs)

  still_held : {k : ℕ} → HasCells (suc k) x → Holds fill_bytes x.pc filled_one
  still_held cells =
      Holds-update fill_bytes (at_hl x.regs) x.pc (x.regs.value a) x.memory
        (elim cells.apart [ inl below ↦ inl (omega arith) | inr above ↦ inr (omega arith) ])
        cells.held

  once :
      {n k : ℕ} {y : Config}
      → HasCells (suc k) x
      → Runs n
          (record x {
            pc = target if_nz 0xFB passed_once.fs (x.pc + 1 + 1 + 1);
            memory = filled_one;
            regs = passed_once;
          })
          y
      → Runs (suc (suc (suc (suc n)))) x y
  once cells rest =
      let hold = cells.held in
      let still = still_held cells in
      does (store_hl a) (hold.0, hold.1, hold.2, tt) (inl (cells.from, omega (arith, cells.room)))
        (does (wide (increase hl)) (still.3.0, still.3.1, still.3.2, tt) tt
          (does (basic (decrement b)) (still.3.3.0, still.3.3.1, still.3.3.2, tt) tt
            (does (jump if_nz 0xFB) still.3.3.3 (omega arith) rest)))

  moved_one : {k : ℕ} → HasCells (suc k) x → at_hl passed_once ≡ at_hl x.regs + 1
  moved_one cells = omega (arith, cells.room)

  abbrev next : Config
  next = record x { memory = filled_one; regs = passed_once }

  next_cells : {k : ℕ} → HasCells (suc (suc k)) x → HasCells (suc k) next
  next_cells cells =
      let at = moved_one cells in
      record {
        from = rw at (omega (arith, cells.from));
        room = rw at (omega (arith, cells.room));
        apart =
            rw at
              (elim cells.apart [ inl below ↦ inl (omega arith) | inr above ↦ inr (omega arith) ]);
        high_byte = omega arith;
        low_byte = omega arith;
        held = still_held cells;
        behind = cells.behind;
      }

  filled_here : (k : ℕ) → at_hl x.regs ≡ k → filled_one k ≡ x.regs.value a
  filled_here k here = ground arith

  filled_elsewhere : (k : ℕ) → (k < at_hl x.regs) ⊎ (at_hl x.regs < k) → filled_one k ≡ x.memory k
  filled_elsewhere k there = ground arith

  -- One pass in front of others.
  first_IsFilled :
      {k : ℕ} {y : Config}
      → HasCells (suc (suc k)) x
      → IsFilled (suc k) next y
      → IsFilled (suc (suc k)) x y
  first_IsFilled {k = k} cells filled =
      let at = moved_one cells in
      record {
        inside = λ j from to.
            let either : (at_hl x.regs ≡ j) ⊎ (at_hl x.regs + 1 ≤ j) = omega arith in
            elim either [
              | inl here ↦ filled.outside j (inl (omega (arith, at))) ∙ filled_here j here
              | inr later ↦ filled.inside j (omega (arith, at)) (omega (arith, at))
            ];
        outside = λ j away.
            filled.outside j (elim away [
              | inl below ↦ inl (omega (arith, at))
              | inr above ↦ inr (omega (arith, at))
            ])
            ∙ filled_elsewhere j
                (elim away [ inl below ↦ inl below | inr above ↦ inr (omega arith) ]);
        done = filled.done;
        same = filled.same;
        moved = filled.moved ∙ ap (λ n. n + suc k) at ∙ omega arith;
        passed = filled.passed;
        same_sp = filled.same_sp;
      }

loop-Runs :
    (k : ℕ) (x : Config)
    → k < 255
    → x.regs.value b ≡ suc k
    → HasCells (suc k) x
    → (y : Config) × Runs (4 * suc k) x y × IsFilled (suc k) x y
loop-Runs zero x fits counter cells =
    let last : target if_nz 0xFB (passed_once x).fs (x.pc + 1 + 1 + 1) ≡ x.pc + 5 =
      rw counter (omega (arith, cells.behind)) in
    (
      record (next x) { pc = x.pc + 5 },
      once x cells (rw last stays),
      record {
        inside = λ k from to. filled_here x k (omega arith);
        outside = λ k away.
            filled_elsewhere x k
              (elim away [ inl below ↦ inl below | inr above ↦ inr (omega arith) ]);
        done = rw counter refl;
        same = refl;
        moved = moved_one x cells;
        passed = refl;
        same_sp = refl;
      },
    )
loop-Runs (suc k) x fits counter cells =
    let down : (x.regs.value b + 255) % 256 ≡ suc k = rw counter (omega arith) in
    let back : target if_nz 0xFB (passed_once x).fs (x.pc + 1 + 1 + 1) ≡ x.pc =
      rw down (ground (arith, cells.behind)) in
    let count : 4 * suc (suc k) ≡ suc (suc (suc (suc (4 * suc k)))) = omega arith in
    let (y, rest, filled) = loop-Runs k (next x) (omega arith) down (next_cells x cells) in
    (y, rw count (once x cells (rw back rest)), first_IsFilled x cells filled)

-- Where no interrupt is enabled and the CPU is not halted, the program `LD (HL),A`, `INC HL`, `DEC B`,
-- `JR NZ,-5`, in memory above the cartridge, ends for every B but 0, if the B cells from HL on lie from 0x8000
-- on and below 0xFF00, apart from it: after 4 * B rounds of the loop, none of which stops the program, these
-- cells hold A, all other memory, A and SP are as before, B is 0 and HL is behind the cells.
pub rounds_fill :
    (exits : Bool) (t : TestRom) (m : Machine)
    → IsReady m
    → ((k : ℕ) → IsByte (m.cpu.r8 k))
    → Holds fill_bytes m.cpu.pc m.cpu.memory
    → m.cpu.pc + 5 < 65536
    → 1 ≤ m.cpu.r8 reg_b
    → 0x8000 ≤ read_register_16bit reg_hl m.cpu
    → read_register_16bit reg_hl m.cpu + m.cpu.r8 reg_b ≤ 0xFF00
    → (read_register_16bit reg_hl m.cpu + m.cpu.r8 reg_b ≤ m.cpu.pc)
      ⊎ (m.cpu.pc + 5 ≤ read_register_16bit reg_hl m.cpu)
    → Returns (rounds exits (4 * m.cpu.r8 reg_b) (t, m)) (λ r.
      ((k : ℕ)
        → read_register_16bit reg_hl m.cpu ≤ k
        → k < read_register_16bit reg_hl m.cpu + m.cpu.r8 reg_b
        → r.1.cpu.memory k ≡ m.cpu.r8 reg_a)
      × ((k : ℕ)
          → (k < read_register_16bit reg_hl m.cpu)
            ⊎ (read_register_16bit reg_hl m.cpu + m.cpu.r8 reg_b ≤ k)
          → r.1.cpu.memory k ≡ m.cpu.memory k)
      × (r.1.cpu.r8 reg_a ≡ m.cpu.r8 reg_a)
      × (r.1.cpu.r8 reg_b ≡ 0)
      × (read_register_16bit reg_hl r.1.cpu ≡ read_register_16bit reg_hl m.cpu + m.cpu.r8 reg_b)
      × (r.1.cpu.pc ≡ m.cpu.pc + 5)
      × (r.1.cpu.sp ≡ m.cpu.sp))
rounds_fill exits t m ready bytes held room some_b start end apart =
    let s = state_of m in
    let shown = state_of-Shows m bytes in
    let k = m.cpu.r8 reg_b - 1 in
    let counter : m.cpu.r8 reg_b ≡ suc k = omega arith in
    let here : read_register_16bit reg_hl m.cpu ≡ at_hl s = read_hl s m.cpu shown in
    let x = config s m.cpu in
    let cells : HasCells (suc k) x = record {
      from = (rw here at start);
      room = omega (arith, here, counter);
      apart = elim apart [
        | inl below ↦ inl (omega (arith, here, counter))
        | inr above ↦ inr (omega (arith, here))
      ];
      high_byte = bytes 6;
      low_byte = bytes 7;
      held = held;
      behind = room;
    } in
    let (y, run, filled) = loop-Runs k x (omega (arith, bytes reg_b)) counter cells in
    rw (here, counter)
      (Returns_weaken (Arrives y t) _ (rounds exits (4 * suc k) (t, m))
        (λ r arrived.
          let at = arrived.is_at in
          let memory_at : r.1.cpu.memory ≡ y.memory = ap (λ (y : Config). y.memory) at.there in
          (
            (λ j from to. ap (λ f. f j) memory_at ∙ filled.inside j from to),
            (λ j away. ap (λ f. f j) memory_at ∙ filled.outside j away),
            at.shown.values a ∙ filled.same,
            at.shown.values b ∙ filled.done,
            read_hl y.regs r.1.cpu at.shown ∙ filled.moved,
            ap (λ (y : Config). y.pc) at.there ∙ filled.passed,
            ap (λ (y : Config). y.sp) at.there ∙ filled.same_sp,
          ))
        (rounds-Runs exits t m run ready (record { shown = shown; there = refl })))
