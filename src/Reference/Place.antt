-- ===== src/Reference/Place.antt =====
-- Instructions at a place in memory, and the conditions under which src/main.c executes them.
use emu_gb.Base.{
  ◌&&◌, ltb, ℕ, suc, ◌+◌, ◌<◌, ◌≤◌, ◌≡◌, ◌==◌, ◌⊎◌, inl, inr, update, arith, Bool, true, false,
  List, [], ◌∷◌, ◌++◌, length, Returns, IsByte,
}
use Prim.Native.Nat.{bit_and-bitwise}
use emu_gb.Machine.{Machine}
use emu_gb.Memory.Plain.{IsPlain}
use emu_gb.Interrupt.{interrupt_is_set, interrupt_is_enabled}
use emu_gb.Interrupt.Priority.{is_waiting}
use emu_gb.Instruction.Execute.{execute_instruction}
use emu_gb.Reference.{
  State, Op, nop, adjust, load, load_byte, increment, decrement, operate, operate_byte, encode,
}
use emu_gb.Reference.Shows.{Shows}
use emu_gb.Reference.Step.{
  Does, nop-Does, adjust-Does, load-Does, load_byte-Does, increment-Does, decrement-Does,
  operate-Does, operate_byte-Does,
}

-- The bytes lie from `k` on, in cells of the array alone.
abbrev pub Holds : List ℕ → ℕ → (ℕ → ℕ) → Type 0
Holds [] k memory = Unit {0}
Holds (x ∷ xs) k memory = (memory k ≡ x) × IsPlain k × IsByte x × Holds xs (k + 1) memory

pub Holds-append :
    (xs ys : List ℕ) (k : ℕ) (memory : ℕ → ℕ)
    → Holds (xs ++ ys) k memory
    → Holds xs k memory × Holds ys (k + length xs) memory
Holds-append [] ys k memory h = let same : k + 0 ≡ k = omega arith in (tt, rw same h)
Holds-append (x ∷ xs) ys k memory (cell, plain, byte, rest) =
    let next : k + suc (length xs) ≡ k + 1 + length xs = omega arith in
    let ih = Holds-append xs ys (k + 1) memory rest in ((cell, plain, byte, ih.0), rw next ih.1)

-- An instruction whose bytes lie at PC is one step.
pub execute_instruction-Does :
    (exits : Bool) (op : Op) (s : State) (m : Machine)
    → Shows s m.cpu
    → Holds (encode op) m.cpu.pc m.cpu.memory
    → Returns (execute_instruction exits m) (Does op s m)
execute_instruction-Does exits nop s m shown (cell, plain, byte, rest) =
    nop-Does exits s m shown plain cell
execute_instruction-Does exits (adjust f) s m shown (cell, plain, byte, rest) =
    adjust-Does exits s m shown plain f cell
execute_instruction-Does exits (load to from) s m shown (cell, plain, byte, rest) =
    load-Does exits s m shown plain to from cell
execute_instruction-Does exits (load_byte to n) s m shown
      (cell, plain, byte, (cell', plain', byte', rest)) =
    load_byte-Does exits s m shown plain n plain' cell' byte' to cell
execute_instruction-Does exits (increment r) s m shown (cell, plain, byte, rest) =
    increment-Does exits s m shown plain r cell
execute_instruction-Does exits (decrement r) s m shown (cell, plain, byte, rest) =
    decrement-Does exits s m shown plain r cell
execute_instruction-Does exits (operate f r) s m shown (cell, plain, byte, rest) =
    operate-Does exits s m shown plain f r cell
execute_instruction-Does exits (operate_byte f n) s m shown
      (cell, plain, byte, (cell', plain', byte', rest)) =
    operate_byte-Does exits s m shown plain n plain' cell' byte' f cell

-- The program runs, the CPU is not halted, and no interrupt is enabled.
pub record IsReady (m : Machine) : Type 0 where
  pub running : m.cpu.is_running ≡ true
  pub awake : m.cpu.halt ≡ false
  pub disabled : m.interrupts.ie_reg ≡ 0

pub none_waits : (m : Machine) (j : ℕ) → m.interrupts.ie_reg ≡ 0 → is_waiting j m ≡ false
unfolding interrupt_is_set interrupt_is_enabled
none_waits m j e = rw e (simp bit_and-bitwise (ground arith))

-- A write elsewhere leaves the bytes.
pub Holds-update :
    (xs : List ℕ) (j k v : ℕ) (memory : ℕ → ℕ)
    → (j < k) ⊎ (k + length xs ≤ j)
    → Holds xs k memory
    → Holds xs k (update memory j v)
Holds-update [] j k v memory apart held = tt
Holds-update (x ∷ xs) j k v memory apart (cell, plain, byte, rest) =
    let other : (j == k) ≡ false = elim apart [
      | inl below ↦ ground arith
      | inr above ↦ ground arith
    ] in
    (
      rw other cell,
      plain,
      byte,
      Holds-update xs j (k + 1) v memory
          (elim apart [ inl below ↦ inl (omega arith) | inr above ↦ inr (omega arith) ]) rest,
    )

-- The bytes lie there, as a test.
abbrev pub are_there : List ℕ → ℕ → (ℕ → ℕ) → Bool
are_there [] k memory = true
are_there (x ∷ xs) k memory = (memory k == x) && (ltb x 256 && are_there xs (k + 1) memory)

pub are_there-Holds :
    (xs : List ℕ) (k : ℕ) (memory : ℕ → ℕ)
    → are_there xs k memory ≡ true
    → 0x8000 ≤ k
    → k + length xs ≤ 0xFF00
    → Holds xs k memory
are_there-Holds [] k memory they_are from to = tt
are_there-Holds (x ∷ xs) k memory they_are from to = (
  ground arith,
  inl (from, omega arith),
  ground arith,
  are_there-Holds xs (k + 1) memory (ground arith) (omega arith) (omega arith),
)
