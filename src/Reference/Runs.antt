-- ===== src/Reference/Runs.antt =====
-- Runs of the reference machine through a program, against rounds of the loop of src/main.c.
use emu_gb.Base.{
  ℕ, ◌++◌, [], ◌∷◌, zero, suc, ◌+◌, ◌≡◌, ◌∙◌, refl, arith, Bool, false, List, length, Outcome, ok,
  err, ◌>>=◌, Returns,
}
use emu_gb.Machine.{Machine}
use emu_gb.Interrupt.Priority.{handle_interrupts-idle}
use emu_gb.Interrupt.Service.{handle_interrupts}
use emu_gb.Instruction.Execute.{execute_instruction}
use emu_gb.Program.{TestRom, round, rounds}
use emu_gb.Reference.{Op, encode, encode_all, run}
use emu_gb.Reference.Place.{Holds, Holds-append, IsReady, none_waits}
use emu_gb.Reference.Config.{Config, Steps, IsAt, next-IsReady}
use emu_gb.Reference.Code.{Code, basic, bytes_of, after, IsFit, execute_instruction-Steps}

-- `n` instructions lead from one place to another, each of which lies in memory where PC then is.
pub data Runs : ℕ → Config → Config → Type 0 where
  stays : {x : Config} → Runs zero x x
  does :
      {n : ℕ} {x y : Config} (i : Code)
      → Holds (bytes_of i) x.pc x.memory
      → IsFit i x
      → Runs n (after i x) y
      → Runs (suc n) x y

-- One run behind another.
pub append-Runs : {n k : ℕ} {x y z : Config} → Runs n x y → Runs k y z → Runs (n + k) x z
append-Runs {k = k} stays more = let none : 0 + k ≡ k = omega arith in rw none more
append-Runs {n = suc n} {k = k} (does i held fit rest) more =
    let one : suc n + k ≡ suc (n + k) = omega arith in
    rw one (does i held fit (append-Runs rest more))

-- The machine is where the run ends, and can go on from there; the output of test ROMs is as before.
pub record Arrives (y : Config) (t : TestRom) (r : TestRom × Machine) : Type 0 where
  pub is_at : IsAt y r.1
  pub is_ready : IsReady r.1
  pub same_output : r.0 ≡ t

round-Steps :
    (exits : Bool) (x : Config) (t : TestRom) (m : Machine)
    → IsReady m
    → Returns (execute_instruction exits m) (λ r. Steps x m r.1)
    → Returns (round exits false (t, m)) (λ r. (r.0 ≡ t) × Steps x m r.1)
unfolding round
round-Steps exits x t m ready h = simp ready.awake (go (execute_instruction exits m) h)
  where
    go :
        (r : Outcome (ℕ × Machine))
        → Returns r (λ r. Steps x m r.1)
        → Returns
            (do m1 ← (do (cycles, m1) ← r; ok m1); (cycles, m2) ← handle_interrupts m1; ok (t, m2))
            (λ (r : TestRom × Machine). (r.0 ≡ t) × Steps x m r.1)
    go (ok (n, m1)) did =
        rw (handle_interrupts-idle m1 (λ j h. none_waits m1 j (did.enabled ∙ ready.disabled)))
          (refl, did)
    go (err e) did = did

-- A step in front of a run.
before-Arrives :
    (x y : Config) (exits : Bool) (n : ℕ) (t : TestRom) (m : Machine)
    → IsReady m
    → Returns (execute_instruction exits m) (λ r. Steps x m r.1)
    → ((m1 : Machine) → IsReady m1 → IsAt x m1 → Returns (rounds exits n (t, m1)) (Arrives y t))
    → Returns (rounds exits (suc n) (t, m)) (Arrives y t)
unfolding rounds
before-Arrives x y exits n t m ready first rest =
    simp ready.running (go (round exits false (t, m)) (round-Steps exits x t m ready first))
  where
    go :
        (r : Outcome (TestRom × Machine))
        → Returns r (λ r. (r.0 ≡ t) × Steps x m r.1)
        → Returns (do s1 ← r; rounds exits n s1) (Arrives y t)
    go (ok (t1, m1)) (same, did) = rw same (rest m1 (next-IsReady did ready) did.is_at)
    go (err e) did = did

-- Where no interrupt is enabled and the CPU is not halted, a run of the reference machine, in
-- memory above the cartridge, through NOP, the loads, arithmetic, logic, rotations of A, DAA,
-- CPL, SCF and CCF on byte registers, the loads, stores and operations on A with the byte at HL,
-- the loads of words, INC, DEC, PUSH and POP of BC, DE and HL, JR except to itself, JP to an
-- address, CALL and RET, with their accesses to memory above the cartridge and outside of the
-- I/O ports and IE, is one of the program: after as many rounds of the loop, none of which stops
-- the program, PC, SP, memory, the registers and the flags are those of the end of the run, and
-- the output of test ROMs is as before.
pub rounds-Runs :
    {n : ℕ} {x y : Config} (exits : Bool) (t : TestRom) (m : Machine)
    → Runs n x y
    → IsReady m
    → IsAt x m
    → Returns (rounds exits n (t, m)) (Arrives y t)
unfolding rounds
rounds-Runs exits t m stays ready at = record { is_at = at; is_ready = ready; same_output = refl }
rounds-Runs {n = suc n} {x = x} {y = y} exits t m (does i held fit rest) ready at =
    before-Arrives (after i x) y exits n t m ready
      (execute_instruction-Steps exits i x m at held fit)
      (λ m1 ready1 at1. rounds-Runs exits t m1 rest ready1 at1)

length-append : (xs ys : List ℕ) → length (xs ++ ys) ≡ length xs + length ys
length-append [] ys = omega arith
length-append (x ∷ xs) ys = omega (arith, length-append xs ys)

-- A program without jumps is a run.
pub line-Runs :
    (ops : List Op) (x : Config)
    → Holds (encode_all ops) x.pc x.memory
    → Runs (length ops) x (record x { pc = x.pc + length (encode_all ops); regs = run ops x.regs })
unfolding run
line-Runs [] x held = let same : x.pc + 0 ≡ x.pc = omega arith in rw same stays
line-Runs (op ∷ ops) x held =
    let parts = Holds-append (encode op) (encode_all ops) x.pc x.memory held in
    let rest = line-Runs ops (after (basic op) x) parts.1 in
    let behind : x.pc + length (encode op) + length (encode_all ops)
        ≡ x.pc + length (encode op ++ encode_all ops) =
      omega (arith, length-append (encode op) (encode_all ops)) in
    does (basic op) parts.0 tt (rw behind at rest)
