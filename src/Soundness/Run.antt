-- ===== src/Soundness/Run.antt =====
-- What holds of every run of the loop of src/main.c, and when a round cannot stop the program.
use emu_gb.Base.{ℕ, ◌≡◌, refl, Bool, true, false, arith, ok, err, Outcome, Ends, Ensures, Returns}
use emu_gb.Machine.{Machine}
use emu_gb.Timer.{reset_timer}
use emu_gb.Stack.{fetch_opcode}
use emu_gb.Instruction.Opcodes.{g_opcodes}
use emu_gb.Program.{TestRom, round, power_on}
use emu_gb.Soundness.{IsMachine}
use emu_gb.Soundness.Registers.{reset_cpu-IsCpu}
use emu_gb.Soundness.Bus.{fetch_opcode-Ends}
use emu_gb.Soundness.Opcodes.{reads_word}
use emu_gb.Soundness.Round.{round-Ends}
use emu_gb.Soundness.Controllers.{
  IsCartridge, Contract-IsCartridge, IsSupported, Contract-IsSupported,
}

-- The state of the loop: the output of a test ROM, and the machine.
abbrev pub State : Type 0
State = TestRom × Machine

-- A step is a round of the loop that returns, or the passing of time outside, which moves the clock
-- that an MBC3 reads.
pub data Step (exits blargg : Bool) : State → State → Type 0 where
  loop :
      (s s' : State)
      → s.1.cpu.is_running ≡ true
      → round exits blargg s ≡ ok s'
      → Step exits blargg s s'
  wait :
      (t : TestRom) (m : Machine) (now : ℕ)
      → Step exits blargg (t, m) (t, record m { cartridge = record (m.cartridge) { now = now } })

-- The states of a run that starts after the resets of `main`.
pub data Reach (exits blargg : Bool) (start : Machine) : State → Type 0 where
  started : (t : TestRom) → Reach exits blargg start (t, power_on start)
  later :
      {s s' : State}
      → Reach exits blargg start s
      → Step exits blargg s s'
      → Reach exits blargg start s'

pub Ends_any : {A : Type 0} (P : A → Type 0) (r : Outcome A) → Ends Unit r P → Ensures r P
Ends_any P (ok a) h = h
Ends_any P (err e) h = tt

pub Ends_never : {A : Type 0} (P : A → Type 0) (r : Outcome A) → Ends ⊥ r P → Returns r P
Ends_never P (ok a) h = h
Ends_never P (err e) h = h

pub Ends_all : {A : Type 0} (P : A → Type 0) (r : Outcome A) → ((a : A) → P a) → Ends Unit r P
Ends_all P (ok a) h = h a
Ends_all P (err e) h = tt

-- A fact that follows from the value that is returned.
Ends_of_value :
    {A : Type 0} (P Q : A → Type 0) (r : Outcome A)
    → Ends ⊥ r P
    → ((a : A) → r ≡ ok a → Q a)
    → Ends ⊥ r Q
Ends_of_value P Q (ok a) h k = k a refl
Ends_of_value P Q (err e) h k = h

-- For every cartridge and any options: a round that returns keeps every register, memory cell and bank
-- register in its width.
pub round-IsMachine :
    (exits blargg : Bool) (t : TestRom) (m : Machine)
    → IsMachine IsCartridge m
    → Ensures (round exits blargg (t, m)) (λ x. IsMachine IsCartridge x.1)
round-IsMachine exits blargg t m h = Ends_any _ (round exits blargg (t, m)) (
    round-Ends Contract-IsCartridge exits (λ _. tt) blargg t m h (λ _. tt)
      (λ _. Ends_all _ (fetch_opcode m) (λ r _. tt)))

pub power_on-IsMachine :
    (m : Machine) → IsMachine IsCartridge m → IsMachine IsCartridge (power_on m)
unfolding power_on reset_timer
power_on-IsMachine m h = record {
  is_cpu = reset_cpu-IsCpu m.cpu h.is_cpu;
  is_timer = record {
    div_word = omega arith;
    tima_byte = h.is_timer.tima_byte;
    tma_byte = h.is_timer.tma_byte;
    tac_byte = h.is_timer.tac_byte;
  };
  is_interrupts = h.is_interrupts;
  is_cartridge = h.is_cartridge;
}

-- With a supported cartridge of full size, and without the options for test ROMs and for endless loops,
-- a round returns, with state and cartridge still in order, unless the CPU runs and the opcode at PC is
-- a load of A through a 16-bit read.
pub round-Returns :
    (t : TestRom) (m : Machine)
    → IsMachine IsSupported m
    → (m.cpu.halt ≡ false
        → (opcode : ℕ) (m1 : Machine) → fetch_opcode m ≡ ok (opcode, m1)
        → reads_word (g_opcodes opcode).operands ≡ false)
    → Returns (round false false (t, m)) (λ x. IsMachine IsSupported x.1)
round-Returns t m h no_word = Ends_never _ (round false false (t, m)) (
    round-Ends Contract-IsSupported false (λ e. cc) false t m h (λ e. cc)
      (λ runs.
        Ends_of_value (λ r. IsMachine IsSupported r.1) _ (fetch_opcode m)
          (fetch_opcode-Ends Contract-IsSupported m h)
          (λ r e on. ground (arith, no_word runs r.0 r.1 e))))
