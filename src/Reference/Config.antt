-- ===== src/Reference/Config.antt =====
-- The reference machine with PC, SP and a memory: where an instruction takes it, and when the machine of
-- src/main.c is there.
use emu_gb.Base.{ℕ, ◌+◌, ◌≡◌, ◌∙◌, ap, refl, Bool, false, Returns, Returns_weaken, length}
use emu_gb.Cpu.{Cpu}
use emu_gb.Machine.{Machine}
use emu_gb.Instruction.Execute.{execute_instruction}
use emu_gb.Reference.{State, Op, encode, step}
use emu_gb.Reference.Shows.{Shows, forget_r8, shows_r8}
use emu_gb.Reference.Step.{Does}
use emu_gb.Reference.Place.{Holds, IsReady, execute_instruction-Does}

pub record Config : Type 0 where
  pub pc : ℕ
  pub sp : ℕ
  pub memory : ℕ → ℕ
  pub regs : State

-- The configuration of a CPU that shows `s`.
abbrev pub config : State → Cpu → Config
config s p = record { pc = p.pc; sp = p.sp; memory = p.memory; regs = s }

-- The machine is where the configuration says.
pub record IsAt (x : Config) (m : Machine) : Type 0 where
  pub shown : Shows x.regs m.cpu
  pub there : config x.regs m.cpu ≡ x

-- A step of the program that leaves the machine there, running, and with no interrupt enabled or disabled.
pub record Steps (x : Config) (m m1 : Machine) : Type 0 where
  pub is_at : IsAt x m1
  pub running : m1.cpu.is_running ≡ m.cpu.is_running
  pub awake : m1.cpu.halt ≡ m.cpu.halt
  pub enabled : m1.interrupts.ie_reg ≡ m.interrupts.ie_reg

pub next-IsReady : {x : Config} {m m1 : Machine} → Steps x m m1 → IsReady m → IsReady m1
next-IsReady did ready = record {
  running = did.running ∙ ready.running;
  awake = did.awake ∙ ready.awake;
  disabled = did.enabled ∙ ready.disabled;
}

-- The machine goes to another CPU but for the byte registers.
pub forget_r8-Steps :
    (s : State) (p : Cpu) (m m1 : Machine)
    → Shows s m1.cpu
    → forget_r8 m1.cpu ≡ forget_r8 p
    → p.is_running ≡ m.cpu.is_running
    → p.halt ≡ m.cpu.halt
    → m1.interrupts.ie_reg ≡ m.interrupts.ie_reg
    → Steps (config s p) m m1
forget_r8-Steps s p m m1 shown same running awake enabled = record {
  is_at = record { shown = shown; there = ap (config s) same };
  running = ap (λ (c : Cpu). c.is_running) same ∙ running;
  awake = ap (λ (c : Cpu). c.halt) same ∙ awake;
  enabled = enabled;
}

-- An instruction on byte registers.
abbrev pub after_op : Op → Config → Config
after_op op x = record x { pc = x.pc + length (encode op); regs = step op x.regs }

pub op-Steps :
    (exits : Bool) (op : Op) (s : State) (m : Machine)
    → Shows s m.cpu
    → Holds (encode op) m.cpu.pc m.cpu.memory
    → Returns (execute_instruction exits m) (λ r. Steps (after_op op (config s m.cpu)) m r.1)
op-Steps exits op s m shown held =
    Returns_weaken (Does op s m) (λ r. Steps (after_op op (config s m.cpu)) m r.1)
      (execute_instruction exits m)
      (λ r did.
        forget_r8-Steps (step op s)
          (record (m.cpu) { pc = m.cpu.pc + length (encode op); ime_scheduled = false }) m r.1
          did.becomes.0 did.becomes.1 refl refl did.enabled)
      (execute_instruction-Does exits op s m shown held)

-- A machine whose CPU is known but for the byte registers, which it keeps.
pub known-Steps :
    (s : State) (p : Cpu) (m m1 : Machine)
    → Shows s m.cpu
    → m1.cpu ≡ p
    → p.r8 ≡ m.cpu.r8
    → p.is_running ≡ m.cpu.is_running
    → p.halt ≡ m.cpu.halt
    → m1.interrupts.ie_reg ≡ m.interrupts.ie_reg
    → Steps (config s p) m m1
known-Steps s p m m1 shown same kept running awake enabled = record {
  is_at = record {
    shown = shows_r8 s m.cpu m1.cpu (ap (λ (q : Cpu). q.r8) same ∙ kept) shown;
    there = ap (config s) same;
  };
  running = ap (λ (q : Cpu). q.is_running) same ∙ running;
  awake = ap (λ (q : Cpu). q.halt) same ∙ awake;
  enabled = enabled;
}
