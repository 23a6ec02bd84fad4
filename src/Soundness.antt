-- ===== src/Soundness.antt =====
-- The state of the emulator keeps to the widths of its C types: u8 and u16 in include/utils/types.h.
-- The children show that every operation of the program keeps it so, for any cartridge whose reads and
-- writes meet a contract, and whether a round of src/main.c can stop the program.
pub mod Registers
pub mod Access
pub mod Bus
pub mod Alu
pub mod Jumps
pub mod Handlers
pub mod Opcodes
pub mod Fetch
pub mod Cb
pub mod Service
pub mod Round
pub mod Controllers
pub mod Run
pub mod Words
pub mod ExternalRam
pub mod Dumps
use emu_gb.Base.{ℕ, ◌<◌, ◌≡◌, Bool, true, Ends, IsByte, IsWord}
use emu_gb.Cpu.{Cpu}
use emu_gb.Timer.{Timer}
use emu_gb.Interrupt.{Interrupts}
use emu_gb.Cartridge.{Cartridge}
use emu_gb.Cartridge.Bus.{read_cartridge, write_cartridge}
use emu_gb.Machine.{Machine}

pub record IsCpu (c : Cpu) : Type 0 where
  pub r8_byte : (k : ℕ) → IsByte (c.r8 k)
  pub pc_word : IsWord c.pc
  pub sp_word : IsWord c.sp
  pub memory_byte : (k : ℕ) → IsByte (c.memory k)

pub record IsTimer (t : Timer) : Type 0 where
  pub div_word : IsWord t.div
  pub tima_byte : IsByte t.tima
  pub tma_byte : IsByte t.tma
  pub tac_byte : IsByte t.tac

pub record IsInterrupts (s : Interrupts) : Type 0 where
  pub if_byte : IsByte s.if_reg
  pub ie_byte : IsByte s.ie_reg

-- The state but for the cartridge, of which `IsSound` is required.
pub record IsMachine (IsSound : Cartridge → Type 0) (m : Machine) : Type 0 where
  pub is_cpu : IsCpu m.cpu
  pub is_timer : IsTimer m.timer
  pub is_interrupts : IsInterrupts m.interrupts
  pub is_cartridge : IsSound m.cartridge

-- What the memory map needs of a cartridge below 0x8000: a read or a write ends with a sound
-- cartridge, or stops the program, which is allowed where `Stop` holds.
pub record Contract (IsSound : Cartridge → Type 0) (Stop : Type 0) : Type 0 where
  pub read_ends :
      (a : ℕ) (g : Cartridge) → IsSound g → a < 0x8000 → Ends Stop (read_cartridge a g) (λ _. Unit)
  pub write_ends :
      (a v : ℕ) (g : Cartridge) → IsSound g → a < 0x8000 → Ends Stop (write_cartridge a v g) IsSound
