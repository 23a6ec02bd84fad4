-- ===== src/Interrupt.antt =====
-- src/cpu/interrupt.c: the interrupt registers IF, IE and IME.
pub mod Service
pub mod Masks
pub mod Priority
pub mod Serve
use emu_gb.Base.{ℕ, ◌-◌, ◌/◌, ◌^◌, ◌==◌, Bool, if◌then◌else◌, u8, to_bool, bit_and, bit_or}

abbrev pub ie_address : ℕ
ie_address = 0xFFFF

abbrev pub if_address : ℕ
if_address = 0xFF0F

-- `interrupt_vector`: the address of each handler.
abbrev pub iv_vblank : ℕ
iv_vblank = 0x40

abbrev pub iv_tima : ℕ
iv_tima = 0x50

abbrev pub iv_joypad : ℕ
iv_joypad = 0x60

-- The statics `g_if_reg`, `g_ie_reg` and `g_ime`.
pub record Interrupts : Type 0 where
  pub if_reg : ℕ
  pub ie_reg : ℕ
  pub ime : Bool

-- `FLAG(_int)`: one bit for each vector.
abbrev pub flag : ℕ → ℕ
flag vector = 2 ^ ((vector - 0x40) / 8)

unfoldable pub read_interrupt : ℕ → Interrupts → ℕ
read_interrupt address s =
    if address == if_address then s.if_reg else if address == ie_address then s.ie_reg else 0

unfoldable pub write_interrupt : ℕ → ℕ → Interrupts → Interrupts
write_interrupt address val s =
    if address == if_address
    then record s { if_reg = u8 val }
    else if address == ie_address
    then record s { ie_reg = u8 val }
    else s

unfoldable pub interrupt_request : ℕ → Interrupts → Interrupts
interrupt_request vector s = record s { if_reg = u8 (bit_or s.if_reg (flag vector)) }

unfoldable pub interrupt_get_ime : Interrupts → Bool
interrupt_get_ime s = s.ime

unfoldable pub interrupt_set_ime : Bool → Interrupts → Interrupts
interrupt_set_ime value s = record s { ime = value }

unfoldable pub interrupt_is_set : ℕ → Interrupts → Bool
interrupt_is_set vector s = to_bool (bit_and s.if_reg (flag vector))

unfoldable pub interrupt_is_enabled : ℕ → Interrupts → Bool
interrupt_is_enabled vector s = to_bool (bit_and s.ie_reg (flag vector))
