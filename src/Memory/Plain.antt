-- ===== src/Memory/Plain.antt =====
-- The memory map of src/cpu/memory.c and src/io.c above the cartridge: what a write leaves behind.
use emu_gb.Base.{
  ◌∙◌, Ensures, msb, lsb, Bool, true, false, ◌||◌, ℕ, ◌+◌, ◌%◌, ◌<◌, ◌≤◌, ◌≡◌, ◌⊎◌, arith, ok, ◌==◌,
  if◌then◌else◌,
}
use emu_gb.Base.Bits.{low_three}
use emu_gb.Machine.{on_interrupts, on_timer, Machine, on_cpu}
use emu_gb.Timer.{timer_div, timer_tac, read_timer, write_timer}
use emu_gb.Interrupt.{ie_address, read_interrupt, write_interrupt, if_address}
use emu_gb.Memory.{between, store, read_memory, write_memory, read_memory_16bit, write_memory_16bit}

-- Cells of the array `memory` alone: video, external and work RAM up to 0xFEFF, and the bytes from
-- 0xFF7F to 0xFFFE.
abbrev pub IsPlain : ℕ → Type 0
IsPlain a = ((0x8000 ≤ a) × (a < 0xFF00)) ⊎ ((0xFF7F ≤ a) × (a < 0xFFFF))

pub write_memory-plain :
    (a v : ℕ) (m : Machine) → IsPlain a → write_memory a v m ≡ ok (on_cpu (store a v) m)
unfolding write_memory
write_memory-plain a v m h = ground arith

pub read_memory-plain : (a : ℕ) (m : Machine) → IsPlain a → read_memory a m ≡ ok (m.cpu.memory a)
unfolding read_memory
read_memory-plain a m h = ground arith

-- The map above the cartridge has three parts: the timer, the interrupt registers and the array.
abbrev pub is_timer : ℕ → Bool
is_timer a = between a timer_div timer_tac

abbrev pub is_interrupt : ℕ → Bool
is_interrupt a = a == if_address || a == ie_address

pub written : ℕ → ℕ → Machine → Machine
written a v m =
    if is_timer a
    then on_timer (write_timer a v) m
    else if is_interrupt a
    then on_interrupts (write_interrupt a v) m
    else on_cpu (store a v) m

pub found : ℕ → Machine → ℕ
found a m =
    if is_timer a
    then read_timer a m.timer
    else if is_interrupt a
    then read_interrupt a m.interrupts
    else m.cpu.memory a

pub write_memory-high :
    (a v : ℕ) (m : Machine) → 0x8000 ≤ a → a < 65536 → write_memory a v m ≡ ok (written a v m)
unfolding write_memory written
write_memory-high a v m h h' = ground arith

pub read_memory-high :
    (a : ℕ) (m : Machine) → 0x8000 ≤ a → a < 65536 → read_memory a m ≡ ok (found a m)
unfolding read_memory found
read_memory-high a m h h' = ground arith

-- What a read of the address gives after a write of `v` to it.
abbrev pub readback : ℕ → ℕ → ℕ
readback a v = if a == timer_div then 0 else if a == timer_tac then v % 8 else v

timer_found :
    (a b v : ℕ) (m : Machine)
    → is_timer a ≡ true
    → v < 256
    → found b (on_timer (write_timer a v) m) ≡ (if a == b then readback a v else found b m)
unfolding found write_timer read_timer
timer_found a b v m h hv = ground (arith, low_three m.timer.tac (v % 8))

interrupt_found :
    (a b v : ℕ) (m : Machine)
    → is_interrupt a ≡ true
    → v < 256
    → found b (on_interrupts (write_interrupt a v) m) ≡ (if a == b then v else found b m)
unfolding found write_interrupt read_interrupt
interrupt_found a b v m h hv = ground arith

array_found :
    (a b v : ℕ) (m : Machine)
    → is_timer a ≡ false
    → is_interrupt a ≡ false
    → v < 256
    → found b (on_cpu (store a v) m) ≡ (if a == b then v else found b m)
unfolding found
array_found a b v m h h' hv = ground arith

found-written :
    (a b v : ℕ) (m : Machine)
    → v < 256
    → found b (written a v m) ≡ (if a == b then readback a v else found b m)
unfolding written
found-written a b v m hv =
    ground (arith, timer_found a b v m, interrupt_found a b v m, array_found a b v m)

-- Above the cartridge a write of a byte returns. The address then reads as the byte, but DIV as 0 and
-- TAC as the three low bits; every other address above the cartridge reads as before.
pub read_memory-write_memory :
    (a b v : ℕ) (m : Machine)
    → 0x8000 ≤ a
    → a < 65536
    → 0x8000 ≤ b
    → b < 65536
    → v < 256
    → (m' : Machine) × (write_memory a v m ≡ ok m')
      × (read_memory b m' ≡ (if a == b then ok (readback a v) else read_memory b m))
read_memory-write_memory a b v m ha ha' hb hb' hv = (
  written a v m,
  write_memory-high a v m ha ha',
  ground (
    arith,
    read_memory-high b (written a v m) hb hb',
    read_memory-high b m hb hb',
    found-written a b v m hv,
  ),
)

-- A word that is written to two plain cells is read back as a word, and as two bytes, low byte first.
pub read_memory_16bit-write_memory_16bit :
    (a v : ℕ) (m : Machine)
    → IsPlain a
    → IsPlain (a + 1)
    → v < 65536
    → (m' : Machine) × (write_memory_16bit a v m ≡ ok m')
      × (read_memory_16bit a m' ≡ ok v)
      × (read_memory a m' ≡ ok (lsb v))
      × (read_memory (a + 1) m' ≡ ok (msb v))
unfolding write_memory_16bit read_memory_16bit
read_memory_16bit-write_memory_16bit a v m h h' hv =
    let m1 = on_cpu (store a (lsb v)) m in
    let m2 = on_cpu (store (a + 1) (msb v)) m1 in
    (
      m2,
      ground (arith, write_memory-plain a (lsb v) m h, write_memory-plain (a + 1) (msb v) m1 h'),
      ground arith,
      read_memory-plain a m2 h ∙ ground arith,
      read_memory-plain (a + 1) m2 h' ∙ ground arith,
    )

-- A write to a register of the timer or to IF changes no 16-bit read from 0x8000 on, not even one at
-- the same address.
pub read_memory_16bit-misses_io :
    (a b v : ℕ) (m : Machine)
    → is_timer a || a == if_address ≡ true
    → 0x8000 ≤ b
    → Ensures (write_memory a v m) (λ m'. read_memory_16bit b m' ≡ read_memory_16bit b m)
unfolding read_memory_16bit
read_memory_16bit-misses_io a b v m io high =
    rw (write_memory-high a v m (ground arith) (ground arith)) (unfold written in ground arith)
