-- ===== src/Soundness/Words.antt =====
-- The 16-bit reads of src/cpu/memory.c, through which `LD A,(BC)`, `LD A,(DE)` and `LD A,(a16)` go.
use emu_gb.Base.{
  ℕ, ◌+◌, ◌*◌, ◌<◌, ◌≡◌, ◌≢◌, ◌⊎◌, inl, inr, refl, arith, ok, err, fatal, undefined, Outcome, ◌>>=◌,
  Returns, >>=-Returns, Bool-cases, ltb→lt, u16, ltb,
}
use emu_gb.Cartridge.{Cartridge}
use emu_gb.Cartridge.Bus.{read_cartridge, read_cartridge_16bit}
use emu_gb.Cartridge.Mbc1.{read_mbc1}
use emu_gb.Cartridge.Mbc2.{read_mbc2}
use emu_gb.Machine.{Machine}
use emu_gb.Memory.{read_memory_16bit}
use emu_gb.Soundness.Run.{Ends_never}
use emu_gb.Soundness.Controllers.{IsMbc1, IsMbc2, Contract-IsSupported}

-- The end of the cartridge's area is no address of these controllers.
read_cartridge-end : (g : Cartridge) → IsMbc1 g ⊎ IsMbc2 g → read_cartridge 0x8000 g ≡ err fatal
unfolding read_cartridge read_mbc1 read_mbc2
read_cartridge-end g (inl h) = ground (arith, h.type_low, h.type_high)
read_cartridge-end g (inr h) = ground (arith, h.type_low, h.type_high)

read_low :
    (a : ℕ) (g : Cartridge)
    → IsMbc1 g ⊎ IsMbc2 g
    → a < 0x8000
    → Returns (read_cartridge a g) (λ _. Unit)
read_low a g (inl h) low =
    Ends_never (λ _. Unit) (read_cartridge a g) (Contract-IsSupported.read_ends a g (inl h) low)
read_low a g (inr h) low =
    Ends_never (λ _. Unit) (read_cartridge a g)
      (Contract-IsSupported.read_ends a g (inr (inl h)) low)

-- A word at the end of the area takes its second byte from beyond it.
last_word : (g : Cartridge) → IsMbc1 g ⊎ IsMbc2 g → read_cartridge_16bit 0x7FFF g ≡ err fatal
unfolding read_cartridge_16bit
last_word g h = go (read_cartridge 0x7FFF g) (read_low 0x7FFF g h (omega arith))
  where
    go :
        (r : Outcome ℕ)
        → Returns r (λ _. Unit)
        → (do low ← r; high ← read_cartridge 0x8000 g; ok (u16 (low + high * 256))) ≡ err fatal
    go (ok v) k = rw (read_cartridge-end g h)
    go (err e) k = absurd k

inner_word :
    (a : ℕ) (g : Cartridge)
    → IsMbc1 g ⊎ IsMbc2 g
    → a < 0x7FFF
    → Returns (read_cartridge_16bit a g) (λ _. Unit)
unfolding read_cartridge_16bit
inner_word a g h low =
    let next : u16 (a + 1) ≡ a + 1 = omega arith in
    >>=-Returns (λ _. Unit) (λ _. Unit) (read_cartridge a g) _ (read_low a g h (omega arith))
      (λ v _.
        >>=-Returns (λ _. Unit) (λ _. Unit) (read_cartridge (u16 (a + 1)) g) _
          (rw next (read_low (a + 1) g h (omega arith))) (λ w _. tt))

-- With an MBC1 or MBC2 cartridge of full size, a 16-bit read stops the program at 0x7FFF, leaves the
-- array `memory` at 0xFFFF, and returns at every other address.
pub read_memory_16bit-stops :
    (a : ℕ) (m : Machine)
    → IsMbc1 m.cartridge ⊎ IsMbc2 m.cartridge
    → a < 65536
    → (read_memory_16bit 0x7FFF m ≡ err fatal)
      × (read_memory_16bit 0xFFFF m ≡ err undefined)
      × (a ≢ 0x7FFF → a ≢ 0xFFFF → Returns (read_memory_16bit a m) (λ _. Unit))
unfolding read_memory_16bit
read_memory_16bit-stops a m h word = (
  last_word m.cartridge h,
  refl,
  λ ne ne'. elim (Bool-cases (ltb a 0x7FFF)) [
    | inl low ↦ ground (arith, inner_word a m.cartridge h (ltb→lt a 0x7FFF low))
    | inr high ↦ ground arith
  ],
)
