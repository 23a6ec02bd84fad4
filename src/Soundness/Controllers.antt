-- ===== src/Soundness/Controllers.antt =====
-- The cartridges of src/cartridge meet the contract of the memory map: any cartridge, where the program
-- may stop, and the supported ones of full size, where it may not.
use emu_gb.Base.{ℕ, ◌%◌, ◌<◌, ◌≤◌, ◌⊎◌, inl, inr, arith, ok, err, Outcome, Ends, IsByte, update, u8}
use emu_gb.Cartridge.{Cartridge, ChipRegisters, header_type}
use emu_gb.Cartridge.Mbc1.{read_mbc1, write_mbc1}
use emu_gb.Cartridge.Mbc2.{read_mbc2, write_mbc2}
use emu_gb.Cartridge.Mbc3.{read_mbc3, write_mbc3}
use emu_gb.Cartridge.Bus.{read_cartridge, write_cartridge}
use emu_gb.Soundness.{Contract}
use emu_gb.Soundness.Registers.{update-IsByte}

pub record IsBytes (f : ℕ → ℕ) : Type 0 where
  pub at : (k : ℕ) → IsByte (f k)

update-IsBytes : (f : ℕ → ℕ) (k v : ℕ) → IsBytes f → IsBytes (update f k (u8 v))
update-IsBytes f k v h = record { at = update-IsByte f k (u8 v) h.at (omega arith) }

-- The widths of `struct chip_registers_t`, as the masks of the controllers keep them.
abbrev pub IsChipRegisters : ChipRegisters → Type 0
IsChipRegisters c = (c.ram_g < 16) × (c.rom_bank < 256) × (c.ram_bank < 4)

pub record IsCartridge (g : Cartridge) : Type 0 where
  pub rom_bytes : IsBytes g.rom
  pub ram_bytes : IsBytes g.ram
  pub is_chip : IsChipRegisters g.chip

module _ (a v : ℕ) (g : Cartridge) (h : IsCartridge g) where
  write_mbc1-IsCartridge : Ends Unit (write_mbc1 a v g) IsCartridge
  unfolding write_mbc1
  write_mbc1-IsCartridge =
      ground (arith, h.rom_bytes, h.ram_bytes, h.is_chip, update-IsBytes g.ram _ v h.ram_bytes)

  write_mbc2-IsCartridge : Ends Unit (write_mbc2 a v g) IsCartridge
  unfolding write_mbc2
  write_mbc2-IsCartridge =
      ground
        (arith, h.rom_bytes, h.ram_bytes, h.is_chip, update-IsBytes g.ram _ (v % 16) h.ram_bytes)

  write_mbc3-IsCartridge : Ends Unit (write_mbc3 a v g) IsCartridge
  unfolding write_mbc3
  write_mbc3-IsCartridge =
      ground (arith, h.rom_bytes, h.ram_bytes, h.is_chip, update-IsBytes g.rom a v h.rom_bytes)

  write_cartridge-IsCartridge : Ends Unit (write_cartridge a v g) IsCartridge
  unfolding write_cartridge
  write_cartridge-IsCartridge = ground (
    arith,
    h.rom_bytes,
    h.ram_bytes,
    h.is_chip,
    update-IsBytes g.rom a v h.rom_bytes,
    write_mbc1-IsCartridge,
    write_mbc2-IsCartridge,
    write_mbc3-IsCartridge,
  )

-- Any outcome ends, where the program may stop.
any_outcome : {A : Type 0} (r : Outcome A) → Ends Unit r (λ _. Unit)
any_outcome (ok a) = tt
any_outcome (err e) = tt

pub Contract-IsCartridge : Contract IsCartridge Unit
Contract-IsCartridge = record {
  read_ends = λ a g h low. any_outcome (read_cartridge a g);
  write_ends = λ a v g h low. write_cartridge-IsCartridge a v g h;
}

-- The supported cartridges with a ROM of the full size of their controller.
pub record IsMbc1 (g : Cartridge) : Type 0 where
  pub type_low : 1 ≤ header_type g
  pub type_high : header_type g ≤ 3
  pub bank_fits : g.chip.rom_bank < 32
  pub ram_bank_fits : g.chip.ram_bank < 4
  pub size_fits : 0x200000 ≤ g.rom_size

pub record IsMbc2 (g : Cartridge) : Type 0 where
  pub type_low : 4 ≤ header_type g
  pub type_high : header_type g ≤ 6
  pub bank_fits : g.chip.rom_bank < 16
  pub size_fits : 0x40000 ≤ g.rom_size

pub record IsMbc3 (g : Cartridge) : Type 0 where
  pub type_low : 7 ≤ header_type g
  pub type_high : header_type g ≤ 0x13
  pub size_fits : 0x400000 ≤ g.rom_size

abbrev pub IsSupported : Cartridge → Type 0
IsSupported g = IsMbc1 g ⊎ (IsMbc2 g ⊎ IsMbc3 g)

module _ (a : ℕ) (g : Cartridge) (low : a < 0x8000) where
  pub read_mbc1-Ends : IsMbc1 g → Ends ⊥ (read_mbc1 a g) (λ _. Unit)
  unfolding read_mbc1
  read_mbc1-Ends h = ground (arith, h.bank_fits, h.ram_bank_fits, h.size_fits)

  read_mbc2-Ends : IsMbc2 g → Ends ⊥ (read_mbc2 a g) (λ _. Unit)
  unfolding read_mbc2
  read_mbc2-Ends h = ground (arith, h.bank_fits, h.size_fits)

  read_mbc3-Ends : IsMbc3 g → Ends ⊥ (read_mbc3 a g) (λ _. Unit)
  unfolding read_mbc3
  read_mbc3-Ends h = ground (arith, h.size_fits)

  pub write_mbc1-Ends : (v : ℕ) → IsMbc1 g → Ends ⊥ (write_mbc1 a v g) IsMbc1
  unfolding write_mbc1
  write_mbc1-Ends v h =
      ground (arith, h.type_low, h.type_high, h.bank_fits, h.ram_bank_fits, h.size_fits)

  write_mbc2-Ends : (v : ℕ) → IsMbc2 g → Ends ⊥ (write_mbc2 a v g) IsMbc2
  unfolding write_mbc2
  write_mbc2-Ends v h = ground (arith, h.type_low, h.type_high, h.bank_fits, h.size_fits)

  write_mbc3-Ends : (v : ℕ) → IsMbc3 g → Ends ⊥ (write_mbc3 a v g) IsMbc3
  unfolding write_mbc3
  write_mbc3-Ends v h = ground (arith, h.type_low, h.type_high, h.size_fits)

  read_cartridge-Ends : IsSupported g → Ends ⊥ (read_cartridge a g) (λ _. Unit)
  unfolding read_cartridge
  read_cartridge-Ends (inl h) = ground (arith, h.type_low, h.type_high, read_mbc1-Ends h)
  read_cartridge-Ends (inr (inl h)) = ground (arith, h.type_low, h.type_high, read_mbc2-Ends h)
  read_cartridge-Ends (inr (inr h)) = ground (arith, h.type_low, h.type_high, read_mbc3-Ends h)

  weaken :
      (P : Cartridge → Type 0) (r : Outcome Cartridge)
      → ((g : Cartridge) → P g → IsSupported g)
      → Ends ⊥ r P
      → Ends ⊥ r IsSupported
  weaken P (ok g) f h = f g h
  weaken P (err e) f h = h

  write_cartridge-IsSupported : (v : ℕ) → IsSupported g → Ends ⊥ (write_cartridge a v g) IsSupported
  unfolding write_cartridge
  write_cartridge-IsSupported v (inl h) =
      let known = weaken IsMbc1 (write_mbc1 a v g) (λ g k. inl k) (write_mbc1-Ends v h) in
      ground (arith, h.type_low, h.type_high, known)
  write_cartridge-IsSupported v (inr (inl h)) =
      let known = weaken IsMbc2 (write_mbc2 a v g) (λ g k. inr (inl k)) (write_mbc2-Ends v h) in
      ground (arith, h.type_low, h.type_high, known)
  write_cartridge-IsSupported v (inr (inr h)) =
      let known = weaken IsMbc3 (write_mbc3 a v g) (λ g k. inr (inr k)) (write_mbc3-Ends v h) in
      ground (arith, h.type_low, h.type_high, known)

pub Contract-IsSupported : Contract IsSupported ⊥
Contract-IsSupported = record {
  read_ends = λ a g h low. read_cartridge-Ends a g low h;
  write_ends = λ a v g h low. write_cartridge-IsSupported a g low v h;
}
