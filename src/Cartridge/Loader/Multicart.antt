-- ===== src/Cartridge/Loader/Multicart.antt =====
-- The search of src/cartridge/cartridge.c for several games on one cartridge.
use emu_gb.Base.{
  ℕ, zero, suc, ◌+◌, ◌-◌, ◌≤◌, ◌<◌, ◌≡◌, ◌==◌, refl, arith, Bool-cases, inl, inr, true, false, List,
  [], ◌∷◌, length, ok, Returns, >>=-Returns, Returns_weaken, if◌then◌else◌, ltb,
}
use emu_gb.Cartridge.{Cartridge, header_rom_size}
use emu_gb.Cartridge.Bus.{read_cartridge}
use emu_gb.Cartridge.Mbc1.{read_mbc1}
use emu_gb.Cartridge.Loader.{nintendo_logo, has_logo, select_bank, count_games, check_multicart}
use emu_gb.Soundness.Controllers.{IsMbc1, read_mbc1-Ends}

-- The bytes lie in the ROM from `k` on.
abbrev pub IsStored : List ℕ → ℕ → (ℕ → ℕ) → Type 0
IsStored [] k rom = Unit {0}
IsStored (b ∷ bytes) k rom = (rom k ≡ b) × IsStored bytes (k + 1) rom

-- The cartridge while the search runs.
abbrev pub searched : Cartridge → Cartridge
searched g = record g { multicart = true; chip = record (g.chip) { rom_bank = 0; mode = true } }

module _ (g : Cartridge) (h : IsMbc1 g) where
  searched-IsMbc1 : (bank : ℕ) → bank < 4 → IsMbc1 (select_bank bank (searched g))
  searched-IsMbc1 bank low = record {
    type_low = h.type_low;
    type_high = h.type_high;
    bank_fits = omega arith;
    ram_bank_fits = low;
    size_fits = h.size_fits;
  }

  read_first : (k : ℕ) → k < 0x4000 → read_cartridge k (select_bank 0 (searched g)) ≡ ok (g.rom k)
  unfolding read_cartridge read_mbc1
  read_first k low = ground (arith, h.type_low, h.type_high, h.size_fits)

  has_logo-IsStored :
      (bytes : List ℕ) (k : ℕ)
      → IsStored bytes k g.rom
      → k + length bytes ≤ 0x4000
      → has_logo bytes k (select_bank 0 (searched g)) ≡ ok true
  unfolding has_logo
  has_logo-IsStored [] k stored low = refl
  has_logo-IsStored (b ∷ bytes) k (here, stored) low =
      let same : (b == b) ≡ true = ground arith in
      rw (read_first k (omega arith))
        (rw (here, same, has_logo-IsStored bytes (k + 1) stored (omega arith)) refl)

  read_bank :
      (k bank : ℕ)
      → k < 0x8000
      → bank < 4
      → Returns (read_cartridge k (select_bank bank (searched g))) (λ _. Unit)
  unfolding read_cartridge
  read_bank k bank low h' = ground (
    arith,
    h.type_low,
    h.type_high,
    read_mbc1-Ends k (select_bank bank (searched g)) low (searched-IsMbc1 bank h'),
  )

  has_logo-Returns :
      (bytes : List ℕ) (k bank : ℕ)
      → k + length bytes ≤ 0x8000
      → bank < 4
      → Returns (has_logo bytes k (select_bank bank (searched g))) (λ _. Unit)
  unfolding has_logo
  has_logo-Returns [] k bank low h' = tt
  has_logo-Returns (b ∷ bytes) k bank low h' =
      let rest = has_logo-Returns bytes (k + 1) bank (omega arith) h' in
      >>=-Returns (λ _. Unit) (λ _. Unit) (read_cartridge k (select_bank bank (searched g))) _
        (read_bank k bank (omega arith) h')
        (λ cell _. elim (Bool-cases (cell == b)) [
          | inl same ↦ simp same (
              >>=-Returns (λ _. Unit) (λ _. Unit)
                (has_logo bytes (k + 1) (select_bank bank (searched g))) _ rest (λ _ _. tt))
          | inr other ↦ simp other tt
        ])

  count_games-Returns :
      (rounds bank nb_games : ℕ)
      → bank + rounds ≤ 4
      → Returns (count_games rounds bank nb_games (searched g)) (λ n. nb_games ≤ n + rounds)
  unfolding count_games
  count_games-Returns zero bank nb_games low = omega arith
  count_games-Returns (suc rounds) bank nb_games low =
      >>=-Returns (λ _. Unit) (λ n. nb_games ≤ n + suc rounds)
        (has_logo nintendo_logo 0x0104 (select_bank bank (searched g))) _
        (has_logo-Returns nintendo_logo 0x0104 bank (omega arith) (omega arith))
        (λ found _.
          let left = if found then nb_games else nb_games - 1 in
          Returns_weaken (λ n. left ≤ n + rounds) (λ n. nb_games ≤ n + suc rounds)
            (count_games rounds (bank + 1) left (searched g)) (λ n few. ground arith)
            (count_games-Returns rounds (bank + 1) left (omega arith)))

  first_is_game :
      (rounds nb_games : ℕ)
      → rounds ≤ 3
      → IsStored nintendo_logo 0x0104 g.rom
      → Returns (count_games (suc rounds) 0 nb_games (searched g)) (λ n. nb_games ≤ n + rounds)
  unfolding count_games
  first_is_game rounds nb_games low stored =
      rw (has_logo-IsStored nintendo_logo 0x0104 stored (omega arith))
        (count_games-Returns rounds 1 nb_games (omega arith))

  -- The search on an MBC1 cartridge of full size, with a size code of at least 8 and the logo where
  -- every cartridge has it, returns and finds a multicart, whatever lies in the other banks.
  pub check_multicart-IsStored :
      8 ≤ header_rom_size g
      → IsStored nintendo_logo 0x0104 g.rom
      → Returns (check_multicart g) (λ g'. g'.multicart ≡ true)
  unfolding check_multicart
  check_multicart-IsStored large stored =
      let big : ltb (header_rom_size g) 8 ≡ false = ground arith in
      rw big (
        >>=-Returns (λ n. 4 ≤ n + 3) (λ (g' : Cartridge). g'.multicart ≡ true)
          (count_games 4 0 4 (searched g)) _ (first_is_game 3 4 (omega arith) stored)
          (λ n some_games. ground arith))
