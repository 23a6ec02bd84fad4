-- ===== src/Cartridge/Mbc3/Banks.antt =====
-- What src/cartridge/mbc3.c does with its registers.
use emu_gb.Base.{
  ℕ, ◌+◌, ◌-◌, ◌*◌, ◌<◌, ◌≤◌, ◌≡◌, arith, false, ok, Returns, ◌==◌, if◌then◌else◌, to_bool, bit_and,
}
use emu_gb.Cartridge.{Cartridge, is_ram}
use emu_gb.Cartridge.Mbc3.{read_mbc3, write_mbc3, is_rtc}

-- With 0 in the RAM bank register and no clock register mapped, a byte that is written to an address
-- from 0x2000 to 0x3FFF selects the bank that is seen from 0x4000 to 0x7FFF, if the ROM has it; 0
-- selects bank 1.
pub read_mbc3-write_mbc3 :
    (a b n bank : ℕ) (g : Cartridge)
    → g.chip.ram_bank ≡ 0
    → is_rtc g.rtc.mapped_register ≡ false
    → 0x2000 ≤ b
    → b < 0x4000
    → 0x4000 ≤ a
    → a < 0x8000
    → n < 256
    → bank ≡ (if n == 0 then 1 else n)
    → bank * 0x4000 + (a - 0x4000) < g.rom_size
    → Returns (write_mbc3 b n g) (λ g'. read_mbc3 a g' ≡ ok (g.rom (bank * 0x4000 + (a - 0x4000))))
unfolding read_mbc3 write_mbc3
read_mbc3-write_mbc3 a b n bank g zero_bank none lb hb la ha hn is_bank fits = ground arith

-- After a value from 0x08 to 0x0C is written to an address from 0x4000 to 0x5FFF, every read outside
-- of the RAM area gives that clock register, also where the program is read from the ROM.
pub mapped_clock_hides_rom :
    (a b n : ℕ) (g : Cartridge)
    → 0x4000 ≤ b
    → b < 0x6000
    → 0x8 ≤ n
    → n ≤ 0xC
    → is_ram a ≡ false
    → Returns (write_mbc3 b n g) (λ g'. read_mbc3 a g' ≡ ok (g.rtc.readable (n - 0x8)))
unfolding read_mbc3 write_mbc3
mapped_clock_hides_rom a b n g lb hb ln hn outside = ground arith

-- A write below 0x2000, to an address that the ROM has, returns, and leaves the gate as the byte that
-- the ROM holds there says, for any two values that are written.
pub gate_ignores_value :
    (a v w : ℕ) (g : Cartridge)
    → a < 0x2000
    → a < g.rom_size
    → Returns (write_mbc3 a v g) (λ g'.
      Returns (write_mbc3 a w g) (λ g''.
        (g'.ram_access ≡ g''.ram_access) × (g'.ram_access ≡ to_bool (bit_and (g.rom a) 10))))
unfolding write_mbc3
gate_ignores_value a v w g low fits = ground arith
