-- ===== src/Soundness/ExternalRam.antt =====
-- The RAM of the cartridge as the program sees it through src/cpu/memory.c.
use emu_gb.Base.{ℕ, ◌<◌, ◌≡◌, refl, arith, Bool, ok, err, Outcome, Ends, Ensures}
use emu_gb.Cartridge.{Cartridge}
use emu_gb.Cartridge.Mbc1.{write_mbc1}
use emu_gb.Cartridge.Mbc2.{write_mbc2}
use emu_gb.Cartridge.Mbc3.{write_mbc3}
use emu_gb.Cartridge.Bus.{read_cartridge, write_cartridge}
use emu_gb.Program.{TestRom, round}
use emu_gb.Stack.{fetch_opcode}
use emu_gb.Soundness.{IsMachine, Contract}
use emu_gb.Soundness.Run.{Ends_all}
use emu_gb.Soundness.Controllers.{IsCartridge}
use emu_gb.Soundness.Round.{round-Ends}
use emu_gb.Machine.{Machine}

-- Below 0x8000 no controller writes to its RAM.
write_cartridge-ram :
    (a v : ℕ) (g : Cartridge) (f : ℕ → ℕ)
    → g.ram ≡ f
    → a < 0x8000
    → Ends Unit (write_cartridge a v g) (λ g'. g'.ram ≡ f)
unfolding write_cartridge write_mbc1 write_mbc2 write_mbc3
write_cartridge-ram a v g f h low = ground arith

same_ram : (f : ℕ → ℕ) → Contract (λ g. g.ram ≡ f) Unit
same_ram f = record {
  read_ends = λ a g h low. Ends_all (λ _. Unit) (read_cartridge a g) (λ _. tt);
  write_ends = λ a v g h low. write_cartridge-ram a v g f h low;
}

ram_of :
    (f : ℕ → ℕ) (r : Outcome (TestRom × Machine))
    → Ends Unit r (λ x. IsMachine (λ g. g.ram ≡ f) x.1)
    → Ensures r (λ x. x.1.cartridge.ram ≡ f)
ram_of f (ok x) h = h.is_cartridge
ram_of f (err e) h = tt

-- No round that returns has written to the RAM of the cartridge, whatever its type and its bank
-- registers: the map has the array `memory` from 0x8000 on.
pub round-ram :
    (exits blargg : Bool) (t : TestRom) (m : Machine)
    → IsMachine IsCartridge m
    → Ensures (round exits blargg (t, m)) (λ x. x.1.cartridge.ram ≡ m.cartridge.ram)
round-ram exits blargg t m h =
    let start : IsMachine (λ g. g.ram ≡ m.cartridge.ram) m = record {
      is_cpu = h.is_cpu;
      is_timer = h.is_timer;
      is_interrupts = h.is_interrupts;
      is_cartridge = refl;
    } in
    ram_of m.cartridge.ram (round exits blargg (t, m)) (
      round-Ends (same_ram m.cartridge.ram) exits (λ _. tt) blargg t m start (λ _. tt)
        (λ _. Ends_all _ (fetch_opcode m) (λ r _. tt)))
