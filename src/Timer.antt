-- ===== src/Timer.antt =====
-- src/cpu/timer.c: the registers of the timer.
pub mod Ticks
pub mod Cycle
pub mod Batch
pub mod Frame
use emu_gb.Base.{
  ℕ, ◌==◌, Bool, List, [], ◌∷◌, if◌then◌else◌, u8, msb, low_bits, complement, bit_and, bit_or,
}

abbrev pub timer_div : ℕ
timer_div = 0xFF04

abbrev pub timer_tima : ℕ
timer_tima = 0xFF05

abbrev pub timer_tma : ℕ
timer_tma = 0xFF06

abbrev pub timer_tac : ℕ
timer_tac = 0xFF07

abbrev pub timer_div_default : ℕ
timer_div_default = 0xABCC

-- `struct timer`, and the static `g_tima_overflow`.
pub record Timer : Type 0 where
  pub div : ℕ
  pub tima : ℕ
  pub tma : ℕ
  pub tac : ℕ
  pub tima_overflow : Bool

unfoldable pub reset_timer : Timer → Timer
reset_timer t = record t { div = timer_div_default }

unfoldable pub write_timer : ℕ → ℕ → Timer → Timer
write_timer address val t =
    if address == timer_div
    then record t { div = 0x0000 }
    else if address == timer_tac
    then record t { tac = u8 (bit_or (bit_and t.tac (complement 7)) (low_bits val 3)) }
    else if address == timer_tma
    then record t { tma = u8 val }
    else if address == timer_tima
    then record t { tima = u8 val }
    else t

unfoldable pub read_timer : ℕ → Timer → ℕ
read_timer address t =
    if address == timer_tac
    then low_bits t.tac 3
    else if address == timer_div
    then msb t.div
    else if address == timer_tma
    then t.tma
    else if address == timer_tima
    then t.tima
    else 0

-- `g_freq_divider`, in clocks.
abbrev pub freq_divider : List ℕ
freq_divider = 1024 ∷ 16 ∷ 64 ∷ 256 ∷ []
