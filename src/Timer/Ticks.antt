-- ===== src/Timer/Ticks.antt =====
-- src/cpu/timer.c: `timer_ticks`, which advances the timer and delivers what was delayed.
use emu_gb.Base.{
  ℕ, ◌+◌, ◌-◌, ◌/◌, true, false, if◌then◌else◌, ◌&&◌, ◌==◌, u8, u16, low_bits, has_bit, to_bool,
  get_or,
}
use emu_gb.Timer.{Timer, read_timer, write_timer, timer_tac, timer_tima, freq_divider}
use emu_gb.Interrupt.{iv_tima, interrupt_request, interrupt_set_ime}
use emu_gb.Machine.{Machine, on_cpu, on_timer, on_interrupts}

-- `g_freq_divider[tac & 0x03] / 4`.
unfoldable pub frequency : ℕ → ℕ
frequency tac = u16 (get_or freq_divider (low_bits tac 2) 0 / 4)

-- How often the frequency fits between the old and the new value of DIV, as a `u8`. The sum is an
-- `int`, and does not wrap.
unfoldable pub increase : ℕ → ℕ → ℕ → ℕ
unfolding frequency
increase tac div ticks = u8 ((div + ticks) / frequency tac - div / frequency tac)

-- The delayed `EI`.
unfoldable pub deliver_ime : Machine → Machine
deliver_ime m =
    if m.cpu.ime_scheduled
    then on_cpu (λ c. record c { ime_scheduled = false }) (on_interrupts (interrupt_set_ime true) m)
    else m

-- The overflow of the last cycle.
unfoldable pub deliver_overflow : Machine → Machine
deliver_overflow m =
    if m.timer.tima_overflow
    then on_timer (λ t. record t { tima_overflow = false; tima = t.tma })
        (on_interrupts (interrupt_request iv_tima) m)
    else m

-- The last block of `timer_ticks`: TIMA moves on by `n`.
unfoldable pub advance_tima : ℕ → ℕ → Timer → Timer
advance_tima tac n t =
    if to_bool n && has_bit tac 2
    then (let tima = read_timer timer_tima t in
        if tima == 0xFF
        then (let t1 = write_timer timer_tima 0x00 t in record t1 { tima_overflow = true })
        else write_timer timer_tima (u8 (tima + n)) t)
    else t

unfoldable pub timer_ticks : ℕ → Machine → Machine
unfolding increase deliver_ime deliver_overflow advance_tima
timer_ticks ticks m =
    let div = m.timer.div in
    let tac = read_timer timer_tac m.timer in
    let m1 = on_timer (λ t. record t { div = u16 (t.div + ticks) }) m in
    let m2 = deliver_overflow (deliver_ime m1) in
    on_timer (advance_tima tac (increase tac div ticks)) m2

unfoldable pub timer_tick : Machine → Machine
unfolding timer_ticks
timer_tick m = timer_ticks 1 m
