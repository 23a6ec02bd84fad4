-- ===== src/Timer/Cycle.antt =====
-- One cycle of the timer of src/cpu/timer.c, and many.
use emu_gb.Base.{
  ◌∙◌, ap, ◌≤◌, true, ℕ, zero, suc, ◌+◌, ◌-◌, ◌/◌, ◌%◌, ◌<◌, ◌≡◌, ◌⊎◌, inl, inr, refl, Bool, false,
  arith, ◌==◌, ◌&&◌, ◌||◌, if◌then◌else◌, u16, u8, has_bit, bit_or, get_or,
}
use emu_gb.Timer.{Timer, read_timer, write_timer, freq_divider}
use emu_gb.Interrupt.{Interrupts, interrupt_request, interrupt_set_ime}
use emu_gb.Machine.{Machine}
use emu_gb.Timer.Ticks.{frequency, increase, timer_tick}

-- The frequencies in cycles.
abbrev pub IsPeriod : ℕ → Type 0
IsPeriod f = (f ≡ 256) ⊎ ((f ≡ 4) ⊎ ((f ≡ 16) ⊎ (f ≡ 64)))

entry_IsPeriod : (r : ℕ) → r < 4 → IsPeriod (u16 (get_or freq_divider r 0 / 4))
entry_IsPeriod zero h = inl refl
entry_IsPeriod (suc zero) h = inr (inl refl)
entry_IsPeriod (suc (suc zero)) h = inr (inr (inl refl))
entry_IsPeriod (suc (suc (suc zero))) h = inr (inr (inr refl))
entry_IsPeriod (suc (suc (suc (suc r)))) h = absurd (omega arith)

pub frequency-IsPeriod : (tac : ℕ) → IsPeriod (frequency tac)
unfolding frequency
frequency-IsPeriod tac = entry_IsPeriod (tac % 4) (omega arith)

-- `frequency` sees the two low bits alone.
pub frequency-mod : (tac : ℕ) → frequency (tac % 8) ≡ frequency tac
unfolding frequency
frequency-mod tac = let e : tac % 8 % 4 ≡ tac % 4 = omega arith in rw e

-- DIV reaches a multiple of the period in this cycle.
abbrev pub is_due : Timer → Bool
is_due t = (t.div + 1) % frequency t.tac == 0

increase_one :
    (f div : ℕ) → IsPeriod f → u8 ((div + 1) / f - div / f) ≡ (if (div + 1) % f == 0 then 1 else 0)
increase_one f div (inl e) = rw e (ground arith)
increase_one f div (inr (inl e)) = rw e (ground arith)
increase_one f div (inr (inr (inl e))) = rw e (ground arith)
increase_one f div (inr (inr (inr e))) = rw e (ground arith)

-- TIMA at the start of the cycle, a delayed reload included.
abbrev pub reloaded : Timer → ℕ
reloaded t = if t.tima_overflow then t.tma else t.tima

-- TIMA counts in this cycle.
abbrev pub counts : Timer → Bool
counts t = has_bit t.tac 2 && is_due t

-- The timer after one cycle.
unfoldable pub next_timer : Timer → Timer
next_timer t = record t {
  div = u16 (t.div + 1);
  tima = if counts t then (if reloaded t == 0xFF then 0 else reloaded t + 1) else reloaded t;
  tima_overflow = counts t && reloaded t == 0xFF;
}

unfoldable pub next_interrupts : Machine → Interrupts
next_interrupts m = record (m.interrupts) {
  if_reg = if m.timer.tima_overflow then u8 (bit_or m.interrupts.if_reg 4) else m.interrupts.if_reg;
  ime = m.cpu.ime_scheduled || m.interrupts.ime;
}

-- One cycle, with byte values in TIMA and TMA: DIV moves on; TIMA, if it is enabled, counts when DIV reaches a multiple of its period;
-- an overflow shows 0 for one cycle, after which TIMA is reloaded and the interrupt is requested;
-- an `EI` takes effect. Nothing else changes.
pub timer_tick_lem :
    (m : Machine)
    → m.timer.tima < 256
    → m.timer.tma < 256
    → timer_tick m ≡ record m {
      cpu = record (m.cpu) { ime_scheduled = false };
      timer = next_timer m.timer;
      interrupts = next_interrupts m;
    }
unfolding timer_tick increase read_timer write_timer interrupt_request interrupt_set_ime next_timer
    next_interrupts
timer_tick_lem m h1 h2 =
    rw
      (
        frequency-mod,
        increase_one (frequency m.timer.tac) m.timer.div (frequency-IsPeriod m.timer.tac),
      )
      (ground arith)

-- `n` cycles in a row.
pub run_cycles : ℕ → Machine → Machine
run_cycles zero m = m
run_cycles (suc n) m = timer_tick (run_cycles n m)

-- How often DIV reaches a multiple of `f` in `n` cycles.
abbrev pub crossings : ℕ → ℕ → ℕ → ℕ
crossings f div n = (div + n) / f - div / f

crossings-suc :
    (f div n : ℕ)
    → IsPeriod f
    → crossings f div (suc n) ≡ crossings f div n + (if (u16 (div + n) + 1) % f == 0 then 1 else 0)
crossings-suc f div n (inl e) = rw e (ground arith)
crossings-suc f div n (inr (inl e)) = rw e (ground arith)
crossings-suc f div n (inr (inr (inl e))) = rw e (ground arith)
crossings-suc f div n (inr (inr (inr e))) = rw e (ground arith)

crossings_mono : (f div n : ℕ) → IsPeriod f → crossings f div n ≤ crossings f div (suc n)
crossings_mono f div n p = rw (crossings-suc f div n p) (omega arith)

-- An enabled timer with nothing pending, that has counted `k` times since the state `t`.
abbrev counted : ℕ → ℕ → Timer → Timer
counted n k t = record t { div = u16 (t.div + n); tima = t.tima + k }

next_timer-counted :
    (n : ℕ) (t : Timer)
    → has_bit t.tac 2 ≡ true
    → t.tima_overflow ≡ false
    → t.tima + crossings (frequency t.tac) t.div (suc n) ≤ 255
    → next_timer (counted n (crossings (frequency t.tac) t.div n) t)
      ≡ counted (suc n) (crossings (frequency t.tac) t.div (suc n)) t
unfolding next_timer
next_timer-counted n t on quiet room =
    let step = crossings-suc (frequency t.tac) t.div n (frequency-IsPeriod t.tac) in
    rw step (ground (arith, step))

-- With the timer enabled, no overflow pending and enough room in TIMA, `n` cycles count TIMA once for
-- each multiple of the period that DIV reaches, also where DIV wraps; DIV moves on by `n` modulo
-- 65536, and nothing else of the timer changes.
pub run_cycles-counts :
    (n : ℕ) (m : Machine)
    → has_bit m.timer.tac 2 ≡ true
    → m.timer.tima_overflow ≡ false
    → m.timer.tma < 256
    → m.timer.div < 65536
    → m.timer.tima + crossings (frequency m.timer.tac) m.timer.div n ≤ 255
    → (run_cycles n m).timer ≡ record (m.timer) {
      div = u16 (m.timer.div + n);
      tima = m.timer.tima + crossings (frequency m.timer.tac) m.timer.div n;
    }
unfolding run_cycles
run_cycles-counts zero m on quiet hm hd room = ground arith
run_cycles-counts (suc n) m on quiet hm hd room =
    let f = frequency m.timer.tac in
    let so_far =
      run_cycles-counts n m on quiet hm hd
        (omega (arith, crossings_mono f m.timer.div n (frequency-IsPeriod m.timer.tac))) in
    ap (λ (x : Machine). x.timer)
      (timer_tick_lem (run_cycles n m)
        (rw so_far (omega (arith, crossings_mono f m.timer.div n (frequency-IsPeriod m.timer.tac))))
        (rw so_far hm))
    ∙ ap next_timer so_far
    ∙ next_timer-counted n m.timer on quiet room
