-- ===== src/Timer/Batch.antt =====
-- `timer_ticks(2)` of src/cpu/timer.c against two cycles.
use emu_gb.Base.{
  Bool-cases, true, ℕ, ◌+◌, ◌-◌, ◌/◌, ◌%◌, ◌<◌, ◌≡◌, inl, inr, refl, Bool, false, arith, ◌==◌, ◌&&◌,
  ◌||◌, if◌then◌else◌, u16, u8, has_bit, bit_or,
}
use emu_gb.Timer.{Timer, read_timer, write_timer}
use emu_gb.Interrupt.{interrupt_request, interrupt_set_ime}
use emu_gb.Machine.{Machine}
use emu_gb.Timer.Ticks.{frequency, increase, timer_tick, timer_ticks, deliver_overflow}
use emu_gb.Timer.Cycle.{
  IsPeriod, frequency-IsPeriod, frequency-mod, counts, reloaded, next_timer, next_interrupts,
  timer_tick_lem,
}

increase_two :
    (f div : ℕ)
    → IsPeriod f
    → u8 ((div + 2) / f - div / f) ≡ (if (div + 1) % f == 0 || (div + 2) % f == 0 then 1 else 0)
increase_two f div (inl e) = rw e (ground arith)
increase_two f div (inr (inl e)) = rw e (ground arith)
increase_two f div (inr (inr (inl e))) = rw e (ground arith)
increase_two f div (inr (inr (inr e))) = rw e (ground arith)

-- One of the two cycles counts.
abbrev due_twice : Timer → Bool
due_twice t =
    has_bit t.tac 2 && ((t.div + 1) % frequency t.tac == 0 || (t.div + 2) % frequency t.tac == 0)

after_two : Timer → Timer
after_two t = record t {
  div = u16 (t.div + 2);
  tima = if due_twice t then (if reloaded t == 0xFF then 0 else reloaded t + 1) else reloaded t;
  tima_overflow = due_twice t && reloaded t == 0xFF;
}

timer_ticks-after_two :
    (m : Machine)
    → m.timer.tima < 256
    → m.timer.tma < 256
    → timer_ticks 2 m ≡ record m {
      cpu = record (m.cpu) { ime_scheduled = false };
      timer = after_two m.timer;
      interrupts = next_interrupts m;
    }
unfolding timer_ticks increase read_timer write_timer interrupt_request interrupt_set_ime after_two
    next_interrupts
timer_ticks-after_two m h1 h2 =
    rw
      (
        frequency-mod,
        increase_two (frequency m.timer.tac) m.timer.div (frequency-IsPeriod m.timer.tac),
      )
      (ground arith)

-- A multiple of the period is not followed by another one, also where DIV wraps.
due-next : (f div : ℕ) → IsPeriod f → ((u16 (div + 1) + 1) % f == 0) ≡ ((div + 2) % f == 0)
due-next f div (inl e) = rw e (ground arith)
due-next f div (inr (inl e)) = rw e (ground arith)
due-next f div (inr (inr (inl e))) = rw e (ground arith)
due-next f div (inr (inr (inr e))) = rw e (ground arith)

not_twice : (f div : ℕ) → IsPeriod f → ((div + 1) % f == 0 && (div + 2) % f == 0) ≡ false
not_twice f div (inl e) = rw e (ground arith)
not_twice f div (inr (inl e)) = rw e (ground arith)
not_twice f div (inr (inr (inl e))) = rw e (ground arith)
not_twice f div (inr (inr (inr e))) = rw e (ground arith)

-- An overflow in the first cycle.
abbrev pub overflows : Timer → Bool
overflows t = counts t && reloaded t == 0xFF

next-next_timer :
    (t : Timer)
    → next_timer (next_timer t) ≡ (
        if overflows t
        then record (after_two t) { tima = t.tma; tima_overflow = false }
        else after_two t)
unfolding next_timer after_two
next-next_timer t =
    let div : u16 (u16 (t.div + 1) + 1) ≡ u16 (t.div + 2) = omega arith in
    let once = not_twice (frequency t.tac) t.div (frequency-IsPeriod t.tac) in
    rw (due-next (frequency t.tac) t.div (frequency-IsPeriod t.tac), div) (ground (arith, once))

next_tima : (t : Timer) → t.tima < 256 → t.tma < 256 → (next_timer t).tima < 256
unfolding next_timer
next_tima t h1 h2 = ground arith

next_tma : (t : Timer) → t.tma < 256 → (next_timer t).tma < 256
unfolding next_timer
next_tma t h = h

next_overflow : (t : Timer) → (next_timer t).tima_overflow ≡ overflows t
unfolding next_timer
next_overflow t = refl

after_two-overflows :
    (t : Timer)
    → overflows t ≡ true
    → ((after_two t).tima_overflow ≡ true) × ((after_two t).tma ≡ t.tma)
unfolding after_two
after_two-overflows t h = ground (arith, h)

delivered :
    (m : Machine)
    → deliver_overflow m ≡ record m {
      timer =
          if m.timer.tima_overflow
          then record (m.timer) { tima_overflow = false; tima = m.timer.tma }
          else m.timer;
      interrupts = record (m.interrupts) {
        if_reg =
            if m.timer.tima_overflow
            then u8 (bit_or m.interrupts.if_reg 4)
            else m.interrupts.if_reg;
      };
    }
unfolding deliver_overflow interrupt_request
delivered m = ground arith

-- With byte values in TIMA and TMA, `timer_ticks(2)` is two cycles, unless TIMA overflows in the first one:
-- then the batch leaves pending what the second cycle delivers, the reload and the request.
pub timer_ticks-timer_tick :
    (m : Machine)
    → m.timer.tima < 256
    → m.timer.tma < 256
    → timer_tick (timer_tick m)
      ≡ (if overflows m.timer then deliver_overflow (timer_ticks 2 m) else timer_ticks 2 m)
unfolding next_interrupts
timer_ticks-timer_tick m h1 h2 =
    rw (timer_tick_lem m h1 h2, timer_ticks-after_two m h1 h2)
      (rw
        (
          timer_tick_lem
              (record m {
                cpu = record (m.cpu) { ime_scheduled = false };
                timer = next_timer m.timer;
                interrupts = next_interrupts m;
              })
              (next_tima m.timer h1 h2) (next_tma m.timer h2),
          next-next_timer m.timer,
          delivered,
        )
        (elim (Bool-cases (overflows m.timer)) [
          | inl late ↦
              (let both = after_two-overflows m.timer late in
                rw (next_overflow m.timer, late, both.0, both.1) refl)
          | inr even ↦ rw (next_overflow m.timer, even) refl
        ]))
