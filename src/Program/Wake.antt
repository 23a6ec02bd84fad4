-- ===== src/Program/Wake.antt =====
-- A halted CPU in the loop of src/main.c with IME off, which the timer wakes.
use emu_gb.Base.{
  ℕ, zero, suc, ◌+◌, ◌-◌, ◌*◌, ◌%◌, ◌<◌, ◌≤◌, ◌≡◌, ◌⊎◌, inl, inr, refl, arith, Bool, true, false,
  ◌==◌, Bool-cases, ok, Returns, has_bit, if◌then◌else◌,
}
use emu_gb.Machine.{Machine, on_cpu}
use emu_gb.Timer.{Timer}
use emu_gb.Timer.Ticks.{timer_tick, frequency}
use emu_gb.Timer.Cycle.{IsPeriod, frequency-IsPeriod, next_timer, next_interrupts, timer_tick_lem}
use emu_gb.Interrupt.{interrupt_is_set, interrupt_is_enabled}
use emu_gb.Interrupt.Masks.{vector, has-request}
use emu_gb.Interrupt.Priority.{
  is_waiting, IsFirst, handle_interrupts-idle, handle_interrupts-masked,
}
use emu_gb.Program.{TestRom, round, rounds}

-- The first interrupt that waits, if one does.
find-IsFirst :
    (n : ℕ) (m : Machine)
    → n ≤ 5
    → ((k : ℕ) × IsFirst k m) ⊎ ((j : ℕ) → j < n → is_waiting j m ≡ false)
find-IsFirst zero m h = inr (λ j below. absurd (omega arith))
find-IsFirst (suc n) m h = elim (find-IsFirst n m (omega arith)) [
  | inl found ↦ inl found
  | inr none ↦ elim (Bool-cases (is_waiting n m)) [
    | inl waits ↦ inl (n, record { in_range = omega arith; waits = waits; none_before = none })
    | inr quiet ↦ inr (λ j below. elim (Bool-cases (j == n)) [
      | inl same ↦ (let e : j ≡ n = ground arith in rw e quiet)
      | inr other ↦ none j (ground arith)
    ])
  ]
]

-- The program runs, the CPU is halted with IME off, and the timer, which is on, may interrupt it.
pub record IsAsleep (m : Machine) : Type 0 where
  pub running : m.cpu.is_running ≡ true
  pub halted : m.cpu.halt ≡ true
  pub masked : m.interrupts.ime ≡ false
  pub no_ei : m.cpu.ime_scheduled ≡ false
  pub timer_on : has_bit m.timer.tac 2 ≡ true
  pub enabled : interrupt_is_enabled (vector 2) m.interrupts ≡ true
  pub tima_byte : m.timer.tima < 256
  pub tma_byte : m.timer.tma < 256
  pub if_byte : m.interrupts.if_reg < 256

tick-IsAsleep : (m : Machine) → IsAsleep m → IsAsleep (timer_tick m)
unfolding interrupt_is_enabled next_timer next_interrupts
tick-IsAsleep m h = rw (timer_tick_lem m h.tima_byte h.tma_byte) (record {
  running = h.running;
  halted = h.halted;
  masked = simp (h.no_ei, h.masked);
  no_ei = refl;
  timer_on = h.timer_on;
  enabled = h.enabled;
  tima_byte = ground (arith, h.tima_byte, h.tma_byte);
  tma_byte = h.tma_byte;
  if_byte = ground (arith, h.if_byte);
})

-- After an overflow the timer's interrupt waits.
tick_waits :
    (m : Machine) → IsAsleep m → m.timer.tima_overflow ≡ true → is_waiting 2 (timer_tick m) ≡ true
unfolding interrupt_is_set interrupt_is_enabled next_interrupts
tick_waits m h over =
    rw (timer_tick_lem m h.tima_byte h.tma_byte)
      (simp (over, has-request m.interrupts.if_reg 2 h.if_byte (omega arith)) h.enabled)

-- The cycles until the overflow.
abbrev remaining : ℕ → Timer → ℕ
remaining f t = if t.tima_overflow then 0 else (255 - t.tima) * f + (f - t.div % f)

remaining-next_timer :
    (f : ℕ) (t : Timer)
    → IsPeriod f
    → f ≡ frequency t.tac
    → has_bit t.tac 2 ≡ true
    → t.tima < 256
    → t.tima_overflow ≡ false
    → remaining f (next_timer t) < remaining f t
unfolding next_timer
remaining-next_timer f t (inl e) same on byte quiet = ground arith
remaining-next_timer f t (inr (inl e)) same on byte quiet = ground arith
remaining-next_timer f t (inr (inr (inl e))) same on byte quiet = ground arith
remaining-next_timer f t (inr (inr (inr e))) same on byte quiet = ground arith

module _ (exits : Bool) (t : TestRom) where
  -- A round of a halted CPU that accepts an interrupt, and one that does not.
  round_accepts :
      (k : ℕ) (m : Machine)
      → IsAsleep m
      → IsFirst k (timer_tick m)
      → round exits false (t, m) ≡ ok (t, on_cpu (λ c. record c { halt = false }) (timer_tick m))
  unfolding round
  round_accepts k m h first =
      simp (h.halted, handle_interrupts-masked k (timer_tick m) first (tick-IsAsleep m h).masked)

  round_sleeps :
      (m : Machine)
      → IsAsleep m
      → ((j : ℕ) → j < 5 → is_waiting j (timer_tick m) ≡ false)
      → round exits false (t, m) ≡ ok (t, timer_tick m)
  unfolding round
  round_sleeps m h none = simp (h.halted, handle_interrupts-idle (timer_tick m) none)

  -- The CPU is awake after some number of rounds up to `bound`.
  abbrev WakesWithin : ℕ → Machine → Type 0
  WakesWithin bound m =
      (n : ℕ) × (n ≤ bound) × Returns (rounds exits n (t, m)) (λ s. s.1.cpu.halt ≡ false)

  wakes_now :
      (k bound : ℕ) (m : Machine)
      → IsAsleep m
      → IsFirst k (timer_tick m)
      → WakesWithin (suc bound) m
  unfolding rounds
  wakes_now k bound m h first = (1, omega arith, simp (h.running, round_accepts k m h first))

  wakes_later :
      (bound : ℕ) (m : Machine)
      → IsAsleep m
      → ((j : ℕ) → j < 5 → is_waiting j (timer_tick m) ≡ false)
      → WakesWithin bound (timer_tick m)
      → WakesWithin (suc bound) m
  unfolding rounds
  wakes_later bound m h none (n, fits, wakes) =
      (suc n, omega arith, simp (h.running, round_sleeps m h none) wakes)

  remaining_shrinks :
      (m : Machine)
      → IsAsleep m
      → m.timer.tima_overflow ≡ false
      → remaining (frequency (timer_tick m).timer.tac) (timer_tick m).timer
        < remaining (frequency m.timer.tac) m.timer
  unfolding next_timer
  remaining_shrinks m h quiet = rw (timer_tick_lem m h.tima_byte h.tma_byte) (
      remaining-next_timer (frequency m.timer.tac) m.timer (frequency-IsPeriod m.timer.tac) refl
        h.timer_on h.tima_byte quiet)

  -- A round accepts an interrupt, or the overflow comes nearer.
  accepts_or_shrinks :
      (m : Machine)
      → IsAsleep m
      → ((k : ℕ) × IsFirst k (timer_tick m))
        ⊎ (((j : ℕ) → j < 5 → is_waiting j (timer_tick m) ≡ false)
            × (remaining (frequency (timer_tick m).timer.tac) (timer_tick m).timer
                < remaining (frequency m.timer.tac) m.timer))
  accepts_or_shrinks m h = elim (find-IsFirst 5 (timer_tick m) (omega arith)) [
    | inl found ↦ inl found
    | inr none ↦ elim (Bool-cases m.timer.tima_overflow) [
      | inl over ↦ (let waits = tick_waits m h over in let off = none 2 (omega arith) in absurd cc)
      | inr quiet ↦ inr (none, remaining_shrinks m h quiet)
    ]
  ]

  wakes_within :
      (bound : ℕ) (m : Machine)
      → IsAsleep m
      → remaining (frequency m.timer.tac) m.timer ≤ bound
      → WakesWithin (suc bound) m
  wakes_within zero m h fits = elim (accepts_or_shrinks m h) [
    | inl found ↦ wakes_now found.0 zero m h found.1
    | inr later ↦ (let less = later.1 in absurd (omega arith))
  ]
  wakes_within (suc bound) m h fits = elim (accepts_or_shrinks m h) [
    | inl found ↦ wakes_now found.0 (suc bound) m h found.1
    | inr later ↦
        (let less = later.1 in
          wakes_later (suc bound) m h later.0
            (wakes_within bound (timer_tick m) (tick-IsAsleep m h) (omega arith)))
  ]

period_bound : (f : ℕ) (t : Timer) → IsPeriod f → remaining f t ≤ 65536
period_bound f t (inl e) = rw e (ground arith)
period_bound f t (inr (inl e)) = rw e (ground arith)
period_bound f t (inr (inr (inl e))) = rw e (ground arith)
period_bound f t (inr (inr (inr e))) = rw e (ground arith)

-- While the program runs, with byte values in TIMA, TMA and IF and no delayed `EI`, a halted CPU with IME
-- off, of which the timer is on and its interrupt enabled, is awake again after at most 65537 rounds of
-- the loop, none of which stops the program, whatever the period and the counters.
pub rounds_wake :
    (exits : Bool) (t : TestRom) (m : Machine)
    → IsAsleep m
    → (n : ℕ) × (n ≤ 65537) × Returns (rounds exits n (t, m)) (λ s. s.1.cpu.halt ≡ false)
rounds_wake exits t m h =
    wakes_within exits t 65536 m h
      (period_bound (frequency m.timer.tac) m.timer (frequency-IsPeriod m.timer.tac))
