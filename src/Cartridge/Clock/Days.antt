-- ===== src/Cartridge/Clock/Days.antt =====
-- The counters of the clock in src/cartridge/mbc3.c: `update_rtc` splits a number of seconds, and
-- reads it back.
use emu_gb.Base.{
  ◌^◌, inr, inl, Bool-cases, lt→ltb, ℕ, ◌+◌, ◌-◌, ◌*◌, ◌/◌, ◌%◌, ◌<◌, ◌≤◌, ◌≡◌, ◌∙◌, refl, arith,
  true, false, ltb, to_ℕ, bit, has_bit, bit_and, bit_or,
}
use emu_gb.Base.Bits.{bit_or_128}
use emu_gb.Base.Bits.Digit.{bit_and_digit, bit_or_digit, bit_or-zero}
use emu_gb.Cartridge.{Rtc}
use emu_gb.Cartridge.Clock.{counted, elapsed, split_time, update_rtc, latch_rtc, rtc_days_hi}

-- Seconds in a day, and in the 256 days that one byte counts.
abbrev pub day : ℕ
day = 86400

abbrev pub era : ℕ
era = 22118400

-- The day byte that `split_time` writes, from the old byte and the days above 256.
abbrev days_hi : ℕ → ℕ → ℕ
days_hi old rest = bit_or (bit_or (bit_and old 0xFE) (bit rest 1)) (to_ℕ (ltb 0 rest) * 2 ^ 7)

mask_bit : (old x : ℕ) → bit_or (bit_and old 0xFE) x % 2 ≡ x % 2
mask_bit old x = omega (arith, bit_and_digit old 254, bit_or_digit (bit_and old 254) x)

days_hi_low : (old rest : ℕ) → days_hi old rest % 2 ≡ bit rest 1
days_hi_low old rest =
    let low = bit_or (bit_and old 0xFE) (bit rest 1) in
    elim (Bool-cases (ltb 0 rest)) [
      | inl some_days ↦ rw (some_days, bit_or_128) (omega (arith, mask_bit old (bit rest 1)))
      | inr none ↦ rw (none, bit_or-zero) (omega (arith, mask_bit old (bit rest 1)))
    ]

days_hi_carry : (old rest : ℕ) → 0 < rest → has_bit (days_hi old rest) 7 ≡ true
days_hi_carry old rest pos = rw (lt→ltb 0 rest pos, bit_or_128) (ground arith)

-- What is read back after any number of seconds.
counted-split_time_any :
    (t : ℕ) (w : ℕ → ℕ) → counted (split_time t w) ≡ t % era + t / era / 2 % 2 * era
unfolding counted split_time
counted-split_time_any t w = omega (arith, days_hi_low (w rtc_days_hi) (t / 60 / 60 / 24 / 256))

-- Below 256 days the counters hold exactly the given number of seconds.
pub counted-split_time : (t : ℕ) (w : ℕ → ℕ) → t < era → counted (split_time t w) ≡ t
counted-split_time t w h = omega (arith, counted-split_time_any t w)

-- From 256 to 511 days, which nine bits can count, 256 days are lost, and bit 7 of the last register,
-- the carry, is set.
pub counted_loses_days :
    (t : ℕ) (w : ℕ → ℕ)
    → era ≤ t
    → t < 2 * era
    → (counted (split_time t w) ≡ t - era) × (has_bit (split_time t w rtc_days_hi) 7 ≡ true)
counted_loses_days t w low high = (
  omega (arith, counted-split_time_any t w),
  unfold split_time in days_hi_carry (w rtc_days_hi) (t / 60 / 60 / 24 / 256) (omega arith),
)

latched :
    (now : ℕ) (r : Rtc)
    → counted (latch_rtc now r).readable
      ≡ counted (split_time (elapsed now r + counted r.writable) r.writable)
unfolding latch_rtc update_rtc counted
latched now r = refl

-- Latching shows in the readable registers the time that the counters held and the seconds since the
-- last update, where bit 6 of the time of that update is clear, the clock did not go back and 256 days
-- are not reached.
pub latch_rtc-counts :
    (now : ℕ) (r : Rtc)
    → has_bit r.time 6 ≡ false
    → r.time ≤ now
    → now - r.time + counted r.writable < era
    → counted (latch_rtc now r).readable ≡ now - r.time + counted r.writable
latch_rtc-counts now r runs later fits =
    let e : elapsed now r ≡ now - r.time = unfold elapsed in ground arith in
    latched now r ∙ rw e (counted-split_time (now - r.time + counted r.writable) r.writable fits)

-- Latching while bit 6 of the time of the last update is set shows the counters as they were, however
-- late it is; they hold less than 256 days.
pub latch_rtc_stands_still :
    (now : ℕ) (r : Rtc)
    → has_bit r.time 6 ≡ true
    → counted r.writable < era
    → counted (latch_rtc now r).readable ≡ counted r.writable
latch_rtc_stands_still now r halted fits =
    let e : elapsed now r + counted r.writable ≡ counted r.writable =
      unfold elapsed in ground arith in
    latched now r ∙ rw e (counted-split_time (counted r.writable) r.writable fits)
