-- ===== src/Cartridge/Clock.antt =====
-- src/cartridge/mbc3.c: the clock of an MBC3. A `time_t` is a number of seconds, not negative and
-- without overflow.
pub mod Days
use emu_gb.Base.{
  ℕ, ◌+◌, ◌-◌, ◌*◌, ◌/◌, ◌%◌, ◌^◌, ltb, leb, ◌&&◌, not, if◌then◌else◌, bit, has_bit, to_ℕ, update,
  bit_and, bit_or,
}
use emu_gb.Cartridge.{Rtc}

abbrev pub rtc_seconds : ℕ
rtc_seconds = 0

abbrev pub rtc_minutes : ℕ
rtc_minutes = 1

abbrev pub rtc_hours : ℕ
rtc_hours = 2

abbrev pub rtc_days_lo : ℕ
rtc_days_lo = 3

abbrev pub rtc_days_hi : ℕ
rtc_days_hi = 4

abbrev pub day_carry : ℕ
day_carry = 7

abbrev pub rtc_halt_flag : ℕ
rtc_halt_flag = 6

-- The seconds that the writable registers stand for.
unfoldable pub counted : (ℕ → ℕ) → ℕ
counted w =
    w rtc_seconds
    + w rtc_minutes * 60
    + w rtc_hours * 3600
    + w rtc_days_lo * (3600 * 24)
    + bit (w rtc_days_hi) 0 * (3600 * 24 * 256)

-- The seconds since the last update. The halt flag is looked up in `time`, as the source does.
unfoldable pub elapsed : ℕ → Rtc → ℕ
elapsed now r = if not (has_bit r.time rtc_halt_flag) && ltb r.time now then now - r.time else 0

-- The stores of `update_rtc` for a given `diff`.
unfoldable pub split_time : ℕ → (ℕ → ℕ) → ℕ → ℕ
split_time diff w =
    let minutes = diff / 60 in
    let hours = minutes / 60 in
    let days = hours / 24 in
    let rest = days / 256 in
    let w1 = update w rtc_seconds (diff % 60) in
    let w2 = update w1 rtc_minutes (minutes % 60) in
    let w3 = update w2 rtc_hours (hours % 24) in
    let w4 = update w3 rtc_days_lo (days % 256) in
    let w5 = update w4 rtc_days_hi (bit_or (bit_and (w4 rtc_days_hi) 0xFE) (bit rest 1)) in
    update w5 rtc_days_hi (bit_or (w5 rtc_days_hi) (to_ℕ (ltb 0 rest) * 2 ^ day_carry))

unfoldable pub update_rtc : ℕ → Rtc → Rtc
update_rtc now r = record r {
  writable = split_time (elapsed now r + counted r.writable) r.writable;
  time = now;
}

-- `memcpy` of the five registers.
unfoldable pub latch_rtc : ℕ → Rtc → Rtc
latch_rtc now r =
    let r1 = update_rtc now r in
    record r1 { readable = λ k. if ltb k 5 then r1.writable k else r1.readable k }

unfoldable pub map_rtc : ℕ → ℕ → Rtc → Rtc
map_rtc now val r =
    let r1 = update_rtc now r in
    if leb 0x8 val && leb val 0xC then record r1 { mapped_register = val - 0x8 } else r1
