-- ===== src/Base/Bits.antt =====
-- `&` and `|` with a mask of one bit, as arithmetic, for every number.
pub mod Digit
pub mod Width
use emu_gb.Base.Word.{u8, bit, complement}
use emu_gb.Base.Bits.Digit.{bit_or_digit, bit_and_digit, bit_or-zero, bit_and-zero}
use Prim.Native.Nat.{ℕ, ◌+◌, ◌-◌, ◌*◌, ◌/◌, ◌%◌, ◌^◌, ◌<◌, bit_and, bit_or}
use mathlib.Core.Path.{◌≡◌, refl}
use native.Mathlib.Omega.{arith}

bit_and-one : (x : ℕ) → bit_and x 1 ≡ x % 2
bit_and-one x = omega (arith, bit_and_digit x 1, bit_and-zero (x / 2))

bit_or-one : (x : ℕ) → bit_or x 1 ≡ x / 2 * 2 + 1
bit_or-one x = omega (arith, bit_or_digit x 1, bit_or-zero (x / 2))

-- The value of the bit alone.
pub bit_and_16 : (x : ℕ) → bit_and x 16 ≡ bit x 4 * 16
bit_and_16 x = omega (
  arith,
  bit_and_digit x 16,
  bit_and_digit (x / 2) 8,
  bit_and_digit (x / 2 / 2) 4,
  bit_and_digit (x / 2 / 2 / 2) 2,
  bit_and-one (x / 2 / 2 / 2 / 2),
)

pub bit_and_32 : (x : ℕ) → bit_and x 32 ≡ bit x 5 * 32
bit_and_32 x = omega (arith, bit_and_digit x 32, bit_and_16 (x / 2))

pub bit_and_64 : (x : ℕ) → bit_and x 64 ≡ bit x 6 * 64
bit_and_64 x = omega (arith, bit_and_digit x 64, bit_and_32 (x / 2))

pub bit_and_128 : (x : ℕ) → bit_and x 128 ≡ bit x 7 * 128
bit_and_128 x = omega (arith, bit_and_digit x 128, bit_and_64 (x / 2))

-- Setting a bit.
pub bit_or_16 : (x : ℕ) → bit_or x 16 ≡ x + (1 - bit x 4) * 16
bit_or_16 x = omega (
  arith,
  bit_or_digit x 16,
  bit_or_digit (x / 2) 8,
  bit_or_digit (x / 2 / 2) 4,
  bit_or_digit (x / 2 / 2 / 2) 2,
  bit_or-one (x / 2 / 2 / 2 / 2),
)

pub bit_or_32 : (x : ℕ) → bit_or x 32 ≡ x + (1 - bit x 5) * 32
bit_or_32 x = omega (arith, bit_or_digit x 32, bit_or_16 (x / 2))

pub bit_or_64 : (x : ℕ) → bit_or x 64 ≡ x + (1 - bit x 6) * 64
bit_or_64 x = omega (arith, bit_or_digit x 64, bit_or_32 (x / 2))

pub bit_or_128 : (x : ℕ) → bit_or x 128 ≡ x + (1 - bit x 7) * 128
bit_or_128 x = omega (arith, bit_or_digit x 128, bit_or_64 (x / 2))

-- One digit of a mask at a time.
and_odd : (x m : ℕ) → m % 2 ≡ 1 → bit_and x m ≡ bit_and (x / 2) (m / 2) * 2 + x % 2
and_odd x m e = omega (arith, bit_and_digit x m)

and_even : (x m : ℕ) → m % 2 ≡ 0 → bit_and x m ≡ bit_and (x / 2) (m / 2) * 2
and_even x m e = omega (arith, bit_and_digit x m)

-- Clearing a bit of a byte: the eight digits of the byte are looked at.

pub clear_16 : (x : ℕ) → u8 (bit_and x (complement 16)) ≡ u8 x - bit x 4 * 16
clear_16 x = omega (
  arith,
  and_odd x 4294967279 refl,
  and_odd (x / 2) 2147483639 refl,
  and_odd (x / 2 / 2) 1073741819 refl,
  and_odd (x / 2 / 2 / 2) 536870909 refl,
  and_even (x / 2 / 2 / 2 / 2) 268435454 refl,
  and_odd (x / 2 / 2 / 2 / 2 / 2) 134217727 refl,
  and_odd (x / 2 / 2 / 2 / 2 / 2 / 2) 67108863 refl,
  and_odd (x / 2 / 2 / 2 / 2 / 2 / 2 / 2) 33554431 refl,
)

pub clear_32 : (x : ℕ) → u8 (bit_and x (complement 32)) ≡ u8 x - bit x 5 * 32
clear_32 x = omega (
  arith,
  and_odd x 4294967263 refl,
  and_odd (x / 2) 2147483631 refl,
  and_odd (x / 2 / 2) 1073741815 refl,
  and_odd (x / 2 / 2 / 2) 536870907 refl,
  and_odd (x / 2 / 2 / 2 / 2) 268435453 refl,
  and_even (x / 2 / 2 / 2 / 2 / 2) 134217726 refl,
  and_odd (x / 2 / 2 / 2 / 2 / 2 / 2) 67108863 refl,
  and_odd (x / 2 / 2 / 2 / 2 / 2 / 2 / 2) 33554431 refl,
)

pub clear_64 : (x : ℕ) → u8 (bit_and x (complement 64)) ≡ u8 x - bit x 6 * 64
clear_64 x = omega (
  arith,
  and_odd x 4294967231 refl,
  and_odd (x / 2) 2147483615 refl,
  and_odd (x / 2 / 2) 1073741807 refl,
  and_odd (x / 2 / 2 / 2) 536870903 refl,
  and_odd (x / 2 / 2 / 2 / 2) 268435451 refl,
  and_odd (x / 2 / 2 / 2 / 2 / 2) 134217725 refl,
  and_even (x / 2 / 2 / 2 / 2 / 2 / 2) 67108862 refl,
  and_odd (x / 2 / 2 / 2 / 2 / 2 / 2 / 2) 33554431 refl,
)

pub clear_128 : (x : ℕ) → u8 (bit_and x (complement 128)) ≡ u8 x - bit x 7 * 128
clear_128 x = omega (
  arith,
  and_odd x 4294967167 refl,
  and_odd (x / 2) 2147483583 refl,
  and_odd (x / 2 / 2) 1073741791 refl,
  and_odd (x / 2 / 2 / 2) 536870895 refl,
  and_odd (x / 2 / 2 / 2 / 2) 268435447 refl,
  and_odd (x / 2 / 2 / 2 / 2 / 2) 134217723 refl,
  and_odd (x / 2 / 2 / 2 / 2 / 2 / 2) 67108861 refl,
  and_even (x / 2 / 2 / 2 / 2 / 2 / 2 / 2) 33554430 refl,
)

-- All bits but the four high ones of a byte.
pub bit_and_240 : (x : ℕ) → bit_and x 240 ≡ u8 x - x % 16
bit_and_240 x = omega (
  arith,
  and_even x 240 refl,
  and_even (x / 2) 120 refl,
  and_even (x / 2 / 2) 60 refl,
  and_even (x / 2 / 2 / 2) 30 refl,
  and_odd (x / 2 / 2 / 2 / 2) 15 refl,
  and_odd (x / 2 / 2 / 2 / 2 / 2) 7 refl,
  and_odd (x / 2 / 2 / 2 / 2 / 2 / 2) 3 refl,
  and_odd (x / 2 / 2 / 2 / 2 / 2 / 2 / 2) 1 refl,
  bit_and-zero (x / 2 / 2 / 2 / 2 / 2 / 2 / 2 / 2),
)

-- The three low bits of `(x & ~7) | y`.
and_not_7 : (x : ℕ) → bit_and x (complement 7) % 8 ≡ 0
and_not_7 x = omega (
  arith,
  and_even x 4294967288 refl,
  and_even (x / 2) 2147483644 refl,
  and_even (x / 2 / 2) 1073741822 refl,
)

pub low_three : (x y : ℕ) → bit_or (bit_and x (complement 7)) y % 8 ≡ y % 8
low_three x y =
    let w = bit_and x (complement 7) in
    omega (
      arith,
      and_not_7 x,
      bit_or_digit w y,
      bit_or_digit (w / 2) (y / 2),
      bit_or_digit (w / 2 / 2) (y / 2 / 2),
    )
