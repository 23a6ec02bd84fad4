-- ===== src/Base/Bits/Width.antt =====
-- `|` and `^` of two bytes are bytes.
use Prim.Native.Nat.{
  ℕ, zero, suc, ◌+◌, ◌*◌, ◌/◌, ◌%◌, ◌^◌, ◌≤◌, ◌<◌, differ, bit_or, bit_or-bitwise, bit_xor,
  bit_xor-bitwise,
}
use mathlib.Core.Path.{◌≡◌}
use native.Mathlib.Omega.{arith}
use emu_gb.Base.Bits.Digit.{enough_fuel, bit_or_digit}

bit_xor_digit : (m n : ℕ) → bit_xor m n ≡ 2 * bit_xor (m / 2) (n / 2) + differ (m % 2) (n % 2)
bit_xor_digit zero n = simp bit_xor-bitwise (omega arith)
bit_xor_digit (suc m) n =
    let half = suc m / 2 in
    let fuel = enough_fuel (λ y. y) differ m half half (n / 2) (omega arith) (omega arith) in
    omega (arith, fuel, bit_xor-bitwise half (n / 2), bit_xor-bitwise (suc m) n)

differ-le : (x y : ℕ) → x < 2 → y < 2 → differ x y ≤ 1
differ-le zero y h h' = omega arith
differ-le (suc zero) zero h h' = omega arith
differ-le (suc zero) (suc y) h h' = omega arith
differ-le (suc (suc x)) y h h' = absurd (omega arith)

-- As many halvings as there are digits.
or_below : (k m n : ℕ) → m < 2 ^ k → n < 2 ^ k → bit_or m n < 2 ^ k
or_below zero zero n h h' = simp bit_or-bitwise h'
or_below zero (suc m) n h h' = absurd (omega arith)
or_below (suc k) m n h h' =
    omega (arith, bit_or_digit m n, or_below k (m / 2) (n / 2) (omega arith) (omega arith))

xor_below : (k m n : ℕ) → m < 2 ^ k → n < 2 ^ k → bit_xor m n < 2 ^ k
xor_below zero zero n h h' = simp bit_xor-bitwise h'
xor_below zero (suc m) n h h' = absurd (omega arith)
xor_below (suc k) m n h h' =
    let digit = differ-le (m % 2) (n % 2) (omega arith) (omega arith) in
    omega (arith, bit_xor_digit m n, xor_below k (m / 2) (n / 2) (omega arith) (omega arith))

pub bit_or_byte : (m n : ℕ) → m < 256 → n < 256 → bit_or m n < 256
bit_or_byte m n h h' = or_below 8 m n h h'

pub bit_xor_byte : (m n : ℕ) → m < 256 → n < 256 → bit_xor m n < 256
bit_xor_byte m n h h' = xor_below 8 m n h h'
