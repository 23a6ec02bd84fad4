-- ===== src/Base/Bits/Digit.antt =====
-- The laws of `&` and `|` for the lowest binary digit.
use Prim.Native.Nat.{
  ℕ, zero, suc, ◌+◌, ◌*◌, ◌/◌, ◌%◌, ◌≤◌, min, max, digits, bit_and, bit_or, bit_and-bitwise,
  bit_or-bitwise,
}
use mathlib.Core.Path.{◌≡◌, refl}
use native.Mathlib.Omega.{arith}

-- The native operations are recursions on the digits, on fuel that is not less than the number.
module _ (last : ℕ → ℕ) (op : ℕ → ℕ → ℕ) where
  pub enough_fuel : (n k a b : ℕ) → a ≤ n → a ≤ k → digits last op n a b ≡ digits last op k a b
  enough_fuel zero zero a b p q = refl
  enough_fuel zero (suc k) zero b p q = refl
  enough_fuel (suc n) zero zero b p q = refl
  enough_fuel (suc n) (suc k) zero b p q = refl
  enough_fuel zero k (suc a) b p q = absurd (omega arith)
  enough_fuel (suc n) zero (suc a) b p q = absurd (omega arith)
  enough_fuel (suc n) (suc k) (suc a) b p q =
      rw (enough_fuel n k (suc a / 2) (b / 2) (omega arith) (omega arith))

pub bit_and_digit : (m n : ℕ) → bit_and m n ≡ 2 * bit_and (m / 2) (n / 2) + min (m % 2) (n % 2)
bit_and_digit zero n = simp bit_and-bitwise (omega arith)
bit_and_digit (suc m) n =
    let half = suc m / 2 in
    let fuel = enough_fuel (λ _. 0) min m half half (n / 2) (omega arith) (omega arith) in
    omega (arith, fuel, bit_and-bitwise half (n / 2), bit_and-bitwise (suc m) n)

pub bit_or_digit : (m n : ℕ) → bit_or m n ≡ 2 * bit_or (m / 2) (n / 2) + max (m % 2) (n % 2)
bit_or_digit zero n = simp bit_or-bitwise (omega arith)
bit_or_digit (suc m) n =
    let half = suc m / 2 in
    let fuel = enough_fuel (λ y. y) max m half half (n / 2) (omega arith) (omega arith) in
    omega (arith, fuel, bit_or-bitwise half (n / 2), bit_or-bitwise (suc m) n)

and_zero_below : (n a : ℕ) → a ≤ n → bit_and a 0 ≡ 0
and_zero_below n zero h = refl
and_zero_below zero (suc a) h = absurd (omega arith)
and_zero_below (suc n) (suc a) h =
    omega (arith, bit_and_digit (suc a) 0, and_zero_below n (suc a / 2) (omega arith))

pub bit_and-zero : (a : ℕ) → bit_and a 0 ≡ 0
bit_and-zero a = and_zero_below a a (omega arith)

or_zero_below : (n a : ℕ) → a ≤ n → bit_or a 0 ≡ a
or_zero_below n zero h = refl
or_zero_below zero (suc a) h = absurd (omega arith)
or_zero_below (suc n) (suc a) h =
    omega (arith, bit_or_digit (suc a) 0, or_zero_below n (suc a / 2) (omega arith))

pub bit_or-zero : (a : ℕ) → bit_or a 0 ≡ a
bit_or-zero a = or_zero_below a a (omega arith)

and_le_below : (n a b : ℕ) → a ≤ n → bit_and a b ≤ b
and_le_below n zero b h = simp bit_and-bitwise (omega arith)
and_le_below zero (suc a) b h = absurd (omega arith)
and_le_below (suc n) (suc a) b h =
    omega (arith, bit_and_digit (suc a) b, and_le_below n (suc a / 2) (b / 2) (omega arith))

-- A mask keeps a number below the mask.
pub bit_and-le : (a b : ℕ) → bit_and a b ≤ b
bit_and-le a b = and_le_below a a b (omega arith)
