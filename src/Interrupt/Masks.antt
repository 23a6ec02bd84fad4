-- ===== src/Interrupt/Masks.antt =====
-- The bits of IF under the masks of src/cpu/interrupt.c, checked for every byte.
use emu_gb.Base.{
  ℕ, ◌+◌, ◌-◌, ◌*◌, ◌/◌, ◌^◌, ◌<◌, ◌≡◌, refl, ap, Bool, true, false, arith, ◌==◌, ◌||◌,
  if◌then◌else◌, to_bool, u8, complement, bit_and, bit_or, passes, passes_lem, eqb, eqb-eq,
}
use emu_gb.Interrupt.{flag}

-- The vector number `k`.
abbrev pub vector : ℕ → ℕ
vector k = 0x40 + 8 * k

pub flag-vector : (k : ℕ) → flag (vector k) ≡ 2 ^ k
flag-vector k = let e : (0x40 + 8 * k - 0x40) / 8 ≡ k = omega arith in ap (λ n. 2 ^ n) e

abbrev pub has : ℕ → ℕ → Bool
has f j = to_bool (bit_and f (2 ^ j))

abbrev clear_check : ℕ → ℕ → ℕ → Bool
clear_check f k j =
    eqb (has (u8 (bit_and f (complement (2 ^ k)))) j) (if k == j then false else has f j)

clear_table : passes (λ f. passes (λ k. passes (clear_check f k) 5) 5) 256 ≡ true
unfolding passes
clear_table = refl

pub has-clear :
    (f k j : ℕ)
    → f < 256
    → k < 5
    → j < 5
    → has (u8 (bit_and f (complement (2 ^ k)))) j ≡ (if k == j then false else has f j)
has-clear f k j hf hk hj =
    let row = passes_lem _ 5 (passes_lem _ 256 clear_table hf) hk in
    eqb-eq _ _ (passes_lem (clear_check f k) 5 row hj)

abbrev request_check : ℕ → ℕ → Bool
request_check f j = eqb (has (u8 (bit_or f 4)) j) (j == 2 || has f j)

request_table : passes (λ f. passes (request_check f) 5) 256 ≡ true
unfolding passes
request_table = refl

pub has-request : (f j : ℕ) → f < 256 → j < 5 → has (u8 (bit_or f 4)) j ≡ (j == 2 || has f j)
has-request f j hf hj =
    eqb-eq _ _ (passes_lem (request_check f) 5 (passes_lem _ 256 request_table hf) hj)
