-- ===== src/Instruction/Alu/Decimal.antt =====
-- `daa` of src/cpu/instruction.c: decimal arithmetic on two digits in one byte.
use emu_gb.Base.{
  ◌⊎◌, inl, inr, Bool-cases, ℕ, ◌+◌, ◌-◌, ◌*◌, ◌/◌, ◌%◌, ◌<◌, ◌≤◌, ◌≡◌, ◌∙◌, ap, Bool, true, false,
  refl, arith, ◌==◌, ltb, leb, u8, if◌then◌else◌,
}
use emu_gb.Cpu.{Cpu, reg_a, read_register, write_register}
use emu_gb.Cpu.Flag.{set_flag, get_flag, flag_z, flag_h, flag_c}
use emu_gb.Cpu.View.{
  flags, flags_of, forget_flags, set_a, set_a-set_a, a_of-forget_flags, a_of-set_a, Computes,
  cpu_laws,
}
use emu_gb.Instruction.{Instruction}
use emu_gb.Instruction.Alu.{adc, sbc, daa, adjust}
use emu_gb.Instruction.Alu.Operand.{OnBytes}
use emu_gb.Instruction.Alu.Sums.{carry_in, carry_in-le, adc_lem, sbc_lem}

-- Two decimal digits in one byte.
abbrev pub bcd : ℕ → ℕ
bcd n = n / 10 * 16 + n % 10

-- On digits: `p q` and `r s`.
adjust_digits :
    (p q r s k : ℕ)
    → p < 10
    → q < 10
    → r < 10
    → s < 10
    → k ≤ 1
    → (ltb 9 (q + s + k) ≡ true) ⊎ (ltb 9 (q + s + k) ≡ false)
    → (ltb 9 (p + r) ≡ true) ⊎ (ltb 9 (p + r) ≡ false)
    → adjust
        (u8 ((p + r) * 16 + (q + s + k)))
        false
        (ltb 15 (q + s + k))
        (ltb 255 ((p + r) * 16 + (q + s + k)))
      ≡ (bcd (((p + r) * 10 + (q + s + k)) % 100), leb 100 ((p + r) * 10 + (q + s + k)))
unfolding adjust
adjust_digits p q r s k hp hq hr hs hk (inl u) (inl v) = ground arith
adjust_digits p q r s k hp hq hr hs hk (inl u) (inr v) = ground arith
adjust_digits p q r s k hp hq hr hs hk (inr u) (inl v) = ground arith
adjust_digits p q r s k hp hq hr hs hk (inr u) (inr v) = ground arith

adjust_difference :
    (x y k : ℕ)
    → x < 100
    → y < 100
    → k ≤ 1
    → adjust
        (u8 (bcd x + 256 - bcd y - k))
        true
        (ltb (bcd x % 16) (bcd y % 16 + k))
        (ltb (bcd x) (bcd y + k))
      ≡ (bcd ((x + 100 - y - k) % 100), ltb x (y + k))
unfolding adjust
adjust_difference x y k hx hy hk = ground arith

adjust_sum :
    (x y k : ℕ)
    → x < 100
    → y < 100
    → k ≤ 1
    → adjust
        (u8 (bcd x + bcd y + k))
        false
        (ltb 15 (bcd x % 16 + bcd y % 16 + k))
        (ltb 255 (bcd x + bcd y + k))
      ≡ (bcd ((x + y + k) % 100), leb 100 (x + y + k))
adjust_sum x y k hx hy hk =
    let p = x / 10 in
    let q = x % 10 in
    let r = y / 10 in
    let s = y % 10 in
    let e1 : bcd x + bcd y + k ≡ (p + r) * 16 + (q + s + k) = omega arith in
    let e2 : bcd x % 16 + bcd y % 16 + k ≡ q + s + k = omega arith in
    let e3 : x + y + k ≡ (p + r) * 10 + (q + s + k) = omega arith in
    rw (e1, e2, e3)
      (adjust_digits p q r s k (omega arith) (omega arith) (omega arith) (omega arith) hk
        (Bool-cases _) (Bool-cases _))

-- The accumulator stays a byte, and the carry is never taken back.
adjust-lt : (a : ℕ) (n h c : Bool) → a < 256 → (adjust a n h c).0 < 256
unfolding adjust
adjust-lt a n h c ha = ground arith

adjust_keeps_carry : (a : ℕ) (n h c : Bool) → (adjust a n h c).1 ≡ false → c ≡ false
unfolding adjust
adjust_keeps_carry a n h c e = ground arith

abbrev adjusted : Cpu → ℕ × Bool
adjusted c = adjust (c.r8 reg_a) (flags_of c).nf (flags_of c).hf (flags_of c).cf

-- The two halves of `daa_lem`, for the pair that `adjust` gives.
daa_of_carry :
    (c : Cpu) (a : ℕ) (carry : Bool)
    → a < 256
    → (carry ≡ false → (flags_of c).cf ≡ false)
    → Computes
        (set_flag flag_z (a == 0) (
          set_flag flag_h false
            (write_register reg_a a (if carry then set_flag flag_c true c else c))))
        c
        a
        (flags (a == 0) (flags_of c).nf false carry)
daa_of_carry c a true ha keeps =
    (simp cpu_laws, simp cpu_laws (ap (λ v. set_a v (forget_flags c)) (omega arith)))
daa_of_carry c a false ha keeps = (
  simp cpu_laws (rw (keeps refl)),
  simp cpu_laws (ap (λ v. set_a v (forget_flags c)) (omega arith)),
)

-- `DAA` puts `adjusted` into A, and its carry into C; Z tells a zero result, H is cleared, and N
-- is kept.
pub daa_lem :
    (c : Cpu)
    → c.r8 reg_a < 256
    → Computes
        (daa c)
        c
        (adjusted c).0
        (flags ((adjusted c).0 == 0) (flags_of c).nf false (adjusted c).1)
unfolding daa flags_of read_register
daa_lem c ha =
    daa_of_carry c (adjusted c).0 (adjusted c).1
      (adjust-lt (c.r8 reg_a) (flags_of c).nf (flags_of c).hf (flags_of c).cf ha)
      (adjust_keeps_carry (c.r8 reg_a) (flags_of c).nf (flags_of c).hf (flags_of c).cf)

-- `daa` behind an operation whose result and flags are known.
daa_after :
    (c d : Cpu) (a : ℕ) (zf nf hf cf : Bool)
    → a < 256
    → Computes d c a (flags zf nf hf cf)
    → Computes
        (daa d)
        c
        (adjust a nf hf cf).0
        (flags ((adjust a nf hf cf).0 == 0) nf false (adjust a nf hf cf).1)
daa_after c d a zf nf hf cf ha (fs, rest) =
    let in_a : d.r8 reg_a ≡ a =
      a_of-forget_flags d ∙ ap (λ (e : Cpu). e.r8 reg_a) rest ∙ a_of-set_a a (forget_flags c) in
    let same : adjusted d ≡ adjust a nf hf cf = rw (in_a, fs) in
    let known = daa_lem d (rw in_a ha) in
    (
      known.0 ∙ rw (same, fs),
      known.1
          ∙ rw same (
              ap (set_a (adjust a nf hf cf).0) rest
              ∙ set_a-set_a (adjust a nf hf cf).0 a (forget_flags c)),
    )

module _ {i : Instruction} {c : Cpu} (x y : ℕ) (hx : x < 100) (hy : y < 100) where
  -- For `x` and `y` below 100, the digits of `x` in A and those of `y` as the operand: `ADC` and then
  -- `DAA` leave in A the two digits of the sum with the carry flag modulo 100. C tells that the sum
  -- passed 99, Z that the digits are zero; N and H are cleared, and nothing but A and F changes.
  pub daa-adc :
      OnBytes i c (bcd y)
      → c.r8 reg_a ≡ bcd x
      → let k = carry_in c in
        let total = (x + y + k) % 100 in
        Computes
          (daa (adc i c))
          c
          (bcd total)
          (flags (bcd total == 0) false false (leb 100 (x + y + k)))
  daa-adc on a_is =
      let k = carry_in c in
      let total = bcd x + bcd y + k in
      let added = rw a_is at (adc_lem on) in
      let known =
        daa_after c (adc i c) (u8 total) (u8 total == 0) false
          (ltb 15 (bcd x % 16 + bcd y % 16 + k)) (ltb 255 total) (omega arith) added in
      rw (adjust_sum x y k hx hy (carry_in-le (get_flag flag_c c))) at known

  -- In the same state `SBC` and then `DAA` leave in A the digits of the difference less the carry flag
  -- modulo 100. C tells that it fell below zero, Z that the digits are zero; N is set, H cleared, and
  -- nothing but A and F changes.
  pub daa-sbc :
      OnBytes i c (bcd y)
      → c.r8 reg_a ≡ bcd x
      → let k = carry_in c in
        let total = (x + 100 - y - k) % 100 in
        Computes (daa (sbc i c)) c (bcd total) (flags (bcd total == 0) true false (ltb x (y + k)))
  daa-sbc on a_is =
      let k = carry_in c in
      let total = bcd x + 256 - bcd y - k in
      let left = rw a_is at (sbc_lem on) in
      let known =
        daa_after c (sbc i c) (u8 total) (u8 total == 0) true (ltb (bcd x % 16) (bcd y % 16 + k))
          (ltb (bcd x) (bcd y + k)) (omega arith) left in
      rw (adjust_difference x y k hx hy (carry_in-le (get_flag flag_c c))) at known
