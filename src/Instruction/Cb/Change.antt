-- ===== src/Instruction/Cb/Change.antt =====
-- `RES` and `SET` of src/cpu/instruction_cb.c on a register, bit by bit.
use emu_gb.Base.{
  ℕ, ◌+◌, ◌*◌, ◌^◌, ◌<◌, ◌≤◌, ◌≡◌, ◌≢◌, refl, ◌∙◌, Bool, true, false, arith, ok, ◌>>=◌, ◌==◌,
  if◌then◌else◌, u8, has_bit, complement, bit_or, bit_and, to_ℕ, IsByte, Returns, passes,
  passes_lem, eqb, eqb-eq,
}
use emu_gb.Cpu.View.{flags_of}
use emu_gb.Machine.{Machine}
use emu_gb.Instruction.Cb.{CbInstruction, write_operand, res, set, handle_cb}
use emu_gb.Instruction.Cb.Register.{
  OnRegister, read_operand-register, r8-write_register, flags_of-write_register,
}

-- The byte that `RES` or `SET` writes.
abbrev changed : Bool → ℕ → ℕ → ℕ
changed on n v = if on then u8 (bit_or v (2 ^ n)) else u8 (bit_and v (complement (2 ^ n)))

abbrev row : Bool → ℕ → ℕ → ℕ → Bool
row on n j v = eqb (has_bit (changed on n v) j) (if n == j then on else has_bit v j)

changes_checked : (on : Bool) → passes (λ n. passes (λ j. passes (row on n j) 256) 8) 8 ≡ true
unfolding passes
changes_checked true = refl
changes_checked false = refl

changed-bits :
    (on : Bool) (n j v : ℕ)
    → n < 8
    → j < 8
    → IsByte v
    → has_bit (changed on n v) j ≡ (if n == j then on else has_bit v j)
changed-bits on n j v hn hj hv =
    let rows = passes_lem _ 8 (passes_lem _ 8 (changes_checked on) hn) hj in
    eqb-eq _ _ (passes_lem (row on n j) 256 rows hv)

-- The bit is as given, the other bits, the flags and the other registers as before.
pub record HasChanged (i : CbInstruction) (m : Machine) (on : Bool) (r : ℕ × Machine) : Type 0 where
  pub one_cycle : r.0 ≡ 1
  pub bits :
      (j : ℕ)
      → j < 8
      → has_bit (r.1.cpu.r8 i.reg) j ≡ (if i.bit_index == j then on else has_bit (m.cpu.r8 i.reg) j)
  pub same_flags : flags_of r.1.cpu ≡ flags_of m.cpu
  pub others : (k : ℕ) → k ≢ i.reg → r.1.cpu.r8 k ≡ m.cpu.r8 k

module _ (i : CbInstruction) (m : Machine) (v : ℕ) (at : OnRegister i m.cpu v)
    (known : i.bit_index < 8) where
  writes :
      (on : Bool)
      → Returns
          (do m1 ← write_operand i (changed on i.bit_index v) m; ok (1 + 2 * to_ℕ i.is_address, m1))
          (HasChanged i m on)
  unfolding write_operand
  writes on =
      let byte : IsByte (changed on i.bit_index v) = ground arith in
      let w = changed on i.bit_index v in
      rw at.no_address (record {
        one_cycle = refl;
        bits = λ j h.
            rw (r8-write_register i.reg w m.cpu i.reg at.named byte)
              (rw at.value (ground (arith, changed-bits on i.bit_index j v known h at.is_byte)));
        same_flags = flags_of-write_register i.reg w m.cpu at.named at.no_flags;
        others = λ k ne. r8-write_register i.reg w m.cpu k at.named byte ∙ ground arith;
      })

  set-register : Returns (set i m) (HasChanged i m true)
  unfolding set
  set-register = simp (read_operand-register i m v at) (writes true)

  res-register : Returns (res i m) (HasChanged i m false)
  unfolding res
  res-register = simp (read_operand-register i m v at) (writes false)

  -- On a byte in a register other than F, `RES` and `SET` return after one cycle with the given bit
  -- cleared or set; the other bits, the flags and the other registers are as before.
  pub handle_cb-bits :
      2 ≤ i.kind → i.kind < 4 → Returns (handle_cb i m) (HasChanged i m (i.kind == 3))
  unfolding handle_cb
  handle_cb-bits low high = ground (arith, set-register, res-register)
