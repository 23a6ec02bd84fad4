-- ===== src/Instruction/Cb/Register.antt =====
-- The operations of src/cpu/instruction_cb.c on a register: what the shared steps leave behind.
use emu_gb.Base.{
  to_ℕ, ◌>>=◌, ◌*◌, ℕ, ◌+◌, ◌<◌, ◌≡◌, ◌≢◌, refl, ◌∙◌, Bool, true, false, arith, ok, ◌==◌, IsByte,
  update, Returns,
}
use emu_gb.Cpu.{Cpu, reg_f, read_register, write_register}
use emu_gb.Cpu.Flag.{flag_c, flag_h, flag_n, flag_z, get_flag, set_flag}
use emu_gb.Cpu.View.{flags, flags_of, cpu_laws}
use emu_gb.Machine.{Machine}
use emu_gb.Instruction.Cb.{
  CbInstruction, read_operand, write_operand, write_back, set_hnz, set_carry,
}

-- The operand is a byte register other than F, and holds the byte `v`.
pub record OnRegister (i : CbInstruction) (c : Cpu) (v : ℕ) : Type 0 where
  pub no_address : i.is_address ≡ false
  pub named : i.reg < 8
  pub no_flags : i.reg ≢ reg_f
  pub value : c.r8 i.reg ≡ v
  pub is_byte : IsByte v

pub r8-set_flag : (k f : ℕ) (b : Bool) (c : Cpu) → k ≢ reg_f → (set_flag f b c).r8 k ≡ c.r8 k
unfolding set_flag
r8-set_flag k f true c h = ground arith
r8-set_flag k f false c h = ground arith

pub flags_of-write_register :
    (k v : ℕ) (c : Cpu) → k < 8 → k ≢ reg_f → flags_of (write_register k v c) ≡ flags_of c
unfolding flags_of write_register get_flag
flags_of-write_register k v c named h = ground arith

pub r8-write_register :
    (k v : ℕ) (c : Cpu) (j : ℕ) → k < 8 → IsByte v → (write_register k v c).r8 j ≡ update c.r8 k v j
unfolding write_register
r8-write_register k v c j named byte = ground arith

-- The register holds `w`, the flags are given, and the other registers are as before.
pub record HasRotated (i : CbInstruction) (m : Machine) (w : ℕ) (cy : Bool) (r : ℕ × Machine)
    : Type 0 where
  pub one_cycle : r.0 ≡ 1
  pub result : r.1.cpu.r8 i.reg ≡ w
  pub new_flags : flags_of r.1.cpu ≡ flags (w == 0) false false cy
  pub others : (k : ℕ) → k ≢ i.reg → k ≢ reg_f → r.1.cpu.r8 k ≡ m.cpu.r8 k

module _ (i : CbInstruction) (m : Machine) (v : ℕ) (on : OnRegister i m.cpu v) where
  pub read_operand-register : read_operand i m ≡ ok v
  unfolding read_operand read_register
  read_operand-register = ground (arith, on.no_address, on.named, on.value)

  -- The registers behind any flags that are set around the write.
  r8_after :
      (f g h l : ℕ) (a b d e : Bool) (w k : ℕ)
      → IsByte w
      → k ≢ reg_f
      → (set_flag f a
            (set_flag g b (set_flag h d (write_register i.reg w (set_flag l e m.cpu))))).r8
          k
        ≡ update m.cpu.r8 i.reg w k
  r8_after f g h l a b d e w k byte ne =
      r8-set_flag k f a _ ne
      ∙ r8-set_flag k g b _ ne
      ∙ r8-set_flag k h d _ ne
      ∙ r8-write_register i.reg w _ k on.named byte
      ∙ ground (arith, r8-set_flag k l e m.cpu ne)

  pub write_back-register :
      (w : ℕ) (cy : Bool)
      → IsByte w
      → Returns (write_back i w (set_carry cy m)) (HasRotated i m w cy)
  unfolding write_back
  write_back-register w cy byte = rw on.no_address (record {
    one_cycle = refl;
    result =
        r8_after flag_z flag_n flag_h flag_c (w == 0) false false cy w i.reg byte on.no_flags
        ∙ ground arith;
    new_flags = simp (cpu_laws, flags_of-write_register i.reg w _ on.named on.no_flags);
    others = λ k ne ne'.
        r8_after flag_z flag_n flag_h flag_c (w == 0) false false cy w k byte ne' ∙ ground arith;
  })

  -- The end of `swap`, which clears the carry behind the write.
  pub write_clear-register :
      (w : ℕ)
      → IsByte w
      → Returns
          (do
            m1 ← write_operand i w m
            ok (1 + 2 * to_ℕ i.is_address, set_hnz w (set_carry false m1)))
          (HasRotated i m w false)
  unfolding write_operand set_hnz
  write_clear-register w byte = rw on.no_address (record {
    one_cycle = refl;
    result = moved w i.reg byte on.no_flags ∙ ground arith;
    new_flags = simp cpu_laws;
    others = λ k ne ne'. moved w k byte ne' ∙ ground arith;
  })
    where
      moved :
          (w k : ℕ)
          → IsByte w
          → k ≢ reg_f
          → (set_flag flag_z (w == 0) (
                set_flag flag_n false (
                  set_flag flag_h false (set_flag flag_c false (write_register i.reg w m.cpu))))).r8
              k
            ≡ update m.cpu.r8 i.reg w k
      moved w k byte ne =
          r8-set_flag k flag_z (w == 0) _ ne
          ∙ r8-set_flag k flag_n false _ ne
          ∙ r8-set_flag k flag_h false _ ne
          ∙ r8-set_flag k flag_c false _ ne
          ∙ r8-write_register i.reg w m.cpu k on.named byte
