-- ===== src/Reference/Adjust.antt =====
-- The instructions of src/cpu/instruction.c on A and the flags against those of the reference machine.
use emu_gb.Base.{ℕ, ◌+◌, ◌*◌, ◌≡◌, ◌||◌, ◌&&◌, ap, refl, arith, Bool, not, ltb, ok, IsByte}
use emu_gb.Cpu.{Cpu, reg_a}
use emu_gb.Cpu.View.{Flags, flags_of, get_c, Computes, forget_flags, set_a, cpu_laws, read_a}
use emu_gb.Machine.{Machine, on_cpu}
use emu_gb.Instruction.{
  InName, Instruction, in_nop, in_rlca, in_rrca, in_rla, in_rra, in_daa, in_cpl, in_scf, in_ccf,
  no_operand,
}
use emu_gb.Instruction.Alu
use emu_gb.Instruction.Alu.Decimal.{daa_lem}
use emu_gb.Instruction.Rotate
use emu_gb.Instruction.Rotate.{clear_hnz}
use emu_gb.Instruction.Execute.{handle}
use emu_gb.Instruction.Opcodes.{g_opcodes}
use emu_gb.Instruction.Fetch.{fetch_instruction}
use emu_gb.Reference.{
  Adjustment, rlca, rrca, rla, rra, daa, cpl, scf, ccf, digit, adjusted, adjusted_flags,
}
use emu_gb.Reference.Decode.{decoded}
use emu_gb.Reference.Operate.{same_a}

abbrev pub adjustment_name : Adjustment → InName
adjustment_name rlca = in_rlca
adjustment_name rrca = in_rrca
adjustment_name rla = in_rla
adjustment_name rra = in_rra
adjustment_name daa = in_daa
adjustment_name cpl = in_cpl
adjustment_name scf = in_scf
adjustment_name ccf = in_ccf

-- The function that `g_instruction_handlers` has for the adjustment.
abbrev pub adjuster : Adjustment → Cpu → Cpu
adjuster rlca = Rotate.rlca
adjuster rrca = Rotate.rrca
adjuster rla = Rotate.rla
adjuster rra = Rotate.rra
adjuster daa = Alu.daa
adjuster cpl = Alu.cpl
adjuster scf = Alu.scf
adjuster ccf = Alu.ccf

pub handle-adjustment :
    (exits : Bool) (f : Adjustment) (i : Instruction) (m : Machine)
    → handle exits (adjustment_name f) i m ≡ ok (i.cycle_count, on_cpu (adjuster f) m)
unfolding handle
handle-adjustment exits rlca i m = refl
handle-adjustment exits _ i m = refl

pub fetch-nop :
    (m : Machine) → fetch_instruction 0 m ≡ ok (decoded in_nop no_operand 14 0xdead 0 1 m, m)
unfolding fetch_instruction g_opcodes
fetch-nop m = refl

pub fetch-adjust :
    (f : Adjustment) (m : Machine)
    → fetch_instruction (7 + digit f * 8) m
      ≡ ok (decoded (adjustment_name f) no_operand 14 0xdead 0 1 m, m)
unfolding fetch_instruction g_opcodes
fetch-adjust rlca m = refl
fetch-adjust _ m = refl

-- The correction in one sum, against the steps of `daa`.
adjust_corrects :
    (x : ℕ) (fs : Flags)
    → IsByte x
    → Alu.adjust x fs.nf fs.hf fs.cf ≡ (adjusted daa x fs, fs.cf || (not fs.nf && ltb 0x99 x))
unfolding Alu.adjust
adjust_corrects x fs byte = ground arith

module _ (c : Cpu) (byte : IsByte (c.r8 reg_a)) where
  abbrev Adjusts : Adjustment → Type 0
  Adjusts f =
      Computes (adjuster f c) c (adjusted f (c.r8 reg_a) (flags_of c))
        (adjusted_flags f (c.r8 reg_a) (flags_of c))

  pub adjuster-Adjusts : (f : Adjustment) → Adjusts f
  unfolding Rotate.rlca Rotate.rrca Rotate.rla Rotate.rra clear_hnz Alu.cpl Alu.scf Alu.ccf
  adjuster-Adjusts rlca =
      (simp (read_a, cpu_laws) (ground arith), simp (read_a, cpu_laws) (ground arith))
  adjuster-Adjusts rla =
      (simp (read_a, get_c, cpu_laws) (ground arith), simp (read_a, get_c, cpu_laws) (ground arith))
  adjuster-Adjusts rrca =
      (simp (read_a, get_c, cpu_laws) (ground arith), simp (read_a, get_c, cpu_laws) (ground arith))
  adjuster-Adjusts rra =
      (simp (read_a, get_c, cpu_laws) (ground arith), simp (read_a, get_c, cpu_laws) (ground arith))
  adjuster-Adjusts cpl = (
    simp (read_a, cpu_laws),
    simp (read_a, cpu_laws) (ap (λ v. set_a v (forget_flags c)) (omega arith)),
  )
  adjuster-Adjusts scf = (simp cpu_laws, simp cpu_laws (same_a c))
  adjuster-Adjusts ccf = (simp (get_c, cpu_laws), simp cpu_laws (same_a c))
  adjuster-Adjusts daa = rw (adjust_corrects (c.r8 reg_a) (flags_of c) byte) at (daa_lem c byte)
