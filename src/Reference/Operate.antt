-- ===== src/Reference/Operate.antt =====
-- The operations on A of src/cpu/instruction.c against those of the reference machine.
use mathlib.Core.Path.{fun_ext}
use emu_gb.Base.{ℕ, ◌≡◌, ◌∙◌, refl, arith, Bool, ok, update}
use emu_gb.Base.Bits.Digit.{bit_and-le}
use emu_gb.Base.Bits.Width.{bit_or_byte, bit_xor_byte}
use emu_gb.Cpu.{Cpu, reg_a}
use emu_gb.Cpu.View.{flags, Computes, forget_flags, set_a}
use emu_gb.Machine.{Machine, on_cpu}
use emu_gb.Instruction.{Instruction}
use emu_gb.Instruction.Alu
use emu_gb.Instruction.Alu.Operand.{OnBytes}
use emu_gb.Instruction.Alu.Sums.{carry_in, add_lem, adc_lem, sub_lem, sbc_lem, cp_lem}
use emu_gb.Instruction.Alu.Logic.{and_lem, or_lem, xor_lem}
use emu_gb.Instruction.Execute.{handle}
use emu_gb.Reference.{Operation, add, adc, sub, sbc, and, xor, or, cp, result, result_flags}
use emu_gb.Reference.Decode.{name}

-- The function that `g_instruction_handlers` has for the operation.
abbrev pub handler : Operation → Instruction → Cpu → Cpu
handler add = Alu.add
handler adc = Alu.adc
handler sub = Alu.sub
handler sbc = Alu.sbc
handler and = Alu.and
handler xor = Alu.xor
handler or = Alu.or
handler cp = Alu.cp

pub handle-name :
    (exits : Bool) (f : Operation) (i : Instruction) (m : Machine)
    → handle exits (name f) i m ≡ ok (i.cycle_count, on_cpu (handler f i) m)
unfolding handle
handle-name exits add i m = refl
handle-name exits _ i m = refl

set_a_self : (c : Cpu) → c ≡ set_a (c.r8 reg_a) c
unfolding set_a
set_a_self c = λ j. record c { r8 = fun_ext (λ k. same_cell k) j }
  where
    same_cell : (k : ℕ) → c.r8 k ≡ update c.r8 reg_a (c.r8 reg_a) k
    same_cell k = ground arith

pub same_a : (c : Cpu) → forget_flags c ≡ set_a (c.r8 reg_a) (forget_flags c)
same_a c = unfold forget_flags in set_a_self (forget_flags c)

module _ {i : Instruction} {c : Cpu} {y : ℕ} (on : OnBytes i c y) where
  abbrev Meets : Operation → Type 0
  Meets f =
      Computes (handler f i c) c (result f (c.r8 reg_a) y (carry_in c))
        (result_flags f (c.r8 reg_a) y (carry_in c))

  with_zero :
      (after : Cpu) (v : ℕ) (z z' n h k : Bool)
      → z ≡ z'
      → Computes after c v (flags z n h k)
      → Computes after c v (flags z' n h k)
  with_zero after v z z' n h k e (fs, rest) = (fs ∙ rw e, rest)

  pub handler-Meets : (f : Operation) → Meets f
  handler-Meets add = add_lem on
  handler-Meets adc = adc_lem on
  handler-Meets sub =
      with_zero (Alu.sub i c) _ _ _ _ _ _ (ground (arith, on.a_byte, on.b_byte)) (sub_lem on)
  handler-Meets sbc = sbc_lem on
  handler-Meets and =
      with_zero (Alu.and i c) _ _ _ _ _ _ (ground (arith, bit_and-le (c.r8 reg_a) y, on.b_byte))
        (and_lem on)
  handler-Meets xor =
      with_zero (Alu.xor i c) _ _ _ _ _ _
        (ground (arith, bit_xor_byte (c.r8 reg_a) y on.a_byte on.b_byte)) (xor_lem on)
  handler-Meets or =
      with_zero (Alu.or i c) _ _ _ _ _ _
        (ground (arith, bit_or_byte (c.r8 reg_a) y on.a_byte on.b_byte)) (or_lem on)
  handler-Meets cp = ((cp_lem on).0 ∙ (sub_lem on).0, (cp_lem on).1 ∙ same_a c)
