-- ===== src/Cpu/View.antt =====
-- The CPU taken apart: the four flags, and everything but F.
use mathlib.Core.Path.{fun_ext}
use emu_gb.Base.{ℕ, ◌≡◌, Bool, true, false, refl, arith, u8, u16, lsb, update}
use emu_gb.Cpu.{Cpu, reg_a, reg_f, write_register, write_register_16bit, read_register}
use emu_gb.Cpu.Flag.{flag_z, flag_n, flag_h, flag_c, set_flag, get_flag, set_all_flags}
use emu_gb.Cpu.Flags.{z, n, h, cy, get_flag-set_flag}

pub record Flags : Type 0 where
  pub zf : Bool
  pub nf : Bool
  pub hf : Bool
  pub cf : Bool

abbrev pub flags : Bool → Bool → Bool → Bool → Flags
flags a b c d = record { zf = a; nf = b; hf = c; cf = d }

unfoldable pub flags_of : Cpu → Flags
flags_of c = flags (get_flag flag_z c) (get_flag flag_n c) (get_flag flag_h c) (get_flag flag_c c)

-- Everything but F.
unfoldable pub forget_flags : Cpu → Cpu
forget_flags c = record c { r8 = update c.r8 reg_f 0 }

unfoldable pub set_a : ℕ → Cpu → Cpu
set_a v c = record c { r8 = update c.r8 reg_a v }

-- What an operation on A comes to: its flags, its result in A, and nothing else.
abbrev pub Computes : Cpu → Cpu → ℕ → Flags → Type 0
Computes after before result fs =
    (flags_of after ≡ fs) × (forget_flags after ≡ set_a result (forget_flags before))

pub flags_ext : (f g : Flags) → f.zf ≡ g.zf → f.nf ≡ g.nf → f.hf ≡ g.hf → f.cf ≡ g.cf → f ≡ g
flags_ext f g a b c d = λ i. record { zf = a i; nf = b i; hf = c i; cf = d i }

pub flags_of-set_z :
    (v : Bool) (c : Cpu) → flags_of (set_flag flag_z v c) ≡ record (flags_of c) { zf = v }
unfolding flags_of
flags_of-set_z v c =
    flags_ext _ _ (get_flag-set_flag z z v c) (get_flag-set_flag z n v c)
      (get_flag-set_flag z h v c) (get_flag-set_flag z cy v c)

pub flags_of-set_n :
    (v : Bool) (c : Cpu) → flags_of (set_flag flag_n v c) ≡ record (flags_of c) { nf = v }
unfolding flags_of
flags_of-set_n v c =
    flags_ext _ _ (get_flag-set_flag n z v c) (get_flag-set_flag n n v c)
      (get_flag-set_flag n h v c) (get_flag-set_flag n cy v c)

pub flags_of-set_h :
    (v : Bool) (c : Cpu) → flags_of (set_flag flag_h v c) ≡ record (flags_of c) { hf = v }
unfolding flags_of
flags_of-set_h v c =
    flags_ext _ _ (get_flag-set_flag h z v c) (get_flag-set_flag h n v c)
      (get_flag-set_flag h h v c) (get_flag-set_flag h cy v c)

pub flags_of-set_c :
    (v : Bool) (c : Cpu) → flags_of (set_flag flag_c v c) ≡ record (flags_of c) { cf = v }
unfolding flags_of
flags_of-set_c v c =
    flags_ext _ _ (get_flag-set_flag cy z v c) (get_flag-set_flag cy n v c)
      (get_flag-set_flag cy h v c) (get_flag-set_flag cy cy v c)

-- `set_all_flags` forgets the old flags, and writes the four given ones.
pub flags_of-set_all_flags :
    (a b d e : Bool) (c : Cpu) → flags_of (set_all_flags a b d e c) ≡ flags a b d e
unfolding flags_of set_all_flags get_flag
flags_of-set_all_flags true true true true c = refl
flags_of-set_all_flags true true true false c = refl
flags_of-set_all_flags true true false true c = refl
flags_of-set_all_flags true true false false c = refl
flags_of-set_all_flags true false true true c = refl
flags_of-set_all_flags true false true false c = refl
flags_of-set_all_flags true false false true c = refl
flags_of-set_all_flags true false false false c = refl
flags_of-set_all_flags false true true true c = refl
flags_of-set_all_flags false true true false c = refl
flags_of-set_all_flags false true false true c = refl
flags_of-set_all_flags false true false false c = refl
flags_of-set_all_flags false false true true c = refl
flags_of-set_all_flags false false true false c = refl
flags_of-set_all_flags false false false true c = refl
flags_of-set_all_flags false false false false c = refl

pub flags_of-set_a : (v : ℕ) (c : Cpu) → flags_of (set_a v c) ≡ flags_of c
unfolding flags_of set_a get_flag
flags_of-set_a v c = refl

pub forget_flags-set_flag :
    (f : ℕ) (v : Bool) (c : Cpu) → forget_flags (set_flag f v c) ≡ forget_flags c
unfolding forget_flags set_flag
forget_flags-set_flag f true c = λ i. record c { r8 = fun_ext (λ k. same_cell k) i }
  where
    same_cell : (k : ℕ) → update (set_flag f true c).r8 reg_f 0 k ≡ update c.r8 reg_f 0 k
    same_cell k = ground arith
forget_flags-set_flag f false c = λ i. record c { r8 = fun_ext (λ k. same_cell k) i }
  where
    same_cell : (k : ℕ) → update (set_flag f false c).r8 reg_f 0 k ≡ update c.r8 reg_f 0 k
    same_cell k = ground arith

pub forget_flags-set_all_flags :
    (a b d e : Bool) (c : Cpu) → forget_flags (set_all_flags a b d e c) ≡ forget_flags c
unfolding forget_flags set_all_flags
forget_flags-set_all_flags a b d e c = λ i. record c { r8 = fun_ext (λ k. same_cell k) i }
  where
    same_cell : (k : ℕ) → update (set_all_flags a b d e c).r8 reg_f 0 k ≡ update c.r8 reg_f 0 k
    same_cell k = ground arith

pub forget_flags-set_a : (v : ℕ) (c : Cpu) → forget_flags (set_a v c) ≡ set_a v (forget_flags c)
unfolding forget_flags set_a
forget_flags-set_a v c = λ i. record c { r8 = fun_ext (λ k. same_cell k) i }
  where
    same_cell :
        (k : ℕ) → update (update c.r8 reg_a v) reg_f 0 k ≡ update (update c.r8 reg_f 0) reg_a v k
    same_cell k = ground arith

pub write_a : (v : ℕ) (c : Cpu) → write_register reg_a v c ≡ set_a (u8 v) c
unfolding write_register set_a
write_a v c = refl

pub write_a_16bit : (v : ℕ) (c : Cpu) → write_register_16bit reg_a v c ≡ set_a (lsb (u16 v)) c
unfolding write_register_16bit set_a
write_a_16bit v c = refl

pub ruleset cpu_laws = (
  flags_of-set_z, flags_of-set_n, flags_of-set_h, flags_of-set_c, flags_of-set_all_flags,
  flags_of-set_a, forget_flags-set_flag, forget_flags-set_all_flags, forget_flags-set_a, write_a,
  write_a_16bit,
)

-- The readings of a state, through the view.
pub get_z : (c : Cpu) → get_flag flag_z c ≡ (flags_of c).zf
unfolding flags_of
get_z c = refl

pub get_n : (c : Cpu) → get_flag flag_n c ≡ (flags_of c).nf
unfolding flags_of
get_n c = refl

pub get_h : (c : Cpu) → get_flag flag_h c ≡ (flags_of c).hf
unfolding flags_of
get_h c = refl

pub get_c : (c : Cpu) → get_flag flag_c c ≡ (flags_of c).cf
unfolding flags_of
get_c c = refl

pub read_a : (c : Cpu) → read_register reg_a c ≡ c.r8 reg_a
unfolding read_register
read_a c = refl

pub a_of-forget_flags : (c : Cpu) → c.r8 reg_a ≡ (forget_flags c).r8 reg_a
unfolding forget_flags
a_of-forget_flags c = refl

pub a_of-set_a : (v : ℕ) (c : Cpu) → (set_a v c).r8 reg_a ≡ v
unfolding set_a
a_of-set_a v c = refl

pub set_a-set_a : (v w : ℕ) (c : Cpu) → set_a v (set_a w c) ≡ set_a v c
unfolding set_a
set_a-set_a v w c = λ i. record c { r8 = fun_ext (λ k. same_cell k) i }
  where
    same_cell : (k : ℕ) → update (update c.r8 reg_a w) reg_a v k ≡ update c.r8 reg_a v k
    same_cell k = ground arith
