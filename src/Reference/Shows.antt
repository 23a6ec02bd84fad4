-- ===== src/Reference/Shows.antt =====
-- When the registers of the CPU show a state of the reference machine, and which changes keep it so.
use emu_gb.Base.{
  ℕ, ◌+◌, ◌%◌, ◌<◌, ◌≡◌, ◌≢◌, ◌==◌, ◌∙◌, refl, ap, arith, Bool, true, false, u16, lsb, update,
  IsByte,
}
use emu_gb.Cpu.{Cpu, reg_a, reg_f, write_register_16bit}
use emu_gb.Cpu.Flag.{flag_z, flag_n, flag_h, set_flag, get_flag}
use emu_gb.Cpu.View.{Flags, flags, flags_of, forget_flags, set_a, Computes, cpu_laws}
use emu_gb.Instruction.Cb.Register.{r8-set_flag}
use emu_gb.Instruction.Memory.{inc_flags, dec_flags}
use emu_gb.Reference.{State, Register, b, c, d, e, h, l, a, code, put}
use emu_gb.Reference.Decode.{place}

-- The registers hold the values, which are bytes, and F the flags.
pub record Shows (s : State) (p : Cpu) : Type 0 where
  pub values : (r : Register) → p.r8 (place r) ≡ s.value r
  pub bytes : (r : Register) → IsByte (s.value r)
  pub flags_shown : flags_of p ≡ s.fs

-- It is a matter of the byte registers alone.
pub shows_r8 : (s : State) (p q : Cpu) → q.r8 ≡ p.r8 → Shows s p → Shows s q
unfolding flags_of get_flag
shows_r8 s p q same shown = record {
  values = λ r. ap (λ (f : ℕ → ℕ). f (place r)) same ∙ shown.values r;
  bytes = shown.bytes;
  flags_shown = ap (λ (f : ℕ → ℕ). flags_of (record p { r8 = f })) same ∙ shown.flags_shown;
}

-- Everything but the eight byte registers.
abbrev pub forget_r8 : Cpu → Cpu
forget_r8 p = record p { r8 = λ k. 0 }

-- A change from one CPU to another that leaves all else alone.
abbrev pub Becomes : State → Cpu → Cpu → Type 0
Becomes s before after = Shows s after × (forget_r8 after ≡ forget_r8 before)

pub place_fits : (r : Register) → place r < 8
place_fits b = omega arith
place_fits c = omega arith
place_fits d = omega arith
place_fits e = omega arith
place_fits h = omega arith
place_fits l = omega arith
place_fits a = omega arith

pub place-ne-f : (r : Register) → place r ≢ reg_f
place-ne-f b = omega arith
place-ne-f c = omega arith
place-ne-f d = omega arith
place-ne-f e = omega arith
place-ne-f h = omega arith
place-ne-f l = omega arith
place-ne-f a = omega arith

-- Registers have the same place where they have the same digit.
place-code : (r q : Register) → (place r == place q) ≡ (code q == code r)
place-code b b = refl
place-code c b = refl
place-code d b = refl
place-code e b = refl
place-code h b = refl
place-code l b = refl
place-code a b = refl
place-code _ _ = refl

pub write_register_16bit_r8 :
    (k v : ℕ) (p : Cpu)
    → k < 8
    → write_register_16bit k v p ≡ record p { r8 = update p.r8 k (lsb (u16 v)) }
unfolding write_register_16bit
write_register_16bit_r8 k v p fits = ground arith

flags_of-update :
    (r : Register) (v : ℕ) (p : Cpu)
    → flags_of (record p { r8 = update p.r8 (place r) v }) ≡ flags_of p
unfolding flags_of get_flag
flags_of-update b v p = refl
flags_of-update _ v p = refl

-- A byte is written to a register.
pub put-Becomes :
    (r : Register) (v : ℕ) (s : State) (p : Cpu)
    → Shows s p
    → IsByte v
    → Becomes (put r v s) p (record p { r8 = update p.r8 (place r) v })
put-Becomes r v s p shown byte = (
  record {
    values = λ q. rw (place-code r q) (ground (arith, shown.values q));
    bytes = λ q. ground (arith, shown.bytes q);
    flags_shown = flags_of-update r v p ∙ shown.flags_shown;
  },
  refl,
)

-- Flags alone are written.
pub flags-Becomes :
    (s : State) (fs : Flags) (before p after : Cpu)
    → Becomes s before p
    → ((k : ℕ) → k ≢ reg_f → after.r8 k ≡ p.r8 k)
    → flags_of after ≡ fs
    → forget_r8 after ≡ forget_r8 p
    → Becomes (record s { fs = fs }) before after
flags-Becomes s fs before p after (shown, rest) same flagged kept = (
  record {
    values = λ r. same (place r) (place-ne-f r) ∙ shown.values r;
    bytes = shown.bytes;
    flags_shown = flagged;
  },
  kept ∙ rest,
)

-- An operation on A.
pub Computes-Becomes :
    (v : ℕ) (fs : Flags) (s : State) (before after : Cpu)
    → Shows s before
    → Computes after before v fs
    → IsByte v
    → Becomes (record (put a v s) { fs = fs }) before after
unfolding forget_flags set_a
Computes-Becomes v fs s before after shown (flagged, rest) byte =
    let base = put-Becomes a v s before shown byte in
    flags-Becomes (put a v s) fs before (record before { r8 = update before.r8 reg_a v }) after base
      (λ k ne. same k ne) flagged (ap forget_r8 rest)
  where
    same : (k : ℕ) → k ≢ reg_f → after.r8 k ≡ update before.r8 reg_a v k
    same k ne = let cell = ap (λ (q : Cpu). q.r8 k) rest in ground arith

forget_r8-set_flag : (f : ℕ) (v : Bool) (p : Cpu) → forget_r8 (set_flag f v p) ≡ forget_r8 p
unfolding set_flag
forget_r8-set_flag f true p = refl
forget_r8-set_flag f false p = refl

-- Three flags are written one after the other.
three-Becomes :
    (f g j : ℕ) (x y z : Bool) (fs : Flags) (s : State) (before p : Cpu)
    → Becomes s before p
    → flags_of (set_flag f x (set_flag g y (set_flag j z p))) ≡ fs
    → Becomes (record s { fs = fs }) before (set_flag f x (set_flag g y (set_flag j z p)))
three-Becomes f g j x y z fs s before p now flagged =
    flags-Becomes s fs before p (set_flag f x (set_flag g y (set_flag j z p))) now
      (λ k ne. r8-set_flag k f x _ ne ∙ r8-set_flag k g y _ ne ∙ r8-set_flag k j z p ne) flagged
      (forget_r8-set_flag f x _ ∙ forget_r8-set_flag g y _ ∙ forget_r8-set_flag j z p)

-- The flags that `inc` and `dec` write behind the new value.
pub inc-Becomes :
    (r : Register) (s : State) (p : Cpu)
    → Shows s p
    → let v = (s.value r + 1) % 256 in
      Becomes
        (record (put r v s) { fs = flags (v == 0) false (s.value r % 16 == 15) s.fs.cf })
        p
        (inc_flags (s.value r) (record p { r8 = update p.r8 (place r) v }))
unfolding inc_flags
inc-Becomes r s p shown =
    let v = (s.value r + 1) % 256 in
    three-Becomes flag_h flag_z flag_n _ _ false _ (put r v s) p
      (record p { r8 = update p.r8 (place r) v }) (put-Becomes r v s p shown (omega arith))
      (simp (cpu_laws, flags_of-update r v p, shown.flags_shown) (ground (arith, shown.bytes r)))

pub dec-Becomes :
    (r : Register) (s : State) (p : Cpu)
    → Shows s p
    → let v = (s.value r + 255) % 256 in
      Becomes
        (record (put r v s) { fs = flags (v == 0) true (s.value r % 16 == 0) s.fs.cf })
        p
        (dec_flags (s.value r) (record p { r8 = update p.r8 (place r) v }))
unfolding dec_flags
dec-Becomes r s p shown =
    let v = (s.value r + 255) % 256 in
    three-Becomes flag_h flag_n flag_z _ true _ _ (put r v s) p
      (record p { r8 = update p.r8 (place r) v }) (put-Becomes r v s p shown (omega arith))
      (simp (cpu_laws, flags_of-update r v p, shown.flags_shown) (ground (arith, shown.bytes r)))
