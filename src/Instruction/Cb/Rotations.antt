-- ===== src/Instruction/Cb/Rotations.antt =====
-- The rotations and shifts of src/cpu/instruction_cb.c, bit by bit.
use emu_gb.Base.{
  ℕ, ◌+◌, ◌-◌, ◌*◌, ◌/◌, ◌<◌, ◌≡◌, ◌≢◌, refl, ◌∙◌, Bool, true, false, arith, ◌==◌, ◌||◌, ◌&&◌, ltb,
  leb, if◌then◌else◌, u8, has_bit, low_bits, to_ℕ, bit_or, bit_and, IsByte, Returns, Returns_weaken,
  passes, passes_lem, eqb, eqb-eq, &&-true, leb→le,
}
use emu_gb.Cpu.{reg_f, reg_hl, read_register_16bit}
use emu_gb.Cpu.Flag.{flag_c, get_flag}
use emu_gb.Cpu.Flags
use emu_gb.Cpu.View.{flags, flags_of}
use emu_gb.Machine.{Machine}
use emu_gb.Instruction.Cb.{CbInstruction, rlc, rrc, rl, rr, sla, sra, swap, srl, rotate}
use emu_gb.Instruction.Cb.Register.{
  OnRegister, HasRotated, read_operand-register, write_back-register, write_clear-register,
}

-- Every bit moves up, or down, and a new one comes in at the end.
abbrev pub up : (ℕ → Bool) → Bool → ℕ → Bool
up bits new j = if j == 0 then new else bits (j - 1)

abbrev pub down : (ℕ → Bool) → Bool → ℕ → Bool
down bits new j = if j == 7 then new else bits (j + 1)

-- The bits after the operation number `y`, with the carry `carry` before it: RLC, RRC, RL, RR, SLA, SRA,
-- SWAP and SRL.
abbrev pub rotated_bits : ℕ → (ℕ → Bool) → Bool → ℕ → Bool
rotated_bits y bits carry =
    if y == 0
    then up bits (bits 7)
    else if y == 1
    then down bits (bits 0)
    else if y == 2
    then up bits carry
    else if y == 3
    then down bits carry
    else if y == 4
    then up bits false
    else if y == 5
    then down bits (bits 7)
    else if y == 6
    then (λ j. bits (if ltb j 4 then j + 4 else j - 4))
    else down bits false

-- The bit that is moved out.
abbrev pub moved_out : ℕ → (ℕ → Bool) → Bool
moved_out y bits = if y == 6 then false else if (y == 0 || y == 2) || y == 4 then bits 7 else bits 0

-- The byte that the handlers compute.
abbrev rotated : ℕ → ℕ → Bool → ℕ
rotated y v carry =
    if y == 0
    then u8 (v * 2 + to_ℕ (has_bit v 7))
    else if y == 1
    then u8 (v / 2 + to_ℕ (has_bit v 0) * 128)
    else if y == 2
    then u8 (v * 2 + to_ℕ carry)
    else if y == 3
    then u8 (v / 2 + to_ℕ carry * 128)
    else if y == 4
    then u8 (v * 2)
    else if y == 5
    then u8 (bit_or (v / 2) (bit_and v 0x80))
    else if y == 6
    then low_bits (v / 16) 4 + low_bits v 4 * 16
    else v / 2

abbrev row : ℕ → Bool → ℕ → Bool
row y carry v =
    leb (rotated y v carry) 255
    && passes (λ j. eqb (has_bit (rotated y v carry) j) (rotated_bits y (has_bit v) carry j)) 8

rotations_checked : (carry : Bool) → passes (λ y. passes (row y carry) 256) 8 ≡ true
unfolding passes
rotations_checked true = refl
rotations_checked false = refl

row_lem : (y v : ℕ) (carry : Bool) → y < 8 → IsByte v → row y carry v ≡ true
row_lem y v carry hy hv =
    passes_lem (row y carry) 256 (passes_lem _ 8 (rotations_checked carry) hy) hv

rotated-IsByte : (y v : ℕ) (carry : Bool) → y < 8 → IsByte v → IsByte (rotated y v carry)
rotated-IsByte y v carry hy hv =
    omega (arith, leb→le (rotated y v carry) 255 ((&&-true _ _ (row_lem y v carry hy hv)).0))

rotated-bits :
    (y v j : ℕ) (carry : Bool)
    → y < 8
    → IsByte v
    → j < 8
    → has_bit (rotated y v carry) j ≡ rotated_bits y (has_bit v) carry j
rotated-bits y v j carry hy hv hj =
    eqb-eq _ _ (passes_lem _ 8 ((&&-true _ _ (row_lem y v carry hy hv)).1) hj)

-- The operations meet the description by bits, as the handlers return it.
pub record IsRotated (i : CbInstruction) (m : Machine) (r : ℕ × Machine) : Type 0 where
  pub one_cycle : r.0 ≡ 1
  pub bits :
      (j : ℕ)
      → j < 8
      → has_bit (r.1.cpu.r8 i.reg) j
        ≡ rotated_bits i.bit_index (has_bit (m.cpu.r8 i.reg)) (get_flag flag_c m.cpu) j
  pub is_byte : IsByte (r.1.cpu.r8 i.reg)
  pub new_flags :
      flags_of r.1.cpu
      ≡ flags (r.1.cpu.r8 i.reg == 0) false false (moved_out i.bit_index (has_bit (m.cpu.r8 i.reg)))
  pub others : (k : ℕ) → k ≢ i.reg → k ≢ reg_f → r.1.cpu.r8 k ≡ m.cpu.r8 k

module _ (i : CbInstruction) (m : Machine) (v : ℕ) (on : OnRegister i m.cpu v) where
  rlc-register : Returns (rlc i m) (HasRotated i m (u8 (v * 2 + to_ℕ (has_bit v 7))) (has_bit v 7))
  unfolding rlc
  rlc-register =
      simp
        (
          read_operand-register i m v on,
          Flags.get_flag-set_flag Flags.cy Flags.cy (has_bit v 7) m.cpu,
        )
        (write_back-register i m v on (u8 (v * 2 + to_ℕ (has_bit v 7))) (has_bit v 7) (omega arith))

  rrc-register :
      Returns (rrc i m) (HasRotated i m (u8 (v / 2 + to_ℕ (has_bit v 0) * 128)) (has_bit v 0))
  unfolding rrc
  rrc-register =
      simp
        (
          read_operand-register i m v on,
          Flags.get_flag-set_flag Flags.cy Flags.cy (has_bit v 0) m.cpu,
        )
        (write_back-register i m v on (u8 (v / 2 + to_ℕ (has_bit v 0) * 128)) (has_bit v 0)
          (omega arith))

  rl-register :
      Returns (rl i m) (HasRotated i m (u8 (v * 2 + to_ℕ (get_flag flag_c m.cpu))) (has_bit v 7))
  unfolding rl
  rl-register = simp (read_operand-register i m v on) (
      write_back-register i m v on (u8 (v * 2 + to_ℕ (get_flag flag_c m.cpu))) (has_bit v 7)
        (omega arith))

  rr-register :
      Returns
        (rr i m)
        (HasRotated i m (u8 (v / 2 + to_ℕ (get_flag flag_c m.cpu) * 128)) (has_bit v 0))
  unfolding rr
  rr-register = simp (read_operand-register i m v on) (
      write_back-register i m v on (u8 (v / 2 + to_ℕ (get_flag flag_c m.cpu) * 128)) (has_bit v 0)
        (omega arith))

  sla-register : Returns (sla i m) (HasRotated i m (u8 (v * 2)) (has_bit v 7))
  unfolding sla
  sla-register =
      simp (read_operand-register i m v on)
        (write_back-register i m v on (u8 (v * 2)) (has_bit v 7) (omega arith))

  sra-register :
      Returns (sra i m) (HasRotated i m (u8 (bit_or (v / 2) (bit_and v 0x80))) (has_bit v 0))
  unfolding sra
  sra-register =
      let same : OnRegister (record i { address = read_register_16bit reg_hl m.cpu }) m.cpu v =
        record {
          no_address = on.no_address;
          named = on.named;
          no_flags = on.no_flags;
          value = on.value;
          is_byte = on.is_byte;
        } in
      simp
        (read_operand-register (record i { address = read_register_16bit reg_hl m.cpu }) m v same)
        (write_back-register i m v on (u8 (bit_or (v / 2) (bit_and v 0x80))) (has_bit v 0)
          (omega arith))

  srl-register : Returns (srl i m) (HasRotated i m (v / 2) (has_bit v 0))
  unfolding srl
  srl-register =
      simp (read_operand-register i m v on)
        (write_back-register i m v on (v / 2) (has_bit v 0) (omega (arith, on.is_byte)))

  swap-register :
      Returns (swap i m) (HasRotated i m (low_bits (v / 16) 4 + low_bits v 4 * 16) false)
  unfolding swap
  swap-register =
      simp (read_operand-register i m v on)
        (write_clear-register i m v on (low_bits (v / 16) 4 + low_bits v 4 * 16) (omega arith))

  rotates : Returns (rotate i m) (
      HasRotated i m
        (rotated i.bit_index v (get_flag flag_c m.cpu))
        (moved_out i.bit_index (has_bit v)))
  unfolding rotate
  rotates = ground (
    arith, rlc-register, rrc-register, rl-register, rr-register, sla-register, sra-register,
    swap-register, srl-register,
  )

-- On a byte in a register other than F the eight rotations and shifts return after one cycle; every bit
-- of the result and the carry are as the description by bits says, Z tells a zero result, N and H are
-- cleared, and no other register changes.
pub rotate-bits :
    (i : CbInstruction) (m : Machine) (v : ℕ)
    → OnRegister i m.cpu v
    → i.bit_index < 8
    → Returns (rotate i m) (IsRotated i m)
rotate-bits i m v on known =
    let old = on.value in
    let carry = get_flag flag_c m.cpu in
    Returns_weaken
      (HasRotated i m (rotated i.bit_index v carry) (moved_out i.bit_index (has_bit v)))
      (IsRotated i m) (rotate i m)
      (λ r done. record {
        one_cycle = done.one_cycle;
        bits = λ j h. rw (done.result, old) (rotated-bits i.bit_index v j carry known on.is_byte h);
        is_byte = rw done.result (rotated-IsByte i.bit_index v carry known on.is_byte);
        new_flags = done.new_flags ∙ rw (done.result, old);
        others = done.others;
      })
      (rotates i m v on)
