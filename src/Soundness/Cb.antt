-- ===== src/Soundness/Cb.antt =====
-- The instructions of src/cpu/instruction_cb.c, on any cartridge that meets the contract.
use emu_gb.Base.{
  if_both, ℕ, ◌+◌, ◌*◌, Bool, false, arith, ok, ◌>>=◌, Ends, >>=-Ends, if-Ends, to_ℕ, has_bit, not,
  ◌==◌,
}
use emu_gb.Cpu.{reg_hl, read_register_16bit}
use emu_gb.Cpu.Flag.{flag_z, flag_h, flag_c}
use emu_gb.Cartridge.{Cartridge}
use emu_gb.Machine.{Machine}
use emu_gb.Timer.Ticks.{timer_tick}
use emu_gb.Stack.{fetch_opcode}
use emu_gb.Instruction.Cb.{
  CbInstruction, fetch_cb_instruction, read_operand, write_operand, set_hnz, set_carry, write_back,
  rlc, rrc, rl, rr, sla, sra, swap, srl, test_bit, res, set, rotate, handle_cb,
  cb_execute_instruction,
}
use emu_gb.Instruction.{opcode_z}
use emu_gb.Soundness.{IsMachine, Contract}
use emu_gb.Soundness.Registers.{set_flag-IsCpu, write_register-IsCpu}
use emu_gb.Soundness.Access.{with_cpu, timer_tick-IsMachine}
use emu_gb.Soundness.Bus.{read_memory-Ends, write_memory-Ends, fetch_opcode-Ends, Reads}

module _ {IsSound : Cartridge → Type 0} where
  set_carry-IsMachine :
      (b : Bool) (m : Machine) → IsMachine IsSound m → IsMachine IsSound (set_carry b m)
  set_carry-IsMachine b m h = with_cpu _ m (set_flag-IsCpu flag_c b m.cpu h.is_cpu) h

  set_hnz-IsMachine : (v : ℕ) (m : Machine) → IsMachine IsSound m → IsMachine IsSound (set_hnz v m)
  unfolding set_hnz
  set_hnz-IsMachine v m h =
      with_cpu _ m
        (set_flag-IsCpu _ _ _ (set_flag-IsCpu _ _ _ (set_flag-IsCpu flag_h false m.cpu h.is_cpu))) h

module _ {IsSound : Cartridge → Type 0} {Stop : Type 0} (k : Contract IsSound Stop) where
  read_operand-Ends :
      (i : CbInstruction) (m : Machine)
      → IsMachine IsSound m
      → Ends Stop (read_operand i m) (λ _. Unit)
  unfolding read_operand
  read_operand-Ends i m h =
      if-Ends Stop (λ _. Unit) i.is_address _ _ (read_memory-Ends k i.address m h) tt

  write_operand-Ends :
      (i : CbInstruction) (v : ℕ) (m : Machine)
      → IsMachine IsSound m
      → Ends Stop (write_operand i v m) (IsMachine IsSound)
  unfolding write_operand
  write_operand-Ends i v m h =
      if-Ends Stop (IsMachine IsSound) i.is_address _ _
        (write_memory-Ends k i.address v (timer_tick m) (timer_tick-IsMachine m h))
        (with_cpu _ m (write_register-IsCpu i.reg v m.cpu h.is_cpu) h)

  -- A read of the operand, a write of what is computed from it, and the rest.
  changes-Ends :
      (i j : CbInstruction) (m : Machine) (value : ℕ → ℕ) (before : ℕ → Machine)
      (after : ℕ → Machine → Machine)
      → IsMachine IsSound m
      → ((v : ℕ) → IsMachine IsSound (before v))
      → ((v : ℕ) (n : Machine) → IsMachine IsSound n → IsMachine IsSound (after v n))
      → Reads k (do
        v ← read_operand j m
        n ← write_operand i (value v) (before v)
        ok (1 + 2 * to_ℕ i.is_address, after v n))
  changes-Ends i j m value before after h first last =
      >>=-Ends Stop (λ _. Unit) _ (read_operand j m) _ (read_operand-Ends j m h)
        (λ v _.
          >>=-Ends Stop (IsMachine IsSound) _ (write_operand i (value v) (before v)) _
            (write_operand-Ends i (value v) (before v) (first v)) (λ n good. last v n good))

  -- The same with the carry set before and the other flags behind.
  rotates-Ends :
      (i j : CbInstruction) (m : Machine) (value : ℕ → ℕ) (carry : ℕ → Bool)
      → IsMachine IsSound m
      → Reads k (do v ← read_operand j m; write_back i (value v) (set_carry (carry v) m))
  unfolding write_back
  rotates-Ends i j m value carry h =
      changes-Ends i j m value (λ v. set_carry (carry v) m) (λ v n. set_hnz (value v) n) h
        (λ v. set_carry-IsMachine (carry v) m h) (λ v n good. set_hnz-IsMachine (value v) n good)

  module _ (i : CbInstruction) (m : Machine) (h : IsMachine IsSound m) where
    rlc-Ends : Reads k (rlc i m)
    unfolding rlc
    rlc-Ends = rotates-Ends i i m _ (λ v. has_bit v 7) h

    rrc-Ends : Reads k (rrc i m)
    unfolding rrc
    rrc-Ends = rotates-Ends i i m _ (λ v. has_bit v 0) h

    rl-Ends : Reads k (rl i m)
    unfolding rl
    rl-Ends = rotates-Ends i i m _ (λ v. has_bit v 7) h

    rr-Ends : Reads k (rr i m)
    unfolding rr
    rr-Ends = rotates-Ends i i m _ (λ v. has_bit v 0) h

    sla-Ends : Reads k (sla i m)
    unfolding sla
    sla-Ends = rotates-Ends i i m _ (λ v. has_bit v 7) h

    srl-Ends : Reads k (srl i m)
    unfolding srl
    srl-Ends = rotates-Ends i i m _ (λ v. has_bit v 0) h

    sra-Ends : Reads k (sra i m)
    unfolding sra
    sra-Ends =
        rotates-Ends i (record i { address = read_register_16bit reg_hl m.cpu }) m _
          (λ v. has_bit v 0) h

    swap-Ends : Reads k (swap i m)
    unfolding swap
    swap-Ends =
        changes-Ends i i m _ (λ _. m) (λ v n. set_hnz _ (set_carry false n)) h (λ _. h)
          (λ v n good. set_hnz-IsMachine _ (set_carry false n) (set_carry-IsMachine false n good))

    rotate-Ends : Reads k (rotate i m)
    unfolding rotate
    rotate-Ends =
        ground
          (arith, rlc-Ends, rrc-Ends, rl-Ends, rr-Ends, sla-Ends, sra-Ends, swap-Ends, srl-Ends)

    test_bit-Ends : Reads k (test_bit i m)
    unfolding test_bit
    test_bit-Ends =
        >>=-Ends Stop (λ _. Unit) _ (read_operand i m) _ (read_operand-Ends i m h)
          (λ v _.
            with_cpu _ m
              (set_flag-IsCpu _ _ _ (
                set_flag-IsCpu _ _ _
                  (set_flag-IsCpu flag_z (not (has_bit v i.bit_index)) m.cpu h.is_cpu)))
              h)

    res-Ends : Reads k (res i m)
    unfolding res
    res-Ends = changes-Ends i i m _ (λ _. m) (λ _ n. n) h (λ _. h) (λ _ n good. good)

    set-Ends : Reads k (set i m)
    unfolding set
    set-Ends = changes-Ends i i m _ (λ _. m) (λ _ n. n) h (λ _. h) (λ _ n good. good)

    handle_cb-Ends : Reads k (handle_cb i m)
    unfolding handle_cb
    handle_cb-Ends = ground (arith, rotate-Ends, test_bit-Ends, res-Ends, set-Ends)

  pub cb_execute_instruction-Ends :
      (m : Machine) → IsMachine IsSound m → Reads k (cb_execute_instruction m)
  unfolding cb_execute_instruction fetch_cb_instruction
  cb_execute_instruction-Ends m h =
      >>=-Ends Stop (λ x. IsMachine IsSound x.1) _ (fetch_cb_instruction m) _
        (>>=-Ends Stop (λ x. IsMachine IsSound x.1) _ (fetch_opcode m) _ (fetch_opcode-Ends k m h)
          (λ x good.
            if_both (IsMachine IsSound) (opcode_z x.0 == 6) (timer_tick x.1) x.1
              (timer_tick-IsMachine x.1 good) good))
        (λ x good. handle_cb-Ends x.0 x.1 good)
