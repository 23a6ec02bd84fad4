-- ===== src/Soundness/Jumps.antt =====
-- The jumps, calls and returns of src/cpu/instruction.c, on any cartridge that meets the contract.
use emu_gb.Base.{
  if_both, ℕ, ◌+◌, ◌≡◌, Bool, true, arith, ok, Outcome, >>=-Ends, if-Ends, if◌then◌else◌, u16,
  sign_extend, inl, inr, Bool-cases,
}
use emu_gb.Cpu.{reg_pc}
use emu_gb.Cartridge.{Cartridge}
use emu_gb.Interrupt.{interrupt_set_ime}
use emu_gb.Timer.Ticks.{timer_tick}
use emu_gb.Machine.{Machine, on_interrupts}
use emu_gb.Stack.{stack_push_16bit, stack_pop_16bit}
use emu_gb.Instruction.{Instruction, has_type, no_operand}
use emu_gb.Instruction.Jump.{jp, jr, call, ret, reti, rst, set_pc, get_pc}
use emu_gb.Soundness.{IsMachine, Contract}
use emu_gb.Soundness.Registers.{write_register_16bit-IsCpu}
use emu_gb.Soundness.Access.{with_cpu, with_interrupts, timer_tick-IsMachine}
use emu_gb.Soundness.Bus.{stack_push_16bit-Ends, stack_pop_16bit-Ends, Reads}

module _ {IsSound : Cartridge → Type 0} where
  pub set_pc-IsMachine :
      (v : ℕ) (m : Machine) → IsMachine IsSound m → IsMachine IsSound (set_pc v m)
  set_pc-IsMachine v m h = with_cpu _ m (write_register_16bit-IsCpu reg_pc v m.cpu h.is_cpu) h

  pub set_ime-IsMachine :
      (b : Bool) (m : Machine)
      → IsMachine IsSound m
      → IsMachine IsSound (on_interrupts (interrupt_set_ime b) m)
  unfolding interrupt_set_ime
  set_ime-IsMachine b m h =
      with_interrupts _ m
        (record { if_byte = h.is_interrupts.if_byte; ie_byte = h.is_interrupts.ie_byte }) h

module _ {IsSound : Cartridge → Type 0} {Stop : Type 0} (k : Contract IsSound Stop)
    (i : Instruction) (m : Machine) (h : IsMachine IsSound m) where
  h1 : IsMachine IsSound (timer_tick m)
  h1 = timer_tick-IsMachine m h

  pub jp-IsMachine : IsMachine IsSound (jp i m).1
  unfolding jp
  jp-IsMachine = ground (arith, set_pc-IsMachine i.address (timer_tick m) h1)

  abbrev jumped : Outcome (ℕ × Machine)
  jumped =
      if i.condition
      then ok (
        i.cycle_count_false,
        set_pc (u16 (get_pc (timer_tick m) + sign_extend i.value)) (timer_tick m),
      )
      else ok (i.cycle_count_false, m)

  jumps : Reads k jumped
  jumps =
      if-Ends Stop (λ (x : ℕ × Machine). IsMachine IsSound x.1) i.condition _ _
        (set_pc-IsMachine (u16 (get_pc (timer_tick m) + sign_extend i.value)) (timer_tick m) h1) h

  pub jr-Ends : (exits : Bool) → (exits ≡ true → Stop) → Reads k (jr exits i m)
  unfolding jr
  jr-Ends exits stops = elim (Bool-cases exits) [
    | inl on ↦ rw on (ground (arith, stops on, jumps))
    | inr off ↦ rw off jumps
  ]

  pub call-Ends : Reads k (call i m)
  unfolding call
  call-Ends =
      if-Ends Stop (λ x. IsMachine IsSound x.1) i.condition _ _
        (>>=-Ends Stop (IsMachine IsSound) _ (stack_push_16bit _ (timer_tick m)) _
          (stack_push_16bit-Ends k _ (timer_tick m) h1)
          (λ m2 good. set_pc-IsMachine i.address m2 good))
        h

  pub ret-Ends : Reads k (ret i m)
  unfolding ret
  ret-Ends =
      let h3 = if_both (IsMachine IsSound) (has_type i no_operand) m (timer_tick m) h h1 in
      if-Ends Stop (λ x. IsMachine IsSound x.1) i.condition _ _
        (>>=-Ends Stop (λ x. IsMachine IsSound x.1) _ (stack_pop_16bit _) _
          (stack_pop_16bit-Ends k _ h3)
          (λ x good. set_pc-IsMachine x.0 (timer_tick x.1) (timer_tick-IsMachine x.1 good)))
        h3

  pub reti-Ends : Reads k (reti i m)
  unfolding reti
  reti-Ends =
      >>=-Ends Stop (λ x. IsMachine IsSound x.1) _ (stack_pop_16bit m) _
        (stack_pop_16bit-Ends k m h)
        (λ x good.
          set_ime-IsMachine true _
            (set_pc-IsMachine x.0 (timer_tick x.1) (timer_tick-IsMachine x.1 good)))

  pub rst-Ends : Reads k (rst i m)
  unfolding rst
  rst-Ends =
      >>=-Ends Stop (IsMachine IsSound) _ (stack_push_16bit _ (timer_tick m)) _
        (stack_push_16bit-Ends k _ (timer_tick m) h1) (λ m2 good. set_pc-IsMachine i.value m2 good)
