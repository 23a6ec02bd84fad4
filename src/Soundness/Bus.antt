-- ===== src/Soundness/Bus.antt =====
-- Reads, writes, the stack and the bytes at PC, on any cartridge that meets the contract.
use emu_gb.Base.{
  ℕ, ◌+◌, ◌*◌, arith, ok, Outcome, ◌>>=◌, Ends, >>=-Ends, inl, inr, Bool-cases, ltb, ltb→lt, u16,
  lsb, msb,
}
use emu_gb.Cartridge.{Cartridge}
use emu_gb.Cartridge.Bus.{write_cartridge}
use emu_gb.Timer.{write_timer}
use emu_gb.Interrupt.{write_interrupt}
use emu_gb.Timer.Ticks.{timer_tick}
use emu_gb.Machine.{Machine}
use emu_gb.Memory.{read_memory, write_memory, write_memory_16bit, write_io, store}
use emu_gb.Stack.{
  stack_push, stack_push_16bit, stack_pop, stack_pop_16bit, fetch_opcode, read_8bit_data,
  read_16bit_data,
}
use emu_gb.Soundness.{IsMachine, Contract}
use emu_gb.Soundness.Access.{
  write_timer-IsTimer, write_interrupt-IsInterrupts, store-IsCpu, set_pc-IsCpu, set_sp-IsCpu,
  with_cpu, with_timer, with_interrupts, timer_tick-IsMachine,
}

module _ {IsSound : Cartridge → Type 0} where
  write_io-IsMachine :
      (a v : ℕ) (m : Machine) → IsMachine IsSound m → IsMachine IsSound (write_io a v m)
  unfolding write_io
  write_io-IsMachine a v m h = ground (
    arith,
    with_timer (write_timer a v m.timer) m (write_timer-IsTimer a v m.timer h.is_timer) h,
    with_interrupts (write_interrupt a v m.interrupts) m
        (write_interrupt-IsInterrupts a v m.interrupts h.is_interrupts) h,
    with_cpu (store a v m.cpu) m (store-IsCpu a v m.cpu h.is_cpu) h,
  )

module _ {IsSound : Cartridge → Type 0} {Stop : Type 0} (k : Contract IsSound Stop) where
  pub read_memory-Ends :
      (a : ℕ) (m : Machine) → IsMachine IsSound m → Ends Stop (read_memory a m) (λ _. Unit)
  unfolding read_memory
  read_memory-Ends a m h = elim (Bool-cases (ltb a 0x8000)) [
    | inl low ↦ rw low (k.read_ends a m.cartridge h.is_cartridge (ltb→lt a 0x8000 low))
    | inr high ↦ ground arith
  ]

  pub write_memory-Ends :
      (a v : ℕ) (m : Machine)
      → IsMachine IsSound m
      → Ends Stop (write_memory a v m) (IsMachine IsSound)
  unfolding write_memory
  write_memory-Ends a v m h = elim (Bool-cases (ltb a 0x8000)) [
    | inl low ↦ rw low (
        >>=-Ends Stop IsSound (IsMachine IsSound) (write_cartridge a v m.cartridge) _
          (k.write_ends a v m.cartridge h.is_cartridge (ltb→lt a 0x8000 low))
          (λ g sound. record {
            is_cpu = h.is_cpu;
            is_timer = h.is_timer;
            is_interrupts = h.is_interrupts;
            is_cartridge = sound;
          }))
    | inr high ↦ ground (
      arith,
      write_io-IsMachine a v m h,
      with_interrupts (write_interrupt a v m.interrupts) m
          (write_interrupt-IsInterrupts a v m.interrupts h.is_interrupts) h,
      with_cpu (store a v m.cpu) m (store-IsCpu a v m.cpu h.is_cpu) h,
    )
  ]

  pub write_memory_16bit-Ends :
      (a v : ℕ) (m : Machine)
      → IsMachine IsSound m
      → Ends Stop (write_memory_16bit a v m) (IsMachine IsSound)
  unfolding write_memory_16bit
  write_memory_16bit-Ends a v m h =
      >>=-Ends Stop (IsMachine IsSound) (IsMachine IsSound) (write_memory a (lsb v) m) _
        (write_memory-Ends a (lsb v) m h) (λ m1 h1. write_memory-Ends (u16 (a + 1)) (msb v) m1 h1)

  pub stack_push-Ends :
      (v : ℕ) (m : Machine) → IsMachine IsSound m → Ends Stop (stack_push v m) (IsMachine IsSound)
  unfolding stack_push
  stack_push-Ends v m h =
      let h1 = timer_tick-IsMachine m h in
      let sp = u16 ((timer_tick m).cpu.sp + 65535) in
      write_memory-Ends sp v _
        (with_cpu _ (timer_tick m) (set_sp-IsCpu sp (timer_tick m).cpu (omega arith) h1.is_cpu) h1)

  pub stack_push_16bit-Ends :
      (v : ℕ) (m : Machine)
      → IsMachine IsSound m
      → Ends Stop (stack_push_16bit v m) (IsMachine IsSound)
  unfolding stack_push_16bit
  stack_push_16bit-Ends v m h =
      >>=-Ends Stop (IsMachine IsSound) (IsMachine IsSound) (stack_push (msb v) m) _
        (stack_push-Ends (msb v) m h) (λ m1 h1. stack_push-Ends (lsb v) m1 h1)

  -- A value that is read, and the machine behind it.
  abbrev pub Reads : {A : Type 0} → Outcome (A × Machine) → Type 0
  Reads r = Ends Stop r (λ x. IsMachine IsSound x.1)

  stack_pop-Ends : (m : Machine) → IsMachine IsSound m → Reads (stack_pop m)
  unfolding stack_pop
  stack_pop-Ends m h =
      let h1 = timer_tick-IsMachine m h in
      >>=-Ends Stop (λ _. Unit) _ (read_memory (timer_tick m).cpu.sp (timer_tick m)) _
        (read_memory-Ends (timer_tick m).cpu.sp (timer_tick m) h1)
        (λ val _.
          with_cpu _ (timer_tick m) (set_sp-IsCpu _ (timer_tick m).cpu (omega arith) h1.is_cpu) h1)

  -- In the same way a byte is read at PC.
  pub fetch_opcode-Ends : (m : Machine) → IsMachine IsSound m → Reads (fetch_opcode m)
  unfolding fetch_opcode
  fetch_opcode-Ends m h =
      let h1 = timer_tick-IsMachine m h in
      >>=-Ends Stop (λ _. Unit) _ (read_memory (timer_tick m).cpu.pc (timer_tick m)) _
        (read_memory-Ends (timer_tick m).cpu.pc (timer_tick m) h1)
        (λ val _.
          with_cpu _ (timer_tick m) (set_pc-IsCpu _ (timer_tick m).cpu (omega arith) h1.is_cpu) h1)

  pub read_8bit_data-Ends : (m : Machine) → IsMachine IsSound m → Reads (read_8bit_data m)
  unfolding read_8bit_data fetch_opcode
  read_8bit_data-Ends m h = fetch_opcode-Ends m h

  -- Two bytes in a row make a word.
  pub read_pair-Ends :
      {A : Type 0} (read : Machine → Outcome (ℕ × Machine)) (f : ℕ → ℕ → A) (m : Machine)
      → ((m : Machine) → IsMachine IsSound m → Reads (read m))
      → IsMachine IsSound m
      → Reads (do (x, m1) ← read m; (y, m2) ← read m1; ok (f x y, m2))
  read_pair-Ends read f m reads h =
      >>=-Ends Stop (λ x. IsMachine IsSound x.1) _ (read m) _ (reads m h)
        (λ x h1.
          >>=-Ends Stop (λ x. IsMachine IsSound x.1) _ (read x.1) _ (reads x.1 h1) (λ y h2. h2))

  pub stack_pop_16bit-Ends : (m : Machine) → IsMachine IsSound m → Reads (stack_pop_16bit m)
  unfolding stack_pop_16bit
  stack_pop_16bit-Ends m h = read_pair-Ends stack_pop (λ x y. x + y * 256) m stack_pop-Ends h

  pub read_16bit_data-Ends : (m : Machine) → IsMachine IsSound m → Reads (read_16bit_data m)
  unfolding read_16bit_data
  read_16bit_data-Ends m h =
      read_pair-Ends read_8bit_data (λ x y. y * 256 + x) m read_8bit_data-Ends h
