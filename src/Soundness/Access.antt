-- ===== src/Soundness/Access.antt =====
-- The timer, the memory map of src/cpu/memory.c and the stack of include/cpu/stack.h keep the state in
-- its widths, on any cartridge that meets the contract.
use emu_gb.Base.{ℕ, Bool, false, arith, u8, IsWord}
use emu_gb.Cpu.{Cpu}
use emu_gb.Cartridge.{Cartridge}
use emu_gb.Timer.{Timer, write_timer, read_timer}
use emu_gb.Interrupt.{Interrupts, write_interrupt, interrupt_request, interrupt_set_ime}
use emu_gb.Timer.Ticks.{timer_ticks, timer_tick}
use emu_gb.Timer.Frame.{timer_ticks-cpu, timer_ticks-cartridge, timer_ticks-interrupts}
use emu_gb.Machine.{Machine}
use emu_gb.Memory.{store}
use emu_gb.Soundness.{IsCpu, IsTimer, IsInterrupts, IsMachine}
use emu_gb.Soundness.Registers.{update-IsByte}

pub write_timer-IsTimer : (a v : ℕ) (t : Timer) → IsTimer t → IsTimer (write_timer a v t)
unfolding write_timer
write_timer-IsTimer a v t h = record {
  div_word = ground (arith, h.div_word);
  tima_byte = ground (arith, h.tima_byte);
  tma_byte = ground (arith, h.tma_byte);
  tac_byte = ground (arith, h.tac_byte);
}

pub write_interrupt-IsInterrupts :
    (a v : ℕ) (s : Interrupts) → IsInterrupts s → IsInterrupts (write_interrupt a v s)
unfolding write_interrupt
write_interrupt-IsInterrupts a v s h = record {
  if_byte = ground (arith, h.if_byte);
  ie_byte = ground (arith, h.ie_byte);
}

pub store-IsCpu : (a v : ℕ) (c : Cpu) → IsCpu c → IsCpu (store a v c)
store-IsCpu a v c h = record {
  r8_byte = h.r8_byte;
  pc_word = h.pc_word;
  sp_word = h.sp_word;
  memory_byte = update-IsByte c.memory a (u8 v) h.memory_byte (omega arith);
}

pub set_pc-IsCpu : (v : ℕ) (c : Cpu) → IsWord v → IsCpu c → IsCpu (record c { pc = v })
set_pc-IsCpu v c hv h = record {
  r8_byte = h.r8_byte;
  pc_word = hv;
  sp_word = h.sp_word;
  memory_byte = h.memory_byte;
}

pub set_sp-IsCpu : (v : ℕ) (c : Cpu) → IsWord v → IsCpu c → IsCpu (record c { sp = v })
set_sp-IsCpu v c hv h = record {
  r8_byte = h.r8_byte;
  pc_word = h.pc_word;
  sp_word = hv;
  memory_byte = h.memory_byte;
}

-- The Booleans of the CPU do not matter.
pub set_bits-IsCpu :
    (a b d : Bool) (c : Cpu)
    → IsCpu c
    → IsCpu (record c { halt = a; ime_scheduled = b; is_running = d })
set_bits-IsCpu a b d c h = record {
  r8_byte = h.r8_byte;
  pc_word = h.pc_word;
  sp_word = h.sp_word;
  memory_byte = h.memory_byte;
}

module _ {IsSound : Cartridge → Type 0} where
  -- A part that is replaced by a good one.
  pub with_cpu :
      (c : Cpu) (m : Machine)
      → IsCpu c
      → IsMachine IsSound m
      → IsMachine IsSound (record m { cpu = c })
  with_cpu c m k h = record {
    is_cpu = k;
    is_timer = h.is_timer;
    is_interrupts = h.is_interrupts;
    is_cartridge = h.is_cartridge;
  }

  pub with_interrupts :
      (s : Interrupts) (m : Machine)
      → IsInterrupts s
      → IsMachine IsSound m
      → IsMachine IsSound (record m { interrupts = s })
  with_interrupts s m k h = record {
    is_cpu = h.is_cpu;
    is_timer = h.is_timer;
    is_interrupts = k;
    is_cartridge = h.is_cartridge;
  }

  pub with_timer :
      (t : Timer) (m : Machine)
      → IsTimer t
      → IsMachine IsSound m
      → IsMachine IsSound (record m { timer = t })
  with_timer t m k h = record {
    is_cpu = h.is_cpu;
    is_timer = k;
    is_interrupts = h.is_interrupts;
    is_cartridge = h.is_cartridge;
  }

  pub timer_ticks-IsMachine :
      (n : ℕ) (m : Machine) → IsMachine IsSound m → IsMachine IsSound (timer_ticks n m)
  unfolding timer_ticks interrupt_set_ime interrupt_request write_timer read_timer
  timer_ticks-IsMachine n m h =
      let t = h.is_timer in
      let s = h.is_interrupts in
      record {
        is_cpu = rw (timer_ticks-cpu n m) (set_bits-IsCpu _ false _ m.cpu h.is_cpu);
        is_timer = record {
          div_word = ground arith;
          tima_byte = ground (arith, t.tima_byte, t.tma_byte);
          tma_byte = ground (arith, t.tma_byte);
          tac_byte = ground (arith, t.tac_byte);
        };
        is_interrupts =
            rw (timer_ticks-interrupts n m)
              (record { if_byte = ground (arith, s.if_byte); ie_byte = s.ie_byte });
        is_cartridge = rw (timer_ticks-cartridge n m) h.is_cartridge;
      }

  pub timer_tick-IsMachine : (m : Machine) → IsMachine IsSound m → IsMachine IsSound (timer_tick m)
  unfolding timer_tick
  timer_tick-IsMachine m h = timer_ticks-IsMachine 1 m h
