-- ===== src/Interrupt/Serve.antt =====
-- What taking an interrupt does: `accept` of src/cpu/interrupt.c, through the stack and the timer.
use emu_gb.Base.{
  ℕ, ◌^◌, ◌<◌, ◌≡◌, ◌≢◌, refl, ◌∙◌, ap, arith, Bool, true, false, if◌then◌else◌, ok, u16, u8, msb,
  complement, bit_and, bit_or,
}
use emu_gb.Cpu.{Cpu, reg_pc, read_register_16bit, write_register_16bit}
use emu_gb.Machine.{Machine, on_cpu, on_interrupts}
use emu_gb.Timer.Ticks.{timer_ticks, timer_tick}
use emu_gb.Timer.Frame.{timer_ticks-cpu, timer_ticks-interrupts, timer_tick-cpu}
use emu_gb.Stack.Words.{HasRoom, pushed, pushed_byte, two_ticks_to, tick_to, stack_push_16bit_lem}
use emu_gb.Interrupt.{read_interrupt, write_interrupt, if_address}
use emu_gb.Interrupt.Masks.{vector, has, flag-vector, has-clear, has-request}
use emu_gb.Interrupt.Priority.{IsFirst, handle_interrupts-first}
use emu_gb.Interrupt.Service.{handle_interrupt, accept, handle_interrupts}

-- `after` is IF some cycles later: only the timer may have requested more.
record Keeps (before after : ℕ) : Type 0 where
  byte : after < 256
  others : (j : ℕ) → j < 5 → j ≢ 2 → has after j ≡ has before j
  timer : has before 2 ≡ true → has after 2 ≡ true

Keeps-refl : {f : ℕ} → f < 256 → Keeps f f
Keeps-refl h = record { byte = h; others = λ j hj ne. refl; timer = λ e. e }

request-Keeps : {f g : ℕ} (b : Bool) → Keeps f g → Keeps f (if b then u8 (bit_or g 4) else g)
request-Keeps {f} {g} false k = k
request-Keeps {f} {g} true k = record {
  byte = omega arith;
  others = λ j hj ne. has-request g j k.byte hj ∙ ground (arith, k.others j hj ne);
  timer = λ e. has-request g 2 k.byte (omega arith);
}

ticks-Keeps :
    {f : ℕ} (n : ℕ) (m : Machine)
    → Keeps f m.interrupts.if_reg
    → Keeps f (timer_ticks n m).interrupts.if_reg
ticks-Keeps n m k = rw (timer_ticks-interrupts n m) (request-Keeps m.timer.tima_overflow k)

tick-Keeps :
    {f : ℕ} (m : Machine) → Keeps f m.interrupts.if_reg → Keeps f (timer_tick m).interrupts.if_reg
unfolding timer_tick
tick-Keeps m k = ticks-Keeps 1 m k

-- The CPU that enters the handler of the interrupt number `k`.
abbrev pub entered : ℕ → Cpu → Cpu
entered k c = record (pushed c.pc (record c { halt = false; ime_scheduled = false })) {
  pc = vector k;
}

-- The states between the calls of `accept`.
abbrev awake : Machine → Machine
awake m = on_cpu (λ c. record c { halt = false }) m

abbrev waited : Machine → Machine
waited m = timer_ticks 2 (awake m)

abbrev saved : Machine → Machine
saved m =
    let pc = (waited m).cpu.pc in
    two_ticks_to (pushed_byte (msb pc) (waited m).cpu) (pushed pc (waited m).cpu) (waited m)

abbrev jumped : ℕ → Machine → Machine
jumped k m = on_cpu (write_register_16bit reg_pc (vector k)) (timer_tick (saved m))

waited-cpu : (m : Machine) → (waited m).cpu ≡ record (m.cpu) { halt = false; ime_scheduled = false }
waited-cpu m = timer_ticks-cpu 2 (awake m)

handle_interrupt_lem :
    (k : ℕ) (m : Machine)
    → HasRoom m.cpu.sp
    → handle_interrupt (vector k) (awake m) ≡ ok (jumped k m)
unfolding handle_interrupt read_register_16bit
handle_interrupt_lem k m room =
    let sp = ap (λ (x : Cpu). x.sp) (waited-cpu m) in
    rw (stack_push_16bit_lem (waited m).cpu.pc (waited m) (rw sp room))

jumped-cpu : (k : ℕ) (m : Machine) → k < 5 → (jumped k m).cpu ≡ entered k m.cpu
unfolding write_register_16bit
jumped-cpu k m hk =
    let e : u16 (vector k) ≡ vector k = omega arith in
    rw (timer_tick-cpu (saved m), e, waited-cpu m)

jumped-Keeps :
    (k : ℕ) (m : Machine)
    → m.interrupts.if_reg < 256
    → Keeps m.interrupts.if_reg (jumped k m).interrupts.if_reg
jumped-Keeps k m byte =
    let w = ticks-Keeps 2 (awake m) (Keeps-refl byte) in
    let one = tick-Keeps (waited m) w in
    let two =
      tick-Keeps (tick_to (pushed_byte (msb (waited m).cpu.pc) (waited m).cpu) (waited m)) one in
    tick-Keeps (saved m) two

-- The state after the interrupt number `k` is taken from the state `m`.
pub record IsServed (k : ℕ) (m after : Machine) : Type 0 where
  pub cpu_entered : after.cpu ≡ entered k m.cpu
  pub cleared : has after.interrupts.if_reg k ≡ false
  pub others_kept :
      (j : ℕ) → j < 5 → j ≢ 2 → j ≢ k → has after.interrupts.if_reg j ≡ has m.interrupts.if_reg j
  pub timer_kept : k ≢ 2 → has m.interrupts.if_reg 2 ≡ true → has after.interrupts.if_reg 2 ≡ true

acknowledged : ℕ → Machine → Machine
acknowledged k m =
    on_interrupts (write_interrupt if_address (bit_and m.interrupts.if_reg (complement (2 ^ k)))) m

acknowledged-IsServed :
    (k : ℕ) (m : Machine)
    → k < 5
    → m.interrupts.if_reg < 256
    → IsServed k m (acknowledged k (jumped k m))
unfolding acknowledged write_interrupt
acknowledged-IsServed k m hk byte =
    let kept = jumped-Keeps k m byte in
    let now = (jumped k m).interrupts.if_reg in
    record {
      cpu_entered = jumped-cpu k m hk;
      cleared = has-clear now k k kept.byte hk hk ∙ ground arith;
      others_kept =
          λ j hj ne ne'. has-clear now k j kept.byte hk hj ∙ ground (arith, kept.others j hj ne);
      timer_kept =
          λ ne e. has-clear now k 2 kept.byte hk (omega arith) ∙ ground (arith, kept.timer e);
    }

accept_lem :
    (k : ℕ) (m : Machine)
    → m.interrupts.ime ≡ true
    → HasRoom m.cpu.sp
    → accept (vector k) m ≡ ok (5, acknowledged k (jumped k m))
unfolding accept acknowledged read_interrupt
accept_lem k m on room = simp (on, handle_interrupt_lem k m room, flag-vector k)

-- With IME on, IF a byte, and room on the stack in plain memory, the first waiting interrupt is served
-- in 5 cycles: the CPU has its vector in PC, the old PC on the stack, HALT and a delayed `EI` cleared,
-- and is otherwise as before; the bit of the interrupt in IF is cleared; the bits of the others are as
-- they were, but that the timer may have requested its own, and has not lost it.
pub handle_interrupts-IsServed :
    (k : ℕ) (m : Machine)
    → IsFirst k m
    → m.interrupts.ime ≡ true
    → HasRoom m.cpu.sp
    → m.interrupts.if_reg < 256
    → (after : Machine) × (handle_interrupts m ≡ ok (5, after)) × IsServed k m after
handle_interrupts-IsServed k m first on room byte = (
  acknowledged k (jumped k m),
  handle_interrupts-first k m first ∙ accept_lem k m on room,
  acknowledged-IsServed k m first.in_range byte,
)
