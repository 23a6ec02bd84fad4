-- ===== src/Tests/Procedures.antt =====
-- A procedure, and a program that fills memory, in work RAM.
use emu_gb.Base.{
  ℕ, ◌≤◌, ◌<◌, ◌==◌, ◌≡◌, ◌⊎◌, refl, arith, false, Returns, if◌then◌else◌, IsByte, inl, inr,
}
use emu_gb.Cpu.{reg_a, reg_b, reg_hl, read_register_16bit}
use emu_gb.Cpu.Flag.{get_flag}
use emu_gb.Cpu.View.{flags, flags_of}
use emu_gb.Machine.{Machine}
use emu_gb.Program.{rounds}
use emu_gb.Reference.{State, a}
use emu_gb.Reference.Decode.{place}
use emu_gb.Reference.Shows.{Shows}
use emu_gb.Reference.Jump.{always}
use emu_gb.Reference.Config.{Config, config}
use emu_gb.Reference.Code.{bytes_of, store_hl, push, pop, call, after}
use emu_gb.Reference.Pairs.{hl}
use emu_gb.Reference.Runs.{Runs, stays, does, Arrives}
use emu_gb.Reference.Fill.{fill_bytes, rounds_fill}
use emu_gb.Reference.Call.{encode_call}
use emu_gb.Reference.Return.{encode_return}
use emu_gb.Reference.Procedure.{IsBody, returned_to, rounds_procedure}
use emu_gb.Reference.Place.{are_there-Holds}
use emu_gb.Tests.Data.{machine, no_output}

-- At 0xC001 the call of 0xC010, where `PUSH HL`, `LD (HL),A`, `POP HL` and `RET` lie.
abbrev calling : ℕ → ℕ
calling k =
    if k == 0xC001
    then 0xCD
    else if k == 0xC002
    then 0x10
    else if k == 0xC003
    then 0xC0
    else if k == 0xC010
    then 0xE5
    else if k == 0xC011
    then 0x77
    else if k == 0xC012
    then 0xE1
    else if k == 0xC013
    then 0xC9
    else 0

-- `LD (HL),A`, `INC HL`, `DEC B`, `JR NZ,-5`.
abbrev filling : ℕ → ℕ
filling k =
    if k == 0xC001
    then 0x77
    else if k == 0xC002
    then 0x23
    else if k == 0xC003
    then 0x05
    else if k == 0xC004
    then 0x20
    else if k == 0xC005
    then 0xFB
    else 0

-- A holds 0x45, B 3, HL 0xD000, and no flag is set.
abbrev values : ℕ → ℕ
values k = if k == 0 then 0x45 else if k == 2 then 3 else if k == 6 then 0xD0 else 0

abbrev with_program : (ℕ → ℕ) → Machine
with_program memory = record machine {
  cpu = record (machine.cpu) { r8 = values; memory = memory; halt = false };
  interrupts = record (machine.interrupts) { ie_reg = 0 };
}

values-IsByte : (k : ℕ) → IsByte (values k)
values-IsByte k = ground arith

abbrev at_first : State
at_first = record { value = λ r. values (place r); fs = flags false false false false }

at_first-Shows : Shows at_first (with_program calling).cpu
unfolding flags_of get_flag
at_first-Shows = record {
  values = λ r. refl;
  bytes = λ r. values-IsByte (place r);
  flags_shown = refl;
}

abbrev before_call : Config
before_call = config at_first (with_program calling).cpu

abbrev in_procedure : Config
in_procedure = after (call always 0x10 0xC0) before_call

abbrev behind_push : Config
behind_push = after (push hl) in_procedure

abbrev behind_store : Config
behind_store = after (store_hl a) behind_push

abbrev behind_body : Config
behind_body = after (pop hl) behind_store

body-Runs : Runs 3 in_procedure behind_body
body-Runs =
    does (push hl)
      (are_there-Holds (bytes_of (push hl)) 0xC010 in_procedure.memory refl (omega arith)
        (omega arith))
      (omega arith, omega arith, inl (omega arith, omega arith), inl (omega arith, omega arith))
      (does (store_hl a)
        (are_there-Holds (bytes_of (store_hl a)) 0xC011 behind_push.memory refl (omega arith)
          (omega arith))
        (inl (omega arith, omega arith))
        (does (pop hl)
          (are_there-Holds (bytes_of (pop hl)) 0xC012 behind_store.memory refl (omega arith)
            (omega arith))
          (inl (omega arith, omega arith), inl (omega arith, omega arith), omega arith, omega arith)
          stays))

behind_body-IsBody : IsBody before_call behind_body
behind_body-IsBody = record {
  same_sp = refl;
  upper = refl;
  lower = refl;
  returns =
      are_there-Holds (encode_return always) 0xC013 behind_body.memory refl (omega arith)
        (omega arith);
}

rounds_procedure_example :
    Returns
      (rounds false 5 (no_output, with_program calling))
      (Arrives (returned_to before_call behind_body) no_output)
rounds_procedure_example =
    rounds_procedure false no_output (with_program calling) 0x10 0xC0
      (record { running = refl; awake = refl; disabled = refl })
      (record { shown = at_first-Shows; there = refl })
      (are_there-Holds (encode_call always 0x10 0xC0) 0xC001 calling refl (omega arith)
        (omega arith))
      (omega arith, omega arith, inl (omega arith, omega arith), inl (omega arith, omega arith))
      body-Runs behind_body-IsBody

rounds_fill_example : Returns (rounds false 12 (no_output, with_program filling)) (λ r.
    ((k : ℕ) → 0xD000 ≤ k → k < 0xD003 → r.1.cpu.memory k ≡ 0x45)
    × ((k : ℕ) → (k < 0xD000) ⊎ (0xD003 ≤ k) → r.1.cpu.memory k ≡ filling k)
    × (r.1.cpu.r8 reg_a ≡ 0x45)
    × (r.1.cpu.r8 reg_b ≡ 0)
    × (read_register_16bit reg_hl r.1.cpu ≡ 0xD003)
    × (r.1.cpu.pc ≡ 0xC006)
    × (r.1.cpu.sp ≡ 0xDFFE))
unfolding read_register_16bit
rounds_fill_example =
    rounds_fill false no_output (with_program filling)
      (record { running = refl; awake = refl; disabled = refl }) values-IsByte
      (are_there-Holds fill_bytes 0xC001 filling refl (omega arith) (omega arith)) (omega arith)
      (omega arith) (omega arith) (omega arith) (inr (omega arith))
