-- ===== src/Reference/Procedure.antt =====
-- Procedures of programs that src/main.c runs: a call, a body and a return.
use emu_gb.Base.{ℕ, suc, ◌+◌, ◌-◌, ◌*◌, ◌/◌, ◌%◌, ◌≡◌, refl, arith, Bool, Returns}
use emu_gb.Machine.{Machine}
use emu_gb.Stack.Words.{HasRoom}
use emu_gb.Program.{TestRom, rounds}
use emu_gb.Reference.Place.{Holds, IsReady}
use emu_gb.Reference.Jump.{always}
use emu_gb.Reference.Config.{Config, IsAt}
use emu_gb.Reference.Call.{encode_call}
use emu_gb.Reference.Return.{encode_return, top, HasWord}
use emu_gb.Reference.Code.{call, return, after}
use emu_gb.Reference.Runs.{Runs, stays, does, append-Runs, Arrives, rounds-Runs}

-- A body that ends in front of a return, with SP as at its entry and the place behind the call of `x` still on
-- the stack.
pub record IsBody (x y : Config) : Type 0 where
  pub same_sp : y.sp ≡ x.sp - 2
  pub upper : y.memory (x.sp - 1) ≡ (x.pc + 3) / 256
  pub lower : y.memory (x.sp - 2) ≡ (x.pc + 3) % 256
  pub returns : Holds (encode_return always) y.pc y.memory

-- Behind the call.
abbrev pub returned_to : Config → Config → Config
returned_to x y = record y { pc = x.pc + 3; sp = x.sp }

module _ (low high : ℕ) (x : Config) (held : Holds (encode_call always low high) x.pc x.memory)
    (room : HasRoom x.sp) where
  return-Runs : {y : Config} → IsBody x y → Runs 1 y (returned_to x y)
  return-Runs {y = y} body =
      let next : x.sp - 2 + 1 ≡ x.sp - 1 = omega (arith, room) in
      let behind : x.sp - 2 + 2 ≡ x.sp = omega (arith, room) in
      let whole : (x.pc + 3) % 256 + (x.pc + 3) / 256 * 256 ≡ x.pc + 3 = omega arith in
      let has : HasWord y.sp y.memory =
        rw (body.same_sp, next, body.upper, body.lower)
          (room.3, room.2, omega arith, omega (arith, held)) in
      let back : top y.sp y.memory ≡ x.pc + 3 =
        rw (body.same_sp, next, body.upper, body.lower) whole in
      let popped : y.sp + 2 ≡ x.sp = rw (body.same_sp, behind) refl in
      does (return always) body.returns (λ yes. has) (rw (back, popped) stays)

  procedure-Runs :
      {n : ℕ} {y : Config}
      → Runs n (after (call always low high) x) y
      → IsBody x y
      → Runs (suc (n + 1)) x (returned_to x y)
  procedure-Runs run body =
      does (call always low high) held (λ yes. room) (append-Runs run (return-Runs body))

-- Where no interrupt is enabled and the CPU is not halted, a CALL above the cartridge at a place
-- with room on the stack, whose body is a run of the reference machine to a RET, through the
-- instructions that rounds-Runs names and no other, so that it enables no interrupt and has no
-- JR to itself, with SP as at its entry and the two bytes that were pushed still there, leads in
-- two rounds of the loop more than the body takes, none of which stops the program, to the place
-- behind the CALL with the SP of before, and with the memory, the registers and the flags of the
-- end of the body.
pub rounds_procedure :
    {n : ℕ} {x y : Config} (exits : Bool) (t : TestRom) (m : Machine) (low high : ℕ)
    → IsReady m
    → IsAt x m
    → Holds (encode_call always low high) x.pc x.memory
    → HasRoom x.sp
    → Runs n (after (call always low high) x) y
    → IsBody x y
    → Returns (rounds exits (suc (n + 1)) (t, m)) (Arrives (returned_to x y) t)
rounds_procedure exits t m low high ready at held room run body =
    rounds-Runs exits t m (procedure-Runs low high _ held room run body) ready at
