-- ===== src/Tests/Processor.antt =====
-- Registers, flags, memory, the stack and the fetching of operands.
use emu_gb.Base.{◌≡◌, refl, arith, inl, false, Ensures, ok, update}
use emu_gb.Cpu.{reg_hl, read_register_16bit, write_register_16bit}
use emu_gb.Cpu.Registers.{read_register_16bit-write_register_16bit}
use emu_gb.Machine.{Machine}
use emu_gb.Memory.{read_memory, write_memory, read_memory_16bit}
use emu_gb.Memory.Plain.{read_memory-write_memory, read_memory_16bit-misses_io}
use emu_gb.Stack.{stack_push_16bit, stack_pop_16bit}
use emu_gb.Stack.Words.{stack_pop_16bit-stack_push_16bit}
use emu_gb.Instruction.Fetch.{fetch_instruction}
use emu_gb.Instruction.Opcodes.{g_opcodes}
use emu_gb.Instruction.Fetch.Length.{fetch_instruction-pc}
use emu_gb.Instruction.Jump.{call, ret}
use emu_gb.Instruction.Jump.Calls.{ret-call}
use emu_gb.Tests.Data.{taken_call, bytes, cpu, machine}

read_register_16bit-write_register_16bit_example :
    read_register_16bit reg_hl (write_register_16bit reg_hl 0x1234 cpu) ≡ 0x1234
read_register_16bit-write_register_16bit_example =
    read_register_16bit-write_register_16bit reg_hl 0x1234 cpu (omega arith) (omega arith)

read_memory-write_memory_example :
    (m' : Machine) × (write_memory 0xFF07 0xFD machine ≡ ok m') × (read_memory 0xFF07 m' ≡ ok 5)
read_memory-write_memory_example =
    read_memory-write_memory 0xFF07 0xFF07 0xFD machine (omega arith) (omega arith) (omega arith)
      (omega arith) (omega arith)

read_memory_16bit-misses_io_example :
    Ensures
      (write_memory 0xFF05 0x77 machine)
      (λ m'. read_memory_16bit 0xFF05 m' ≡ read_memory_16bit 0xFF05 machine)
read_memory_16bit-misses_io_example =
    read_memory_16bit-misses_io 0xFF05 0xFF05 0x77 machine refl (omega arith)

stack_pop_16bit-stack_push_16bit_example :
    (m1 : Machine) × (m2 : Machine) × (stack_push_16bit 0xBEEF machine ≡ ok m1)
    × (stack_pop_16bit m1 ≡ ok (0xBEEF, m2))
    × (m2.cpu ≡ record cpu {
      ime_scheduled = false;
      memory = update (update cpu.memory 0xDFFD 0xBE) 0xDFFC 0xEF;
    })
stack_pop_16bit-stack_push_16bit_example =
    stack_pop_16bit-stack_push_16bit 0xBEEF machine (omega arith)
      (omega arith, omega arith, inl (omega arith, omega arith), inl (omega arith, omega arith))

-- `LD HL,d16` moves PC by two bytes.
fetch_instruction-pc_example : Ensures (fetch_instruction 0x21 machine) (λ r. r.1.cpu.pc ≡ 0xC003)
unfolding g_opcodes
fetch_instruction-pc_example = fetch_instruction-pc 0x21 machine (omega arith)

ret-call_example :
    (m1 : Machine) × (m2 : Machine) × (call taken_call machine ≡ ok (6, m1))
    × (m1.cpu.pc ≡ 0xC100)
    × (ret taken_call m1 ≡ ok (6, m2))
    × (m2.cpu.pc ≡ 0xC001)
    × (m2.cpu.sp ≡ 0xDFFE)
    × (m2.cpu.r8 ≡ bytes)
ret-call_example =
    ret-call taken_call taken_call machine refl refl (omega arith)
      (omega arith, omega arith, inl (omega arith, omega arith), inl (omega arith, omega arith))
