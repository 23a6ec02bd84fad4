-- ===== src/Lib.antt =====
-- The Game Boy emulator emu-gb: the CPU, the timer, the interrupts, the memory map and the bank
-- controllers of the cartridge, as functions on an explicit state.
--
-- The parts, and how they interact. A round of the program executes one instruction: it fetches the
-- opcode at PC, looks it up in the table, fetches the operands and calls the handler of the
-- instruction's name. Fetches, memory accesses and the stack call `timer_tick`, which moves the timer
-- on, requests its interrupt and delivers a delayed `EI`. Addresses below 0x8000 go to the cartridge
-- and its controller, those of the I/O ports to the timer and the interrupt registers, all others to
-- the array `memory`. Between instructions `handle_interrupts` serves the first interrupt that is
-- requested and enabled.
--
-- Base: the arithmetic of C on bytes and words, errors, lookups in arrays, and lemmas on them;
--   Bits/Digit and Bits/Width are about bits.
-- Cpu: src/cpu/cpu.c, include/cpu/cpu.h and include/cpu/flag.h. Cpu/Flag has the flags; Cpu/Flags,
--   Cpu/View and Cpu/Registers have laws.
-- Timer: src/cpu/timer.c and include/cpu/timer.h. Timer/Ticks has `timer_ticks`; Timer/Cycle, Timer/Batch
--   and Timer/Frame have laws.
-- Interrupt: src/cpu/interrupt.c. Interrupt/Service has `handle_interrupts`; Masks, Priority and
--   Serve have laws.
-- Cartridge: src/cartridge and include/cartridge. Cartridge/Mbc1, Mbc2 and Mbc3 are mbc1.c, mbc2.c and
--   mbc3.c, Cartridge/Clock the clock of mbc3.c, Cartridge/Bus is memory.c,
--   Cartridge/Loader and Cartridge/Info are cartridge.c, Cartridge/Dump has the dumps of the three
--   controllers. The controllers' Banks, Clock/Days, Loader/Multicart and Info/Logo have
--   laws.
-- Machine: the global variables together.
-- Memory: src/cpu/memory.c and src/io.c; Memory/Plain has laws.
-- Stack: include/cpu/stack.h and the reads at PC; Stack/Words has laws.
-- Instruction: include/cpu/instruction.h. Instruction/Opcodes is the table of
--   src/cpu/instruction_fetch.c and Instruction/Fetch its functions; Alu, Rotate, Memory, Jump and
--   Execute are the handlers of src/cpu/instruction.c, Cb those of src/cpu/instruction_cb.c.
--   Instruction/Display is src/cpu/instruction_display.c. Opcodes/Decoding, Fetch/Length, Jump/Calls,
--   Display/Shown and the children of Alu and Cb have laws.
-- Program: one round of the loop of src/main.c, with `test_rom_update` of src/test_rom.c; Program/Halt
--   and Program/Wake have laws. Program/Start is the part of `main` before the loop; Start/Ready
--   has a law.
--   Program/Output has `test_rom_print` and the whole body of the loop, with the line that it shows;
--   Output/Text and Output/Poll have laws.
-- Options: src/options.c and include/options.h; Options/Log is src/log.c and Options/Arguments has laws.
-- Soundness: the widths of the state, and the contract that a cartridge meets. Its children go through
--   the program from the registers to a round (Registers, Access, Bus, Alu, Jumps, Handlers, Opcodes,
--   Fetch, Cb, Service, Round), over any cartridge that meets the contract; Controllers shows that those
--   of src/cartridge do. Run has the runs of the loop as a step relation; Words, ExternalRam and Dumps
--   apply the parts before.
-- Reference: an independent description of a part of the instruction set: those on byte registers, on
--   the byte at HL and on register pairs, the stack, the jumps, calls and returns. Reference itself
--   has seven registers and four flags, Config adds PC, SP and a memory; there is no time. Decode is
--   its view of the fetch, Operate, Adjust, Jump and JumpTo of the handlers, Shows of the registers and
--   Step of one instruction on byte registers; Immediate is about words behind an opcode, and Indirect,
--   Pairs, Saves, Call and Return have the byte at HL, the pairs, PUSH and POP, calls and returns. Place
--   says how instructions lie in memory, Code has any instruction of these, and Runs the runs of the
--   reference machine as a step relation, with the rounds of the loop that they describe. Multiply and
--   Fill are programs with a loop, Procedure is about calls with a body, and Undefined about the opcodes
--   that are no instruction.
-- Tests: the theorems on concrete states.
--
-- The state and its correspondence. A global variable of the program is a field of the record of its
-- component, with its name; a function that changes globals takes the state and returns it. Numbers
-- are natural numbers; where C narrows to `u8` or `u16` the definition takes the remainder, and a
-- difference that C computes modulo a width is written with the width added first. Arrays are
-- functions from an index, with the test or the missing test of the source written out. A call that
-- ends the program gives an error: `fatal` for `exit`, `abort` for a failed `assert`, `undefined` for
-- an access outside of an array. The registers lie in memory as on a little-endian host.
--
-- No definition has fuel. The loops over the vectors of the interrupts, the bytes of the header, the
-- logo and the banks are by recursion on the rounds or the bytes that are left; the loop of `main` is
-- given by its body, by `rounds` for a given number of rounds, and its runs by a relation.
--
-- Left out: the log lines within the operations, which have no effect on the state, and the colours of
-- the log; the texts of the help. `asprintf`, `argp_parse`,
-- `argp_usage`, what a file holds and what `malloc` returns are parameters, and what `time(NULL)`
-- returns is the field `now` of the cartridge. src/ppu/ppu.c is empty.
pub mod Base
pub mod Cpu
pub mod Interrupt
pub mod Timer
pub mod Cartridge
pub mod Machine
pub mod Memory
pub mod Stack
pub mod Instruction
pub mod Program
pub mod Options
pub mod Soundness
pub mod Reference
pub mod Tests
