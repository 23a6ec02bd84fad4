-- ===== src/Instruction/Opcodes.antt =====
-- src/cpu/instruction_fetch.c: the opcode table `g_opcodes`.
pub mod Misc
pub mod Loads
pub mod Arithmetic
pub mod Control
pub mod Decoding
use emu_gb.Base.{ℕ, List, ◌++◌, get_or}
use emu_gb.Instruction.{InType, entry, in_adc, err_operand}
use Misc.{row_0, row_1, row_2, row_3}
use Loads.{row_4, row_5, row_6, row_7}
use Arithmetic.{row_8, row_9, row_a, row_b}
use Control.{row_c, row_d, row_e, row_f}

unfoldable pub table : List InType
unfolding row_0 row_1 row_2 row_3 row_4 row_5 row_6 row_7 row_8 row_9 row_a row_b row_c row_d row_e
    row_f
table =
    row_0
    ++ (row_1
        ++ (row_2
            ++ (row_3
                ++ (row_4
                    ++ (row_5
                        ++ (row_6
                            ++ (row_7
                                ++ (row_8
                                    ++ (row_9
                                        ++ (row_a
                                            ++ (row_b
                                                ++ (row_c ++ (row_d ++ (row_e ++ row_f))))))))))))))

-- `g_opcodes[opcode]`.
unfoldable pub g_opcodes : ℕ → InType
unfolding table
g_opcodes opcode = get_or table opcode (entry in_adc err_operand 0 0)
