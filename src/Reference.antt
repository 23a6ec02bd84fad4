-- ===== src/Reference.antt =====
-- A reference machine for the instructions that work on byte registers: seven registers and four flags,
-- with no time and no encoding; Config adds PC, SP and a memory. It is an independent description of what
-- include/cpu/cpu.h, src/cpu/instruction_fetch.c and src/cpu/instruction.c together do to a program.
pub mod Decode
pub mod Operate
pub mod Adjust
pub mod Shows
pub mod Step
pub mod Place
pub mod Config
pub mod Immediate
pub mod Indirect
pub mod Pairs
pub mod Undefined
pub mod Jump
pub mod JumpTo
pub mod Call
pub mod Return
pub mod Saves
pub mod Code
pub mod Runs
pub mod Multiply
pub mod Fill
pub mod Procedure
use emu_gb.Base.{
  ℕ, ◌+◌, ◌-◌, ◌*◌, ◌%◌, ◌==◌, Bool, true, false, not, ltb, ◌||◌, ◌&&◌, ◌/◌, if◌then◌else◌, u8,
  to_ℕ, bit_and, bit_or, bit_xor, List, [], ◌∷◌, ◌++◌,
}
use emu_gb.Cpu.View.{Flags, flags}

pub data Register : Type 0 where
  b c d e h l a : Register

-- The octal digit of a register.
abbrev pub code : Register → ℕ
code b = 0
code c = 1
code d = 2
code e = 3
code h = 4
code l = 5
code a = 7

-- The operations on A, in the order of their octal digits.
pub data Operation : Type 0 where
  add adc sub sbc and xor or cp : Operation

abbrev pub number : Operation → ℕ
number add = 0
number adc = 1
number sub = 2
number sbc = 3
number and = 4
number xor = 5
number or = 6
number cp = 7

-- The instructions that work on A and the flags alone, in the order of their octal digits.
pub data Adjustment : Type 0 where
  rlca rrca rla rra daa cpl scf ccf : Adjustment

abbrev pub digit : Adjustment → ℕ
digit rlca = 0
digit rrca = 1
digit rla = 2
digit rra = 3
digit daa = 4
digit cpl = 5
digit scf = 6
digit ccf = 7

-- Loads, the increments, and operations on A, with registers and immediate bytes.
pub data Op : Type 0 where
  nop : Op
  adjust : Adjustment → Op
  load : Register → Register → Op
  load_byte : Register → ℕ → Op
  increment decrement : Register → Op
  operate : Operation → Register → Op
  operate_byte : Operation → ℕ → Op

-- The bytes of an instruction.
abbrev pub encode : Op → List ℕ
encode nop = 0 ∷ []
encode (adjust f) = (7 + digit f * 8) ∷ []
encode (load to from) = (64 + code to * 8 + code from) ∷ []
encode (load_byte to n) = (6 + code to * 8) ∷ n ∷ []
encode (increment r) = (4 + code r * 8) ∷ []
encode (decrement r) = (5 + code r * 8) ∷ []
encode (operate f r) = (128 + number f * 8 + code r) ∷ []
encode (operate_byte f n) = (198 + number f * 8) ∷ n ∷ []

abbrev pub encode_all : List Op → List ℕ
encode_all [] = []
encode_all (op ∷ ops) = encode op ++ encode_all ops

pub record State : Type 0 where
  pub value : Register → ℕ
  pub fs : Flags

abbrev pub put : Register → ℕ → State → State
put r v s = record s { value = λ q. if code q == code r then v else s.value q }

-- What an operation on `x` in A and `y`, with the carry flag `k`, leaves in A.
abbrev pub result : Operation → ℕ → ℕ → ℕ → ℕ
result add x y k = (x + y) % 256
result adc x y k = (x + y + k) % 256
result sub x y k = (x + 256 - y) % 256
result sbc x y k = (x + 256 - y - k) % 256
result and x y k = bit_and x y % 256
result xor x y k = bit_xor x y % 256
result or x y k = bit_or x y % 256
result cp x y k = x

-- The flags: Z for a zero result, N for a subtraction, H for a carry or a borrow at bit 4, and C at bit 8.
abbrev pub result_flags : Operation → ℕ → ℕ → ℕ → Flags
result_flags add x y k =
    flags (result add x y k == 0) false (ltb 15 (x % 16 + y % 16)) (ltb 255 (x + y))
result_flags adc x y k =
    flags (result adc x y k == 0) false (ltb 15 (x % 16 + y % 16 + k)) (ltb 255 (x + y + k))
result_flags sub x y k = flags (result sub x y k == 0) true (ltb (x % 16) (y % 16)) (ltb x y)
result_flags sbc x y k =
    flags (result sbc x y k == 0) true (ltb (x % 16) (y % 16 + k)) (ltb x (y + k))
result_flags and x y k = flags (result and x y k == 0) false true false
result_flags xor x y k = flags (result xor x y k == 0) false false false
result_flags or x y k = flags (result or x y k == 0) false false false
result_flags cp x y k = flags (x == y) true (ltb (x % 16) (y % 16)) (ltb x y)

-- The correction of a sum or a difference of decimal digits.
abbrev pub correction : ℕ → Flags → ℕ
correction x fs =
    (if fs.hf || (not fs.nf && ltb 9 (x % 16)) then 0x06 else 0)
    + (if fs.cf || (not fs.nf && ltb 0x99 x) then 0x60 else 0)

-- What an adjustment of `x` in A leaves in A, and its flags.
abbrev pub adjusted : Adjustment → ℕ → Flags → ℕ
adjusted rlca x fs = (x * 2 + x / 128) % 256
adjusted rrca x fs = x / 2 + x % 2 * 128
adjusted rla x fs = (x * 2 + to_ℕ fs.cf) % 256
adjusted rra x fs = x / 2 + to_ℕ fs.cf * 128
adjusted daa x fs = (if fs.nf then x + 256 - correction x fs else x + correction x fs) % 256
adjusted cpl x fs = 255 - x
adjusted scf x fs = x
adjusted ccf x fs = x

abbrev pub adjusted_flags : Adjustment → ℕ → Flags → Flags
adjusted_flags rlca x fs = flags false false false (ltb 127 x)
adjusted_flags rrca x fs = flags false false false (x % 2 == 1)
adjusted_flags rla x fs = flags false false false (ltb 127 x)
adjusted_flags rra x fs = flags false false false (x % 2 == 1)
adjusted_flags daa x fs =
    flags (adjusted daa x fs == 0) fs.nf false (fs.cf || (not fs.nf && ltb 0x99 x))
adjusted_flags cpl x fs = flags fs.zf true true fs.cf
adjusted_flags scf x fs = flags fs.zf false false true
adjusted_flags ccf x fs = flags fs.zf false false (not fs.cf)

abbrev pub adjust_a : Adjustment → State → State
adjust_a f s =
    let x = s.value a in record (put a (adjusted f x s.fs) s) { fs = adjusted_flags f x s.fs }

abbrev pub operate_on : Operation → ℕ → State → State
operate_on f y s =
    let x = s.value a in
    let k = to_ℕ s.fs.cf in record (put a (result f x y k) s) { fs = result_flags f x y k }

abbrev pub step : Op → State → State
step nop s = s
step (adjust f) s = adjust_a f s
step (load to from) s = put to (s.value from) s
step (load_byte to n) s = put to n s
step (increment r) s =
    let v = (s.value r + 1) % 256 in
    record (put r v s) { fs = flags (v == 0) false (s.value r % 16 == 15) s.fs.cf }
step (decrement r) s =
    let v = (s.value r + 255) % 256 in
    record (put r v s) { fs = flags (v == 0) true (s.value r % 16 == 0) s.fs.cf }
step (operate f r) s = operate_on f (s.value r) s
step (operate_byte f n) s = operate_on f n s

unfoldable pub run : List Op → State → State
run [] s = s
run (op ∷ ops) s = run ops (step op s)
