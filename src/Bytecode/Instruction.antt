-- ===== src/Bytecode/Instruction.antt =====
-- internal/bytecode/instructions.go: an instruction is a 32-bit word with the fields
-- op (bits 0 to 5), A (6 to 13), C (14 to 22) and B (23 to 31), Bx over C and B, Ax over all three.
mod Fields
mod Create
mod Examples
use luart.Prelude.{ℕ, ◌+◌, ◌-◌, ◌*◌, ◌/◌, ◌%◌, ◌^◌, Bool, not, bit_and, bit_or, ◌==◌}
use luart.Prelude.Int.{ℤ, pos, negsuc, ◌+ℤ◌, sub_ℕ}

abbrev pub size_c : ℕ
size_c = 9

abbrev pub size_b : ℕ
size_b = 9

abbrev pub size_bx : ℕ
size_bx = size_c + size_b

abbrev pub size_a : ℕ
size_a = 8

abbrev pub size_ax : ℕ
size_ax = size_c + size_b + size_a

abbrev pub size_op : ℕ
size_op = 6

abbrev pub pos_op : ℕ
pos_op = 0

abbrev pub pos_a : ℕ
pos_a = pos_op + size_op

abbrev pub pos_c : ℕ
pos_c = pos_a + size_a

abbrev pub pos_b : ℕ
pos_b = pos_c + size_c

abbrev pub pos_bx : ℕ
pos_bx = pos_c

abbrev pub pos_ax : ℕ
pos_ax = pos_a

abbrev pub bit_rk : ℕ
bit_rk = 2 ^ (size_b - 1)

abbrev pub max_index_rk : ℕ
max_index_rk = bit_rk - 1

abbrev pub max_arg_ax : ℕ
max_arg_ax = 2 ^ size_ax - 1

abbrev pub max_arg_bx : ℕ
max_arg_bx = 2 ^ size_bx - 1

abbrev pub max_arg_sbx : ℕ
max_arg_sbx = max_arg_bx / 2

abbrev pub max_arg_a : ℕ
max_arg_a = 2 ^ size_a - 1

abbrev pub max_arg_b : ℕ
max_arg_b = 2 ^ size_b - 1

abbrev pub max_arg_c : ℕ
max_arg_c = 2 ^ size_c - 1

-- A word is a number below 2 ^ 32. `x << k`, `^x` and the conversion of an int (a Go conversion
-- keeps the low 32 bits of the two's complement).
abbrev shl : ℕ → ℕ → ℕ
shl x k = x * 2 ^ k % 2 ^ 32

abbrev complement : ℕ → ℕ
complement x = 2 ^ 32 - 1 - x

abbrev pub to_word : ℤ → ℕ
to_word (pos n) = n % 2 ^ 32
to_word (negsuc n) = 2 ^ 32 - 1 - n % 2 ^ 32

-- Operands of register-or-constant fields, which are not negative. `^BitRK` is that of a 64-bit int.
pub is_constant : ℕ → Bool
is_constant x = not (0 == bit_and x bit_rk)

pub constant_index : ℕ → ℕ
constant_index r = bit_and r (2 ^ 64 - 1 - bit_rk)

pub as_constant : ℕ → ℕ
as_constant r = bit_or r bit_rk

abbrev mask1 : ℕ → ℕ → ℕ
mask1 n p = shl (complement (shl (complement 0) n)) p

abbrev mask0 : ℕ → ℕ → ℕ
mask0 n p = complement (mask1 n p)

pub op_code : ℕ → ℕ
op_code i = bit_and (i / 2 ^ pos_op) (2 ^ size_op - 1)

arg : ℕ → ℕ → ℕ → ℕ
arg i p size = bit_and (i / 2 ^ p) (mask1 size 0)

pub set_arg : ℕ → ℕ → ℕ → ℤ → ℕ
set_arg i p size z = bit_or (bit_and i (mask0 size p)) (bit_and (shl (to_word z) p) (mask1 size p))

pub set_op_code : ℕ → ℕ → ℕ
set_op_code i op = set_arg i pos_op size_op (pos op)

pub arg_a : ℕ → ℕ
arg_a i = bit_and (i / 2 ^ pos_a) max_arg_a

pub arg_b : ℕ → ℕ
arg_b i = bit_and (i / 2 ^ pos_b) max_arg_b

pub arg_c : ℕ → ℕ
arg_c i = bit_and (i / 2 ^ pos_c) max_arg_c

pub arg_bx : ℕ → ℕ
arg_bx i = bit_and (i / 2 ^ pos_bx) max_arg_bx

pub arg_ax : ℕ → ℕ
arg_ax i = bit_and (i / 2 ^ pos_ax) max_arg_ax

pub arg_sbx : ℕ → ℤ
arg_sbx i = sub_ℕ (bit_and (i / 2 ^ pos_bx) max_arg_bx) max_arg_sbx

pub set_a : ℕ → ℤ → ℕ
set_a i z = set_arg i pos_a size_a z

pub set_b : ℕ → ℤ → ℕ
set_b i z = set_arg i pos_b size_b z

pub set_c : ℕ → ℤ → ℕ
set_c i z = set_arg i pos_c size_c z

pub set_bx : ℕ → ℤ → ℕ
set_bx i z = set_arg i pos_bx size_bx z

pub set_ax : ℕ → ℤ → ℕ
set_ax i z = set_arg i pos_ax size_ax z

pub set_sbx : ℕ → ℤ → ℕ
set_sbx i z = set_arg i pos_bx size_bx (z +ℤ pos max_arg_sbx)

pub create_abc : ℕ → ℤ → ℤ → ℤ → ℕ
create_abc op a b c =
    bit_or (bit_or (bit_or (shl op pos_op) (shl (to_word a) pos_a)) (shl (to_word b) pos_b))
      (shl (to_word c) pos_c)

pub create_abx : ℕ → ℤ → ℤ → ℕ
create_abx op a bx =
    bit_or (bit_or (shl op pos_op) (shl (to_word a) pos_a)) (shl (to_word bx) pos_bx)

pub create_ax : ℕ → ℤ → ℕ
create_ax op a = bit_or (shl op pos_op) (shl (to_word a) pos_ax)
