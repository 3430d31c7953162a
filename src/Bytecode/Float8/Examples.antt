-- ===== src/Bytecode/Float8/Examples.antt =====
-- Concrete sizes, and the theorems of `Float8` at them.
use luart.Prelude.{◌*◌, ◌≤◌, ◌<◌, ◌≡◌, refl, arith}
use luart.Bytecode.Float8.{
  float8_from_int, int_from_float8, float8_covers, float8_from_int-int_from_float8,
}

-- 100 is rounded up to 104, which is 13 * 2 ^ 3.
code_of_100 : float8_from_int 100 ≡ 37
unfolding float8_from_int
code_of_100 = refl

size_of_37 : int_from_float8 37 ≡ 104
unfolding int_from_float8
size_of_37 = refl

float8_covers_example :
    (float8_from_int 1000 < 256)
    × (1000 ≤ int_from_float8 (float8_from_int 1000))
    × (7 * int_from_float8 (float8_from_int 1000) ≤ 8 * 1000)
float8_covers_example = float8_covers 1000 (omega arith)

float8_from_int-int_from_float8_example : float8_from_int (int_from_float8 200) ≡ 200
float8_from_int-int_from_float8_example = float8_from_int-int_from_float8 200 (omega arith)
