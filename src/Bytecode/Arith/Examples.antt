-- ===== src/Bytecode/Arith/Examples.antt =====
-- Concrete arithmetic, and the theorems of `Arith` at it.
use luart.Prelude.{
  ◌^◌, ◌-◌, ◌≡◌, ◌≢◌, ◌↔◌, refl, arith, true, false, some, if◌then◌else◌, ◌&&◌, ◌||◌,
}
use luart.Prelude.Int.{ℤ, pos, negsuc, ◌*ℤ◌, ◌+ℤ◌, ◌-ℤ◌, ltb_ℤ, leb_ℤ, eqb_ℤ}
use luart.Prelude.Word64.{IsInt64, wrap, neg_ℤ}
use luart.Bytecode.Arith
use luart.Bytecode.Arith.{
  int_floor_div, int_mod, shift_left, int_arith, int_bitwise, mul, shl, shr, idiv, modulo, Floats,
  div_zero, mod_zero, no_integer, is_bitwise,
}
use luart.Bytecode.Arith.Division.{IsFlooredDiv, floor_div-mod, floor_div_minus_one}
use luart.Bytecode.Arith.Bitwise.{bit, bit_of, int_bitwise-bit}
use luart.Bytecode.Arith.Kinds.{arith_op_errors, is_int, is_int_zero, has_integer}

-- -7 // 2 is -4, and -7 % 2 is 1.
floor_of_minus_seven : int_floor_div (negsuc 6) (pos 2) ≡ negsuc 3
unfolding int_floor_div wrap
floor_of_minus_seven = refl

mod_of_minus_seven : int_mod (negsuc 6) (pos 2) ≡ pos 1
unfolding int_mod wrap
mod_of_minus_seven = refl

multiplication_wraps : int_arith mul (pos (2 ^ 62)) (pos 2) ≡ some (negsuc (2 ^ 63 - 1))
unfolding int_arith wrap ◌*ℤ◌
multiplication_wraps = refl

-- -1 >> 60 is 15: no sign extension.
shift_is_logical : int_bitwise shr (negsuc 0) (pos 60) ≡ some (pos 15)
unfolding int_bitwise shift_left wrap neg_ℤ
shift_is_logical = refl

floor_div-mod_example :
    IsFlooredDiv (negsuc 6) (pos 2) (int_floor_div (negsuc 6) (pos 2)) (int_mod (negsuc 6) (pos 2))
floor_div-mod_example =
    floor_div-mod (negsuc 6) (pos 2) (omega arith) (omega arith) (λ e. ground arith)
      (λ e. ground arith)

floor_div_minus_one_example :
    (int_mod (negsuc (2 ^ 63 - 1)) (negsuc 0) ≡ pos 0)
    × (int_floor_div (negsuc (2 ^ 63 - 1)) (negsuc 0) ≡ (
        if eqb_ℤ (negsuc (2 ^ 63 - 1)) (negsuc (2 ^ 63 - 1))
        then negsuc (2 ^ 63 - 1)
        else neg_ℤ (negsuc (2 ^ 63 - 1))))
floor_div_minus_one_example = floor_div_minus_one (negsuc (2 ^ 63 - 1)) (omega arith)

int_bitwise-bit_example :
    (bit_of (int_bitwise shl (negsuc 4) (pos 40)) 41 ≡ some (bit (negsuc 4) (pos 41 -ℤ pos 40)))
    × (bit_of (int_bitwise shr (negsuc 4) (pos 40)) 41 ≡ some (bit (negsuc 4) (pos 41 +ℤ pos 40)))
    × IsInt64 (shift_left (negsuc 4) (pos 40))
int_bitwise-bit_example = int_bitwise-bit (negsuc 4) (pos 40) 41 (omega arith) (omega arith)

-- Floats that are integers.
abbrev whole_floats : Floats
whole_floats = record {
  F = ℤ;
  of_int = λ z. z;
  trunc = λ z. z;
  zero_f = pos 0;
  min_int = negsuc (2 ^ 63 - 1);
  past_max_int = pos (2 ^ 63);
  ten = pos 10;
  lt_f = ltb_ℤ;
  le_f = leb_ℤ;
  eq_f = eqb_ℤ;
  add_f = λ a b. a;
  sub_f = λ a b. a;
  mul_f = λ a b. a;
  div_f = λ a b. a;
  neg_f = λ a. a;
  floor_f = λ a. a;
  trunc_f = λ a. a;
  mod_f = λ a b. a;
  pow_f = λ a b. a;
  pow10_min = negsuc 322;
  pow10_max = pos 308;
  pow10 = λ z. z;
}

abbrev seven : Arith.Number whole_floats
seven = Arith.int (pos 7)

abbrev huge : Arith.Number whole_floats
huge = Arith.float (pos (2 ^ 70))

arith_op_errors_example :
    (Arith.arith_op whole_floats shr seven huge ≢ Arith.panic)
    × ((Arith.arith_op whole_floats shr seven huge ≡ Arith.err div_zero) ↔ (
        (shr ≡ idiv) × (is_int whole_floats seven ≡ true) × (is_int_zero whole_floats huge ≡ true)))
    × ((Arith.arith_op whole_floats shr seven huge ≡ Arith.err mod_zero) ↔ (
        (shr ≡ modulo)
        × (is_int whole_floats seven ≡ true)
        × (is_int_zero whole_floats huge ≡ true)))
    × ((Arith.arith_op whole_floats shr seven huge ≡ Arith.err no_integer) ↔ (
        (is_bitwise shr ≡ true)
        × ((has_integer whole_floats seven && (Arith.is_unary shr || has_integer whole_floats huge))
            ≡ false)))
arith_op_errors_example = arith_op_errors whole_floats shr seven huge
