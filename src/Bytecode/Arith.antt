-- ===== src/Bytecode/Arith.antt =====
-- internal/bytecode/number.go: Lua's arithmetic on integers, which wraps around, with division and
-- modulo rounded toward minus infinity, and the choice between integers and floats.
-- Floats and the functions of Go's math package are a parameter.
mod Division
mod Bitwise
mod Kinds
mod Examples
use luart.Prelude.{
  ℕ, zero, suc, ◌+◌, ◌-◌, ◌*◌, ◌/◌, ◌%◌, ◌^◌, ◌≤◌, ◌<◌, Bool, true, false, not, ◌&&◌, ◌||◌, ◌==◌,
  ltb, leb, if◌then◌else◌, Option, some, none, bit_and, bit_or, bit_xor,
}
use luart.Prelude.Int.{
  ℤ, pos, negsuc, ◌+ℤ◌, ◌-ℤ◌, ◌*ℤ◌, ltb_ℤ, leb_ℤ, eqb_ℤ, pos_part, neg_part, sub_ℕ,
}
use luart.Prelude.Word64.{IsInt64, to_u64, of_u64, wrap, neg_ℤ}

pub data ArithOp : Type 0 where
  add sub mul modulo pow div idiv band bor bxor shl shr unm bnot : ArithOp

pub data ArithError : Type 0 where
  div_zero mod_zero no_integer : ArithError

unfoldable pub is_bitwise : ArithOp → Bool
is_bitwise band = true
is_bitwise bor = true
is_bitwise bxor = true
is_bitwise shl = true
is_bitwise shr = true
is_bitwise bnot = true
is_bitwise _ = false

unfoldable pub is_unary : ArithOp → Bool
is_unary unm = true
is_unary bnot = true
is_unary _ = false

-- Go's `/` and `%` on integers: the quotient is cut toward zero, and the remainder has the sign of
-- the dividend.
abbrev magnitude : ℤ → ℕ
magnitude z = pos_part z + neg_part z

abbrev is_negative : ℤ → Bool
is_negative (pos n) = false
is_negative (negsuc n) = true

abbrev differ : Bool → Bool → Bool
differ true b = not b
differ false b = b

abbrev quot : ℤ → ℤ → ℤ
quot a b =
    if differ (is_negative a) (is_negative b)
    then sub_ℕ 0 (magnitude a / magnitude b)
    else pos (magnitude a / magnitude b)

abbrev rem : ℤ → ℤ → ℤ
rem a b =
    if is_negative a then sub_ℕ 0 (magnitude a % magnitude b) else pos (magnitude a % magnitude b)

-- `(a < 0) != (b < 0)` compares the signs.
unfoldable pub int_floor_div : ℤ → ℤ → ℤ
unfolding ◌-ℤ◌
int_floor_div a b =
    if eqb_ℤ b (negsuc 0)
    then wrap (neg_ℤ a)
    else if not (eqb_ℤ (rem a b) (pos 0)) && differ (ltb_ℤ a (pos 0)) (ltb_ℤ b (pos 0))
    then wrap (quot a b -ℤ pos 1)
    else quot a b

-- `(m ^ b) < 0` tests whether the sign bits differ.
unfoldable pub int_mod : ℤ → ℤ → ℤ
unfolding ◌+ℤ◌
int_mod a b =
    if eqb_ℤ b (negsuc 0)
    then pos 0
    else if not (eqb_ℤ (rem a b) (pos 0)) && differ (is_negative (rem a b)) (is_negative b)
    then wrap (rem a b +ℤ b)
    else rem a b

-- `none` is the panic on another operator.
unfoldable pub int_arith : ArithOp → ℤ → ℤ → Option ℤ
int_arith add a b = some (wrap (a +ℤ b))
int_arith sub a b = some (wrap (a -ℤ b))
int_arith mul a b = some (wrap (a *ℤ b))
int_arith idiv a b = some (int_floor_div a b)
int_arith modulo a b = some (int_mod a b)
int_arith unm a b = some (wrap (neg_ℤ a))
int_arith _ a b = none

-- The shift amounts are in the range of an int64, so `-b` of the least one is itself.
unfoldable pub shift_left : ℤ → ℤ → ℤ
shift_left a n =
    if leb_ℤ n (negsuc 63) || leb_ℤ (pos 64) n
    then pos 0
    else if leb_ℤ (pos 0) n
    then of_u64 (to_u64 a * 2 ^ pos_part n % 2 ^ 64)
    else of_u64 (to_u64 a / 2 ^ neg_part n)

unfoldable pub int_bitwise : ArithOp → ℤ → ℤ → Option ℤ
int_bitwise band a b = some (of_u64 (bit_and (to_u64 a) (to_u64 b)))
int_bitwise bor a b = some (of_u64 (bit_or (to_u64 a) (to_u64 b)))
int_bitwise bxor a b = some (of_u64 (bit_xor (to_u64 a) (to_u64 b)))
int_bitwise shl a b = some (shift_left a b)
int_bitwise shr a b = some (shift_left a (wrap (neg_ℤ b)))
int_bitwise bnot a b = some (of_u64 (2 ^ 64 - 1 - to_u64 a))
int_bitwise _ a b = none

-- Go's float64, the operators on it and what the code takes from package math. `trunc` is the
-- conversion int64(f), `pow10` the table of powers of ten.
pub record Floats : Type 1 where
  pub F : Type 0
  pub of_int : ℤ → F
  pub trunc : F → ℤ
  pub zero_f : F
  pub min_int : F
  pub past_max_int : F
  pub ten : F
  pub lt_f : F → F → Bool
  pub le_f : F → F → Bool
  pub eq_f : F → F → Bool
  pub add_f : F → F → F
  pub sub_f : F → F → F
  pub mul_f : F → F → F
  pub div_f : F → F → F
  pub neg_f : F → F
  pub floor_f : F → F
  pub trunc_f : F → F
  pub mod_f : F → F → F
  pub pow_f : F → F → F
  pub pow10_min : F
  pub pow10_max : F
  pub pow10 : ℤ → F

module _ (floats : Floats) where
  open floats use {
    F, of_int, trunc, zero_f, min_int, past_max_int, ten, lt_f, le_f, eq_f, add_f, sub_f, mul_f,
    div_f, neg_f, floor_f, trunc_f, mod_f, pow_f, pow10_min, pow10_max, pow10,
  }

  -- A Number is an integer or a float.
  pub data Number : Type 0 where
    int : ℤ → Number
    float : F → Number

  -- A result, an error code, or a panic.
  pub data ArithResult : Type 0 where
    ok : Number → ArithResult
    err : ArithError → ArithResult
    panic : ArithResult

  unfoldable pub to_float : Number → F
  to_float (int i) = of_int i
  to_float (float f) = f

  unfoldable pub float_to_integer : F → Option ℤ
  float_to_integer f =
      if le_f min_int f && lt_f f past_max_int && eq_f (of_int (trunc f)) f
      then some (trunc f)
      else none

  unfoldable pub to_integer : Number → Option ℤ
  unfolding float_to_integer
  to_integer (int i) = some i
  to_integer (float f) = float_to_integer f

  unfoldable pub float_mod : F → F → F
  float_mod a b =
      let m = mod_f a b in
      if (lt_f zero_f m && lt_f b zero_f) || (lt_f m zero_f && not (eq_f b m) && lt_f zero_f b)
      then add_f m b
      else m

  -- `pow10` is indexed by the exponent here, and from minPow10 on in the code.
  unfoldable pub power : F → F → F
  power a b =
      if eq_f a ten && le_f pow10_min b && le_f b pow10_max && eq_f (trunc_f b) b
      then pow10 (trunc b)
      else pow_f a b

  unfoldable pub float_arith : ArithOp → F → F → Option F
  unfolding float_mod power
  float_arith add a b = some (add_f a b)
  float_arith sub a b = some (sub_f a b)
  float_arith mul a b = some (mul_f a b)
  float_arith div a b = some (div_f a b)
  float_arith modulo a b = some (float_mod a b)
  float_arith idiv a b = some (floor_f (div_f a b))
  float_arith pow a b = some (power a b)
  float_arith unm a b = some (neg_f a)
  float_arith _ a b = none

  abbrev integer_result : Option ℤ → ArithResult
  integer_result (some i) = ok (int i)
  integer_result none = panic

  abbrev float_result : Option F → ArithResult
  float_result (some f) = ok (float f)
  float_result none = panic

  abbrev is_div_or_pow : ArithOp → Bool
  is_div_or_pow div = true
  is_div_or_pow pow = true
  is_div_or_pow _ = false

  abbrev second_operand : ArithOp → Option ℤ → Option ℤ
  second_operand bnot y = some (pos 0)
  second_operand _ y = y

  abbrev bitwise_on : ArithOp → Option ℤ → Option ℤ → ArithResult
  bitwise_on op (some x) (some y) = integer_result (int_bitwise op x y)
  bitwise_on op _ _ = err no_integer

  -- The arithmetic of two integers, which tests for a zero divisor first.
  abbrev integers_on : ArithOp → ℤ → ℤ → ArithResult
  integers_on idiv a b =
      if eqb_ℤ b (pos 0) then err div_zero else integer_result (int_arith idiv a b)
  integers_on modulo a b =
      if eqb_ℤ b (pos 0) then err mod_zero else integer_result (int_arith modulo a b)
  integers_on op a b = integer_result (int_arith op a b)

  abbrev is_unm : ArithOp → Bool
  is_unm unm = true
  is_unm _ = false

  abbrev arithmetic_on : ArithOp → Number → Number → ArithResult
  arithmetic_on op (int a) (int b) =
      if is_div_or_pow op
      then float_result (float_arith op (of_int a) (of_int b))
      else integers_on op a b
  arithmetic_on op (int a) (float b) =
      if is_unm op
      then integer_result (int_arith op a (pos 0))
      else float_result (float_arith op (of_int a) b)
  arithmetic_on op (float a) b = float_result (float_arith op a (to_float b))

  -- For a unary operator `b` is ignored.
  pub arith_op : ArithOp → Number → Number → ArithResult
  unfolding is_bitwise to_integer to_float int_bitwise int_arith float_arith
  arith_op op a b =
      if is_bitwise op
      then bitwise_on op (to_integer a) (second_operand op (to_integer b))
      else arithmetic_on op a b
