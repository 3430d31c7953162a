-- ===== src/Bytecode/Arith/Kinds.antt =====
-- Which arithmetic fails, and how.
use luart.Prelude.{◌≡◌, ◌≢◌, Bool, true, false, arith, some, none, ◌↔◌, ◌&&◌, ◌||◌}
use luart.Prelude.Int.{pos, eqb_ℤ}
use luart.Bytecode.Arith.{
  ArithOp, add, sub, mul, modulo, pow, div, idiv, band, bor, bxor, shl, shr, unm, bnot, ArithError,
  div_zero, mod_zero, no_integer, Floats, is_bitwise, int_bitwise, int_arith, float_arith,
}
use luart.Bytecode.Arith

module _ (floats : Floats) where
  abbrev pub N : Type 0
  N = Arith.Number floats

  abbrev pub is_int_zero : N → Bool
  is_int_zero (Arith.int i) = eqb_ℤ i (pos 0)
  is_int_zero (Arith.float f) = false

  abbrev pub is_int : N → Bool
  is_int (Arith.int i) = true
  is_int (Arith.float f) = false

  abbrev pub has_integer : N → Bool
  has_integer x = elim (Arith.to_integer floats x) [ some i ↦ true | none ↦ false ]

  -- The arithmetic of Lua's numbers never panics, for any operator and operands. It fails with a
  -- division by zero exactly for // on integers with divisor 0, with a modulo by zero exactly
  -- for % on integers with divisor 0, and for the lack of an integer exactly for a bitwise operator
  -- with an operand, the second only where the operator is binary, that has no integer value.
  pub arith_op_errors :
      (op : ArithOp) (a b : N)
      → (Arith.arith_op floats op a b ≢ Arith.panic)
        × ((Arith.arith_op floats op a b ≡ Arith.err div_zero)
            ↔ ((op ≡ idiv) × (is_int a ≡ true) × (is_int_zero b ≡ true)))
        × ((Arith.arith_op floats op a b ≡ Arith.err mod_zero)
            ↔ ((op ≡ modulo) × (is_int a ≡ true) × (is_int_zero b ≡ true)))
        × ((Arith.arith_op floats op a b ≡ Arith.err no_integer) ↔ (
            (is_bitwise op ≡ true)
            × ((has_integer a && (Arith.is_unary op || has_integer b)) ≡ false)))
  unfolding Arith.arith_op Arith.is_unary
  arith_op_errors add (Arith.int a) (Arith.int b) = (
    ground arith,
    (ground arith, ground arith),
    (ground arith, ground arith),
    (ground arith, ground arith),
  )
  arith_op_errors _ _ _ = (
    ground arith,
    (ground arith, ground arith),
    (ground arith, ground arith),
    (ground arith, ground arith),
  )
