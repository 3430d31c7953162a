-- ===== src/Bytecode/Instruction/Create.antt =====
-- Assembling an instruction word: `CreateABC`, `CreateABx` and `CreateAx` against the accessors,
-- and the constant bit of register-or-constant operands.
use luart.Prelude.{
  ℕ, ◌+◌, ◌-◌, ◌*◌, ◌%◌, ◌^◌, ◌≤◌, ◌<◌, ◌≡◌, ap, ap₂, ◌∙◌, arith, bit_and, bit_or, true, false,
}
use luart.Prelude.Bits.{bit_and_field, bit_and_clear, bit_or_insert, bit_or_add}
use luart.Prelude.Int.{pos}
use luart.Bytecode.Instruction.{
  op_code, arg_a, arg_bx, arg_ax, arg_b, arg_c, create_abc, create_abx, create_ax, is_constant,
  constant_index, as_constant, max_index_rk, bit_rk,
}
use luart.Bytecode.Instruction.Fields.{
  IsWord, fields, Fields-eq, op_code_lem, arg_a_lem, arg_b_lem, arg_c_lem, arg_bx_lem, arg_ax_lem,
}

ruleset readers = (arith, op_code_lem, arg_a_lem, arg_b_lem, arg_c_lem, arg_bx_lem, arg_ax_lem)

module _ (op a : ℕ) (hop : op < 2 ^ 6) (ha : a < 2 ^ 8) where
  op_a : bit_or (op * 2 ^ 0 % 2 ^ 32) (a % 2 ^ 32 * 2 ^ 6 % 2 ^ 32) ≡ op + a * 2 ^ 6
  op_a = ap₂ bit_or (omega arith) (omega arith) ∙ bit_or_add 6 op a hop

  create_abc_lem :
      (b c : ℕ)
      → b < 2 ^ 9
      → c < 2 ^ 9
      → create_abc op (pos a) (pos b) (pos c) ≡ op + a * 2 ^ 6 + c * 2 ^ 14 + b * 2 ^ 23
  unfolding create_abc
  create_abc_lem b c hb hc =
      let ab : bit_or (bit_or (op * 2 ^ 0 % 2 ^ 32) (a % 2 ^ 32 * 2 ^ 6 % 2 ^ 32))
            (b % 2 ^ 32 * 2 ^ 23 % 2 ^ 32)
          ≡ op + a * 2 ^ 6 + b * 2 ^ 23 =
        ap₂ bit_or op_a (omega arith) ∙ bit_or_add 23 (op + a * 2 ^ 6) b (omega arith) in
      ap₂ bit_or ab (omega arith)
      ∙ bit_or_insert 14 23 (op + a * 2 ^ 6) c b (omega arith) (omega arith) (omega arith)

  create_abx_lem :
      (bx : ℕ) → bx < 2 ^ 18 → create_abx op (pos a) (pos bx) ≡ op + a * 2 ^ 6 + bx * 2 ^ 14
  unfolding create_abx
  create_abx_lem bx hb =
      ap₂ bit_or op_a (omega arith) ∙ bit_or_add 14 (op + a * 2 ^ 6) bx (omega arith)

create_ax_lem : (op ax : ℕ) → op < 2 ^ 6 → ax < 2 ^ 26 → create_ax op (pos ax) ≡ op + ax * 2 ^ 6
unfolding create_ax
create_ax_lem op ax hop h = ap₂ bit_or (omega arith) (omega arith) ∙ bit_or_add 6 op ax hop

-- With operands that fit their fields, an assembled instruction is a 32-bit word, and the accessors
-- read back what it was made of: mode ABC all four fields, mode ABx the opcode, A and Bx, and mode
-- Ax the opcode and Ax.
pub fields-create :
    (op a b c bx ax : ℕ)
    → op < 2 ^ 6
    → a < 2 ^ 8
    → b < 2 ^ 9
    → c < 2 ^ 9
    → bx < 2 ^ 18
    → ax < 2 ^ 26
    → (fields (create_abc op (pos a) (pos b) (pos c)) ≡ record { op = op; a = a; b = b; c = c })
      × IsWord (create_abc op (pos a) (pos b) (pos c))
      × (op_code (create_abx op (pos a) (pos bx)) ≡ op)
      × (arg_a (create_abx op (pos a) (pos bx)) ≡ a)
      × (arg_bx (create_abx op (pos a) (pos bx)) ≡ bx)
      × (op_code (create_ax op (pos ax)) ≡ op)
      × (arg_ax (create_ax op (pos ax)) ≡ ax)
unfolding fields
fields-create op a b c bx ax hop ha hb hc hbx hax =
    let e = create_abc_lem op a hop ha b c hb hc in
    let e' = create_abx_lem op a hop ha bx hbx in
    let e'' = create_ax_lem op ax hop hax in
    (
      Fields-eq _ _ (omega (readers, e)),
      omega (arith, e),
      omega (readers, e'),
      omega (readers, e'),
      omega (readers, e'),
      omega (readers, e''),
      omega (readers, e''),
    )

-- Every 32-bit word is the instruction of mode ABC that is assembled from its own four fields.
pub create-fields :
    (i : ℕ) → IsWord i → create_abc (op_code i) (pos (arg_a i)) (pos (arg_b i)) (pos (arg_c i)) ≡ i
create-fields i h =
    create_abc_lem (op_code i) (arg_a i) (omega readers) (omega readers) (arg_b i) (arg_c i)
      (omega readers) (omega readers)
    ∙ omega readers

-- The index of a constant, up to the largest that fits an operand, is told from a register by its
-- top bit, and survives being marked and unmarked.
pub constant-as_constant :
    (r : ℕ)
    → r ≤ max_index_rk
    → (constant_index (as_constant r) ≡ r)
      × (is_constant (as_constant r) ≡ true)
      × (is_constant r ≡ false)
      × (as_constant r < 2 ^ 9)
unfolding constant_index as_constant is_constant
constant-as_constant r h =
    let e : bit_or r bit_rk ≡ r + 1 * 2 ^ 8 = bit_or_add 8 r 1 (omega arith) in
    (
      ap (λ (t : ℕ). bit_and t (2 ^ 64 - 1 - bit_rk)) e
          ∙ bit_and_clear 8 9 55 (r + 256) (omega arith) (omega arith)
          ∙ omega arith,
      ground (arith, e, bit_and_field 8 1 (bit_or r bit_rk)),
      ground (arith, bit_and_field 8 1 r),
      omega (arith, e),
    )
