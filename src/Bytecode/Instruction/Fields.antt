-- ===== src/Bytecode/Instruction/Fields.antt =====
-- Reading and setting the fields of an instruction word.
use luart.Prelude.{ℕ, ◌+◌, ◌-◌, ◌*◌, ◌/◌, ◌%◌, ◌^◌, ◌≤◌, ◌<◌, ◌≡◌, ap, ◌∙◌, arith, bit_and, bit_or}
use luart.Prelude.Bits.{bit_and_mask, bit_and_field, bit_and_clear, bit_or_insert}
use luart.Prelude.Int.{ℤ, pos, negsuc, ◌+ℤ◌, ◌≤ℤ◌, sub_ℕ}
use luart.Bytecode.Instruction.{
  to_word, shl, op_code, set_arg, set_op_code, arg_a, arg_b, arg_c, arg_bx, arg_ax, arg_sbx, set_a,
  set_b, set_c, set_bx, set_ax, set_sbx, max_arg_sbx,
}

abbrev pub IsWord : ℕ → Type 0
IsWord i = i < 2 ^ 32

-- What each accessor reads, in plain arithmetic.
pub op_code_lem : (i : ℕ) → op_code i ≡ i % 2 ^ 6
unfolding op_code
op_code_lem i = omega (arith, bit_and_mask 6 (i / 2 ^ 0))

pub arg_a_lem : (i : ℕ) → arg_a i ≡ i / 2 ^ 6 % 2 ^ 8
unfolding arg_a
arg_a_lem i = bit_and_mask 8 (i / 2 ^ 6)

pub arg_b_lem : (i : ℕ) → arg_b i ≡ i / 2 ^ 23 % 2 ^ 9
unfolding arg_b
arg_b_lem i = bit_and_mask 9 (i / 2 ^ 23)

pub arg_c_lem : (i : ℕ) → arg_c i ≡ i / 2 ^ 14 % 2 ^ 9
unfolding arg_c
arg_c_lem i = bit_and_mask 9 (i / 2 ^ 14)

pub arg_bx_lem : (i : ℕ) → arg_bx i ≡ i / 2 ^ 14 % 2 ^ 18
unfolding arg_bx
arg_bx_lem i = bit_and_mask 18 (i / 2 ^ 14)

pub arg_ax_lem : (i : ℕ) → arg_ax i ≡ i / 2 ^ 6 % 2 ^ 26
unfolding arg_ax
arg_ax_lem i = bit_and_mask 26 (i / 2 ^ 6)

pub arg_sbx_lem : (i : ℕ) → arg_sbx i ≡ sub_ℕ (i / 2 ^ 14 % 2 ^ 18) 131071
unfolding arg_sbx
arg_sbx_lem i = ap (λ (t : ℕ). sub_ℕ t 131071) (bit_and_mask 18 (i / 2 ^ 14))

-- `setArg` over the n bits from bit p on, with w = 32 - p - n bits above them.
set_field :
    (p q n w i u : ℕ)
    → 2 ^ p ≤ 2 ^ q
    → i / 2 ^ q < 2 ^ w
    → u / 2 ^ p % 2 ^ n * 2 ^ p < 2 ^ q
    → i % 2 ^ q % 2 ^ p < 2 ^ p
    → bit_or (bit_and i (2 ^ p - 1 + (2 ^ w - 1) * 2 ^ q)) (bit_and u ((2 ^ n - 1) * 2 ^ p))
      ≡ i % 2 ^ q % 2 ^ p + u / 2 ^ p % 2 ^ n * 2 ^ p + i / 2 ^ q * 2 ^ q
set_field p q n w i u hp hi hu lo =
    ap (λ (t : ℕ). bit_or t (bit_and u ((2 ^ n - 1) * 2 ^ p))) (bit_and_clear p q w i hp hi)
    ∙ ap (bit_or (i % 2 ^ q % 2 ^ p + i / 2 ^ q * 2 ^ q)) (bit_and_field p n u)
    ∙ bit_or_insert p q (i % 2 ^ q % 2 ^ p) (u / 2 ^ p % 2 ^ n) (i / 2 ^ q) lo hp hu

set_a_lem :
    (i : ℕ) (z : ℤ)
    → IsWord i
    → set_a i z ≡ i % 2 ^ 6 + to_word z % 2 ^ 8 * 2 ^ 6 + i / 2 ^ 14 * 2 ^ 14
unfolding set_a set_arg
set_a_lem i z h =
    set_field 6 14 8 18 i (shl (to_word z) 6) (omega arith) (omega arith) (omega arith)
      (omega arith)
    ∙ omega arith

set_c_lem :
    (i : ℕ) (z : ℤ)
    → IsWord i
    → set_c i z ≡ i % 2 ^ 14 + to_word z % 2 ^ 9 * 2 ^ 14 + i / 2 ^ 23 * 2 ^ 23
unfolding set_c set_arg
set_c_lem i z h =
    set_field 14 23 9 9 i (shl (to_word z) 14) (omega arith) (omega arith) (omega arith)
      (omega arith)
    ∙ omega arith

set_b_lem :
    (i : ℕ) (z : ℤ)
    → IsWord i
    → set_b i z ≡ i % 2 ^ 23 + to_word z % 2 ^ 9 * 2 ^ 23 + i / 2 ^ 32 * 2 ^ 32
unfolding set_b set_arg
set_b_lem i z h =
    set_field 23 32 9 0 i (shl (to_word z) 23) (omega arith) (omega arith) (omega arith)
      (omega arith)
    ∙ omega arith

set_bx_lem :
    (i : ℕ) (z : ℤ)
    → IsWord i
    → set_bx i z ≡ i % 2 ^ 14 + to_word z % 2 ^ 18 * 2 ^ 14 + i / 2 ^ 32 * 2 ^ 32
unfolding set_bx set_arg
set_bx_lem i z h =
    set_field 14 32 18 0 i (shl (to_word z) 14) (omega arith) (omega arith) (omega arith)
      (omega arith)
    ∙ omega arith

set_ax_lem :
    (i : ℕ) (z : ℤ)
    → IsWord i
    → set_ax i z ≡ i % 2 ^ 6 + to_word z % 2 ^ 26 * 2 ^ 6 + i / 2 ^ 32 * 2 ^ 32
unfolding set_ax set_arg
set_ax_lem i z h =
    set_field 6 32 26 0 i (shl (to_word z) 6) (omega arith) (omega arith) (omega arith)
      (omega arith)
    ∙ omega arith

set_op_code_lem : (i op : ℕ) → IsWord i → set_op_code i op ≡ op % 2 ^ 6 + i / 2 ^ 6 * 2 ^ 6
unfolding set_op_code set_arg
set_op_code_lem i op h =
    set_field 0 6 6 26 i (shl (to_word (pos op)) 0) (omega arith) (omega arith) (omega arith)
      (omega arith)
    ∙ omega arith

-- The four fields of an instruction of mode ABC.
pub record Fields : Type 0 where
  pub op : ℕ
  pub a : ℕ
  pub b : ℕ
  pub c : ℕ

unfoldable pub fields : ℕ → Fields
fields i = record { op = op_code i; a = arg_a i; b = arg_b i; c = arg_c i }

-- The fields of modes ABx and Ax.
pub record FieldsAbx : Type 0 where
  pub op : ℕ
  pub a : ℕ
  pub bx : ℕ

unfoldable pub fields_abx : ℕ → FieldsAbx
fields_abx i = record { op = op_code i; a = arg_a i; bx = arg_bx i }

pub record FieldsAx : Type 0 where
  pub op : ℕ
  pub ax : ℕ

unfoldable pub fields_ax : ℕ → FieldsAx
fields_ax i = record { op = op_code i; ax = arg_ax i }

ruleset readers = (arith, op_code_lem, arg_a_lem, arg_b_lem, arg_c_lem, arg_bx_lem, arg_ax_lem)

pub Fields-eq : (f g : Fields) → (f.op ≡ g.op) × (f.a ≡ g.a) × (f.b ≡ g.b) × (f.c ≡ g.c) → f ≡ g
Fields-eq f g e = ground arith

FieldsAbx-eq : (f g : FieldsAbx) → (f.op ≡ g.op) × (f.a ≡ g.a) × (f.bx ≡ g.bx) → f ≡ g
FieldsAbx-eq f g e = ground arith

FieldsAx-eq : (f g : FieldsAx) → (f.op ≡ g.op) × (f.ax ≡ g.ax) → f ≡ g
FieldsAx-eq f g e = ground arith

-- On a 32-bit word SetOpCode, SetA, SetB and SetC write their argument, cut to the width of the field,
-- and leave the other three fields of mode ABC as they are. So does SetBx with the opcode and A of
-- mode ABx, and SetAx with the opcode of mode Ax. The result of each is a 32-bit word.
pub set_fields :
    (i op : ℕ) (z : ℤ)
    → IsWord i
    → (fields (set_op_code i op) ≡ record (fields i) { op = op % 2 ^ 6 })
      × (fields (set_a i z) ≡ record (fields i) { a = to_word z % 2 ^ 8 })
      × (fields (set_b i z) ≡ record (fields i) { b = to_word z % 2 ^ 9 })
      × (fields (set_c i z) ≡ record (fields i) { c = to_word z % 2 ^ 9 })
      × (fields_abx (set_bx i z) ≡ record (fields_abx i) { bx = to_word z % 2 ^ 18 })
      × (fields_ax (set_ax i z) ≡ record (fields_ax i) { ax = to_word z % 2 ^ 26 })
      × IsWord (set_op_code i op)
      × IsWord (set_a i z)
      × IsWord (set_b i z)
      × IsWord (set_c i z)
      × IsWord (set_bx i z)
      × IsWord (set_ax i z)
unfolding fields fields_abx fields_ax
set_fields i op z h = (
  Fields-eq _ _ (omega (readers, set_op_code_lem i op h)),
  Fields-eq _ _ (omega (readers, set_a_lem i z h)),
  Fields-eq _ _ (omega (readers, set_b_lem i z h)),
  Fields-eq _ _ (omega (readers, set_c_lem i z h)),
  FieldsAbx-eq _ _ (omega (readers, set_bx_lem i z h)),
  FieldsAx-eq _ _ (omega (readers, set_ax_lem i z h)),
  omega (arith, set_op_code_lem i op h),
  omega (arith, set_a_lem i z h),
  omega (arith, set_b_lem i z h),
  omega (arith, set_c_lem i z h),
  omega (arith, set_bx_lem i z h),
  omega (arith, set_ax_lem i z h),
)

biased :
    (z : ℤ)
    → negsuc (max_arg_sbx - 1) ≤ℤ z
    → z ≤ℤ pos (max_arg_sbx + 1)
    → sub_ℕ (to_word (z +ℤ pos max_arg_sbx) % 2 ^ 18) max_arg_sbx ≡ z
unfolding ◌+ℤ◌
biased z lo hi = ground arith

-- The signed operand of a jump: what `SetSBx` writes `SBx` reads back, over the whole range of the
-- field, and the opcode and field A stay.
pub set_sbx-sbx :
    (i : ℕ) (z : ℤ)
    → IsWord i
    → negsuc (max_arg_sbx - 1) ≤ℤ z
    → z ≤ℤ pos (max_arg_sbx + 1)
    → (arg_sbx (set_sbx i z) ≡ z)
      × (op_code (set_sbx i z) ≡ op_code i)
      × (arg_a (set_sbx i z) ≡ arg_a i)
unfolding set_sbx set_arg set_bx
set_sbx-sbx i z h lo hi =
    let u = z +ℤ pos max_arg_sbx in
    let e = set_bx_lem i u h in
    let bx : set_bx i u / 2 ^ 14 % 2 ^ 18 ≡ to_word u % 2 ^ 18 = omega (arith, e) in
    (
      arg_sbx_lem (set_bx i u) ∙ ap (λ (t : ℕ). sub_ℕ t max_arg_sbx) bx ∙ biased z lo hi,
      omega (readers, e),
      omega (readers, e),
    )
