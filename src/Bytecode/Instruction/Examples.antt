-- ===== src/Bytecode/Instruction/Examples.antt =====
-- Concrete instruction words, and the theorems of `Instruction` at them.
use luart.Prelude.{ℕ, ◌+◌, ◌*◌, ◌^◌, ◌<◌, ◌≡◌, refl, arith, true, false}
use luart.Prelude.Int.{pos, negsuc}
use luart.Bytecode.Instruction.{
  op_code, arg_a, arg_b, arg_c, arg_bx, arg_ax, arg_sbx, set_op_code, set_a, set_b, set_c, set_bx,
  set_ax, set_sbx, create_abc, create_abx, create_ax, is_constant, constant_index, as_constant,
  to_word,
}
use luart.Bytecode.Instruction.Fields.{
  IsWord, fields, fields_abx, fields_ax, set_fields, set_sbx-sbx,
}
use luart.Bytecode.Instruction.Create.{fields-create, create-fields, constant-as_constant}

-- ADD 1 2 K(3): opcode 13.
abbrev add_word : ℕ
add_word = 13 + 1 * 2 ^ 6 + 259 * 2 ^ 14 + 2 * 2 ^ 23

create_add : create_abc 13 (pos 1) (pos 2) (pos 259) ≡ add_word
unfolding create_abc
create_add = refl

-- A negative argument is cut to its low bits, as the Go conversion does.
set_a_negative : arg_a (set_a add_word (negsuc 0)) ≡ 255
unfolding arg_a set_a luart.Bytecode.Instruction.set_arg
set_a_negative = refl

set_fields_example :
    (fields (set_op_code add_word 77) ≡ record (fields add_word) { op = 13 })
    × (fields (set_a add_word (pos 300)) ≡ record (fields add_word) { a = 44 })
    × (fields (set_b add_word (pos 300)) ≡ record (fields add_word) { b = 300 })
    × (fields (set_c add_word (pos 300)) ≡ record (fields add_word) { c = 300 })
    × (fields_abx (set_bx add_word (pos 300)) ≡ record (fields_abx add_word) { bx = 300 })
    × (fields_ax (set_ax add_word (pos 300)) ≡ record (fields_ax add_word) { ax = 300 })
    × IsWord (set_op_code add_word 77)
    × IsWord (set_a add_word (pos 300))
    × IsWord (set_b add_word (pos 300))
    × IsWord (set_c add_word (pos 300))
    × IsWord (set_bx add_word (pos 300))
    × IsWord (set_ax add_word (pos 300))
set_fields_example = set_fields add_word 77 (pos 300) (omega arith)

set_sbx-sbx_example :
    (arg_sbx (set_sbx add_word (negsuc 4)) ≡ negsuc 4)
    × (op_code (set_sbx add_word (negsuc 4)) ≡ op_code add_word)
    × (arg_a (set_sbx add_word (negsuc 4)) ≡ arg_a add_word)
set_sbx-sbx_example = set_sbx-sbx add_word (negsuc 4) (omega arith) (omega arith) (omega arith)

fields-create_example :
    (fields (create_abc 13 (pos 1) (pos 2) (pos 259)) ≡ record { op = 13; a = 1; b = 2; c = 259 })
    × IsWord (create_abc 13 (pos 1) (pos 2) (pos 259))
    × (op_code (create_abx 13 (pos 1) (pos 70000)) ≡ 13)
    × (arg_a (create_abx 13 (pos 1) (pos 70000)) ≡ 1)
    × (arg_bx (create_abx 13 (pos 1) (pos 70000)) ≡ 70000)
    × (op_code (create_ax 13 (pos 60000000)) ≡ 13)
    × (arg_ax (create_ax 13 (pos 60000000)) ≡ 60000000)
fields-create_example =
    fields-create 13 1 2 259 70000 60000000 (omega arith) (omega arith) (omega arith) (omega arith)
      (omega arith) (omega arith)

create-fields_example :
    create_abc
      (op_code add_word)
      (pos (arg_a add_word))
      (pos (arg_b add_word))
      (pos (arg_c add_word))
    ≡ add_word
create-fields_example = create-fields add_word (omega arith)

constant-as_constant_example :
    (constant_index (as_constant 3) ≡ 3)
    × (is_constant (as_constant 3) ≡ true)
    × (is_constant 3 ≡ false)
    × (as_constant 3 < 2 ^ 9)
constant-as_constant_example = constant-as_constant 3 (omega arith)
