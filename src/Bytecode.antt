-- ===== src/Bytecode.antt =====
-- internal/bytecode: the virtual machine's instruction words, the mode table of its opcodes, the
-- floating point byte of NEWTABLE, and integer arithmetic.
pub mod Instruction
pub mod Float8
pub mod Arith
