-- ===== src/Chunk/Proto.antt =====
-- internal/bytecode/proto.go: a compiled function, the functions nested in it, and their debug
-- information. Strings are lists of bytes.
use luart.Prelude.{ℕ, suc, max, Bool, List, [], ◌∷◌}
use luart.Prelude.Int.{ℤ}

abbrev pub Bytes : Type 0
Bytes = List ℕ

-- A constant. A float is the number that its 64 bits make.
pub data Constant : Type 0 where
  nil : Constant
  boolean : Bool → Constant
  number : ℕ → Constant
  integer : ℤ → Constant
  text : Bytes → Constant

pub record LocalVariable : Type 0 where
  pub name : Bytes
  pub start_pc : ℤ
  pub end_pc : ℤ

pub record UpValueDesc : Type 0 where
  pub name : Bytes
  pub is_local : Bool
  pub index : ℕ

-- A Proto's fields but its nested functions and its source. Code and VarArgKind are the numbers
-- that the instructions and the kind stand for.
pub record Body : Type 0 where
  pub constants : List Constant
  pub code : List ℕ
  pub line_info : List ℤ
  pub local_variables : List LocalVariable
  pub up_values : List UpValueDesc
  pub line_defined : ℤ
  pub last_line_defined : ℤ
  pub parameter_count : ℕ
  pub max_stack_size : ℕ
  pub is_vararg : Bool
  pub vararg_kind : ℕ

-- S is what is known of the source: a string, or while loading a string with a mark.
mutual
  pub data Proto (S : Type 0) : Type 0 where
    proto : Body → Protos S → S → Proto S

  pub data Protos (S : Type 0) : Type 0 where
    done : Protos S
    more : Proto S → Protos S → Protos S

unfoldable pub count_protos : {S : Type 0} → Protos S → ℕ
count_protos done = 0
count_protos (more p ps) = suc (count_protos ps)

unfoldable pub to_protos : {S : Type 0} → List (Proto S) → Protos S
to_protos [] = done
to_protos (p ∷ ps) = more p (to_protos ps)

-- How deep functions are nested.
unfoldable mutual
  pub depth : {S : Type 0} → Proto S → ℕ
  depth (proto body ps source) = suc (depth_protos ps)

  pub depth_protos : {S : Type 0} → Protos S → ℕ
  depth_protos done = 0
  depth_protos (more p ps) = max (depth p) (depth_protos ps)
