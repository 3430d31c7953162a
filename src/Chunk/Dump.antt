-- ===== src/Chunk/Dump.antt =====
-- internal/chunk/dump.go: writing a function as a binary chunk. The writer is a parameter:
-- `write_error` says, of what has been written and the bytes to write, whether Write fails.
use luart.Prelude.{
  ℕ, suc, ◌+◌, ◌*◌, ◌%◌, Bool, true, false, List, [], ◌∷◌, ◌++◌, Option, some, none, if◌then◌else◌,
  bit_or, length, ◌==◌, ◌&&◌,
}
use luart.Prelude.Int.{ℤ, pos}
use luart.Prelude.Word64.{to_u64}
use luart.Chunk.Proto.{
  Bytes, Constant, nil, boolean, number, integer, text, LocalVariable, UpValueDesc, Body, Proto,
  Protos, proto, done, more, count_protos,
}
use luart.Chunk.Format.{
  Platform, to_bytes, to_u32, tag_nil, tag_boolean, tag_number, tag_integer, tag_string,
  pointer_size, reuse_bit, header,
}

-- The map `strings` from a string to its index is the list of its keys in the order of the
-- indices, which are given out one after the other.
pub record DumpState : Type 0 where
  pub out : Bytes
  pub err : Option ℕ
  pub strings : List Bytes

unfoldable pub same_bytes : Bytes → Bytes → Bool
same_bytes [] [] = true
same_bytes [] (y ∷ ys) = false
same_bytes (x ∷ xs) [] = false
same_bytes (x ∷ xs) (y ∷ ys) = x == y && same_bytes xs ys

-- `d.strings[s]`, counting from i.
unfoldable pub index_of : Bytes → List Bytes → ℕ → Option ℕ
unfolding same_bytes
index_of s [] i = none
index_of s (t ∷ ts) i = if same_bytes s t then some i else index_of s ts (suc i)

module _ (platform : Platform) (write_error : Bytes → Bytes → Option ℕ) (strip : Bool) where
  abbrev pub Writes : Type 0
  Writes = DumpState → DumpState

  -- One statement after the other.
  infixl 6 ◌then_◌
  abbrev pub ◌then_◌ : Writes → Writes → Writes
  (f then_ g) d = g (f d)

  -- A write that fails is taken to put nothing out, where the writer may have taken a part.
  unfoldable pub write : Bytes → Writes
  write bs d = elim d.err [
    | some e ↦ d
    | none ↦ elim (write_error d.out bs) [
      | some e ↦ record d { err = some e }
      | none ↦ record d { out = d.out ++ bs }
    ]
  ]

  unfoldable pub write_int : ℤ → Writes
  write_int i = write (to_bytes platform 4 (to_u32 i))

  unfoldable pub write_count : ℕ → Writes
  write_count n = write_int (pos n)

  unfoldable pub write_byte : ℕ → Writes
  write_byte b = write (b % 256 ∷ [])

  unfoldable pub write_bool : Bool → Writes
  write_bool true = write_byte 1
  write_bool false = write_byte 0

  -- A loop over a list.
  unfoldable pub write_all : {A : Type 0} → (A → Writes) → List A → Writes
  write_all f [] d = d
  write_all f (x ∷ xs) d = write_all f xs (f x d)

  -- The elements of a slice of fixed-size values, in one write.
  unfoldable pub concat_bytes : {A : Type 0} → (A → Bytes) → List A → Bytes
  concat_bytes f [] = []
  concat_bytes f (x ∷ xs) = f x ++ concat_bytes f xs

  unfoldable pub write_code : Body → Writes
  write_code p = write_count (length p.code) then_ write (concat_bytes (to_bytes platform 4) p.code)

  unfoldable pub write_size : ℕ → Writes
  write_size n = write (to_bytes platform (pointer_size platform) n)

  unfoldable pub write_absent : Writes
  write_absent = write_size 0

  unfoldable pub new_string : Bytes → Writes
  new_string s d = record d { strings = d.strings ++ s ∷ [] }

  unfoldable pub write_string : Bytes → Writes
  write_string s d = elim (index_of s d.strings 0) [
    | some i ↦ write_size (bit_or (reuse_bit platform) i) d
    | none ↦ (new_string s then_ write_size (length s + 1) then_ write s then_ write_byte 0) d
  ]

  unfoldable pub write_constant : Constant → Writes
  write_constant nil = write_byte tag_nil
  write_constant (boolean b) = write_byte tag_boolean then_ write_bool b
  write_constant (number f) = write_byte tag_number then_ write (to_bytes platform 8 f)
  write_constant (integer i) = write_byte tag_integer then_ write (to_bytes platform 8 (to_u64 i))
  write_constant (text s) = write_byte tag_string then_ write_string s

  unfoldable pub write_constants : Body → Writes
  write_constants p = write_count (length p.constants) then_ write_all write_constant p.constants

  unfoldable pub write_up_value : UpValueDesc → Writes
  write_up_value u = write_bool u.is_local then_ write_byte u.index

  unfoldable pub write_up_values : Body → Writes
  write_up_values p = write_count (length p.up_values) then_ write_all write_up_value p.up_values

  unfoldable pub write_local_variable : LocalVariable → Writes
  write_local_variable v = write_string v.name then_ write_int v.start_pc then_ write_int v.end_pc

  unfoldable pub write_local_variables : Body → Writes
  write_local_variables p =
      write_count (length p.local_variables) then_ write_all write_local_variable p.local_variables

  abbrev pub same_source : Option Bytes → Bytes → Bool
  same_source none s = false
  same_source (some parent) s = same_bytes s parent

  unfoldable pub write_source : Bytes → Option Bytes → Writes
  write_source source parent =
      if same_source parent source then write_absent else write_string source

  unfoldable pub write_debug : Body → Bytes → Option Bytes → Writes
  write_debug p source parent =
      if strip
      then write_absent then_ write_count 0 then_ write_count 0 then_ write_count 0
      else write_source source parent
        then_ write_count (length p.line_info)
        then_ write (concat_bytes (λ i. to_bytes platform 4 (to_u32 i)) p.line_info)
        then_ write_local_variables p
        then_ write_count (length p.up_values)
        then_ write_all (λ (u : UpValueDesc). write_string u.name) p.up_values

  -- `byte(p.VarArgKind) << 1`, with bit 0 set for a vararg function.
  unfoldable pub vararg_byte : Body → ℕ
  vararg_byte p = let b = p.vararg_kind % 256 * 2 % 256 in if p.is_vararg then bit_or b 1 else b

  -- What dumpFunction writes before and after the nested functions.
  unfoldable pub write_front : Body → Writes
  write_front p =
      write_int p.line_defined
      then_ write_int p.last_line_defined
      then_ write_byte (p.parameter_count % 256)
      then_ write_byte (vararg_byte p)
      then_ write_byte (p.max_stack_size % 256)
      then_ write_code p
      then_ write_constants p

  unfoldable mutual
    pub dump_function : Proto Bytes → Option Bytes → Writes
    dump_function (proto p ps source) parent =
        write_front p
        then_ write_count (count_protos ps)
        then_ dump_protos ps source
        then_ write_up_values p
        then_ write_debug p source parent

    pub dump_protos : Protos Bytes → Bytes → Writes
    dump_protos done source d = d
    dump_protos (more o os) source d = dump_protos os source (dump_function o (some source) d)

  abbrev pub empty_dump : DumpState
  empty_dump = record { out = []; err = none; strings = [] }

  unfoldable pub dump : Proto Bytes → DumpState
  unfolding write write_int write_count write_byte write_bool write_all concat_bytes write_code
      write_size write_absent new_string write_string write_constant write_constants write_up_value
      write_up_values write_local_variable write_local_variables write_source write_debug
      vararg_byte write_front dump_function index_of same_bytes
  dump p = (write (header platform) then_ dump_function p none) empty_dump
