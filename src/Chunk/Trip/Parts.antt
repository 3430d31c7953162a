-- ===== src/Chunk/Trip/Parts.antt =====
-- The trips of a function's parts: its constants, upvalues, local variables and code.
use luart.Prelude.{
  ℕ, ◌%◌, ◌^◌, ◌<◌, ◌≡◌, ◌∙◌, ap, ap₂, sym, refl, arith, Bool, true, false, not, [], ◌∷◌, Option,
  none, length, map, map-id, All, All-map, ◌==◌, Bool-cases, inl, inr,
}
use luart.Prelude.Int.{ℤ}
use luart.Prelude.Word64.{IsInt64, to_u64, of_u64, to_u64-lt, of_u64-to_u64}
use mathlib.Core.Path.{subst}
use luart.Chunk.Proto.{
  Bytes, Constant, nil, boolean, number, integer, text, LocalVariable, UpValueDesc, Body,
}
use luart.Chunk.Format.{Platform, order, of_le, to_bytes, of_bytes, to_u32, of_u32, byte_of_bool}
use luart.Chunk.Format.Words.{IsInt32, length-to_bytes, of_bytes-to_bytes, of_u32-to_u32, to_u32-lt}
use luart.Chunk.Dump
use luart.Chunk.Dump.{DumpState}
use luart.Chunk.Load
use luart.Chunk.Load.{ok, ◌>>=◌, return, Reads, read_n}
use luart.Chunk.Trip.{Wrote, W, return-Trip, then-Trip, map-Trip, weaken-Trip}
use luart.Chunk.Trip.Values.{
  write_lem, write-write, byte-Trip, bool-Trip, int-Trip, word-Trip, count-Trip, write,
}
use luart.Chunk.Trip.Strings.{CanWrite, string-Trip}
use luart.Chunk.Trip.Lists.{Goes, write_all-Trip, list-Trip, write_all-write}

module _ (platform : Platform) (write_error : Bytes → Bytes → Option ℕ)
    (accepts : (out bs : Bytes) → write_error out bs ≡ none) (strip : Bool)
    (ending : Option ℕ) where
  -- What fits in a chunk.
  abbrev Fits : Bytes → Type 0
  Fits = CanWrite platform write_error accepts strip ending

  abbrev G : {A : Type 0} → W platform → Reads A → A → Type 0
  G = Goes platform write_error accepts strip ending

  byte :
      (b : ℕ)
      → b < 256
      → G (Dump.write_byte platform write_error strip b) (Load.read_byte platform ending) b
  byte = byte-Trip platform write_error accepts strip ending

  word :
      (n : ℕ)
      → n < 256 ^ 8
      → G
          (write platform write_error accepts strip ending (to_bytes platform 8 n))
          (Load.read_word platform ending 8)
          n
  word n h =
      weaken-Trip platform (word-Trip platform write_error accepts strip ending 8 n h) (omega arith)

  int :
      (z : ℤ)
      → IsInt32 z
      → G (Dump.write_int platform write_error strip z) (Load.read_int platform ending) z
  int z h =
      weaken-Trip platform (int-Trip platform write_error accepts strip ending z h) (omega arith)

  abbrev pub ConstantFits : Constant → Type 0
  ConstantFits nil = Unit {0}
  ConstantFits (boolean b) = Unit {0}
  ConstantFits (number f) = f < 2 ^ 64
  ConstantFits (integer i) = IsInt64 i
  ConstantFits (text s) = Fits s

  pub constant-Trip :
      (c : Constant)
      → ConstantFits c
      → G (Dump.write_constant platform write_error strip c) (Load.read_constant platform ending) c
  unfolding Dump.write_constant Load.read_constant
  constant-Trip nil h =
      then-Trip platform (Load.constant_of_tag platform ending) (byte 0 (omega arith))
        (return-Trip platform nil)
  constant-Trip (boolean b) h =
      then-Trip platform (Load.constant_of_tag platform ending) (byte 1 (omega arith))
        (map-Trip platform boolean (bool-Trip platform write_error accepts strip ending b) refl)
  constant-Trip (number f) h =
      then-Trip platform (Load.constant_of_tag platform ending) (byte 3 (omega arith))
        (map-Trip platform number (word f (omega arith)) refl)
  constant-Trip (integer i) h =
      then-Trip platform (Load.constant_of_tag platform ending) (byte 0x13 (omega arith)) (
        map-Trip platform (λ u. integer (of_u64 u)) (word (to_u64 i) (omega (arith, to_u64-lt i)))
          (ap integer (of_u64-to_u64 i h)))
  constant-Trip (text s) h =
      then-Trip platform (Load.constant_of_tag platform ending) (byte 4 (omega arith))
        (map-Trip platform text (string-Trip platform write_error accepts strip ending s h) refl)

  abbrev pub LocalFits : LocalVariable → Type 0
  LocalFits v = Fits v.name × IsInt32 v.start_pc × IsInt32 v.end_pc

  pub local-Trip :
      (v : LocalVariable)
      → LocalFits v
      → G
          (Dump.write_local_variable platform write_error strip v)
          (Load.read_local_variable platform ending)
          v
  unfolding Dump.write_local_variable Load.read_local_variable
  local-Trip v (h, start, end) =
      then-Trip platform
        (λ name. Load.read_int platform ending >>= λ start. Load.read_int platform ending >>= λ end.
          return (record { name = name; start_pc = start; end_pc = end }))
        (string-Trip platform write_error accepts strip ending v.name h)
        (then-Trip platform
          (λ start. Load.read_int platform ending >>= λ end.
            return (record { name = v.name; start_pc = start; end_pc = end }))
          (int v.start_pc start)
          (map-Trip platform (λ end. record { name = v.name; start_pc = v.start_pc; end_pc = end })
            (int v.end_pc end) refl))

  -- An upvalue is written without its name.
  abbrev pub unnamed : UpValueDesc → UpValueDesc
  unnamed u = record u { name = [] }

  abbrev pub UpValueFits : UpValueDesc → Type 0
  UpValueFits u = u.index < 256

  up_value_bytes : UpValueDesc → Bytes
  up_value_bytes u = byte_of_bool u.is_local % 256 ∷ u.index % 256 ∷ []

  write_up_value_lem :
      (u : UpValueDesc) (d : DumpState)
      → d.err ≡ none
      → Dump.write_up_value platform write_error strip u d
        ≡ write platform write_error accepts strip ending (up_value_bytes u) d
  unfolding Dump.write_up_value Dump.write_bool Dump.write_byte up_value_bytes
  write_up_value_lem u d e = elim (Bool-cases u.is_local) [
    | inl f ↦ rw f (one (1 % 256))
    | inr f ↦ rw f (one (0 % 256))
  ]
    where
      one :
          (b : ℕ)
          → write platform write_error accepts strip ending
              (u.index % 256 ∷ [])
              (write platform write_error accepts strip ending (b ∷ []) d)
            ≡ write platform write_error accepts strip ending (b ∷ u.index % 256 ∷ []) d
      one b =
          write-write platform write_error accepts strip ending (b ∷ []) (u.index % 256 ∷ []) d e
          ∙ sym (write_lem platform write_error accepts strip ending (b ∷ u.index % 256 ∷ []) d e)

  of_bytes-one : (b : ℕ) → of_bytes platform (b ∷ []) ≡ b
  unfolding of_bytes order of_le
  of_bytes-one b = elim (Bool-cases platform.little) [
    | inl e ↦ rw e (omega arith)
    | inr e ↦ rw e (omega arith)
  ]

  up_value_of-bytes :
      (u : UpValueDesc)
      → UpValueFits u
      → Load.up_value_of platform ending (up_value_bytes u) ≡ unnamed u
  unfolding up_value_bytes
  up_value_of-bytes u h =
      ap₂ (λ (b : Bool) (i : ℕ). record { name = []; is_local = b; index = i })
        (ap (λ (n : ℕ). not (n == 0)) (of_bytes-one (byte_of_bool u.is_local % 256))
          ∙ local u.is_local)
        (of_bytes-one (u.index % 256) ∙ omega (arith, h))
    where
      local : (b : Bool) → not (byte_of_bool b % 256 == 0) ≡ b
      local true = refl
      local false = refl

  pub up_values-Trip :
      (p : Body)
      → length p.up_values < 2 ^ 31
      → All UpValueFits p.up_values
      → G
          (Dump.write_up_values platform write_error strip p)
          (Load.read_up_values platform ending)
          (map unnamed p.up_values)
  unfolding Dump.write_up_values Load.read_up_values up_value_bytes
  up_values-Trip p few fit d e =
      subst
        (λ d'.
          Wrote platform 0 d d'
            (Load.read_list platform ending 2 (Load.up_value_of platform ending))
            (map unnamed p.up_values))
        (sym (
          write_all-write platform write_error accepts strip ending
            (Dump.write_up_value platform write_error strip) up_value_bytes write_up_value_lem
            p.up_values (Dump.write_count platform write_error strip (length p.up_values) d)
            (count-Trip platform write_error accepts strip ending (length p.up_values) few d
              e).no_err))
        (list-Trip platform write_error accepts strip ending up_value_bytes
          (Load.up_value_of platform ending) unnamed 2 (λ u. refl) p.up_values few
          (All-map up_value_of-bytes p.up_values fit) d e)

  pub code-Trip :
      (p : Body)
      → length p.code < 2 ^ 31
      → All (λ (i : ℕ). i < 2 ^ 32) p.code
      → G
          (Dump.write_code platform write_error strip p)
          (Load.read_list platform ending 4 (of_bytes platform))
          p.code
  unfolding Dump.write_code
  code-Trip p few fit =
      subst
        (λ xs.
          G (Dump.write_code platform write_error strip p)
            (Load.read_list platform ending 4 (of_bytes platform)) xs)
        (map-id p.code)
        (list-Trip platform write_error accepts strip ending (to_bytes platform 4)
          (of_bytes platform) (λ i. i) 4 (length-to_bytes platform 4) p.code few
          (All-map (λ i h. of_bytes-to_bytes platform 4 i (omega (arith, h))) p.code fit))

  pub lines-Trip :
      (p : Body)
      → length p.line_info < 2 ^ 31
      → All IsInt32 p.line_info
      → G
          (λ d.
            write platform write_error accepts strip ending
              (Dump.concat_bytes platform write_error strip
                (λ i. to_bytes platform 4 (to_u32 i))
                p.line_info)
              (Dump.write_count platform write_error strip (length p.line_info) d))
          (Load.read_list platform ending 4 (λ bs. of_u32 (of_bytes platform bs)))
          p.line_info
  lines-Trip p few fit =
      subst
        (λ xs.
          G
            (λ d.
              write platform write_error accepts strip ending
                (Dump.concat_bytes platform write_error strip (λ i. to_bytes platform 4 (to_u32 i))
                  p.line_info)
                (Dump.write_count platform write_error strip (length p.line_info) d))
            (Load.read_list platform ending 4 (λ bs. of_u32 (of_bytes platform bs))) xs)
        (map-id p.line_info)
        (list-Trip platform write_error accepts strip ending (λ i. to_bytes platform 4 (to_u32 i))
          (λ bs. of_u32 (of_bytes platform bs)) (λ i. i) 4
          (λ i. length-to_bytes platform 4 (to_u32 i)) p.line_info few
          (All-map
            (λ i h.
              ap of_u32 (of_bytes-to_bytes platform 4 (to_u32 i) (to_u32-lt i)) ∙ of_u32-to_u32 i h)
            p.line_info fit))

  pub constants-Trip :
      (p : Body)
      → length p.constants < 2 ^ 31
      → All ConstantFits p.constants
      → G
          (Dump.write_constants platform write_error strip p)
          (Load.read_constants platform ending)
          p.constants
  unfolding Dump.write_constants Load.read_constants
  constants-Trip p few fit =
      then-Trip platform (λ n. read_n n (Load.read_constant platform ending))
        (count-Trip platform write_error accepts strip ending (length p.constants) few)
        (write_all-Trip platform write_error accepts strip ending
          (Dump.write_constant platform write_error strip) (Load.read_constant platform ending)
          p.constants (All-map constant-Trip p.constants fit))

  pub locals-Trip :
      (p : Body)
      → length p.local_variables < 2 ^ 31
      → All LocalFits p.local_variables
      → G
          (Dump.write_local_variables platform write_error strip p)
          (Load.read_local_variables platform ending)
          p.local_variables
  unfolding Dump.write_local_variables Load.read_local_variables
  locals-Trip p few fit =
      then-Trip platform (λ n. read_n n (Load.read_local_variable platform ending))
        (count-Trip platform write_error accepts strip ending (length p.local_variables) few)
        (write_all-Trip platform write_error accepts strip ending
          (Dump.write_local_variable platform write_error strip)
          (Load.read_local_variable platform ending) p.local_variables
          (All-map local-Trip p.local_variables fit))
