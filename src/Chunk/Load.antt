-- ===== src/Chunk/Load.antt =====
-- internal/chunk/load.go: reading a binary chunk. The reader is a parameter: the bytes that it
-- gives, and whether it then ends (io.EOF) or fails with an error of its own.
use luart.Prelude.{
  ℕ, zero, suc, ◌-◌, ◌*◌, ◌/◌, ◌^◌, Bool, true, false, not, List, [], ◌∷◌, ◌++◌, Option, some, none,
  if◌then◌else◌, bit_and, length, ◌==◌, ◌&&◌, ltb, min, take, drop, get_elem?,
}
use luart.Prelude.Int.{ℤ, pos, negsuc}
use luart.Prelude.Word64.{of_u64}
use luart.Chunk.Proto.{
  Bytes, Constant, nil, boolean, number, integer, text, LocalVariable, UpValueDesc, Proto, Protos,
  proto, done, more, to_protos,
}
use luart.Chunk.Format.{
  Platform, of_bytes, of_u32, tag_nil, tag_boolean, tag_number, tag_integer, tag_string,
  pointer_size, reuse_bit, header, signature, tail_mark,
}
use luart.Chunk.Dump.{same_bytes}

pub data LoadError : Type 0 where
  eof unexpected_eof truncated not_precompiled version_mismatch incompatible corrupted : LoadError
  io : ℕ → LoadError

-- The reader's remaining bytes, and the fields `absent` and `strings`.
pub record LoadState : Type 0 where
  pub input : Bytes
  pub absent : Bool
  pub strings : List Bytes

-- `stuck` is no result of the code: the model's fuel ran out.
pub data Result {ℓ} (A : Type ℓ) : Type ℓ where
  ok : A → LoadState → Result A
  err : LoadError → Result A
  stuck : Result A

abbrev pub Reads {ℓ} : Type ℓ → Type ℓ
Reads A = LoadState → Result A

infixl 5 ◌>>=◌
abbrev pub ◌>>=◌ {ℓ κ} : {A : Type ℓ} {B : Type κ} → Reads A → (A → Reads B) → Reads B
◌>>=◌ m f s = elim (m s) [ ok a s' ↦ f a s' | err e ↦ err e | stuck ↦ stuck ]

abbrev pub return {ℓ} : {A : Type ℓ} → A → Reads A
return a s = ok a s

abbrev pub fail {ℓ} : {A : Type ℓ} → LoadError → Reads A
fail e s = err e

-- The first n bytes and the others, if there are so many.
unfoldable pub split_at : ℕ → Bytes → Option (Bytes × Bytes)
split_at zero bs = some ([], bs)
split_at (suc n) [] = none
split_at (suc n) (b ∷ bs) = elim (split_at n bs) [
  | none ↦ none
  | some (front, rest) ↦ some (b ∷ front, rest)
]

-- A loop of n rounds that collects what each reads.
unfoldable pub read_n {ℓ} : {A : Type ℓ} → ℕ → Reads A → Reads (List A)
read_n zero r = return []
read_n (suc n) r = do x ← r; xs ← read_n n r; return (x ∷ xs)

-- `batchSize`: a list is read this many elements at a time.
unfoldable pub batch_size : ℕ
batch_size = 4096

module _ (platform : Platform) (ending : Option ℕ) where
  -- The error of a read that wants more bytes than there are, where it got none or some of them.
  abbrev pub short_read : Bytes → LoadError
  short_read input = elim ending [
    | some e ↦ io e
    | none ↦ elim input [ [] ↦ eof | _ ↦ unexpected_eof ]
  ]

  -- io.CopyN reports io.EOF.
  abbrev pub short_copy : LoadError
  short_copy = elim ending [ some e ↦ io e | none ↦ eof ]

  unfoldable pub read_bytes : ℕ → Reads Bytes
  unfolding split_at
  read_bytes n s = elim (split_at n s.input) [
    | none ↦ err (short_read s.input)
    | some (front, rest) ↦ ok front (record s { input = rest })
  ]

  unfoldable pub copy_bytes : ℕ → Reads Bytes
  unfolding split_at
  copy_bytes n s = elim (split_at n s.input) [
    | none ↦ err short_copy
    | some (front, rest) ↦ ok front (record s { input = rest })
  ]

  -- A value of k bytes.
  unfoldable pub read_word : ℕ → Reads ℕ
  read_word k = do bs ← read_bytes k; return (of_bytes platform bs)

  unfoldable pub read_int : Reads ℤ
  read_int = do n ← read_word 4; return (of_u32 n)

  unfoldable pub read_count : Reads ℕ
  read_count = do i ← read_int; elim i [ pos n ↦ return n | negsuc n ↦ fail corrupted ]

  unfoldable pub read_byte : Reads ℕ
  read_byte = read_word 1

  unfoldable pub read_bool : Reads Bool
  read_bool = do b ← read_byte; return (not (b == 0))

  abbrev pub set_absent : Bool → Reads (Unit {0})
  set_absent b s = ok tt (record s { absent = b })

  -- A string read before, by its index.
  unfoldable pub reused_string : ℕ → Reads Bytes
  reused_string i s = elim (get_elem? s.strings i) [ none ↦ err corrupted | some t ↦ ok t s ]

  abbrev pub add_string : Bytes → Reads Bytes
  add_string t s = ok t (record s { strings = s.strings ++ t ∷ [] })

  unfoldable pub fresh_string : ℕ → Reads Bytes
  fresh_string size = do bs ← copy_bytes size; add_string (take (size - 1) bs)

  abbrev pub sized_string : ℕ → Reads Bytes
  sized_string size =
      if size == 0
      then return []
      else if not (bit_and size (reuse_bit platform) == 0)
      then reused_string (bit_and size (2 ^ 64 - 1 - reuse_bit platform))
      else if ltb (2 ^ 62) size
      then fail corrupted
      else fresh_string size

  unfoldable pub read_string : Reads Bytes
  read_string = do
    size ← read_word (pointer_size platform)
    _ ← set_absent (size == 0)
    sized_string size

  -- The n elements of `size` bytes each that a batch of bytes holds.
  unfoldable pub elements {ℓ} : {A : Type ℓ} → ℕ → (Bytes → A) → ℕ → Bytes → List A
  elements zero f size bs = []
  elements (suc n) f size bs = f (take size bs) ∷ elements n f size (drop size bs)

  -- The loop of readList, with n elements to go. A round reads one element at least, so n rounds
  -- are enough.
  unfoldable pub read_batches {ℓ} : {A : Type ℓ} → ℕ → ℕ → (Bytes → A) → ℕ → Reads (List A)
  read_batches fuel zero f size = return []
  read_batches zero (suc n) f size = λ s. stuck
  read_batches (suc fuel) (suc n) f size = do
    let k = min (suc n) batch_size
    bs ← read_bytes (k * size)
    xs ← read_batches fuel (suc n - k) f size
    return (elements k f size bs ++ xs)

  unfoldable pub read_list {ℓ} : {A : Type ℓ} → ℕ → (Bytes → A) → Reads (List A)
  read_list size f = do n ← read_count; read_batches n n f size

  abbrev pub up_value_of : Bytes → UpValueDesc
  up_value_of bs = record {
    name = [];
    is_local = not (of_bytes platform (take 1 bs) == 0);
    index = of_bytes platform (drop 1 bs);
  }

  unfoldable pub read_up_values : Reads (List UpValueDesc)
  read_up_values = read_list 2 up_value_of

  unfoldable pub read_local_variable : Reads LocalVariable
  read_local_variable = do
    name ← read_string
    start ← read_int
    end ← read_int
    return (record { name = name; start_pc = start; end_pc = end })

  unfoldable pub read_local_variables : Reads (List LocalVariable)
  read_local_variables = do n ← read_count; read_n n read_local_variable

  abbrev pub constant_of_tag : ℕ → Reads Constant
  constant_of_tag t =
      if t == tag_nil
      then return nil
      else if t == tag_boolean
      then (do b ← read_bool; return (boolean b))
      else if t == tag_number
      then (do f ← read_word 8; return (number f))
      else if t == tag_integer
      then (do i ← read_word 8; return (integer (of_u64 i)))
      else if t == tag_string
      then (do s ← read_string; return (text s))
      else fail corrupted

  unfoldable pub read_constant : Reads Constant
  read_constant = do t ← read_byte; constant_of_tag t

  unfoldable pub read_constants : Reads (List Constant)
  read_constants = do n ← read_count; read_n n read_constant

  -- The names of the first upvalues; the others keep theirs.
  unfoldable pub name_up_values : List Bytes → List UpValueDesc → List UpValueDesc
  name_up_values [] us = us
  name_up_values (s ∷ ss) [] = []
  name_up_values (s ∷ ss) (u ∷ us) = record u { name = s } ∷ name_up_values ss us

  -- The source, and whether the function is put in `noSource`.
  abbrev pub Source : Type 0
  Source = Bytes × Bool

  abbrev pub is_empty : Bytes → Bool
  is_empty [] = true
  is_empty (b ∷ bs) = false

  unfoldable pub read_source : Reads Source
  read_source = do source ← read_string; λ s. ok (source, is_empty source && s.absent) s

  -- The source, the line numbers, the local variables and the upvalues with their names.
  abbrev pub Debug : Type 0
  Debug = Source × List ℤ × List LocalVariable × List UpValueDesc

  abbrev pub read_names : List UpValueDesc → ℕ → Reads (List UpValueDesc)
  read_names us n =
      if ltb (length us) n
      then fail corrupted
      else (do ss ← read_n n read_string; return (name_up_values ss us))

  unfoldable pub read_debug : List UpValueDesc → Reads Debug
  read_debug us = do
    source ← read_source
    lines ← read_list 4 (λ bs. of_u32 (of_bytes platform bs))
    locals ← read_local_variables
    n ← read_count
    us' ← read_names us n
    return (source, lines, locals, us')

  -- What readFunction reads before the nested functions.
  abbrev pub Front : Type 0
  Front = ℤ × ℤ × ℕ × ℕ × ℕ × List ℕ × List Constant

  unfoldable pub read_front : Reads Front
  read_front = do
    line ← read_int
    last ← read_int
    parameters ← read_byte
    vararg ← read_byte
    stack ← read_byte
    code ← read_list 4 (of_bytes platform)
    constants ← read_constants
    return (line, last, parameters, vararg, stack, code, constants)

  abbrev pub assemble : Front → Protos Source → Debug → Proto Source
  assemble (line, last, parameters, vararg, stack, code, constants) ps (source, lines, locals, us) =
      proto
        (record {
          constants = constants;
          code = code;
          line_info = lines;
          local_variables = locals;
          up_values = us;
          line_defined = line;
          last_line_defined = last;
          parameter_count = parameters;
          max_stack_size = stack;
          is_vararg = not (bit_and vararg 1 == 0);
          vararg_kind = vararg / 2;
        })
        ps source

  -- Nested functions are read by the same function, one level further down: the fuel is the number
  -- of levels allowed. A function takes bytes before its nested ones, so the length of the
  -- input is enough.
  unfoldable pub read_function : ℕ → Reads (Proto Source)
  read_function zero = λ s. stuck
  read_function (suc fuel) = do
    front ← read_front
    n ← read_count
    ps ← read_n n (read_function fuel)
    us ← read_up_values
    debug ← read_debug us
    return (assemble front (to_protos ps) debug)

  unfoldable mutual
    pub inherit_sources : Proto Source → Bytes → Proto Bytes
    inherit_sources (proto body ps (source, marked)) parent =
        let source' = if marked then parent else source in
        proto body (inherit_all ps source') source'

    pub inherit_all : Protos Source → Bytes → Protos Bytes
    inherit_all done parent = done
    inherit_all (more p ps) parent = more (inherit_sources p parent) (inherit_all ps parent)

  abbrev pub test_header : Bytes → Reads (Unit {0})
  test_header h =
      if same_bytes h (header platform)
      then return tt
      else if not (same_bytes (take 4 h) signature)
      then fail not_precompiled
      else if not (same_bytes (take 2 (drop 4 h)) (take 2 (drop 4 (header platform))))
      then fail version_mismatch
      else if not (same_bytes (drop 12 h) tail_mark)
      then fail corrupted
      else fail incompatible

  unfoldable pub check_header : Reads (Unit {0})
  check_header = do h ← read_bytes 18; test_header h

  -- The result of Load: the function, an error, or `stuck`.
  pub data Loaded : Type 0 where
    loaded : Proto Bytes → Loaded
    load_error : LoadError → Loaded
    load_stuck : Loaded

  abbrev pub unnamed : Bytes
  unnamed = b'=' ∷ b'?' ∷ []

  abbrev pub report : LoadError → LoadError
  report eof = truncated
  report unexpected_eof = truncated
  report e = e

  abbrev pub finish_load : Result (Proto Source) → Loaded
  finish_load (ok p s) = loaded (inherit_sources p unnamed)
  finish_load (err e) = load_error (report e)
  finish_load stuck = load_stuck

  unfoldable pub load : Bytes → Loaded
  unfolding read_bytes copy_bytes read_word read_int read_count read_byte read_bool reused_string
      fresh_string read_string elements read_batches read_list read_up_values read_local_variable
      read_local_variables read_constant read_constants name_up_values read_source read_debug
      read_front read_function inherit_sources check_header same_bytes read_n batch_size
  load bytes = finish_load (
      (check_header >>= λ _. read_function (length bytes))
        (record { input = bytes; absent = false; strings = [] }))
