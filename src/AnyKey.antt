-- ===== src/AnyKey.antt =====
-- lua/tables.go at keys of any kind: a read, a store, and tryPut, with normaliseKey and hashKey of
-- lua/types.go. The parts are Table for numbers and objects, and Shape for strings. A float is
-- known by its bits, and a value is a parameter, none being nil.
pub mod Hash
pub mod Places
pub mod Put
pub mod Free
pub mod Try
mod Examples
use luart.Prelude.{
  ℕ, suc, ◌*◌, Bool, true, false, List, Option, some, none, if◌then◌else◌, ◌&&◌, not,
}
use luart.Prelude.Int.{ℤ}
use luart.Chunk.Proto.{Bytes}
use luart.Table.{
  Table, Key, integer, other, in_array, array_at, array_set, lookup, delete, overwrite, has_key,
  is_nil, Heap, Outcome, add_or_insert_hash, put_at_int,
}
use luart.Shape.{Shapes}
use luart.Shape.Fields.{Fields, Shared, at_string, put_string, try_put_string}

pub data NumericKey : Type 0 where
  integer_number : ℤ → NumericKey
  float_number : ℕ → NumericKey

-- A key. An object is a value of any other kind, its pointer and payload as one number.
pub data AnyKey : Type 0 where
  nil_key : AnyKey
  text_key : Bytes → AnyKey
  number_key : NumericKey → AnyKey
  object_key : ℕ → AnyKey

abbrev pub hash_number : NumericKey → Key
hash_number (integer_number i) = integer i
hash_number (float_number x) = other (2 * x)

abbrev pub hash_object : ℕ → Key
hash_object n = other (suc (2 * n))

-- A table: its string keys, and its array and hash parts.
pub record Object (V : Type 0) : Type 0 where
  pub strings : Fields V
  pub table : Table V

pub data PutResult (V : Type 0) : Type 0 where
  put_done : Shared → Object V → PutResult V
  memory_thrown : PutResult V
  nil_index : PutResult V
  nan_index : PutResult V

module _ {V : Type 0} where
  -- An integer may be in the array part. All else is in the hash part.
  unfoldable pub at_key : Table V → Key → Option V
  unfolding lookup
  at_key t (integer i) =
      if in_array t.array i then array_at t.array i else lookup (integer i) t.hash
  at_key t (other b) = lookup (other b) t.hash

  unfoldable pub put_hash : ℕ → ℕ → Heap → Table V → Key → Option V → Outcome V
  unfolding delete add_or_insert_hash
  put_hash slot_bytes hash_entry_bytes heap t k v =
      if is_nil v
      then some (heap, record t { hash = delete k t.hash })
      else add_or_insert_hash slot_bytes hash_entry_bytes heap t k v

  -- A snapshot of the keys is dropped when the hash part gets an entry.
  abbrev pub still_walking : Bool → Key → Table V → Table V → Bool
  still_walking walking k t t' = walking && not (has_key k t'.hash && not (has_key k t.hash))

  abbrev pub with_table : Object V → Key → Table V → Object V
  with_table o k t = record {
    strings = record o.strings { walking = still_walking o.strings.walking k o.table t };
    table = t;
  }

  abbrev pub table_put : Shared → Object V → Key → Outcome V → PutResult V
  table_put sh o k none = memory_thrown
  table_put sh o k (some (heap, t)) = put_done (record sh { heap = heap }) (with_table o k t)

  -- A store in the hash part, to a key that has a value there.
  unfoldable pub try_hash : Table V → Key → Option V → Bool × Table V
  unfolding lookup delete overwrite
  try_hash t k v =
      if is_nil (lookup k t.hash)
      then (false, t)
      else (true, record t { hash = if is_nil v then delete k t.hash else overwrite k v t.hash })

  unfoldable pub try_key : Table V → Key → Option V → Bool × Table V
  unfolding try_hash
  try_key t (integer i) v =
      if in_array t.array i && not (is_nil (array_at t.array i))
      then (true, record t { array = array_set t.array i v })
      else try_hash t (integer i) v
  try_key t (other b) v = try_hash t (other b) v

  abbrev pub tried_table : Object V → Bool × Table V → Bool × Object V
  tried_table o (b, t) = (b, record o { table = t })

  abbrev pub string_put : Object V → Option (Shared × Fields V) → PutResult V
  string_put o none = memory_thrown
  string_put o (some (sh, f)) = put_done sh (record o { strings = f })

-- The integer that a float stands for, by its bits.
module _ (float_to_integer : ℕ → Option ℤ) where
  unfoldable pub normalise_key : NumericKey → NumericKey
  normalise_key (integer_number i) = integer_number i
  normalise_key (float_number x) = elim (float_to_integer x) [
    | none ↦ float_number x
    | some i ↦ integer_number i
  ]

  unfoldable pub at : {V : Type 0} → Shapes → Object V → AnyKey → Option V
  unfolding normalise_key at_key at_string
  at shapes o nil_key = none
  at shapes o (text_key s) = at_string shapes o.strings s
  at shapes o (number_key n) = at_key o.table (hash_number (normalise_key n))
  at shapes o (object_key n) = at_key o.table (hash_object n)

-- A store at a number that is normalised. An int holds every integer; is_nan is by a float's bits.
module _ (is_nan : ℕ → Bool) {V : Type 0} where
  unfoldable pub put_number : ℕ → ℕ → Shared → Object V → NumericKey → Option V → PutResult V
  unfolding put_at_int put_hash has_key
  put_number slot_bytes hash_entry_bytes sh o (integer_number i) v =
      table_put sh o (integer i) (put_at_int slot_bytes hash_entry_bytes sh.heap o.table i v)
  put_number slot_bytes hash_entry_bytes sh o (float_number x) v =
      let key = hash_number (float_number x) in
      if is_nan x
      then nan_index
      else table_put sh o key (put_hash slot_bytes hash_entry_bytes sh.heap o.table key v)

  unfoldable pub try_put_number : Object V → NumericKey → Option V → Bool × Object V
  unfolding try_key
  try_put_number o (integer_number i) v = tried_table o (try_key o.table (integer i) v)
  try_put_number o (float_number x) v =
      if is_nan x
      then (false, o)
      else tried_table o (try_key o.table (hash_number (float_number x)) v)

module _ (float_to_integer : ℕ → Option ℤ) (is_nan : ℕ → Bool) {V : Type 0} where
  unfoldable pub put : ℕ → ℕ → Shared → Object V → AnyKey → Option V → PutResult V
  unfolding normalise_key put_number put_hash has_key put_string
  put slot_bytes hash_entry_bytes sh o nil_key v = nil_index
  put slot_bytes hash_entry_bytes sh o (text_key s) v =
      string_put o (put_string slot_bytes sh o.strings s v)
  put slot_bytes hash_entry_bytes sh o (number_key n) v =
      put_number is_nan slot_bytes hash_entry_bytes sh o (normalise_key float_to_integer n) v
  put slot_bytes hash_entry_bytes sh o (object_key n) v =
      let key = hash_object n in
      table_put sh o key (put_hash slot_bytes hash_entry_bytes sh.heap o.table key v)

  -- A store to a key that has a value, and whether there is one.
  unfoldable pub try_put : Shapes → Object V → AnyKey → Option V → Bool × Object V
  unfolding normalise_key try_put_number try_key try_put_string
  try_put shapes o nil_key v = (false, o)
  try_put shapes o (text_key s) v =
      let (b, f) = try_put_string shapes o.strings s v in (b, record o { strings = f })
  try_put shapes o (number_key n) v = try_put_number is_nan o (normalise_key float_to_integer n) v
  try_put shapes o (object_key n) v = tried_table o (try_key o.table (hash_object n) v)
