-- ===== src/AnyKey/Put.antt =====
-- lua/tables.go at keys of any kind: put is an update at one key, as at reads the table.
use luart.Prelude.{
  true_ne_false, ℕ, suc, ◌*◌, ◌≡◌, ◌≢◌, ◌∙◌, ap, sym, refl, arith, Bool, true, false, Option, some,
  none, if-elim,
}
use luart.Prelude.Int.{ℤ}
use luart.Chunk.Proto.{Bytes}
use luart.Table.{Table, Key, integer, Outcome, put_at_int}
use luart.Shape.Fields.{Fields, Shared, at_string, put_string}
use luart.Shape.Growing.{Unless, Stored, given}
use luart.Shape.Put.{put_string-Stored}
use luart.AnyKey.{
  NumericKey, integer_number, float_number, AnyKey, nil_key, text_key, number_key, object_key,
  hash_number, hash_object, Object, PutResult, put_done, memory_thrown, nil_index, nan_index,
  put_hash, with_table, table_put, string_put, normalise_key, at, put_number, put,
}
use luart.AnyKey.Hash.{Changes, put_at_int-Changes, put_hash-Changes}
use luart.AnyKey.Places.{
  Sound, kept_key, Updated, Place, number-Place, object-Place, table-Updated, string-Updated,
}

number_of : AnyKey → NumericKey
number_of (number_key n) = n
number_of k = float_number 0

bits_of : NumericKey → ℕ
bits_of (float_number y) = y
bits_of (integer_number i) = 0

pub same_bits : (y z : ℕ) → float_number z ≡ float_number y → z ≡ y
unfolding bits_of
same_bits y z e = ap bits_of e

module _ (float_to_integer : ℕ → Option ℤ) where
  module _ (is_nan : ℕ → Bool) where
    abbrev pub NanAt : AnyKey → Type 0
    NanAt k =
        (x : ℕ) × (kept_key float_to_integer k ≡ number_key (float_number x)) × (is_nan x ≡ true)

    -- A key that can be stored at.
    abbrev pub Storable : AnyKey → Type 0
    Storable k = (k ≢ nil_key) × ¬ (NanAt k)

    -- What a store of v at k does, by its result.
    abbrev pub Puts : {V : Type 0} → Shared → Object V → AnyKey → Option V → PutResult V → Type 0
    Puts sh o k v (put_done sh' o') = Updated float_to_integer sh o k v sh' o' × Storable k
    Puts sh o k v memory_thrown = Storable k
    Puts sh o k v nil_index = k ≡ nil_key
    Puts sh o k v nan_index = NanAt k

    pub text-Storable : (s : Bytes) → Storable (text_key s)
    unfolding kept_key
    text-Storable s = ((λ e. ground (arith, e)), (λ (x, e, h). ground (arith, e)))

    pub number-Storable :
        (n m : NumericKey)
        → normalise_key float_to_integer n ≡ m
        → ((y : ℕ) → m ≡ float_number y → is_nan y ≡ false)
        → Storable (number_key n)
    unfolding kept_key number_of
    number-Storable n m e real = (
      (λ f. ground (arith, f)),
      (λ (y, f, g). true_ne_false (sym g ∙ real y (sym e ∙ ap number_of f))),
    )

    module _ {V : Type 0} (sh : Shared) (o : Object V) (v : Option V) (sound : Sound sh o) where
      table_put-Puts :
          (k : AnyKey) (key : Key)
          → Storable k
          → Place float_to_integer V k key
          → (r : Outcome V) → Changes o.table key v r
          → Puts sh o k v (table_put sh o key r)
      unfolding at_string
      table_put-Puts k key fine place none c = fine
      table_put-Puts k key fine place (some (heap, t)) c =
          let fits = sound.strings in
          (
            table-Updated float_to_integer sh o v sound heap k key (with_table o key t) place c
                (record { bare = fits.bare; in_store = fits.in_store; lies = fits.lies })
                (same_strings t),
            fine,
          )
        where
          same_strings :
              (t : Table V) (s : Bytes)
              → at_string sh.shapes (with_table o key t).strings s ≡ at_string sh.shapes o.strings s
          same_strings t s = refl

      string_put-Puts :
          (s : Bytes) (r : Option (Shared × Fields V))
          → Unless (Stored sh.shapes o.strings s v) r
          → Puts sh o (text_key s) v (string_put o r)
      string_put-Puts s none u = text-Storable s
      string_put-Puts s (some (sh', f)) (given st) =
          (string-Updated float_to_integer sh o v sound s sh' f st, text-Storable s)

      number-Puts :
          (slot_bytes hash_entry_bytes : ℕ) (n m : NumericKey)
          → normalise_key float_to_integer n ≡ m
          → Puts sh o (number_key n) v (put_number is_nan slot_bytes hash_entry_bytes sh o m v)
      unfolding put_number kept_key
      number-Puts slot_bytes hash_entry_bytes n (integer_number i) e =
          table_put-Puts (number_key n) (integer i)
            (number-Storable n (integer_number i) e (λ x f. ground (arith, f)))
            (number-Place float_to_integer n (integer_number i) e)
            (put_at_int slot_bytes hash_entry_bytes sh.heap o.table i v)
            (put_at_int-Changes slot_bytes hash_entry_bytes sh.heap o.table i v sound.table)
      number-Puts slot_bytes hash_entry_bytes n (float_number x) e =
          let key = hash_number (float_number x) in
          if-elim (Puts sh o (number_key n) v) (is_nan x) (λ nan. (x, ap number_key e, nan))
            (λ real.
              table_put-Puts (number_key n) key
                (number-Storable n (float_number x) e
                  (λ y f. ap is_nan (sym (same_bits y x f)) ∙ real))
                (number-Place float_to_integer n (float_number x) e)
                (put_hash slot_bytes hash_entry_bytes sh.heap o.table key v)
                (put_hash-Changes slot_bytes hash_entry_bytes sh.heap o.table (2 * x) v
                  sound.table))

      -- A store of a value or nil at a key of any kind, in a sound table of a sound store: it
      -- refuses nil and NaN and nothing else, and unless it throws a memory error the table is
      -- sound, has the value at the key and at the keys that normalise to the same, and what it had at
      -- every other key.
      pub put-Puts :
          (slot_bytes hash_entry_bytes : ℕ) (k : AnyKey)
          → Puts sh o k v (put float_to_integer is_nan slot_bytes hash_entry_bytes sh o k v)
      unfolding put kept_key at
      put-Puts slot_bytes hash_entry_bytes nil_key = refl
      put-Puts slot_bytes hash_entry_bytes (text_key s) =
          string_put-Puts s (put_string slot_bytes sh o.strings s v)
            (put_string-Stored slot_bytes sh o.strings s v sound.store sound.strings)
      put-Puts slot_bytes hash_entry_bytes (number_key n) =
          number-Puts slot_bytes hash_entry_bytes n (normalise_key float_to_integer n) refl
      put-Puts slot_bytes hash_entry_bytes (object_key n) =
          table_put-Puts (object_key n) (hash_object n)
            ((λ f. ground (arith, f)), (λ (x, f, g). ground (arith, f)))
            (object-Place float_to_integer n)
            (put_hash slot_bytes hash_entry_bytes sh.heap o.table (hash_object n) v)
            (put_hash-Changes slot_bytes hash_entry_bytes sh.heap o.table (suc (2 * n)) v
              sound.table)
