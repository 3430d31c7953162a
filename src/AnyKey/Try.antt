-- ===== src/AnyKey/Try.antt =====
-- lua/tables.go: tryPut stores where a key has a value, and is an update at that key.
use luart.Prelude.{
  some_ne_none, ℕ, ◌≡◌, ◌≢◌, ◌∙◌, ap, sym, refl, arith, inl, inr, ◌⊎◌, Bool, true, false, Option,
  some, none, Bool-cases, if-true, if-false, if-elim, option-elim, get_or,
}
use luart.Prelude.Int.{ℤ}
use luart.Chunk.Proto.{Bytes}
use luart.Table.{
  Table, Key, integer, other, in_array, is_nil, array_at, array_set, lookup, has_key, at_int,
}
use luart.Table.Grow.{WellFormed, lookup-no_key}
use luart.Table.Put.{set_array}
use luart.Table.Keep.{WellFormed-set}
use luart.Shape.{Shapes}
use luart.Shape.Fields.{Fields, Shared, at_string, slot_of, try_put_string}
use luart.Shape.Put.{overwrite-Stored}
use luart.AnyKey.{
  NumericKey, integer_number, float_number, AnyKey, nil_key, text_key, number_key, object_key,
  hash_number, hash_object, Object, at_key, normalise_key, at, try_hash, try_key, tried_table,
  try_put_number, try_put,
}
use luart.AnyKey.Hash.{Changed, Outside, delete-Changed, overwrite-Changed}
use luart.AnyKey.Places.{
  Sound, kept_key, Updated, Place, number-Place, object-Place, table-Updated, string-Updated,
}
use luart.AnyKey.Put.{NanAt}

module _ {V : Type 0} where
  abbrev value_in : Fields V → Option ℕ → Option V
  value_in t none = none
  value_in t (some i) = get_or t.values i none

  at_string-slot_of :
      (shapes : Shapes) (t : Fields V) (s : Bytes) (r : Option ℕ)
      → slot_of shapes t s ≡ r
      → at_string shapes t s ≡ value_in t r
  unfolding at_string
  at_string-slot_of shapes t s r e = ap (value_in t) e

  -- A store that is done only where the key has a value.
  abbrev pub Replaces : Table V → Key → Option V → Bool × Table V → Type 0
  Replaces t k v (true, t') = Changed t k v t' × (at_key t k ≢ none)
  Replaces t k v (false, t') = (t' ≡ t) × (at_key t k ≡ none)

  is_nil-none : (v : Option V) → is_nil v ≡ true → v ≡ none
  is_nil-none none e = refl
  is_nil-none (some v) e = ground (arith, e)

  is_nil-some : (v : Option V) → is_nil v ≡ false → v ≢ none
  is_nil-some none e f = ground (arith, e)
  is_nil-some (some v) e f = some_ne_none f

  has_key-lookup :
      (t : Table V) (k : Key) → is_nil (lookup k t.hash) ≡ false → has_key k t.hash ≡ true
  has_key-lookup t k e = elim (Bool-cases (has_key k t.hash)) [
    | inl h ↦ h
    | inr h ↦ absurd (is_nil-some _ e (lookup-no_key k t.hash h))
  ]

  try_hash-Replaces :
      (t : Table V) (k : Key) (v : Option V)
      → WellFormed t
      → Outside t k
      → at_key t k ≡ lookup k t.hash
      → Replaces t k v (try_hash t k v)
  unfolding try_hash
  try_hash-Replaces t k v wf out there =
      if-elim (Replaces t k v) (is_nil (lookup k t.hash)) (λ e. (refl, there ∙ is_nil-none _ e))
        (λ e. (
          if-elim (λ h. Changed t k v (record t { hash = h })) (is_nil v)
              (delete-Changed t k v wf out)
              (λ _. overwrite-Changed t k v wf out (has_key-lookup t k e)),
          λ f. is_nil-some _ e (sym there ∙ f),
        ))

  try_hash-absent :
      (t : Table V) (k : Key) (v : Option V) → lookup k t.hash ≡ none → try_hash t k v ≡ (false, t)
  unfolding try_hash
  try_hash-absent t k v e = if-true _ _ (ap is_nil e)

  set-Changed :
      (t : Table V) (i : ℤ) (v : Option V)
      → WellFormed t
      → in_array t.array i ≡ true
      → Changed t (integer i) v (record t { array = array_set t.array i v })
  unfolding at_key at_int
  set-Changed t i v wf inside = record {
    wf = WellFormed-set t i v wf;
    self = (set_array t i v inside).0;
    others = every;
  }
    where
      every :
          (j : Key)
          → j ≢ integer i
          → at_key (record t { array = array_set t.array i v }) j ≡ at_key t j
      every (integer j) ne = (set_array t i v inside).1 j (λ e. ne (ap integer e))
      every (other b) ne = refl

  pub try_key-Replaces :
      (t : Table V) (k : Key) (v : Option V) → WellFormed t → Replaces t k v (try_key t k v)
  unfolding try_key at_key
  try_key-Replaces t (other b) v wf = try_hash-Replaces t (other b) v wf tt refl
  try_key-Replaces t (integer i) v wf = elim (Bool-cases (in_array t.array i)) [
    | inr out ↦ rw out (try_hash-Replaces t (integer i) v wf out (if-false _ _ out))
    | inl inside ↦ elim (Bool-cases (is_nil (array_at t.array i))) [
      | inl e ↦
          let absent : lookup (integer i) t.hash ≡ none =
            lookup-no_key (integer i) t.hash (wf.separate i inside) in
          rw (inside, e, try_hash-absent t (integer i) v absent)
            (refl, if-true _ _ inside ∙ is_nil-none _ e)
      | inr e ↦
          rw (inside, e)
            (set-Changed t i v wf inside, λ f. is_nil-some _ e (sym (if-true _ _ inside) ∙ f))
    ]
  ]

module _ (float_to_integer : ℕ → Option ℤ) (is_nan : ℕ → Bool) {V : Type 0} where
  -- What tryPut of v at k does, by whether it stored.
  abbrev pub Tries : Shared → Object V → AnyKey → Option V → Bool × Object V → Type 0
  Tries sh o k v (true, o') =
      Updated float_to_integer sh o k v sh o' × (at float_to_integer sh.shapes o k ≢ none)
  Tries sh o k v (false, o') =
      (o' ≡ o) × ((at float_to_integer sh.shapes o k ≡ none) ⊎ NanAt float_to_integer is_nan k)

  module _ (sh : Shared) (o : Object V) (v : Option V) (sound : Sound sh o) where
    table-Tries :
        (k : AnyKey) (key : Key)
        → Place float_to_integer V k key
        → (r : Bool × Table V) → Replaces o.table key v r
        → Tries sh o k v (tried_table o r)
    table-Tries k key place (true, t) (c, has) = (
      table-Updated float_to_integer sh o v sound sh.heap k key (record o { table = t }) place c
          sound.strings (λ s. refl),
      λ e. has (sym (place.reads sh.shapes o) ∙ e),
    )
    table-Tries k key place (false, t) (same, absent) = (
      ap (λ (t' : Table V). record o { table = t' }) same,
      inl (place.reads sh.shapes o ∙ absent),
    )

    number-Tries :
        (n m : NumericKey)
        → normalise_key float_to_integer n ≡ m
        → Tries sh o (number_key n) v (try_put_number is_nan o m v)
    unfolding try_put_number kept_key
    number-Tries n (integer_number i) e =
        table-Tries (number_key n) (integer i)
          (number-Place float_to_integer n (integer_number i) e) (try_key o.table (integer i) v)
          (try_key-Replaces o.table (integer i) v sound.table)
    number-Tries n (float_number x) e =
        let key = hash_number (float_number x) in
        if-elim (Tries sh o (number_key n) v) (is_nan x)
          (λ nan. (refl, inr (x, ap number_key e, nan)))
          (λ _.
            table-Tries (number_key n) key (number-Place float_to_integer n (float_number x) e)
              (try_key o.table key v) (try_key-Replaces o.table key v sound.table))

    abbrev string_tried : Bool × Fields V → Bool × Object V
    string_tried (b, f) = (b, record o { strings = f })

    string-Tries :
        (s : Bytes)
        → Tries sh o (text_key s) v (string_tried (try_put_string sh.shapes o.strings s v))
    unfolding try_put_string at at_string
    string-Tries s =
        option-elim (λ r. Tries sh o (text_key s) v (string_tried r))
          (slot_of sh.shapes o.strings s)
          (λ gone. (refl, inl (at_string-slot_of sh.shapes o.strings s none gone)))
          (λ i found.
            if-elim (λ r. Tries sh o (text_key s) v (string_tried r))
              (is_nil (get_or o.strings.values i none))
              (λ e. (
                refl,
                inl (at_string-slot_of sh.shapes o.strings s (some i) found ∙ is_nil-none _ e),
              ))
              (λ e. (
                string-Updated float_to_integer sh o v sound s sh _
                    (overwrite-Stored sh o.strings s v i sound.store sound.strings found _),
                λ f.
                    is_nil-some _ e
                      (sym (at_string-slot_of sh.shapes o.strings s (some i) found) ∙ f),
              )))

    -- tryPut, with a value or nil, at a key of any kind of a sound table of a sound store. Where it
    -- stores, the key had a value, and the table is sound, has the new value at the key and at the
    -- keys that normalise to the same, and what it had at every other key. Where it does not, the
    -- table is as it was, and the key has no value or is NaN.
    pub try_put-Tries :
        (k : AnyKey) → Tries sh o k v (try_put float_to_integer is_nan sh.shapes o k v)
    unfolding try_put at
    try_put-Tries nil_key = (refl, inl refl)
    try_put-Tries (text_key s) = string-Tries s
    try_put-Tries (number_key n) = number-Tries n (normalise_key float_to_integer n) refl
    try_put-Tries (object_key n) =
        table-Tries (object_key n) (hash_object n) (object-Place float_to_integer n)
          (try_key o.table (hash_object n) v)
          (try_key-Replaces o.table (hash_object n) v sound.table)
