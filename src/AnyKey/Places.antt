-- ===== src/AnyKey/Places.antt =====
-- lua/tables.go at keys of any kind: the key that a table keeps for a key, its place, and what an
-- update at it leaves at every key.
use luart.Prelude.{
  ℕ, suc, ◌*◌, ◌≡◌, ◌≢◌, ◌∙◌, ap, sym, refl, arith, inl, inr, Option, none, Bool-cases, if-true,
  if-false,
}
use luart.Prelude.Int.{ℤ, pos}
use luart.Prelude.Texts.{equal_bytes, equal_bytes-eq, equal_bytes_refl}
use luart.Chunk.Proto.{Bytes}
use luart.Table.{Heap, Key, integer, other}
use luart.Table.Grow.{WellFormed}
use luart.Shape.{Shapes}
use luart.Shape.Fields.{Fields, Shared, at_string}
use luart.Shape.Store.{WfStore}
use luart.Shape.Growing.{Fits, Stored}
use luart.AnyKey.{
  NumericKey, integer_number, float_number, AnyKey, nil_key, text_key, number_key, object_key,
  hash_number, hash_object, Object, at_key, normalise_key, at,
}
use luart.AnyKey.Hash.{Changed}

untag_integer : Key → ℤ
untag_integer (integer i) = i
untag_integer (other b) = pos 0

untag_other : Key → ℕ
untag_other (integer i) = 0
untag_other (other b) = b

-- Each key that is no string has its own place.
hash_number_injective : (n m : NumericKey) → hash_number n ≡ hash_number m → n ≡ m
unfolding untag_integer untag_other
hash_number_injective (integer_number i) (integer_number j) e =
    ap integer_number (ap untag_integer e)
hash_number_injective (float_number x) (float_number y) e =
    let h : 2 * x ≡ 2 * y = ap untag_other e in ap float_number (omega (arith, h))
hash_number_injective (integer_number i) (float_number y) e = ground (arith, e)
hash_number_injective (float_number x) (integer_number j) e = ground (arith, e)

hash_object_injective : (n m : ℕ) → hash_object n ≡ hash_object m → n ≡ m
unfolding untag_other
hash_object_injective n m e =
    let h : suc (2 * n) ≡ suc (2 * m) = ap untag_other e in omega (arith, h)

hash_number_ne_object : (n : NumericKey) (m : ℕ) → hash_number n ≢ hash_object m
unfolding untag_other
hash_number_ne_object (integer_number i) m e = ground (arith, e)
hash_number_ne_object (float_number x) m e =
    let h : 2 * x ≡ suc (2 * m) = ap untag_other e in omega (arith, h)

-- A table in a store, with the invariants of its parts.
pub record Sound {V : Type 0} (sh : Shared) (o : Object V) : Type 0 where
  pub store : WfStore sh.shapes
  pub strings : Fits sh.shapes o.strings
  pub table : WellFormed o.table

module _ (float_to_integer : ℕ → Option ℤ) where
  -- The key that a table keeps for a key.
  unfoldable pub kept_key : AnyKey → AnyKey
  unfolding normalise_key
  kept_key nil_key = nil_key
  kept_key (text_key s) = text_key s
  kept_key (number_key n) = number_key (normalise_key float_to_integer n)
  kept_key (object_key n) = object_key n

  -- A read of a key that is kept as it is.
  at_kept : {V : Type 0} → Shapes → Object V → AnyKey → Option V
  at_kept shapes o nil_key = none
  at_kept shapes o (text_key s) = at_string shapes o.strings s
  at_kept shapes o (number_key n) = at_key o.table (hash_number n)
  at_kept shapes o (object_key n) = at_key o.table (hash_object n)

  at-at_kept :
      {V : Type 0} (shapes : Shapes) (o : Object V) (j : AnyKey)
      → at float_to_integer shapes o j ≡ at_kept shapes o (kept_key j)
  unfolding at kept_key at_kept
  at-at_kept shapes o nil_key = refl
  at-at_kept shapes o (text_key s) = refl
  at-at_kept shapes o (number_key n) = refl
  at-at_kept shapes o (object_key n) = refl

  -- Two keys that are kept as one read the same.
  at-kept_key :
      {V : Type 0} (shapes : Shapes) (o : Object V) (j k : AnyKey)
      → kept_key j ≡ kept_key k
      → at float_to_integer shapes o j ≡ at float_to_integer shapes o k
  at-kept_key shapes o j k e =
      at-at_kept shapes o j ∙ ap (at_kept shapes o) e ∙ sym (at-at_kept shapes o k)

  -- The table is sound, has v at the keys that it keeps as k, and what o has at all others.
  pub record Updated {V : Type 0} (sh : Shared) (o : Object V) (k : AnyKey) (v : Option V)
      (sh' : Shared) (o' : Object V) : Type 0 where
    pub sound : Sound sh' o'
    pub self : (j : AnyKey) → kept_key j ≡ kept_key k → at float_to_integer sh'.shapes o' j ≡ v
    pub others :
        (j : AnyKey)
        → kept_key j ≢ kept_key k
        → at float_to_integer sh'.shapes o' j ≡ at float_to_integer sh.shapes o j

  -- The key of the array and hash parts that a key is kept at, apart from all others.
  pub record Place (V : Type 0) (k : AnyKey) (key : Key) : Type 0 where
    pub reads :
        (shapes : Shapes) (o : Object V) → at float_to_integer shapes o k ≡ at_key o.table key
    pub numbers :
        (n : NumericKey)
        → kept_key (number_key n) ≢ kept_key k
        → hash_number (normalise_key float_to_integer n) ≢ key
    pub objects : (n : ℕ) → object_key n ≢ kept_key k → hash_object n ≢ key

  pub number-Place :
      {V : Type 0} (n m : NumericKey)
      → normalise_key float_to_integer n ≡ m
      → Place V (number_key n) (hash_number m)
  unfolding at kept_key
  number-Place n m e = record {
    reads = λ shapes o. ap (λ (m : NumericKey). at_key o.table (hash_number m)) e;
    numbers = λ n₂ ne f. ne (ap number_key (hash_number_injective _ m f ∙ sym e));
    objects = λ n₂ ne f. hash_number_ne_object m n₂ (sym f);
  }

  pub object-Place : {V : Type 0} (n : ℕ) → Place V (object_key n) (hash_object n)
  unfolding at kept_key
  object-Place n = record {
    reads = λ shapes o. refl;
    numbers = λ n₂ ne f. hash_number_ne_object _ n f;
    objects = λ n₂ ne f. ne (ap object_key (hash_object_injective n₂ n f));
  }

  module _ {V : Type 0} (sh : Shared) (o : Object V) (v : Option V) (sound : Sound sh o) where
    -- The array and hash parts change at one key, and the strings stay.
    pub table-Updated :
        (heap : Heap) (k : AnyKey) (key : Key) (o' : Object V)
        → Place V k key
        → Changed o.table key v o'.table
        → Fits sh.shapes o'.strings
        → ((s : Bytes) → at_string sh.shapes o'.strings s ≡ at_string sh.shapes o.strings s)
        → Updated sh o k v (record sh { heap = heap }) o'
    unfolding at kept_key
    table-Updated heap k key o' place c fits strings = record {
      sound = record { store = sound.store; strings = fits; table = c.wf };
      self = λ j e. at-kept_key sh.shapes o' j k e ∙ place.reads sh.shapes o' ∙ c.self;
      others = every;
    }
      where
        every :
            (j : AnyKey)
            → kept_key j ≢ kept_key k
            → at float_to_integer sh.shapes o' j ≡ at float_to_integer sh.shapes o j
        every nil_key ne = refl
        every (text_key s) ne = strings s
        every (number_key n) ne = c.others _ (place.numbers n ne)
        every (object_key n) ne = c.others _ (place.objects n ne)

    -- The strings change at one key, and the array and hash parts stay.
    pub string-Updated :
        (s : Bytes) (sh' : Shared) (f : Fields V)
        → Stored sh.shapes o.strings s v (sh', f)
        → Updated sh o (text_key s) v sh' (record { strings = f; table = o.table })
    unfolding at kept_key
    string-Updated s sh' f st = record {
      sound = record { store = st.wf; strings = st.fits; table = sound.table };
      self = λ j e.
          at-kept_key sh'.shapes (record { strings = f; table = o.table }) j (text_key s) e
          ∙ st.mapped s
          ∙ if-true v (at_string sh.shapes o.strings s) (equal_bytes_refl s);
      others = every;
    }
      where
        every :
            (j : AnyKey)
            → kept_key j ≢ text_key s
            → at float_to_integer sh'.shapes (record { strings = f; table = o.table }) j
              ≡ at float_to_integer sh.shapes o j
        every nil_key ne = refl
        every (text_key s₂) ne = st.mapped s₂ ∙ elim (Bool-cases (equal_bytes s₂ s)) [
          | inl e ↦ absurd (ne (ap text_key (equal_bytes-eq s₂ s e)))
          | inr e ↦ if-false v (at_string sh.shapes o.strings s₂) e
        ]
        every (number_key n) ne = refl
        every (object_key n) ne = refl
