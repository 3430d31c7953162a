-- ===== src/AnyKey/Hash.antt =====
-- lua/tables.go: what putAtInt and the stores of put in the hash part leave at every key of the array
-- and hash parts.
use luart.Prelude.{
  true_ne_false, ℕ, ◌≡◌, ◌≢◌, ◌∙◌, ap, sym, refl, arith, inl, inr, Bool, true, false, Option, some,
  none, if◌then◌else◌, Bool-cases, if-true, if-false, if-elim, List, [], ◌∷◌,
}
use luart.Prelude.Int.{ℤ, pos, ltb_ℤ, pos_part}
use luart.Table.{
  Table, Key, integer, other, same_key, at_int, array_at, array_set, in_array, is_nil, lookup,
  delete, has_key, overwrite, move_keys, grown, Heap, charge, charged, Outcome, stored, new_size,
  extend_array, add_or_insert_hash, put_above, put_at_int,
}
use luart.Table.Update.{
  Unique, same_key_refl, same_key-eq, lookup-delete, lookup-delete_ne, lookup-overwrite,
  lookup-overwrite_ne, moves, stays,
}
use luart.Table.Grow.{WellFormed}
use luart.Table.Put.{Stores, put_at_int-at_int}
use luart.Table.Keep.{
  Keeps, put_at_int-Keeps, has_key-overwrite, Unique-overwrite, has_key-delete, Unique-delete,
}
use luart.AnyKey.{at_key, put_hash}

pub same_key-differs : (j k : Key) → j ≢ k → same_key j k ≡ false
same_key-differs j k ne = elim (Bool-cases (same_key j k)) [
  | inl e ↦ absurd (ne (same_key-eq j k e))
  | inr e ↦ e
]

other_ne_integer : (b : ℕ) (i : ℤ) → other b ≢ integer i
other_ne_integer b i e =
    let h = sym (same_key_refl (other b)) ∙ ap (same_key (other b)) e in true_ne_false h

module _ {V : Type 0} where
  -- t' is well formed, has v at k, and what t has at the other keys.
  pub record Changed (t : Table V) (k : Key) (v : Option V) (t' : Table V) : Type 0 where
    pub wf : WellFormed t'
    pub self : at_key t' k ≡ v
    pub others : (j : Key) → j ≢ k → at_key t' j ≡ at_key t j

  -- So is the table that an operation leaves, unless it throws.
  abbrev pub Changes : Table V → Key → Option V → Outcome V → Type 0
  Changes t k v none = Unit {0}
  Changes t k v (some (heap, t')) = Changed t k v t'

  lookup-move_keys-other :
      (b : ℕ) (h : List (Key × Option V)) (a : List (Option V))
      → lookup (other b) (move_keys h a).1 ≡ lookup (other b) h
  unfolding move_keys lookup
  lookup-move_keys-other b [] a = refl
  lookup-move_keys-other b ((other c, v) ∷ h) a =
      ap (λ (o : Option V). if same_key (other b) (other c) then v else o)
        (lookup-move_keys-other b h a)
  lookup-move_keys-other b ((integer i, v) ∷ h) a = elim (Bool-cases (in_array a i)) [
    | inl e ↦
        ap (λ (m : List (Option V) × List (Key × Option V)). lookup (other b) m.1) (moves i v h a e)
        ∙ lookup-move_keys-other b h (array_set a i v)
    | inr e ↦
        ap (λ (m : List (Option V) × List (Key × Option V)). lookup (other b) m.1) (stays i v h a e)
        ∙ lookup-move_keys-other b h a
  ]

  -- The keys that are no integers keep their values.
  abbrev Spares : Table V → Outcome V → Type 0
  Spares t none = Unit {0}
  Spares t (some (heap, t')) = (b : ℕ) → lookup (other b) t'.hash ≡ lookup (other b) t.hash

  insert-Spares :
      (slot_bytes hash_entry_bytes : ℕ) (heap : Heap) (t : Table V) (i : ℤ) (v : Option V)
      → Spares t (add_or_insert_hash slot_bytes hash_entry_bytes heap t (integer i) v)
  unfolding add_or_insert_hash lookup
  insert-Spares slot_bytes hash_entry_bytes heap t i v =
      if-elim (Spares t) (has_key (integer i) t.hash)
        (λ _ b. lookup-overwrite_ne (integer i) (other b) v t.hash refl)
        (λ _. added (charge hash_entry_bytes heap))
    where
      added :
          (c : Option Heap)
          → Spares t (
              charged
                (λ heap'. (heap', record t { has_hash = true; hash = (integer i, v) ∷ t.hash }))
                c)
      added none = tt
      added (some heap') = λ b. refl

  put_above-Spares :
      (slot_bytes hash_entry_bytes : ℕ) (heap : Heap) (t : Table V) (i : ℤ) (v : Option V)
      → Spares t (put_above slot_bytes hash_entry_bytes heap t i v)
  unfolding put_above extend_array
  put_above-Spares slot_bytes hash_entry_bytes heap t i v = go (new_size t (pos_part i))
    where
      extended :
          (last : ℕ) (c : Option Heap)
          → Spares t (charged (stored i v) (charged (λ heap'. (heap', grown t last)) c))
      extended last none = tt
      extended last (some heap') = λ b. lookup-move_keys-other b t.hash _

      go :
          (r : Option ℕ)
          → Spares t (elim r [
            | some last ↦
                charged (stored i v) (extend_array slot_bytes hash_entry_bytes heap t last)
            | none ↦ add_or_insert_hash slot_bytes hash_entry_bytes heap t (integer i) v
          ])
      go none = insert-Spares slot_bytes hash_entry_bytes heap t i v
      go (some last) = extended last (charge _ heap)

  put_at_int-Spares :
      (slot_bytes hash_entry_bytes : ℕ) (heap : Heap) (t : Table V) (i : ℤ) (v : Option V)
      → Spares t (put_at_int slot_bytes hash_entry_bytes heap t i v)
  unfolding put_at_int
  put_at_int-Spares slot_bytes hash_entry_bytes heap t i v =
      if-elim (Spares t) (in_array t.array i) (λ _ b. refl)
        (λ _.
          if-elim (Spares t) (is_nil v) (λ _ b. lookup-delete_ne (integer i) (other b) t.hash refl)
            (λ _.
              if-elim (Spares t) (ltb_ℤ (pos 0) i)
                (λ _. put_above-Spares slot_bytes hash_entry_bytes heap t i v)
                (λ _. insert-Spares slot_bytes hash_entry_bytes heap t i v)))

  pub put_at_int-Changes :
      (slot_bytes hash_entry_bytes : ℕ) (heap : Heap) (t : Table V) (i : ℤ) (v : Option V)
      → WellFormed t
      → Changes t (integer i) v (put_at_int slot_bytes hash_entry_bytes heap t i v)
  unfolding at_key at_int
  put_at_int-Changes slot_bytes hash_entry_bytes heap t i v wf =
      go (put_at_int slot_bytes hash_entry_bytes heap t i v)
        (put_at_int-at_int slot_bytes hash_entry_bytes heap t i v wf)
        (put_at_int-Keeps slot_bytes hash_entry_bytes heap t i v wf)
        (put_at_int-Spares slot_bytes hash_entry_bytes heap t i v)
    where
      every :
          (t' : Table V)
          → ((j : ℤ) → j ≢ i → at_int t' j ≡ at_int t j)
          → ((b : ℕ) → lookup (other b) t'.hash ≡ lookup (other b) t.hash)
          → (j : Key) → j ≢ integer i
          → at_key t' j ≡ at_key t j
      every t' ints spares (integer j) ne = ints j (λ e. ne (ap integer e))
      every t' ints spares (other b) ne = spares b

      go : (r : Outcome V) → Stores t i v r → Keeps r → Spares t r → Changes t (integer i) v r
      go none s k o = tt
      go (some (heap', t')) (self, ints) k spares = record {
        wf = k;
        self = self;
        others = every t' ints spares;
      }

  abbrev pub Outside : Table V → Key → Type 0
  Outside t (integer i) = in_array t.array i ≡ false
  Outside t (other b) = Unit {0}

  -- The hash part changes at a key that is not in the array.
  pub hash-Changed :
      (t : Table V) (k : Key) (v : Option V) (h : List (Key × Option V)) (has_hash : Bool)
      → WellFormed t
      → Outside t k
      → Unique h
      → ((i : ℤ) → has_key (integer i) t.hash ≡ false → has_key (integer i) h ≡ false)
      → lookup k h ≡ v
      → ((j : Key) → j ≢ k → lookup j h ≡ lookup j t.hash)
      → Changed t k v (record t { hash = h; has_hash = has_hash })
  unfolding at_key
  hash-Changed t k v h has_hash wf out unique fresh self others = record {
    wf = record { unique = unique; separate = λ i inside. fresh i (wf.separate i inside) };
    self = there k out ∙ self;
    others = every;
  }
    where
      there :
          (k : Key)
          → Outside t k
          → at_key (record t { hash = h; has_hash = has_hash }) k ≡ lookup k h
      there (integer i) out = if-false _ _ out
      there (other b) out = refl

      every : (j : Key) → j ≢ k → at_key (record t { hash = h; has_hash = has_hash }) j ≡ at_key t j
      every (integer i) ne =
          ap (λ (o : Option V). if in_array t.array i then array_at t.array i else o)
            (others (integer i) ne)
      every (other c) ne = others (other c) ne

  nil_value : (v : Option V) → is_nil v ≡ true → none ≡ v
  nil_value none e = refl
  nil_value (some v) e = ground arith

  -- The entry of a key goes, or gets a value.
  pub delete-Changed :
      (t : Table V) (k : Key) (v : Option V)
      → WellFormed t
      → Outside t k
      → is_nil v ≡ true
      → Changed t k v (record t { hash = delete k t.hash })
  delete-Changed t k v wf out is_none =
      hash-Changed t k v (delete k t.hash) t.has_hash wf out (Unique-delete k t.hash wf.unique)
        (λ i. has_key-delete (integer i) k t.hash) (lookup-delete k t.hash ∙ nil_value v is_none)
        (λ j ne. lookup-delete_ne k j t.hash (same_key-differs j k ne))

  pub overwrite-Changed :
      (t : Table V) (k : Key) (v : Option V)
      → WellFormed t
      → Outside t k
      → has_key k t.hash ≡ true
      → Changed t k v (record t { hash = overwrite k v t.hash })
  overwrite-Changed t k v wf out has =
      hash-Changed t k v (overwrite k v t.hash) t.has_hash wf out
        (Unique-overwrite k v t.hash wf.unique)
        (λ i e. has_key-overwrite (integer i) k v t.hash ∙ e) (lookup-overwrite k v t.hash has)
        (λ j ne. lookup-overwrite_ne k j v t.hash (same_key-differs j k ne))

  pub put_hash-Changes :
      (slot_bytes hash_entry_bytes : ℕ) (heap : Heap) (t : Table V) (b : ℕ) (v : Option V)
      → WellFormed t
      → Changes t (other b) v (put_hash slot_bytes hash_entry_bytes heap t (other b) v)
  unfolding put_hash add_or_insert_hash Unique lookup has_key
  put_hash-Changes slot_bytes hash_entry_bytes heap t b v wf =
      if-elim (Changes t (other b) v) (is_nil v) (delete-Changed t (other b) v wf tt) (λ _.
        if-elim (Changes t (other b) v) (has_key (other b) t.hash)
          (overwrite-Changed t (other b) v wf tt) (λ new. added new (charge hash_entry_bytes heap)))
    where
      added :
          has_key (other b) t.hash ≡ false
          → (c : Option Heap)
          → Changes t (other b) v (
              charged
                (λ heap'. (heap', record t { has_hash = true; hash = (other b, v) ∷ t.hash }))
                c)
      added new none = tt
      added new (some heap') =
          hash-Changed t (other b) v ((other b, v) ∷ t.hash) true wf tt (new, wf.unique) (λ i e. e)
            (if-true _ _ (same_key_refl (other b)))
            (λ j ne. if-false _ _ (same_key-differs j (other b) ne))
