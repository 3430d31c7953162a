-- ===== src/Table/Put.antt =====
-- lua/tables.go: putAtInt stores one value and changes no other.
use luart.Prelude.{
  ℕ, ◌-◌, ◌*◌, ◌≤◌, ◌≡◌, ◌≢◌, ◌∙◌, ap, sym, refl, arith, inl, inr, Bool, true, false, Option, some,
  none, if◌then◌else◌, Bool-cases, if-true, if-false, List, ◌∷◌, ◌++◌, length, replicate,
  length-append, length-replicate,
}
use luart.Prelude.Int.{ℤ, pos, negsuc, ltb_ℤ, pos_part}
use mathlib.Core.Path.{subst}
use luart.Table.{
  Table, Key, integer, at_int, array_at, array_set, in_array, is_nil, lookup, delete, has_key,
  overwrite, grown, Heap, charge, charged, Outcome, stored, new_size, extend_array,
  add_or_insert_hash, put_above, put_at_int,
}
use luart.Table.Update.{
  same_key_refl, same_key_ne, lookup-delete, lookup-delete_ne, lookup-overwrite,
  lookup-overwrite_ne, array_at-set, array_at-set_ne, in_array-set, in_array-length,
  length-move_keys,
}
use luart.Table.Grow.{WellFormed, at_int-grown}

module _ {V : Type 0} where
  -- t' has v at k, and what t has at the other keys.
  abbrev pub Sets : Table V → ℤ → Option V → Table V → Type 0
  Sets t k v t' = (at_int t' k ≡ v) × ((j : ℤ) → j ≢ k → at_int t' j ≡ at_int t j)

  -- So has the table that an operation leaves, unless the operation throws.
  abbrev pub Stores : Table V → ℤ → Option V → Outcome V → Type 0
  Stores t k v none = Unit {0}
  Stores t k v (some (heap, t')) = Sets t k v t'

  pub set_array :
      (t : Table V) (k : ℤ) (v : Option V)
      → in_array t.array k ≡ true
      → Sets t k v (record t { array = array_set t.array k v })
  unfolding at_int
  set_array t k v inside = (
    if-true (array_at (array_set t.array k v) k) (lookup (integer k) t.hash)
          (in_array-set t.array k k v ∙ inside)
        ∙ array_at-set t.array k v inside,
    λ j ne. elim (Bool-cases (in_array t.array j)) [
      | inl e ↦
          if-true (array_at (array_set t.array k v) j) (lookup (integer j) t.hash)
            (in_array-set t.array k j v ∙ e)
          ∙ array_at-set_ne t.array k j v (λ f. ne (sym f)) inside e
          ∙ sym (if-true (array_at t.array j) (lookup (integer j) t.hash) e)
      | inr e ↦
          if-false (array_at (array_set t.array k v) j) (lookup (integer j) t.hash)
            (in_array-set t.array k j v ∙ e)
          ∙ sym (if-false (array_at t.array j) (lookup (integer j) t.hash) e)
    ],
  )

  set_hash :
      (t : Table V) (k : ℤ) (v : Option V) (h : List (Key × Option V)) (b : Bool)
      → in_array t.array k ≡ false
      → lookup (integer k) h ≡ v
      → ((j : ℤ) → j ≢ k → lookup (integer j) h ≡ lookup (integer j) t.hash)
      → Sets t k v (record t { hash = h; has_hash = b })
  unfolding at_int
  set_hash t k v h b out self others = (
    if-false (array_at t.array k) (lookup (integer k) h) out ∙ self,
    λ j ne.
        ap (λ (w : Option V). if in_array t.array j then array_at t.array j else w) (others j ne),
  )

  insert :
      (slot_bytes hash_entry_bytes : ℕ) (heap : Heap) (t : Table V) (k : ℤ) (v : Option V)
      → in_array t.array k ≡ false
      → Stores t k v (add_or_insert_hash slot_bytes hash_entry_bytes heap t (integer k) v)
  unfolding add_or_insert_hash lookup
  insert slot_bytes hash_entry_bytes heap t k v out =
      elim (Bool-cases (has_key (integer k) t.hash)) [
        | inl e ↦ subst (Stores t k v) (sym (if-true _ _ e)) (
            set_hash t k v (overwrite (integer k) v t.hash) t.has_hash out
              (lookup-overwrite (integer k) v t.hash e)
              (λ j ne. lookup-overwrite_ne (integer k) (integer j) v t.hash (same_key_ne j k ne)))
        | inr e ↦ subst (Stores t k v) (sym (if-false _ _ e)) (added (charge hash_entry_bytes heap))
      ]
    where
      added :
          (c : Option Heap)
          → Stores t k v (
              charged
                (λ heap'. (heap', record t { has_hash = true; hash = (integer k, v) ∷ t.hash }))
                c)
      added none = tt
      added (some heap') =
          set_hash t k v ((integer k, v) ∷ t.hash) true out
            (if-true _ _ (same_key_refl (integer k))) (λ j ne. if-false _ _ (same_key_ne j k ne))

  new_size_max : (t : Table V) (key last : ℕ) → new_size t key ≡ some last → key ≤ last
  unfolding new_size
  new_size_max t key last e = ground (arith, e)

  in_array-grown :
      (t : Table V) (last : ℕ) (k : ℤ)
      → ltb_ℤ (pos 0) k ≡ true
      → pos_part k ≤ last
      → in_array (grown t last).array k ≡ true
  in_array-grown t last (pos k) positive le =
      in_array-length (grown t last).array (t.array ++ replicate (last - length t.array) none)
        (pos k) (length-move_keys t.hash (t.array ++ replicate (last - length t.array) none))
      ∙ ground (
        arith,
        length-append t.array (replicate (last - length t.array) none),
        length-replicate {A = Option V} (last - length t.array) none,
      )
  in_array-grown t last (negsuc k) positive le = ground arith

  above :
      (slot_bytes hash_entry_bytes : ℕ) (heap : Heap) (t : Table V) (k : ℤ) (v : Option V)
      → WellFormed t
      → ltb_ℤ (pos 0) k ≡ true
      → in_array t.array k ≡ false
      → Stores t k v (put_above slot_bytes hash_entry_bytes heap t k v)
  unfolding put_above extend_array
  above slot_bytes hash_entry_bytes heap t k v wf positive out = go (new_size t (pos_part k)) refl
    where
      extended :
          (last : ℕ) (c : Option Heap)
          → pos_part k ≤ last
          → Stores t k v (charged (stored k v) (charged (λ heap'. (heap', grown t last)) c))
      extended last none le = tt
      extended last (some heap') le =
          let (self, others) = set_array (grown t last) k v (in_array-grown t last k positive le) in
          (self, λ j ne. others j ne ∙ at_int-grown t last j wf)

      go :
          (r : Option ℕ)
          → new_size t (pos_part k) ≡ r
          → Stores t k v (elim r [
            | some last ↦
                charged (stored k v) (extend_array slot_bytes hash_entry_bytes heap t last)
            | none ↦ add_or_insert_hash slot_bytes hash_entry_bytes heap t (integer k) v
          ])
      go none e = insert slot_bytes hash_entry_bytes heap t k v out
      go (some last) e =
          extended last (charge ((last - length t.array) * slot_bytes) heap)
            (new_size_max t (pos_part k) last e)

  nil_value : (v : Option V) → is_nil v ≡ true → none ≡ v
  nil_value none e = refl
  nil_value (some v) e = ground arith

  -- Storing at an integer key of a well-formed table, unless it throws: the key then has the value, and every other integer key has
  -- what it had, whether the value went to the array, the array grew for it, or the hash part took
  -- it, lost it or already had it.
  pub put_at_int-at_int :
      (slot_bytes hash_entry_bytes : ℕ) (heap : Heap) (t : Table V) (k : ℤ) (v : Option V)
      → WellFormed t
      → Stores t k v (put_at_int slot_bytes hash_entry_bytes heap t k v)
  unfolding put_at_int
  put_at_int-at_int slot_bytes hash_entry_bytes heap t k v wf =
      elim (Bool-cases (in_array t.array k)) [
        | inl e ↦ subst (Stores t k v) (sym (if-true _ _ e)) (set_array t k v e)
        | inr e ↦ subst (Stores t k v) (sym (if-false _ _ e)) (elim (Bool-cases (is_nil v)) [
          | inl f ↦ subst (Stores t k v) (sym (if-true _ _ f)) (
              set_hash t k v (delete (integer k) t.hash) t.has_hash e
                (lookup-delete (integer k) t.hash ∙ nil_value v f)
                (λ j ne. lookup-delete_ne (integer k) (integer j) t.hash (same_key_ne j k ne)))
          | inr f ↦
              subst (Stores t k v) (sym (if-false _ _ f)) (elim (Bool-cases (ltb_ℤ (pos 0) k)) [
                | inl g ↦
                    subst (Stores t k v) (sym (if-true _ _ g))
                      (above slot_bytes hash_entry_bytes heap t k v wf g e)
                | inr g ↦
                    subst (Stores t k v) (sym (if-false _ _ g))
                      (insert slot_bytes hash_entry_bytes heap t k v e)
              ])
        ])
      ]

  -- Without a memory limit nothing is thrown.
  pub put_at_int_total :
      (slot_bytes hash_entry_bytes : ℕ) (heap : Heap) (t : Table V) (k : ℤ) (v : Option V)
      → heap.limited ≡ false
      → put_at_int slot_bytes hash_entry_bytes heap t k v ≢ none
  unfolding put_at_int put_above extend_array add_or_insert_hash charge
  put_at_int_total slot_bytes hash_entry_bytes heap t k v free e = ground arith
