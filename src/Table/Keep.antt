-- ===== src/Table/Keep.antt =====
-- lua/tables.go: putAtInt keeps the table well formed: a key stands once in the hash part, and not
-- there if the array has its index.
use luart.Prelude.{
  true_ne_false, ℕ, ◌-◌, ◌*◌, ◌≡◌, ◌∙◌, ap, sym, refl, inl, inr, Bool, true, false, Option, some,
  none, if◌then◌else◌, Bool-cases, if-true, if-false, List, [], ◌∷◌, ◌++◌, length, replicate,
}
use luart.Prelude.Int.{ℤ, pos, ltb_ℤ, pos_part}
use mathlib.Core.Path.{subst}
use luart.Table.{
  Table, Key, integer, other, same_key, array_set, in_array, is_nil, delete, has_key, overwrite,
  move_keys, grown, Heap, charge, charged, Outcome, stored, new_size, extend_array,
  add_or_insert_hash, put_above, put_at_int,
}
use luart.Table.Update.{
  Unique, same_key_ne, in_array-set, in_array-length, length-move_keys, moves, stays, apart,
}
use luart.Table.Grow.{WellFormed}

module _ {V : Type 0} where
  pub has_key-overwrite :
      (j k : Key) (v : Option V) (h : List (Key × Option V))
      → has_key j (overwrite k v h) ≡ has_key j h
  unfolding has_key overwrite
  has_key-overwrite j k v [] = refl
  has_key-overwrite j k v ((k', w) ∷ h) = elim (Bool-cases (same_key k k')) [
    | inl e ↦ rw e refl
    | inr e ↦
        rw e (ap (λ (b : Bool). if same_key j k' then true else b) (has_key-overwrite j k v h))
  ]

  pub Unique-overwrite :
      (k : Key) (v : Option V) (h : List (Key × Option V)) → Unique h → Unique (overwrite k v h)
  unfolding overwrite Unique
  Unique-overwrite k v [] u = tt
  Unique-overwrite k v ((k', w) ∷ h) (new, u) = elim (Bool-cases (same_key k k')) [
    | inl e ↦ rw e (new, u)
    | inr e ↦ rw e (has_key-overwrite k' k v h ∙ new, Unique-overwrite k v h u)
  ]

  pub has_key-delete :
      (j k : Key) (h : List (Key × Option V)) → has_key j h ≡ false → has_key j (delete k h) ≡ false
  unfolding has_key delete
  has_key-delete j k [] e = refl
  has_key-delete j k ((k', w) ∷ h) e = elim (Bool-cases (same_key j k')) [
    | inl f ↦ absurd (true_ne_false (sym (if-true true (has_key j h) f) ∙ e))
    | inr f ↦
        let later = has_key-delete j k h (sym (if-false true (has_key j h) f) ∙ e) in
        elim (Bool-cases (same_key k k')) [
          | inl g ↦ rw g later
          | inr g ↦ rw g (if-false true (has_key j (delete k h)) f ∙ later)
        ]
  ]

  pub Unique-delete : (k : Key) (h : List (Key × Option V)) → Unique h → Unique (delete k h)
  unfolding delete Unique
  Unique-delete k [] u = tt
  Unique-delete k ((k', w) ∷ h) (new, u) = elim (Bool-cases (same_key k k')) [
    | inl e ↦ rw e (Unique-delete k h u)
    | inr e ↦ rw e (has_key-delete k' k h new, Unique-delete k h u)
  ]

  has_key-move_keys :
      (k : Key) (h : List (Key × Option V)) (a : List (Option V))
      → has_key k h ≡ false
      → has_key k (move_keys h a).1 ≡ false
  unfolding has_key move_keys
  has_key-move_keys k [] a e = refl
  has_key-move_keys k ((other b, v) ∷ h) a e = elim (Bool-cases (same_key k (other b))) [
    | inl f ↦ absurd (true_ne_false (sym (if-true true (has_key k h) f) ∙ e))
    | inr f ↦
        if-false true (has_key k (move_keys h a).1) f
        ∙ has_key-move_keys k h a (sym (if-false true (has_key k h) f) ∙ e)
  ]
  has_key-move_keys k ((integer i, v) ∷ h) a e = elim (Bool-cases (same_key k (integer i))) [
    | inl f ↦ absurd (true_ne_false (sym (if-true true (has_key k h) f) ∙ e))
    | inr f ↦
        let later = sym (if-false true (has_key k h) f) ∙ e in
        elim (Bool-cases (in_array a i)) [
          | inl g ↦
              ap (λ (m : List (Option V) × List (Key × Option V)). has_key k m.1) (moves i v h a g)
              ∙ has_key-move_keys k h (array_set a i v) later
          | inr g ↦
              ap (λ (m : List (Option V) × List (Key × Option V)). has_key k m.1) (stays i v h a g)
              ∙ if-false true (has_key k (move_keys h a).1) f
              ∙ has_key-move_keys k h a later
        ]
  ]

  Unique-move_keys :
      (h : List (Key × Option V)) (a : List (Option V)) → Unique h → Unique (move_keys h a).1
  unfolding move_keys Unique
  Unique-move_keys [] a u = tt
  Unique-move_keys ((other b, v) ∷ h) a (new, u) =
      (has_key-move_keys (other b) h a new, Unique-move_keys h a u)
  Unique-move_keys ((integer i, v) ∷ h) a (new, u) = elim (Bool-cases (in_array a i)) [
    | inl g ↦
        subst (λ (m : List (Option V) × List (Key × Option V)). Unique m.1) (sym (moves i v h a g))
          (Unique-move_keys h (array_set a i v) u)
    | inr g ↦
        subst (λ (m : List (Option V) × List (Key × Option V)). Unique m.1) (sym (stays i v h a g))
          (has_key-move_keys (integer i) h a new, Unique-move_keys h a u)
  ]

  -- A key with an index in the array does not stay in the hash part.
  moved :
      (h : List (Key × Option V)) (a : List (Option V)) (j : ℤ)
      → in_array a j ≡ true
      → has_key (integer j) (move_keys h a).1 ≡ false
  unfolding move_keys has_key
  moved [] a j inside = refl
  moved ((other b, v) ∷ h) a j inside = moved h a j inside
  moved ((integer i, v) ∷ h) a j inside = elim (Bool-cases (in_array a i)) [
    | inl g ↦
        ap (λ (m : List (Option V) × List (Key × Option V)). has_key (integer j) m.1)
          (moves i v h a g)
        ∙ moved h (array_set a i v) j (in_array-set a i j v ∙ inside)
    | inr g ↦
        let d = apart a i j (λ f. true_ne_false (sym inside ∙ sym f ∙ g)) in
        ap (λ (m : List (Option V) × List (Key × Option V)). has_key (integer j) m.1)
          (stays i v h a g)
        ∙ if-false true (has_key (integer j) (move_keys h a).1) d
        ∙ moved h a j inside
  ]

  WellFormed-grown : (t : Table V) (last : ℕ) → WellFormed t → WellFormed (grown t last)
  WellFormed-grown t last wf =
      let a = t.array ++ replicate (last - length t.array) none in
      record {
        unique = Unique-move_keys t.hash a wf.unique;
        separate = λ j inside.
            moved t.hash a j (
              sym (in_array-length (move_keys t.hash a).0 a j (length-move_keys t.hash a))
              ∙ inside);
      }

  abbrev pub Keeps : Outcome V → Type 0
  Keeps none = Unit {0}
  Keeps (some (heap, t)) = WellFormed t

  pub WellFormed-set :
      (t : Table V) (k : ℤ) (v : Option V)
      → WellFormed t
      → WellFormed (record t { array = array_set t.array k v })
  WellFormed-set t k v wf = record {
    unique = wf.unique;
    separate = λ j inside. wf.separate j (sym (in_array-set t.array k j v) ∙ inside);
  }

  Keeps-insert :
      (slot_bytes hash_entry_bytes : ℕ) (heap : Heap) (t : Table V) (k : ℤ) (v : Option V)
      → WellFormed t
      → in_array t.array k ≡ false
      → Keeps (add_or_insert_hash slot_bytes hash_entry_bytes heap t (integer k) v)
  unfolding add_or_insert_hash has_key Unique
  Keeps-insert slot_bytes hash_entry_bytes heap t k v wf out =
      elim (Bool-cases (has_key (integer k) t.hash)) [
        | inl e ↦ subst Keeps (sym (if-true _ _ e)) (record {
          unique = Unique-overwrite (integer k) v t.hash wf.unique;
          separate =
              λ j inside. has_key-overwrite (integer j) (integer k) v t.hash ∙ wf.separate j inside;
        })
        | inr e ↦ subst Keeps (sym (if-false _ _ e)) (added e (charge hash_entry_bytes heap))
      ]
    where
      added :
          has_key (integer k) t.hash ≡ false
          → (c : Option Heap)
          → Keeps (
              charged
                (λ heap'. (heap', record t { has_hash = true; hash = (integer k, v) ∷ t.hash }))
                c)
      added e none = tt
      added e (some heap') = record {
        unique = (e, wf.unique);
        separate = λ j inside.
            if-false true (has_key (integer j) t.hash)
              (same_key_ne j k (λ f. true_ne_false (sym inside ∙ ap (in_array t.array) f ∙ out)))
            ∙ wf.separate j inside;
      }

  Keeps-above :
      (slot_bytes hash_entry_bytes : ℕ) (heap : Heap) (t : Table V) (k : ℤ) (v : Option V)
      → WellFormed t
      → in_array t.array k ≡ false
      → Keeps (put_above slot_bytes hash_entry_bytes heap t k v)
  unfolding put_above extend_array
  Keeps-above slot_bytes hash_entry_bytes heap t k v wf out = go (new_size t (pos_part k))
    where
      extended :
          (last : ℕ) (c : Option Heap)
          → Keeps (charged (stored k v) (charged (λ heap'. (heap', grown t last)) c))
      extended last none = tt
      extended last (some heap') = WellFormed-set (grown t last) k v (WellFormed-grown t last wf)

      go :
          (r : Option ℕ)
          → Keeps (elim r [
            | some last ↦
                charged (stored k v) (extend_array slot_bytes hash_entry_bytes heap t last)
            | none ↦ add_or_insert_hash slot_bytes hash_entry_bytes heap t (integer k) v
          ])
      go none = Keeps-insert slot_bytes hash_entry_bytes heap t k v wf out
      go (some last) = extended last (charge ((last - length t.array) * slot_bytes) heap)

  -- Unless it throws, storing at an integer key of a well-formed table leaves a well-formed table.
  pub put_at_int-Keeps :
      (slot_bytes hash_entry_bytes : ℕ) (heap : Heap) (t : Table V) (k : ℤ) (v : Option V)
      → WellFormed t
      → Keeps (put_at_int slot_bytes hash_entry_bytes heap t k v)
  unfolding put_at_int
  put_at_int-Keeps slot_bytes hash_entry_bytes heap t k v wf =
      elim (Bool-cases (in_array t.array k)) [
        | inl e ↦ subst Keeps (sym (if-true _ _ e)) (WellFormed-set t k v wf)
        | inr e ↦ subst Keeps (sym (if-false _ _ e)) (elim (Bool-cases (is_nil v)) [
          | inl f ↦ subst Keeps (sym (if-true _ _ f)) (record {
            unique = Unique-delete (integer k) t.hash wf.unique;
            separate =
                λ j inside. has_key-delete (integer j) (integer k) t.hash (wf.separate j inside);
          })
          | inr f ↦ subst Keeps (sym (if-false _ _ f)) (elim (Bool-cases (ltb_ℤ (pos 0) k)) [
            | inl g ↦
                subst Keeps (sym (if-true _ _ g))
                  (Keeps-above slot_bytes hash_entry_bytes heap t k v wf e)
            | inr g ↦
                subst Keeps (sym (if-false _ _ g))
                  (Keeps-insert slot_bytes hash_entry_bytes heap t k v wf e)
          ])
        ])
      ]
