-- ===== src/Table/Grow.antt =====
-- lua/tables.go: what extendArray leaves at every integer key.
use luart.Prelude.{
  true_ne_false, ℕ, zero, suc, ◌-◌, ◌≤◌, ◌<◌, ◌≡◌, ◌∙◌, sym, refl, arith, inl, inr, true, false,
  Option, none, Bool-cases, if-true, if-false, List, [], ◌∷◌, ◌++◌, length, get_or, replicate,
  length-append,
}
use luart.Prelude.Int.{ℤ, pos, negsuc}
use luart.Table.{
  Table, Key, integer, same_key, at_int, array_at, in_array, lookup, has_key, move_keys, grown,
}
use luart.Table.Update.{
  Unique, in_array-length, length-move_keys, lookup-move_keys, array_at-move_keys,
}

module _ {V : Type 0} where
  -- A key of the hash part stands there once, and not in the array's range.
  pub record WellFormed (t : Table V) : Type 0 where
    pub unique : Unique t.hash
    pub separate : (j : ℤ) → in_array t.array j ≡ true → has_key (integer j) t.hash ≡ false

  pub lookup-no_key :
      (k : Key) (h : List (Key × Option V)) → has_key k h ≡ false → lookup k h ≡ none
  unfolding lookup has_key
  lookup-no_key k [] e = refl
  lookup-no_key k ((k', v) ∷ h) e = elim (Bool-cases (same_key k k')) [
    | inl f ↦ absurd (true_ne_false (sym (if-true true (has_key k h) f) ∙ e))
    | inr f ↦
        if-false v (lookup k h) f ∙ lookup-no_key k h (sym (if-false true (has_key k h) f) ∙ e)
  ]

  get_or-append :
      (a b : List (Option V)) (i : ℕ) → i < length a → get_or (a ++ b) i none ≡ get_or a i none
  get_or-append [] b i h = elim h [ ]
  get_or-append (x ∷ a) b zero h = refl
  get_or-append (x ∷ a) b (suc i) h = get_or-append a b i (omega arith)

  get_or-padding :
      (a : List (Option V)) (n i : ℕ) → length a ≤ i → get_or (a ++ replicate n none) i none ≡ none
  get_or-padding [] zero i h = refl
  get_or-padding [] (suc n) zero h = refl
  get_or-padding [] (suc n) (suc i) h = get_or-padding [] n i (omega arith)
  get_or-padding (x ∷ a) n zero h = elim h [ ]
  get_or-padding (x ∷ a) n (suc i) h = get_or-padding a n i (omega arith)

  array_at-append :
      (a b : List (Option V)) (j : ℤ) → in_array a j ≡ true → array_at (a ++ b) j ≡ array_at a j
  array_at-append a b (pos j) h = get_or-append a b (j - 1) (ground arith)
  array_at-append a b (negsuc j) h = refl

  array_at-padding :
      (a : List (Option V)) (n : ℕ) (j : ℤ)
      → in_array a j ≡ false
      → in_array (a ++ replicate n none) j ≡ true
      → array_at (a ++ replicate n none) j ≡ none
  array_at-padding a n (pos j) out inside = get_or-padding a n (j - 1) (ground arith)
  array_at-padding a n (negsuc j) out inside = refl

  in_array-append :
      (a b : List (Option V)) (j : ℤ) → in_array (a ++ b) j ≡ false → in_array a j ≡ false
  in_array-append a b j h = ground (arith, length-append a b)

  -- Growing the array part changes no value.
  pub at_int-grown :
      (t : Table V) (last : ℕ) (j : ℤ) → WellFormed t → at_int (grown t last) j ≡ at_int t j
  unfolding at_int
  at_int-grown t last j wf =
      let a = t.array ++ replicate (last - length t.array) none in
      let indices : in_array (move_keys t.hash a).0 j ≡ in_array a j =
        in_array-length (move_keys t.hash a).0 a j (length-move_keys t.hash a) in
      elim (Bool-cases (in_array a j)) [
        | inr out ↦
            if-false (array_at (move_keys t.hash a).0 j) (lookup (integer j) (move_keys t.hash a).1)
              (indices ∙ out)
            ∙ lookup-move_keys t.hash a j out
            ∙ sym (
                if-false (array_at t.array j) (lookup (integer j) t.hash)
                  (in_array-append t.array (replicate (last - length t.array) none) j out))
        | inl inside ↦
            if-true (array_at (move_keys t.hash a).0 j) (lookup (integer j) (move_keys t.hash a).1)
              (indices ∙ inside)
            ∙ array_at-move_keys t.hash a j wf.unique inside
            ∙ elim (Bool-cases (in_array t.array j)) [
              | inl old ↦
                  if-false _ _ (wf.separate j old)
                  ∙ array_at-append t.array (replicate (last - length t.array) none) j old
                  ∙ sym (if-true (array_at t.array j) (lookup (integer j) t.hash) old)
              | inr new ↦ elim (Bool-cases (has_key (integer j) t.hash)) [
                | inl e ↦
                    if-true _ _ e
                    ∙ sym (if-false (array_at t.array j) (lookup (integer j) t.hash) new)
                | inr e ↦
                    if-false _ _ e
                    ∙ array_at-padding t.array (last - length t.array) j new inside
                    ∙ sym (
                        if-false (array_at t.array j) (lookup (integer j) t.hash) new
                        ∙ lookup-no_key (integer j) t.hash e)
              ]
            ]
      ]
