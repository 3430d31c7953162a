-- ===== src/Table/Length.antt =====
-- lua/tables.go: what `length` returns.
use luart.Prelude.{
  ℕ, suc, ◌+◌, ◌^◌, ◌≤◌, ◌<◌, ◌≡◌, ◌⊎◌, ◌∙◌, ap, sym, refl, arith, inl, inr, Bool, true, false, not,
  some, Bool-cases, if-true, if-false, [], length, ltb, ◌&&◌,
}
use luart.Prelude.Int.{ℤ, pos, sub_ℕ, ◌+ℤ◌}
use luart.Prelude.Word64.{wrap}
use luart.Table.{
  Table, integer, at_int, array_at, in_array, is_nil, lookup, table_length, bisect, double,
  unbound_search, entries,
}
use luart.Table.Search.{Border, bisect-Border, double-Border, wrap_pos}

both : (a b : Bool) → (a && b) ≡ true → (a ≡ true) × (b ≡ true)
both true b e = (refl, e)
both false b e = ground arith

module _ {V : Type 0} where
  abbrev pub absent : Table V → ℤ → Bool
  absent t k = is_nil (at_int t k)

  -- The integer keys are small enough for sums of two to be ints, and there is no hash part
  -- without a map.
  pub record Small (t : Table V) : Type 0 where
    pub keys : (k : ℕ) → absent t (pos k) ≡ false → k ≤ 2 ^ 61
    pub array : length t.array ≤ 2 ^ 61
    pub no_hash : t.has_hash ≡ false → t.hash ≡ []

  at_int-in_array :
      (t : Table V) (n : ℕ)
      → 0 < n
      → n ≤ length t.array
      → at_int t (pos n) ≡ array_at t.array (pos n)
  unfolding at_int
  at_int-in_array t n h h' =
      let inside : in_array t.array (pos n) ≡ true = ground arith in if-true _ _ inside

  at_int-hash :
      (t : Table V) (n : ℕ)
      → length t.array < n
      → at_int t (pos n) ≡ lookup (integer (pos n)) t.hash
  unfolding at_int
  at_int-hash t n h =
      let outside : in_array t.array (pos n) ≡ false = ground arith in if-false _ _ outside

  -- The array's last element is a value, or there is none.
  last_present :
      (t : Table V)
      → (ltb 0 (length t.array) && is_nil (array_at t.array (pos (length t.array)))) ≡ false
      → (length t.array ≡ 0) ⊎ (absent t (pos (length t.array)) ≡ false)
  last_present t e = elim (Bool-cases (ltb 0 (length t.array))) [
    | inr f ↦ inl (ground arith)
    | inl f ↦
        let value : is_nil (array_at t.array (pos (length t.array))) ≡ false =
          ap (λ (b : Bool). b && is_nil (array_at t.array (pos (length t.array)))) (sym f) ∙ e in
        inr (ap is_nil (at_int-in_array t (length t.array) (ground arith) (omega arith)) ∙ value)
  ]

  next_index :
      (t : Table V)
      → length t.array ≤ 2 ^ 61
      → wrap (pos (length t.array) +ℤ pos 1) ≡ pos (length t.array + 1)
  unfolding ◌+ℤ◌
  next_index t h =
      let sum : sub_ℕ (length t.array + 1) 0 ≡ pos (length t.array + 1) = ground arith in
      ap wrap sum ∙ wrap_pos (length t.array + 1) (omega (arith, h))

  -- The binary search of the array part.
  array_search :
      (t : Table V)
      → Small t
      → (ltb 0 (length t.array) && is_nil (array_at t.array (pos (length t.array)))) ≡ true
      → (n : ℕ) × (bisect (λ k. is_nil (array_at t.array k)) 64 (pos 0) (pos (length t.array))
          ≡ some (pos n))
        × Border (absent t) n
  array_search t small e =
      let (some_left, last_nil) =
        both (ltb 0 (length t.array)) (is_nil (array_at t.array (pos (length t.array)))) e in
      let positive : 0 < length t.array = ground arith in
      let (n, f, border, below) =
        bisect-Border (λ k. is_nil (array_at t.array k)) 63 0 (length t.array) positive
          (omega (arith, small.array)) (omega (arith, small.array)) (inl refl) last_nil in
      (
        n,
        f,
        record {
          present = elim border.present [
            | inl z ↦ inl z
            | inr h ↦ elim (Bool-cases (ltb 0 n)) [
              | inl p ↦
                  inr (ap is_nil (at_int-in_array t n (ground arith) (omega (arith, below))) ∙ h)
              | inr p ↦ inl (ground arith)
            ]
          ];
          after =
              ap is_nil (at_int-in_array t (suc n) (omega arith) (omega (arith, below)))
              ∙ border.after;
        },
      )

  -- Where no integer key with a value is above 2 ^ 61, `length` returns a border: 0 or the index of
  -- a value, with nil at the next index.
  pub table_length-Border :
      (t : Table V) → Small t → (n : ℕ) × (table_length t ≡ some (pos n)) × Border (absent t) n
  unfolding table_length unbound_search lookup
  table_length-Border t small =
      elim (Bool-cases
        (ltb 0 (length t.array) && is_nil (array_at t.array (pos (length t.array))))) [
          | inl e ↦ let (n, f, border) = array_search t small e in (n, if-true _ _ e ∙ f, border)
          | inr e ↦ elim (Bool-cases t.has_hash) [
            | inl f ↦
                let (n, g, border) =
                  double-Border (absent t) (entries t) small.keys 64 (length t.array)
                    (length t.array + 1) (omega arith) (omega (arith, small.array)) (omega arith)
                    (last_present t e) in
                (
                  n,
                  if-false _ _ e
                      ∙ if-false _ _ (ap not f)
                      ∙ ap (double (absent t) (entries t) 64 (pos (length t.array)))
                          (next_index t small.array)
                      ∙ g,
                  border,
                )
            | inr f ↦ (
              length t.array,
              if-false _ _ e ∙ if-true _ _ (ap not f),
              record {
                present = last_present t e;
                after = ap is_nil (
                    at_int-hash t (suc (length t.array)) (omega arith)
                    ∙ ap (lookup (integer (pos (suc (length t.array))))) (small.no_hash f));
              },
            )
          ]
        ]
