-- ===== src/Table/Update.antt =====
-- lua/tables.go: what putAtInt leaves at every integer key.
use luart.Prelude.{
  true_ne_false, ℕ, zero, suc, ◌-◌, ◌<◌, ◌≡◌, ◌≢◌, ◌∙◌, ap, sym, refl, arith, inl, inr, Bool, true,
  false, Option, none, if◌then◌else◌, Bool-cases, if-true, if-false, List, [], ◌∷◌, length, get_or,
  set, length-set, ◌&&◌,
}
use luart.Prelude.Int.{ℤ, pos, negsuc, eqb_ℤ, ltb_ℤ, leb_ℤ, eq_of_parts}
use luart.Table.{
  Key, integer, other, same_key, array_at, array_set, in_array, lookup, delete, has_key, overwrite,
  move_keys,
}

pub same_key_refl : (k : Key) → same_key k k ≡ true
same_key_refl (integer i) = ground arith
same_key_refl (other b) = ground arith

pub same_key-eq : (k k' : Key) → same_key k k' ≡ true → k ≡ k'
same_key-eq (integer i) (integer j) h = ap integer (eq_of_parts i j (ground arith))
same_key-eq (other a) (other b) h = ap other (ground arith)
same_key-eq (integer i) (other b) h = ground arith
same_key-eq (other b) (integer i) h = ground arith

pub same_key_ne : (i j : ℤ) → i ≢ j → same_key (integer i) (integer j) ≡ false
same_key_ne i j h = elim (Bool-cases (eqb_ℤ i j)) [
  | inl e ↦ absurd (h (eq_of_parts i j (ground arith)))
  | inr e ↦ e
]

module _ {V : Type 0} where
  get_or-set :
      (a : List (Option V)) (i : ℕ) (v : Option V) → i < length a → get_or (set a i v) i none ≡ v
  get_or-set [] i v h = elim h [ ]
  get_or-set (x ∷ a) zero v h = refl
  get_or-set (x ∷ a) (suc i) v h = get_or-set a i v (omega arith)

  get_or-set_ne :
      (a : List (Option V)) (i j : ℕ) (v : Option V)
      → i ≢ j
      → get_or (set a i v) j none ≡ get_or a j none
  get_or-set_ne [] i j v ne = refl
  get_or-set_ne (x ∷ a) zero zero v ne = absurd (ne refl)
  get_or-set_ne (x ∷ a) zero (suc j) v ne = refl
  get_or-set_ne (x ∷ a) (suc i) zero v ne = refl
  get_or-set_ne (x ∷ a) (suc i) (suc j) v ne = get_or-set_ne a i j v (λ e. ne (ap suc e))

  pub lookup-delete : (k : Key) (h : List (Key × Option V)) → lookup k (delete k h) ≡ none
  unfolding lookup delete
  lookup-delete k [] = refl
  lookup-delete k ((k', v) ∷ h) = elim (Bool-cases (same_key k k')) [
    | inl e ↦ rw e (lookup-delete k h)
    | inr e ↦ rw e (rw e (lookup-delete k h))
  ]

  pub lookup-delete_ne :
      (k j : Key) (h : List (Key × Option V))
      → same_key j k ≡ false
      → lookup j (delete k h) ≡ lookup j h
  unfolding lookup delete
  lookup-delete_ne k j [] ne = refl
  lookup-delete_ne k j ((k', v) ∷ h) ne = elim (Bool-cases (same_key k k')) [
    | inl e ↦
        let differs : same_key j k' ≡ false = ap (same_key j) (sym (same_key-eq k k' e)) ∙ ne in
        rw (e, differs) (lookup-delete_ne k j h ne)
    | inr e ↦
        rw e (ap (λ (t : Option V). if same_key j k' then v else t) (lookup-delete_ne k j h ne))
  ]

  pub lookup-overwrite :
      (k : Key) (v : Option V) (h : List (Key × Option V))
      → has_key k h ≡ true
      → lookup k (overwrite k v h) ≡ v
  unfolding lookup overwrite has_key
  lookup-overwrite k v [] e = ground arith
  lookup-overwrite k v ((k', w) ∷ h) e = elim (Bool-cases (same_key k k')) [
    | inl f ↦ rw f (rw f refl)
    | inr f ↦ rw f (rw f (lookup-overwrite k v h ((rw f refl) ∙ e)))
  ]

  pub lookup-overwrite_ne :
      (k j : Key) (v : Option V) (h : List (Key × Option V))
      → same_key j k ≡ false
      → lookup j (overwrite k v h) ≡ lookup j h
  unfolding lookup overwrite
  lookup-overwrite_ne k j v [] ne = refl
  lookup-overwrite_ne k j v ((k', w) ∷ h) ne = elim (Bool-cases (same_key k k')) [
    | inl e ↦
        let differs : same_key j k' ≡ false = ap (same_key j) (sym (same_key-eq k k' e)) ∙ ne in
        rw (e, differs) refl
    | inr e ↦
        rw e
          (ap (λ (t : Option V). if same_key j k' then w else t) (lookup-overwrite_ne k j v h ne))
  ]

  length-array_set :
      (a : List (Option V)) (i : ℤ) (v : Option V) → length (array_set a i v) ≡ length a
  length-array_set a (pos i) v = length-set a (i - 1) v
  length-array_set a (negsuc i) v = refl

  -- Two lengths that agree have the same indices.
  pub in_array-length :
      (a b : List (Option V)) (j : ℤ) → length a ≡ length b → in_array a j ≡ in_array b j
  in_array-length a b j e = ap (λ (n : ℕ). ltb_ℤ (pos 0) j && leb_ℤ j (pos n)) e

  pub in_array-set :
      (a : List (Option V)) (i j : ℤ) (v : Option V) → in_array (array_set a i v) j ≡ in_array a j
  in_array-set a i j v = in_array-length (array_set a i v) a j (length-array_set a i v)

  pub array_at-set :
      (a : List (Option V)) (i : ℤ) (v : Option V)
      → in_array a i ≡ true
      → array_at (array_set a i v) i ≡ v
  array_at-set a (pos zero) v h = ground arith
  array_at-set a (pos (suc i)) v h =
      let e : suc i - 1 ≡ i = omega arith in
      ap (λ (n : ℕ). get_or (set a n v) n none) e ∙ get_or-set a i v (ground arith)
  array_at-set a (negsuc i) v h = ground arith

  pub array_at-set_ne :
      (a : List (Option V)) (i j : ℤ) (v : Option V)
      → i ≢ j
      → in_array a i ≡ true
      → in_array a j ≡ true
      → array_at (array_set a i v) j ≡ array_at a j
  array_at-set_ne a (pos i) (pos j) v ne hi hj =
      get_or-set_ne a (i - 1) (j - 1) v (λ e. ne (ap pos (ground arith)))
  array_at-set_ne a (negsuc i) j v ne hi hj = ground arith
  array_at-set_ne a (pos i) (negsuc j) v ne hi hj = refl

  -- One key of the hash part: it moves, or it stays.
  pub moves :
      (i : ℤ) (v : Option V) (h : List (Key × Option V)) (a : List (Option V))
      → in_array a i ≡ true
      → move_keys ((integer i, v) ∷ h) a ≡ move_keys h (array_set a i v)
  unfolding move_keys
  moves i v h a e =
      ap
        (λ (b : Bool). elim b as (λ _. List (Option V) × List (Key × Option V)) [
          | true ↦ move_keys h (array_set a i v)
          | false ↦ ((move_keys h a).0, (integer i, v) ∷ (move_keys h a).1)
        ])
        e

  pub stays :
      (i : ℤ) (v : Option V) (h : List (Key × Option V)) (a : List (Option V))
      → in_array a i ≡ false
      → move_keys ((integer i, v) ∷ h) a ≡ ((move_keys h a).0, (integer i, v) ∷ (move_keys h a).1)
  unfolding move_keys
  stays i v h a e =
      ap
        (λ (b : Bool). elim b as (λ _. List (Option V) × List (Key × Option V)) [
          | true ↦ move_keys h (array_set a i v)
          | false ↦ ((move_keys h a).0, (integer i, v) ∷ (move_keys h a).1)
        ])
        e

  pub length-move_keys :
      (h : List (Key × Option V)) (a : List (Option V)) → length (move_keys h a).0 ≡ length a
  unfolding move_keys
  length-move_keys [] a = refl
  length-move_keys ((other b, v) ∷ h) a = length-move_keys h a
  length-move_keys ((integer i, v) ∷ h) a = elim (Bool-cases (in_array a i)) [
    | inl e ↦
        ap (λ (m : List (Option V) × List (Key × Option V)). length m.0) (moves i v h a e)
        ∙ length-move_keys h (array_set a i v)
        ∙ length-array_set a i v
    | inr e ↦
        ap (λ (m : List (Option V) × List (Key × Option V)). length m.0) (stays i v h a e)
        ∙ length-move_keys h a
  ]

  pub apart :
      (a : List (Option V)) (i j : ℤ)
      → in_array a i ≢ in_array a j
      → same_key (integer j) (integer i) ≡ false
  apart a i j ne = same_key_ne j i (λ e. ne (ap (in_array a) (sym e)))

  -- A key outside the array stays where it was.
  pub lookup-move_keys :
      (h : List (Key × Option V)) (a : List (Option V)) (j : ℤ)
      → in_array a j ≡ false
      → lookup (integer j) (move_keys h a).1 ≡ lookup (integer j) h
  unfolding move_keys lookup
  lookup-move_keys [] a j out = refl
  lookup-move_keys ((other b, v) ∷ h) a j out = lookup-move_keys h a j out
  lookup-move_keys ((integer i, v) ∷ h) a j out = elim (Bool-cases (in_array a i)) [
    | inl e ↦
        let d = apart a i j (λ f. true_ne_false (sym e ∙ f ∙ out)) in
        ap (λ (m : List (Option V) × List (Key × Option V)). lookup (integer j) m.1)
          (moves i v h a e)
        ∙ lookup-move_keys h (array_set a i v) j (in_array-set a i j v ∙ out)
        ∙ sym (if-false v (lookup (integer j) h) d)
    | inr e ↦
        ap (λ (m : List (Option V) × List (Key × Option V)). lookup (integer j) m.1)
          (stays i v h a e)
        ∙ ap (λ (t : Option V). if same_key (integer j) (integer i) then v else t)
            (lookup-move_keys h a j out)
  ]

  unfoldable pub Unique : List (Key × Option V) → Type 0
  Unique [] = Unit {0}
  Unique ((k, v) ∷ h) = (has_key k h ≡ false) × Unique h

  -- The value of a key, or d where it has none.
  abbrev pub found_or : Key → List (Key × Option V) → Option V → Option V
  found_or k h d = if has_key k h then lookup k h else d

  found_or_first :
      (k k' : Key) (v : Option V) (h : List (Key × Option V)) (d : Option V)
      → found_or k ((k', v) ∷ h) d ≡ (if same_key k k' then v else found_or k h d)
  unfolding has_key lookup
  found_or_first k k' v h d = elim (Bool-cases (same_key k k')) [
    | inl e ↦ ground (arith, e)
    | inr e ↦ ground (arith, e)
  ]

  -- A key inside it gets the value of the hash part, if that had the key.
  pub array_at-move_keys :
      (h : List (Key × Option V)) (a : List (Option V)) (j : ℤ)
      → Unique h
      → in_array a j ≡ true
      → array_at (move_keys h a).0 j ≡ found_or (integer j) h (array_at a j)
  unfolding move_keys lookup has_key Unique
  array_at-move_keys [] a j unique inside = refl
  array_at-move_keys ((other b, v) ∷ h) a j (new, unique) inside =
      array_at-move_keys h a j unique inside
  array_at-move_keys ((integer i, v) ∷ h) a j (new, unique) inside =
      elim (Bool-cases (in_array a i)) [
        | inl e ↦
            ap (λ (m : List (Option V) × List (Key × Option V)). array_at m.0 j) (moves i v h a e)
            ∙ array_at-move_keys h (array_set a i v) j unique (in_array-set a i j v ∙ inside)
            ∙ elim (Bool-cases (same_key (integer j) (integer i))) [
              | inl f ↦
                  let same : j ≡ i = eq_of_parts j i (ground (arith, f)) in
                  if-false _ _ (ap (λ (k : ℤ). has_key (integer k) h) same ∙ new)
                  ∙ ap (array_at (array_set a i v)) same
                  ∙ array_at-set a i v e
                  ∙ sym (if-true v (found_or (integer j) h (array_at a j)) f)
              | inr f ↦
                  let ne : i ≢ j = λ g. true_ne_false (
                    sym (same_key_refl (integer i))
                    ∙ ap (λ (k : ℤ). same_key (integer k) (integer i)) g
                    ∙ f) in
                  ap (found_or (integer j) h) (array_at-set_ne a i j v ne e inside)
                  ∙ sym (if-false v (found_or (integer j) h (array_at a j)) f)
            ]
            ∙ sym (found_or_first (integer j) (integer i) v h (array_at a j))
        | inr e ↦
            let d = apart a i j (λ f. true_ne_false (sym inside ∙ sym f ∙ e)) in
            ap (λ (m : List (Option V) × List (Key × Option V)). array_at m.0 j) (stays i v h a e)
            ∙ array_at-move_keys h a j unique inside
            ∙ sym (
                found_or_first (integer j) (integer i) v h (array_at a j)
                ∙ if-false v (found_or (integer j) h (array_at a j)) d)
      ]
