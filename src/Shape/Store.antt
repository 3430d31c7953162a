-- ===== src/Shape/Store.antt =====
-- lua/shape.go: adding a key to a shape changes no other shape that a table can have, and keeps the
-- tree of shapes: the child of a shape for a key has its keys and that one.
use luart.Prelude.{
  none_ne_some, ℕ, ◌+◌, ◌≤◌, ◌<◌, ◌≡◌, ◌≢◌, ◌∙◌, refl, sym, ap, arith, true, false, [], ◌∷◌, ◌++◌,
  none, some, length, length-append, get_or-append, get_or-append_end, dec_lt,
}
use mathlib.Core.Path.{subst}
use luart.Chunk.Proto.{Bytes}
use luart.Shape.{field_key, lookup_string, Shape, Shapes, empty_shape, shape_at}
use luart.Shape.Keys.{position, WfShape, no_keys}

-- What a shape says of the slots of its tables.
pub record SameView (s s' : Shape) : Type 0 where
  pub slots_eq : s'.slots ≡ s.slots
  pub keys_eq : s'.keys ≡ s.keys
  pub dict_eq : s'.dict ≡ s.dict

-- A child for a key, in the store.
pub record Child (shapes : Shapes) (s : Shape) (k : Bytes) (c : ℕ) : Type 0 where
  pub in_store : c < length shapes
  pub shared : (shape_at shapes c).dict ≡ false
  pub one_more : (shape_at shapes c).keys ≡ s.keys ++ (field_key k ∷ [])

-- The invariant of the store.
pub record WfStore (shapes : Shapes) : Type 0 where
  pub rooted : 0 < length shapes
  pub root_empty : (shape_at shapes 0).keys ≡ []
  pub root_shared : (shape_at shapes 0).dict ≡ false
  pub all_wf : (r : ℕ) → r < length shapes → WfShape (shape_at shapes r)
  pub childless :
      (r : ℕ) → r < length shapes → (shape_at shapes r).dict ≡ true → (shape_at shapes r).next ≡ []
  pub children :
      (r : ℕ) (k : Bytes) (c : ℕ)
      → r < length shapes
      → lookup_string k (shape_at shapes r).next ≡ some c
      → Child shapes (shape_at shapes r) k c

-- The shapes of the store are seen as before, but for the one at r if it is a dictionary.
pub record Keeps (r : ℕ) (shapes shapes' : Shapes) : Type 0 where
  pub grows : length shapes ≤ length shapes'
  pub same :
      (i : ℕ)
      → i < length shapes
      → ((shape_at shapes r).dict ≡ true → i ≢ r)
      → SameView (shape_at shapes i) (shape_at shapes' i)

pub SameView-eq : {s s' : Shape} → s' ≡ s → SameView s s'
SameView-eq e = record {
  slots_eq = ap (λ (x : Shape). x.slots) e;
  keys_eq = ap (λ (x : Shape). x.keys) e;
  dict_eq = ap (λ (x : Shape). x.dict) e;
}

module _ (shapes : Shapes) where
  -- An index of a longer store is old, or the new one.
  pub at_old :
      (x : Shape) (i : ℕ) → i < length shapes → shape_at (shapes ++ (x ∷ [])) i ≡ shape_at shapes i
  at_old x i lt = get_or-append shapes (x ∷ []) i empty_shape lt

  pub at_new : (x : Shape) → shape_at (shapes ++ (x ∷ [])) (length shapes) ≡ x
  at_new x = get_or-append_end shapes x empty_shape

  pub longer : (x : Shape) → length (shapes ++ (x ∷ [])) ≡ length shapes + 1
  longer x = length-append shapes (x ∷ [])

  pub append-Keeps : (r : ℕ) (x : Shape) → Keeps r shapes (shapes ++ (x ∷ []))
  append-Keeps r x = record {
    grows = omega (arith, longer x);
    same = λ i lt _. SameView-eq (at_old x i lt);
  }

  pub Child-append :
      {s : Shape} {k : Bytes} {c : ℕ} (x : Shape)
      → Child shapes s k c
      → Child (shapes ++ (x ∷ [])) s k c
  Child-append {c = c} x h = record {
    in_store = omega (arith, h.in_store, longer x);
    shared = ap (λ (y : Shape). y.dict) (at_old x c h.in_store) ∙ h.shared;
    one_more = ap (λ (y : Shape). y.keys) (at_old x c h.in_store) ∙ h.one_more;
  }

  -- A new shape without children keeps the invariant.
  pub append-WfStore :
      (x : Shape) → WfStore shapes → WfShape x → x.next ≡ [] → WfStore (shapes ++ (x ∷ []))
  unfolding lookup_string
  append-WfStore x wf wf_x no_next = record {
    rooted = omega (arith, wf.rooted, longer x);
    root_empty = ap (λ (y : Shape). y.keys) (at_old x 0 wf.rooted) ∙ wf.root_empty;
    root_shared = ap (λ (y : Shape). y.dict) (at_old x 0 wf.rooted) ∙ wf.root_shared;
    all_wf = λ r lt. elim (dec_lt r (length shapes)) [
      | yes old ↦ subst WfShape (sym (at_old x r old)) (wf.all_wf r old)
      | no new ↦ subst WfShape (sym (at_last r lt new)) wf_x
    ];
    childless = λ r lt dict. elim (dec_lt r (length shapes)) [
      | yes old ↦
          ap (λ (y : Shape). y.next) (at_old x r old)
          ∙ wf.childless r old (sym (ap (λ (y : Shape). y.dict) (at_old x r old)) ∙ dict)
      | no new ↦ ap (λ (y : Shape). y.next) (at_last r lt new) ∙ no_next
    ];
    children = λ r k c lt found. elim (dec_lt r (length shapes)) [
      | yes old ↦
          let found' : lookup_string k (shape_at shapes r).next ≡ some c =
            sym (ap (λ (y : Shape). lookup_string k y.next) (at_old x r old)) ∙ found in
          subst (λ s. Child (shapes ++ (x ∷ [])) s k c) (sym (at_old x r old))
            (Child-append x (wf.children r k c old found'))
      | no new ↦ absurd (
          none_ne_some (
            sym (
              ap (λ (y : Shape). lookup_string k y.next) (at_last r lt new)
              ∙ ap (lookup_string k) no_next)
            ∙ found))
    ];
  }
    where
      at_last :
          (r : ℕ)
          → r < length (shapes ++ (x ∷ []))
          → ¬ (r < length shapes)
          → shape_at (shapes ++ (x ∷ [])) r ≡ x
      at_last r lt new =
          let last : r ≡ length shapes = omega (arith, lt, new, longer x) in
          ap (shape_at (shapes ++ (x ∷ []))) last ∙ at_new x

-- The store of a new state.
pub root-WfStore : WfStore (empty_shape ∷ [])
unfolding empty_shape lookup_string position
root-WfStore = record {
  rooted = omega arith;
  root_empty = refl;
  root_shared = refl;
  all_wf = λ r lt.
      subst (λ (i : ℕ). WfShape (shape_at (empty_shape ∷ []) i)) (only r lt)
        (record { agrees = λ k. refl; distinct = no_keys });
  childless =
      λ r lt _. subst (λ (i : ℕ). (shape_at (empty_shape ∷ []) i).next ≡ []) (only r lt) refl;
  children = λ r k c lt found. absurd (
      nothing (
        subst (λ (i : ℕ). lookup_string k (shape_at (empty_shape ∷ []) i).next ≡ some c)
          (sym (only r lt)) found));
}
  where
    only : (r : ℕ) → r < 1 → 0 ≡ r
    only r lt = omega (arith, lt)

    nothing : {c : ℕ} → none ≡ some c → ⊥
    nothing e = ground (arith, e)
