-- ===== src/Shape/Linking.antt =====
-- lua/shape.go: linking a shape to its child, and giving a dictionary a key in place, keep the
-- invariant of the store.
use luart.Prelude.{
  true_ne_false, none_ne_some, ℕ, ◌<◌, ◌≡◌, ◌≢◌, ◌∙◌, sym, ap, arith, true, false, List, [], ◌∷◌,
  ◌++◌, none, some, if-true, if-false, Bool-cases, inl, inr, some_injective, length, length-set,
  set, get_or-set, get_or-set_ne, ℕ_discrete,
}
use mathlib.Core.Path.{subst}
use luart.Prelude.Texts.{equal_bytes, equal_bytes-eq}
use luart.Chunk.Proto.{Bytes}
use luart.Shape.{SlotKey, field_key, lookup_string, Shape, Shapes, empty_shape, shape_at, add_key}
use luart.Shape.Keys.{position, Distinct, WfShape, add_key-WfShape}
use luart.Shape.Store.{SameView, Child, WfStore}

pub SameView-trans : {s s' s'' : Shape} → SameView s s' → SameView s' s'' → SameView s s''
SameView-trans h k = record {
  slots_eq = k.slots_eq ∙ h.slots_eq;
  keys_eq = k.keys_eq ∙ h.keys_eq;
  dict_eq = k.dict_eq ∙ h.dict_eq;
}

pub SameView-WfShape : {s s' : Shape} → SameView s s' → WfShape s → WfShape s'
SameView-WfShape {s} {s'} view wf = record {
  agrees =
      λ k. ap (lookup_string k) view.slots_eq ∙ wf.agrees k ∙ sym (ap (position k) view.keys_eq);
  distinct = subst Distinct (sym view.keys_eq) wf.distinct;
}

module _ (shapes : Shapes) (r : ℕ) (lt : r < length shapes) (wf : WfStore shapes) where
  pub at_set : (x : Shape) → shape_at (set shapes r x) r ≡ x
  at_set x = get_or-set shapes r x empty_shape lt

  pub at_other : (x : Shape) (i : ℕ) → i ≢ r → shape_at (set shapes r x) i ≡ shape_at shapes i
  at_other x i ne = get_or-set_ne shapes r i x empty_shape (λ e. ne (sym e))

  abbrev pub linked : Bytes → ℕ → Shape
  linked key c = record (shape_at shapes r) { next = (key, c) ∷ (shape_at shapes r).next }

  -- A link to a child leaves every shape as it is seen.
  pub link-SameView :
      (key : Bytes) (c i : ℕ)
      → SameView (shape_at shapes i) (shape_at (set shapes r (linked key c)) i)
  link-SameView key c i = elim (ℕ_discrete i r) [
    | yes e ↦
        subst (λ (j : ℕ). SameView (shape_at shapes j) (shape_at (set shapes r (linked key c)) j))
          (sym e)
          (record {
            slots_eq = ap (λ (y : Shape). y.slots) (at_set (linked key c));
            keys_eq = ap (λ (y : Shape). y.keys) (at_set (linked key c));
            dict_eq = ap (λ (y : Shape). y.dict) (at_set (linked key c));
          })
    | no ne ↦ record {
      slots_eq = ap (λ (y : Shape). y.slots) (at_other (linked key c) i ne);
      keys_eq = ap (λ (y : Shape). y.keys) (at_other (linked key c) i ne);
      dict_eq = ap (λ (y : Shape). y.dict) (at_other (linked key c) i ne);
    }
  ]

  link-Child :
      (key : Bytes) (c i : ℕ) {k : Bytes} {j : ℕ}
      → Child shapes (shape_at shapes i) k j
      → Child (set shapes r (linked key c)) (shape_at (set shapes r (linked key c)) i) k j
  link-Child key c i {k} {j} h =
      let view : SameView (shape_at shapes j) _ = link-SameView key c j in
      record {
        in_store = omega (arith, h.in_store, length-set shapes r (linked key c));
        shared = view.dict_eq ∙ h.shared;
        one_more =
            view.keys_eq
            ∙ h.one_more
            ∙ ap (λ (ks : List SlotKey). ks ++ (field_key k ∷ []))
                (sym (link-SameView key c i).keys_eq);
      }

  linked-Child :
      (key : Bytes) (c : ℕ)
      → Child shapes (shape_at shapes r) key c
      → (k : Bytes) (j : ℕ) → lookup_string k (linked key c).next ≡ some j
      → Child shapes (shape_at shapes r) k j
  unfolding lookup_string
  linked-Child key c child k j found = elim (Bool-cases (equal_bytes k key)) [
    | inl e ↦
        let same : c ≡ j =
          some_injective
            (sym (if-true (some c) (lookup_string k (shape_at shapes r).next) e) ∙ found) in
        subst (λ (m : ℕ). Child shapes (shape_at shapes r) k m) same
          (subst (λ (x : Bytes). Child shapes (shape_at shapes r) x c)
            (sym (equal_bytes-eq k key e)) child)
    | inr e ↦
        wf.children r k j lt
          (sym (if-false (some c) (lookup_string k (shape_at shapes r).next) e) ∙ found)
  ]

  pub link-WfStore :
      (key : Bytes) (c : ℕ)
      → (shape_at shapes r).dict ≡ false
      → Child shapes (shape_at shapes r) key c
      → WfStore (set shapes r (linked key c))
  unfolding lookup_string
  link-WfStore key c shared child =
      let x : Shape = linked key c in
      let size : length (set shapes r x) ≡ length shapes = length-set shapes r x in
      record {
        rooted = omega (arith, size, wf.rooted);
        root_empty = (link-SameView key c 0).keys_eq ∙ wf.root_empty;
        root_shared = (link-SameView key c 0).dict_eq ∙ wf.root_shared;
        all_wf = λ i below.
            SameView-WfShape (link-SameView key c i) (wf.all_wf i (omega (arith, below, size)));
        childless = λ i below dict. elim (ℕ_discrete i r) [
          | yes e ↦ absurd (
              true_ne_false (
                sym (sym (link-SameView key c i).dict_eq ∙ dict)
                ∙ ap (λ (j : ℕ). (shape_at shapes j).dict) e
                ∙ shared))
          | no ne ↦
              ap (λ (y : Shape). y.next) (at_other x i ne)
              ∙ wf.childless i (omega (arith, below, size))
                  (sym (link-SameView key c i).dict_eq ∙ dict)
        ];
        children = λ i k j below found. elim (ℕ_discrete i r) [
          | yes e ↦
              let here : lookup_string k x.next ≡ some j =
                sym (ap (λ (y : Shape). lookup_string k y.next) (at_set x))
                ∙ sym (ap (λ (m : ℕ). lookup_string k (shape_at (set shapes r x) m).next) e)
                ∙ found in
              link-Child key c i (
                subst (λ (m : ℕ). Child shapes (shape_at shapes m) k j) (sym e)
                  (linked-Child key c child k j here))
          | no ne ↦ link-Child key c i (
              wf.children i k j (omega (arith, below, size))
                (sym (ap (λ (y : Shape). lookup_string k y.next) (at_other x i ne)) ∙ found))
        ];
      }

  -- A dictionary gets its key in place.
  pub dictionary-WfStore :
      (key : Bytes)
      → (shape_at shapes r).dict ≡ true
      → position key (shape_at shapes r).keys ≡ none
      → WfStore (set shapes r (add_key (shape_at shapes r) key))
  unfolding lookup_string
  dictionary-WfStore key dict absent =
      let x : Shape = add_key (shape_at shapes r) key in
      let size : length (set shapes r x) ≡ length shapes = length-set shapes r x in
      let not_r : (i : ℕ) → (shape_at shapes i).dict ≡ false → i ≢ r = λ i shared e.
        true_ne_false (sym dict ∙ sym (ap (λ (j : ℕ). (shape_at shapes j).dict) e) ∙ shared) in
      let root = at_other x 0 (not_r 0 wf.root_shared) in
      record {
        rooted = omega (arith, size, wf.rooted);
        root_empty = ap (λ (y : Shape). y.keys) root ∙ wf.root_empty;
        root_shared = ap (λ (y : Shape). y.dict) root ∙ wf.root_shared;
        all_wf = λ i below. elim (ℕ_discrete i r) [
          | yes e ↦
              subst (λ (j : ℕ). WfShape (shape_at (set shapes r x) j)) (sym e)
                (subst WfShape (sym (at_set x)) (add_key-WfShape key absent (wf.all_wf r lt)))
          | no ne ↦ subst WfShape (sym (at_other x i ne)) (wf.all_wf i (omega (arith, below, size)))
        ];
        childless = λ i below is_dict. elim (ℕ_discrete i r) [
          | yes e ↦
              ap (λ (j : ℕ). (shape_at (set shapes r x) j).next) e
              ∙ ap (λ (y : Shape). y.next) (at_set x)
              ∙ wf.childless r lt dict
          | no ne ↦
              ap (λ (y : Shape). y.next) (at_other x i ne)
              ∙ wf.childless i (omega (arith, below, size))
                  (sym (ap (λ (y : Shape). y.dict) (at_other x i ne)) ∙ is_dict)
        ];
        children = λ i k c below found. elim (ℕ_discrete i r) [
          | yes e ↦ absurd (
              none_ne_some (
                sym (
                  ap (λ (j : ℕ). lookup_string k (shape_at (set shapes r x) j).next) e
                  ∙ ap (λ (y : Shape). lookup_string k y.next) (at_set x)
                  ∙ ap (lookup_string k) (wf.childless r lt dict))
                ∙ found))
          | no ne ↦
              let child : Child shapes (shape_at shapes i) k c =
                wf.children i k c (omega (arith, below, size))
                  (sym (ap (λ (y : Shape). lookup_string k y.next) (at_other x i ne)) ∙ found) in
              let same = at_other x c (not_r c child.shared) in
              record {
                in_store = omega (arith, child.in_store, size);
                shared = ap (λ (y : Shape). y.dict) same ∙ child.shared;
                one_more =
                    ap (λ (y : Shape). y.keys) same
                    ∙ child.one_more
                    ∙ ap (λ (y : Shape). y.keys ++ (field_key k ∷ [])) (sym (at_other x i ne));
              }
        ];
      }
