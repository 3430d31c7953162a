-- ===== src/Shape/Adding.antt =====
-- lua/shape.go: what `with` makes of the store.
use luart.Prelude.{
  true_ne_false, ℕ, ◌<◌, ◌≡◌, ◌∙◌, refl, sym, ap, arith, true, false, [], ◌∷◌, ◌++◌, none, some,
  if-elim, option-elim, length, length-set, set, set-append,
}
use mathlib.Core.Path.{subst}
use luart.Chunk.Proto.{Bytes}
use luart.Shape.{
  field_key, lookup_string, Shape, Shapes, shape_at, add_key, dictionary, too_large, with_key,
}
use luart.Shape.Keys.{position, WfShape, add_key-WfShape, dictionary-WfShape}
use luart.Shape.Store.{
  Child, WfStore, Keeps, append-WfStore, append-Keeps, at_old, at_new, longer, SameView-eq,
}
use luart.Shape.Linking.{
  SameView-trans, at_set, at_other, linked, link-SameView, link-WfStore, dictionary-WfStore,
}

-- What `with` gives for the shape at r: a shape with one key more, in a store that keeps the
-- invariant and the other shapes.
pub record Added (shapes : Shapes) (r : ℕ) (key : Bytes) (p : Shapes × ℕ) : Type 0 where
  pub wf : WfStore p.0
  pub in_store : p.1 < length p.0
  pub one_more : (shape_at p.0 p.1).keys ≡ (shape_at shapes r).keys ++ (field_key key ∷ [])
  pub keeps : Keeps r shapes p.0
  pub owned :
      p.1 < length shapes
      → (shape_at p.0 p.1).dict ≡ true
      → (p.1 ≡ r) × ((shape_at shapes r).dict ≡ true)

module _ (shapes : Shapes) (r : ℕ) (key : Bytes) (wf : WfStore shapes) (lt : r < length shapes)
    (absent : position key (shape_at shapes r).keys ≡ none) where
  in_place-Added :
      (shape_at shapes r).dict ≡ true
      → Added shapes r key (set shapes r (add_key (shape_at shapes r) key), r)
  in_place-Added dict = record {
    wf = dictionary-WfStore shapes r lt wf key dict absent;
    in_store = omega (arith, lt, length-set shapes r (add_key (shape_at shapes r) key));
    one_more = ap (λ (y : Shape). y.keys) (at_set shapes r lt wf (add_key (shape_at shapes r) key));
    keeps = record {
      grows = omega (arith, length-set shapes r (add_key (shape_at shapes r) key));
      same = λ i _ apart.
          SameView-eq (at_other shapes r lt wf (add_key (shape_at shapes r) key) i (apart dict));
    };
    owned = λ _ _. (refl, dict);
  }

  old_child-Added :
      (c : ℕ) → lookup_string key (shape_at shapes r).next ≡ some c → Added shapes r key (shapes, c)
  old_child-Added c found =
      let child : Child shapes (shape_at shapes r) key c = wf.children r key c lt found in
      record {
        wf = wf;
        in_store = child.in_store;
        one_more = child.one_more;
        keeps = record { grows = omega arith; same = λ i _ _. SameView-eq refl };
        owned = λ _ dict. absurd (true_ne_false (sym dict ∙ child.shared));
      }

  appended-Added :
      (x : Shape)
      → WfShape x
      → x.next ≡ []
      → x.keys ≡ (shape_at shapes r).keys ++ (field_key key ∷ [])
      → Added shapes r key (shapes ++ (x ∷ []), length shapes)
  appended-Added x wf_x no_next keys = record {
    wf = append-WfStore shapes x wf wf_x no_next;
    in_store = omega (arith, longer shapes x);
    one_more = ap (λ (y : Shape). y.keys) (at_new shapes x) ∙ keys;
    keeps = append-Keeps shapes r x;
    owned = λ old _. absurd (omega (arith, old));
  }

  abbrev child_shape : Shape
  child_shape = record (add_key (shape_at shapes r) key) { next = [] }

  new_child-Added :
      (shape_at shapes r).dict ≡ false
      → Added shapes r key (
        set shapes r (record (shape_at shapes r) {
          next = (key, length shapes) ∷ (shape_at shapes r).next;
        })
            ++ (child_shape ∷ []),
        length shapes,
      )
  new_child-Added shared =
      subst (λ (store : Shapes). Added shapes r key (store, length shapes)) same_store
        (record {
          wf = link-WfStore longer_store r lt' added.wf key (length shapes) shared' (record {
            in_store = added.in_store;
            shared = ap (λ (y : Shape). y.dict) (at_new shapes child_shape) ∙ shared;
            one_more =
                added.one_more
                ∙ ap (λ (y : Shape). y.keys ++ (field_key key ∷ []))
                    (sym (at_old shapes child_shape r lt));
          });
          in_store = omega (arith, added.in_store, size);
          one_more =
              (link-SameView longer_store r lt' added.wf key (length shapes)
                (length shapes)).keys_eq
              ∙ added.one_more;
          keeps = record {
            grows = omega (arith, added.keeps.grows, size);
            same = λ i below apart.
                SameView-trans (added.keeps.same i below apart)
                  (link-SameView longer_store r lt' added.wf key (length shapes) i);
          };
          owned = λ old _. absurd (omega (arith, old));
        })
    where
      longer_store : Shapes
      longer_store = shapes ++ (child_shape ∷ [])

      added : Added shapes r key (longer_store, length shapes)
      added =
          appended-Added child_shape
            (record {
              agrees = (add_key-WfShape key absent (wf.all_wf r lt)).agrees;
              distinct = (add_key-WfShape key absent (wf.all_wf r lt)).distinct;
            })
            refl refl

      lt' : r < length longer_store
      lt' = omega (arith, lt, longer shapes child_shape)

      shared' : (shape_at longer_store r).dict ≡ false
      shared' = ap (λ (y : Shape). y.dict) (at_old shapes child_shape r lt) ∙ shared

      size :
          length (set longer_store r (linked longer_store r lt' added.wf key (length shapes)))
          ≡ length longer_store
      size = length-set longer_store r (linked longer_store r lt' added.wf key (length shapes))

      same_store :
          set longer_store r (linked longer_store r lt' added.wf key (length shapes))
          ≡ set shapes r (record (shape_at shapes r) {
            next = (key, length shapes) ∷ (shape_at shapes r).next;
          })
            ++ (child_shape ∷ [])
      same_store =
          ap (λ (y : Shape). set longer_store r (record y { next = (key, length shapes) ∷ y.next }))
            (at_old shapes child_shape r lt)
          ∙ set-append shapes (child_shape ∷ []) r
              (record (shape_at shapes r) {
                next = (key, length shapes) ∷ (shape_at shapes r).next;
              })
              lt

pub with_key-Added :
    (shapes : Shapes) (r : ℕ) (key : Bytes)
    → WfStore shapes
    → r < length shapes
    → position key (shape_at shapes r).keys ≡ none
    → Added shapes r key (with_key shapes r key)
unfolding with_key
with_key-Added shapes r key wf lt absent =
    if-elim (Added shapes r key) (shape_at shapes r).dict (in_place-Added shapes r key wf lt absent)
      (λ shared.
        option-elim (Added shapes r key) (lookup_string key (shape_at shapes r).next)
          (λ _.
            if-elim (Added shapes r key) (too_large (shape_at shapes r) key)
              (λ _.
                appended-Added shapes r key wf lt absent
                  (add_key (dictionary (shape_at shapes r)) key)
                  (add_key-WfShape key absent (dictionary-WfShape (wf.all_wf r lt))) refl refl)
              (λ _. new_child-Added shapes r key wf lt absent shared))
          (old_child-Added shapes r key wf lt absent))
