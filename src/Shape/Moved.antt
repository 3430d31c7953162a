-- ===== src/Shape/Moved.antt =====
-- lua/tables.go at string keys: a table that moves to a new dictionary, with the map it had.
use luart.Prelude.{
  some_ne_none, ℕ, ◌<◌, ◌≡◌, ◌∙◌, sym, ap, arith, List, [], ◌∷◌, ◌++◌, some, length, some_injective,
}
use mathlib.Core.Path.{subst}
use luart.Chunk.Proto.{Bytes}
use luart.Shape.{SlotKey, Shape, Shapes, shape_at}
use luart.Shape.Fields.{Fields, at_string}
use luart.Shape.Keys.{WfShape}
use luart.Shape.Store.{SameView-eq, WfStore, append-WfStore, at_new, at_old, longer}
use luart.Shape.Views.{Lays, laid}
use luart.Shape.Growing.{Fits, Apart, at_laid, Untouched, kept-Untouched}

-- A store and a table that read as before, and the other tables too.
pub record Collected {V : Type 0} (shapes : Shapes) (t : Fields V) (p : Shapes × Fields V)
    : Type 0 where
  pub wf : WfStore p.0
  pub fits : Fits p.0 p.1
  pub same : (k : Bytes) → at_string p.0 p.1 k ≡ at_string shapes t k
  pub untouched : (t₂ : Fields V) → Fits shapes t₂ → Untouched shapes p.0 t₂
  pub apart : (t₂ : Fields V) → Fits shapes t₂ → Apart shapes t t₂ → Apart p.0 p.1 t₂

-- A table that moves to a new shape, with the same map on it.
pub moved-Collected :
    {V : Type 0} (shapes : Shapes) (t t' : Fields V) (d : Shape)
    → WfStore shapes
    → WfShape d
    → d.next ≡ []
    → t'.shape ≡ some (length shapes)
    → Lays d.keys t'.values
    → ((k : Bytes) → laid d.keys t'.values k ≡ at_string shapes t k)
    → Collected shapes t (shapes ++ (d ∷ []), t')
moved-Collected {V = V} shapes t t' d wf wf_d no_next home lies same = record {
  wf = wf';
  fits = record {
    bare = λ q. absurd (some_ne_none (sym home ∙ q));
    in_store = λ i q. subst (λ (j : ℕ). j < length shapes') (some_injective (sym home ∙ q)) new_lt;
    lies = λ i q.
        subst (λ (j : ℕ). Lays (shape_at shapes' j).keys t'.values) (some_injective (sym home ∙ q))
          (subst (λ ks. Lays ks t'.values) (sym new_keys) lies);
  };
  same = λ k.
      at_laid shapes' t' (length shapes) k wf' new_lt home
      ∙ ap (λ (ks : List SlotKey). laid ks t'.values k) new_keys
      ∙ same k;
  untouched = λ t₂ fit₂.
      kept-Untouched shapes shapes' t₂ wf wf' (omega (arith, longer shapes d)) fit₂
        (λ r e. SameView-eq (at_old shapes d r (fit₂.in_store r e)));
  apart = λ t₂ fit₂ apart. record {
    no_dictionary =
        λ r own e. absurd (omega (arith, some_injective (sym home ∙ own), fit₂.in_store r e));
  };
}
  where
    shapes' : Shapes
    shapes' = shapes ++ (d ∷ [])

    wf' : WfStore shapes'
    wf' = append-WfStore shapes d wf wf_d no_next

    new_lt : length shapes < length shapes'
    new_lt = omega (arith, longer shapes d)

    new_keys : (shape_at shapes' (length shapes)).keys ≡ d.keys
    new_keys = ap (λ (y : Shape). y.keys) (at_new shapes d)
