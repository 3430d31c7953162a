-- ===== src/Shape/Examples.antt =====
-- lua/shape.go and lua/tables.go at string keys, at concrete inputs.
use luart.Prelude.{
  some_ne_none, ℕ, [], ◌∷◌, ◌≡◌, ◌<◌, refl, arith, Option, none, some, true, false, get_or,
  some_injective, length,
}
use mathlib.Core.Path.{subst}
use luart.Prelude.Int.{pos}
use luart.Chunk.Proto.{Bytes}
use luart.Shape.{field_key, lookup_string, Shape, Shapes, shape_at, empty_shape}
use luart.Shape.Fields.{Fields, Shared, put_string, at_string, new_table_at}
use luart.Shape.Bury.{bury_dead_keys, buried_slot}
use luart.Shape.Keys.{position, no_keys, new_key}
use luart.Shape.Store.{WfStore, root-WfStore, append-WfStore}
use luart.Shape.Views.{Lays, lays_nothing, lays_field}
use luart.Shape.Growing.{Fits, Unless, Stored}
use luart.Shape.Moved.{Collected}
use luart.Shape.Put.{put_string-Stored}
use luart.Shape.Collected.{bury_dead_keys-Collected, new_table_at-Fits}

abbrev name : Bytes
name = 110 ∷ []

abbrev size : Bytes
size = 115 ∷ []

abbrev fresh : Fields ℕ
fresh = record {
  shape = none;
  values = [];
  dead = pos 0;
  buried = pos 0;
  walking = false;
  site = none;
}

-- A dictionary with one key.
abbrev small_dictionary : Shape
small_dictionary = record {
  slots = (name, 0) ∷ [];
  keys = field_key name ∷ [];
  next = [];
  dict = true;
}

abbrev two_shapes : Shapes
two_shapes = empty_shape ∷ small_dictionary ∷ []

abbrev start : Shared
start = record {
  shapes = two_shapes;
  sites = [];
  heap = record { remaining = 1000; limited = true };
}

-- A table on the dictionary, whose slot is nil.
abbrev cleared : Fields ℕ
cleared = record {
  shape = some 1;
  values = none ∷ [];
  dead = pos 1;
  buried = pos 0;
  walking = false;
  site = none;
}

two_shapes-WfStore : WfStore two_shapes
unfolding empty_shape lookup_string position
two_shapes-WfStore =
    append-WfStore (empty_shape ∷ []) small_dictionary root-WfStore
      (record { agrees = λ k. refl; distinct = new_key refl no_keys }) refl

cleared-Fits : Fits two_shapes cleared
cleared-Fits = record {
  bare = λ e. absurd (some_ne_none e);
  in_store = λ r e. subst (λ (i : ℕ). i < 2) (some_injective e) (omega arith);
  lies = λ r e.
      subst (λ (i : ℕ). Lays {V = ℕ} (shape_at two_shapes i).keys (none ∷ [])) (some_injective e)
        (lays_field lays_nothing);
}

-- Two tables that get one key come to share a shape.
abbrev shape_of : Option (Shared × Fields ℕ) → Option ℕ
shape_of o = elim o [ none ↦ none | some p ↦ p.1.shape ]

abbrev then_put : Option (Shared × Fields ℕ) → Bytes → Option (Shared × Fields ℕ)
then_put o key = elim o [ none ↦ none | some p ↦ put_string 16 p.0 fresh key (some 7) ]

shared_shape :
    shape_of (put_string 16 start fresh size (some 5))
    ≡ shape_of (then_put (put_string 16 start fresh size (some 5)) size)
unfolding put_string empty_shape
shared_shape = refl

buried_key_found :
    buried_slot
      (λ k. length k)
      (shape_at (bury_dead_keys (λ k. length k) two_shapes cleared).0 2)
      name
    ≡ some 0
unfolding bury_dead_keys buried_slot empty_shape
buried_key_found = refl

put_string-Stored_example :
    Unless (Stored two_shapes cleared size (some 5)) (put_string 16 start cleared size (some 5))
put_string-Stored_example =
    put_string-Stored 16 start cleared size (some 5) two_shapes-WfStore cleared-Fits

bury_dead_keys-Collected_example :
    Collected two_shapes cleared (bury_dead_keys (λ k. length k) two_shapes cleared)
bury_dead_keys-Collected_example =
    bury_dead_keys-Collected (λ k. length k) two_shapes cleared two_shapes-WfStore cleared-Fits

learned_shape : (r : ℕ) → get_or (some 1 ∷ []) 0 none ≡ some r → r < 2
learned_shape r e = subst (λ (i : ℕ). i < 2) (some_injective e) (omega arith)

new_table_at-Fits_example :
    Fits {V = ℕ} two_shapes (new_table_at two_shapes (some 1 ∷ []) 0)
    × ((k : Bytes)
        → at_string {V = ℕ} two_shapes (new_table_at two_shapes (some 1 ∷ []) 0) k ≡ none)
new_table_at-Fits_example =
    new_table_at-Fits two_shapes (some 1 ∷ []) 0 two_shapes-WfStore learned_shape
