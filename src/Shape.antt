-- ===== src/Shape.antt =====
-- lua/shape.go, and lua/tables.go at string keys: shapes as objects of a store that tables share,
-- in Fields
-- the fields of a table, and in Bury what a collection does to them.
pub mod Fields
pub mod Bury
pub mod Keys
pub mod Store
pub mod Linking
pub mod Adding
pub mod Views
pub mod Live
pub mod Growing
pub mod Moved
pub mod Put
pub mod Collected
mod Examples
use luart.Prelude.{
  ℕ, zero, suc, ◌+◌, ◌-◌, ◌*◌, ◌/◌, Bool, true, false, List, [], ◌∷◌, ◌++◌, map, Option, some, none,
  if◌then◌else◌, length, get_or, set, replicate, drop, ltb, leb, ◌==◌, ◌&&◌, ◌||◌, not,
}
use luart.Prelude.Texts.{equal_bytes}
use luart.Prelude.Int.{ℤ, pos, pos_part, neg_part, ltb_ℤ, ◌+ℤ◌, ◌-ℤ◌}
use luart.Chunk.Proto.{Bytes}
use luart.Table.{Heap, charge, charged, is_nil}

-- What a shape has at a slot: a key, or the tombstone of one.
pub data SlotKey : Type 0 where
  field_key : Bytes → SlotKey
  tombstone : ℕ → SlotKey

-- A map from strings, the newest entry first.
abbrev pub StringMap : Type 0
StringMap = List (Bytes × ℕ)

unfoldable pub lookup_string : Bytes → StringMap → Option ℕ
unfolding equal_bytes
lookup_string k [] = none
lookup_string k ((k', i) ∷ m) = if equal_bytes k k' then some i else lookup_string k m

-- `next` has indices of the store.
pub record Shape : Type 0 where
  pub slots : StringMap
  pub keys : List SlotKey
  pub next : StringMap
  pub dict : Bool

-- Shapes by the index that stands for their address. The root shape is at 0.
abbrev pub Shapes : Type 0
Shapes = List Shape

unfoldable pub empty_shape : Shape
empty_shape = record { slots = []; keys = []; next = []; dict = false }

abbrev pub shape_at : Shapes → ℕ → Shape
shape_at shapes r = get_or shapes r empty_shape

abbrev pub root_shape : ℕ
root_shape = 0

unfoldable pub max_shared_shape_keys : ℕ
max_shared_shape_keys = 32

unfoldable pub max_shape_children : ℕ
max_shape_children = 64

unfoldable pub max_shared_key_len : ℕ
max_shared_key_len = 40

-- A shape with one key more.
abbrev pub add_key : Shape → Bytes → Shape
add_key s key = record s {
  slots = (key, length s.keys) ∷ s.slots;
  keys = s.keys ++ (field_key key ∷ []);
}

-- A private copy.
abbrev pub dictionary : Shape → Shape
dictionary s = record { slots = s.slots; keys = s.keys; next = []; dict = true }

-- Whether a shape gets no more children.
unfoldable pub too_large : Shape → Bytes → Bool
unfolding max_shared_shape_keys max_shape_children max_shared_key_len
too_large s key =
    leb max_shared_shape_keys (length s.keys)
    || leb max_shape_children (length s.next)
    || ltb max_shared_key_len (length key)

-- The shape for the one at r plus a key that it does not have, and the store with it.
unfoldable pub with_key : Shapes → ℕ → Bytes → Shapes × ℕ
unfolding lookup_string too_large
with_key shapes r key =
    let s = shape_at shapes r in
    if s.dict then (set shapes r (add_key s key), r) else elim (lookup_string key s.next) [
      | some c ↦ (shapes, c)
      | none ↦
          if too_large s key
          then (shapes ++ (add_key (dictionary s) key ∷ []), length shapes)
          else (
            set shapes r (record s { next = (key, length shapes) ∷ s.next })
                ++ (record (add_key s key) { next = [] } ∷ []),
            length shapes,
          )
    ]
