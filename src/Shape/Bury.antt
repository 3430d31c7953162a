-- ===== src/Shape/Bury.antt =====
-- lua/shape.go and lua/gc.go: a collection buries the keys of a dictionary's nil slots.
use luart.Prelude.{
  ℕ, suc, true, List, [], ◌∷◌, ◌++◌, Option, some, none, if◌then◌else◌, length, get_or, drop, ◌==◌,
  ◌&&◌,
}
use luart.Prelude.Int.{ltb_ℤ}
use luart.Chunk.Proto.{Bytes}
use luart.Table.{is_nil}
use luart.Shape.{SlotKey, field_key, tombstone, StringMap, Shape, Shapes, shape_at}
use luart.Shape.Fields.{Fields}

-- An index one later.
abbrev pub map_suc : Option ℕ → Option ℕ
map_suc o = elim o [ none ↦ none | some i ↦ some (suc i) ]

unfoldable pub tombstone_slot : ℕ → List SlotKey → Option ℕ
tombstone_slot h [] = none
tombstone_slot h (field_key k ∷ ks) = map_suc (tombstone_slot h ks)
tombstone_slot h (tombstone h' ∷ ks) = if h' == h then some 0 else map_suc (tombstone_slot h ks)

-- The slot where a key was buried.
unfoldable pub buried_slot : (Bytes → ℕ) → Shape → Bytes → Option ℕ
unfolding tombstone_slot
buried_slot hash s k = if s.dict then tombstone_slot (hash k) s.keys else none

-- `hash` is the hash of a buried key.
module _ {V : Type 0} (hash : Bytes → ℕ) where
  unfoldable pub buried_keys : List SlotKey → List (Option V) → List SlotKey
  buried_keys [] vs = []
  buried_keys (tombstone h ∷ ks) vs = tombstone h ∷ buried_keys ks (drop 1 vs)
  buried_keys (field_key k ∷ ks) vs =
      (if is_nil (get_or vs 0 none) then tombstone (hash k) else field_key k)
      ∷ buried_keys ks (drop 1 vs)

  unfoldable pub kept_slots : List SlotKey → List (Option V) → ℕ → StringMap
  kept_slots [] vs n = []
  kept_slots (tombstone h ∷ ks) vs n = kept_slots ks (drop 1 vs) (suc n)
  kept_slots (field_key k ∷ ks) vs n =
      if is_nil (get_or vs 0 none)
      then kept_slots ks (drop 1 vs) (suc n)
      else (k, n) ∷ kept_slots ks (drop 1 vs) (suc n)

  -- A copy of a dictionary without the keys of nil slots.
  unfoldable pub bury : Shape → List (Option V) → Shape
  unfolding buried_keys kept_slots
  bury s vs = record {
    slots = kept_slots s.keys vs 0;
    keys = buried_keys s.keys vs;
    next = [];
    dict = true;
  }

  unfoldable pub bury_dead_keys : Shapes → Fields V → Shapes × Fields V
  unfolding bury
  bury_dead_keys shapes t = elim t.shape [
    | none ↦ (shapes, t)
    | some r ↦
        if (shape_at shapes r).dict && ltb_ℤ t.buried t.dead
        then (
          shapes ++ (bury (shape_at shapes r) t.values ∷ []),
          record t { shape = some (length shapes); buried = t.dead },
        )
        else (shapes, t)
  ]
