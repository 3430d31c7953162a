-- ===== src/Shape/Fields.antt =====
-- lua/tables.go at string keys: reading, storing, and the dictionaries that drop nil slots. A value
-- is a parameter, and none is nil.
use luart.Prelude.{
  ℕ, suc, ◌*◌, ◌/◌, Bool, true, false, List, [], ◌∷◌, ◌++◌, Option, some, none, if◌then◌else◌,
  length, get_or, set, replicate, ◌&&◌, not,
}
use luart.Prelude.Int.{ℤ, pos, pos_part, ltb_ℤ, ◌+ℤ◌, ◌-ℤ◌}
use luart.Chunk.Proto.{Bytes}
use luart.Table.{Heap, charge, charged, is_nil}
use luart.Shape.{
  SlotKey, field_key, tombstone, StringMap, lookup_string, Shapes, shape_at, root_shape, with_key,
}

-- The fields of a table: its shape, the values in its slots, and what `tableExtra` counts.
-- `walking` is whether there is a snapshot of the hash part's keys; `site` is the index of the
-- cache of the instruction that made the table.
pub record Fields (V : Type 0) : Type 0 where
  pub shape : Option ℕ
  pub values : List (Option V)
  pub dead : ℤ
  pub buried : ℤ
  pub walking : Bool
  pub site : Option ℕ

-- What tables share: the shapes, the shape that each site learned, and the memory.
pub record Shared : Type 0 where
  pub shapes : Shapes
  pub sites : List (Option ℕ)
  pub heap : Heap

-- What the site of a table learns of its shape.
unfoldable pub teach_site : Shapes → List (Option ℕ) → Option ℕ → ℕ → List (Option ℕ)
teach_site shapes sites none r = sites
teach_site shapes sites (some x) r = set sites x (if (shape_at shapes r).dict then none else some r)

unfoldable pub min_compact_slots : ℤ
min_compact_slots = pos 8

module _ {V : Type 0} where
  -- The slot of a key.
  abbrev pub slot_of : Shapes → Fields V → Bytes → Option ℕ
  slot_of shapes t key = elim t.shape [
    | none ↦ none
    | some r ↦ lookup_string key (shape_at shapes r).slots
  ]

  unfoldable pub at_string : Shapes → Fields V → Bytes → Option V
  unfolding lookup_string
  at_string shapes t key = elim (slot_of shapes t key) [
    | none ↦ none
    | some i ↦ get_or t.values i none
  ]

  -- The live slots, with their keys numbered from n on.
  unfoldable pub live_keys : List SlotKey → List (Option V) → List SlotKey
  live_keys [] vs = []
  live_keys (k ∷ ks) [] = []
  live_keys (k ∷ ks) (none ∷ vs) = live_keys ks vs
  live_keys (k ∷ ks) (some v ∷ vs) = k ∷ live_keys ks vs

  unfoldable pub live_slots : List SlotKey → List (Option V) → ℕ → StringMap
  live_slots [] vs n = []
  live_slots (k ∷ ks) [] n = []
  live_slots (k ∷ ks) (none ∷ vs) n = live_slots ks vs n
  live_slots (tombstone h ∷ ks) (some v ∷ vs) n = ([], n) ∷ live_slots ks vs (suc n)
  live_slots (field_key k ∷ ks) (some v ∷ vs) n = (k, n) ∷ live_slots ks vs (suc n)

  unfoldable pub live_values : List (Option V) → List (Option V)
  live_values [] = []
  live_values (none ∷ vs) = live_values vs
  live_values (some v ∷ vs) = some v ∷ live_values vs

  -- Drops the nil slots of a dictionary: a new shape, and the table on it.
  unfoldable pub compact : Shapes → ℕ → Fields V → Shapes × Fields V
  unfolding live_keys live_slots live_values
  compact shapes r t =
      let s = shape_at shapes r in
      (
        shapes
            ++ (record {
              slots = live_slots s.keys t.values 0;
              keys = live_keys s.keys t.values;
              next = [];
              dict = true;
            }
                ∷ []),
        record t {
          shape = some (length shapes);
          values = live_values t.values;
          dead = pos 0;
          buried = pos 0;
        },
      )

  -- How a store to a slot of a dictionary counts its nil slots.
  unfoldable pub recount : Bool → Option V → Option V → ℤ → ℤ
  unfolding ◌+ℤ◌ ◌-ℤ◌
  recount dict old v dead =
      if dict
      then (if is_nil old && not (is_nil v)
          then dead -ℤ pos 1
          else if not (is_nil old) && is_nil v
          then dead +ℤ pos 1
          else dead)
      else dead

  abbrev pub dict_of : Shapes → Fields V → Bool
  dict_of shapes t = elim t.shape [ none ↦ false | some r ↦ (shape_at shapes r).dict ]

  -- Whether a dictionary has so many nil slots that they are dropped before it grows.
  unfoldable pub mostly_dead : Fields V → Bool
  unfolding min_compact_slots
  mostly_dead t = ltb_ℤ min_compact_slots t.dead && ltb_ℤ (pos (length t.values / 2)) t.dead

module _ {V : Type 0} (slot_bytes : ℕ) where
  -- The shape a table grows from, after dropping the nil slots of a dictionary that has many.
  unfoldable pub ready_to_grow : Shared → Fields V → Option (Shared × Fields V × ℕ)
  unfolding charge compact mostly_dead ◌-ℤ◌
  ready_to_grow sh t = elim t.shape [
    | none ↦ some (sh, t, root_shape)
    | some r ↦
        if (shape_at sh.shapes r).dict && mostly_dead t
        then charged
            (λ heap.
              let (shapes, t') = compact sh.shapes r t in
              (record sh { shapes = shapes; heap = heap }, t', length sh.shapes))
            (charge (pos_part (pos (length t.values) -ℤ t.dead) * 3 * slot_bytes) sh.heap)
        else some (sh, t, r)
  ]

  -- A new field, on top of the shape at r.
  unfoldable pub append_field :
      Shared → Fields V → ℕ → Bytes → Option V → Option (Shared × Fields V)
  unfolding charge with_key teach_site
  append_field sh t r key v =
      charged
        (λ heap.
          let (shapes, r') = with_key sh.shapes r key in
          (
            record { shapes = shapes; sites = teach_site shapes sh.sites t.site r'; heap = heap },
            record t { shape = some r'; values = t.values ++ (v ∷ []); walking = false },
          ))
        (charge (2 * slot_bytes) sh.heap)

  -- A new field of a table that has no slot for it.
  unfoldable pub put_new : Shared → Fields V → Bytes → Option V → Option (Shared × Fields V)
  unfolding ready_to_grow append_field
  put_new sh t key v = elim (ready_to_grow sh t) [
    | none ↦ none
    | some (sh', t', r) ↦ append_field sh' t' r key v
  ]

  unfoldable pub put_string : Shared → Fields V → Bytes → Option V → Option (Shared × Fields V)
  unfolding put_new lookup_string recount
  put_string sh t key v = elim (slot_of sh.shapes t key) [
    | some i ↦ some (
      sh,
      record t {
        values = set t.values i v;
        dead = recount (dict_of sh.shapes t) (get_or t.values i none) v t.dead;
      },
    )
    | none ↦ if is_nil v then some (sh, t) else put_new sh t key v
  ]

module _ {V : Type 0} where
  -- A store to a field that has a value, and whether there is one.
  unfoldable pub try_put_string : Shapes → Fields V → Bytes → Option V → Bool × Fields V
  unfolding lookup_string ◌+ℤ◌
  try_put_string shapes t key v = elim (slot_of shapes t key) [
    | none ↦ (false, t)
    | some i ↦ if is_nil (get_or t.values i none) then (false, t) else (
      true,
      record t {
        values = set t.values i v;
        dead = if is_nil v && dict_of shapes t then t.dead +ℤ pos 1 else t.dead;
      },
    )
  ]

  -- The fields of a new table, with the shape that its site learned.
  unfoldable pub new_table_at : Shapes → List (Option ℕ) → ℕ → Fields V
  new_table_at shapes sites site = elim (get_or sites site none) [
    | none ↦ record {
      shape = none;
      values = [];
      dead = pos 0;
      buried = pos 0;
      walking = false;
      site = some site;
    }
    | some r ↦ record {
      shape = some r;
      values = replicate (length (shape_at shapes r).keys) none;
      dead = pos 0;
      buried = pos 0;
      walking = false;
      site = some site;
    }
  ]
