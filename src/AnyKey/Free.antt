-- ===== src/AnyKey/Free.antt =====
-- lua/tables.go and lua/memory.go: without a memory limit put throws no memory error.
use luart.Prelude.{
  ℕ, ◌*◌, ◌≡◌, ◌≢◌, ◌∙◌, refl, ap, arith, Bool, false, Option, some, none, if◌then◌else◌, if-elim,
  option-elim, leb, length, set, get_or, ◌&&◌,
}
use mathlib.Core.Path.{subst}
use luart.Prelude.Int.{ℤ, pos, pos_part, ◌-ℤ◌}
use luart.Chunk.Proto.{Bytes}
use luart.Table.{Table, Key, integer, Heap, Outcome, is_nil, charge, charged, add_or_insert_hash}
use luart.Table.Put.{put_at_int_total}
use luart.Shape.{shape_at}
use luart.Shape.Fields.{
  Fields, Shared, slot_of, dict_of, recount, mostly_dead, put_string, put_new, ready_to_grow,
  append_field,
}
use luart.AnyKey.{
  NumericKey, integer_number, float_number, AnyKey, nil_key, text_key, number_key, object_key,
  hash_number, hash_object, Object, PutResult, memory_thrown, put_hash, table_put, string_put,
  normalise_key, put_number, put,
}

-- A result whose memory is still not limited.
abbrev FreeAfter : {A : Type 0} → (A → Heap) → Option A → Type 0
FreeAfter heap_of none = ⊥
FreeAfter heap_of (some a) = (heap_of a).limited ≡ false

charge-FreeAfter : (n : ℕ) (heap : Heap) → heap.limited ≡ false → FreeAfter (λ h. h) (charge n heap)
unfolding charge
charge-FreeAfter n heap free =
    if-elim (FreeAfter (λ h. h)) (leb n heap.remaining) (λ _. free)
      (λ _. if-elim (FreeAfter (λ h. h)) heap.limited (λ e. ground (arith, e, free)) (λ _. free))

charged-FreeAfter :
    {A : Type 0} (heap_of : A → Heap) (f : Heap → A) (c : Option Heap)
    → ((h : Heap) → heap_of (f h) ≡ h)
    → FreeAfter (λ h. h) c
    → FreeAfter heap_of (charged f c)
charged-FreeAfter heap_of f none same free = free
charged-FreeAfter heap_of f (some h) same free = ap (λ (x : Heap). x.limited) (same h) ∙ free

module _ {V : Type 0} where
  abbrev FreeRoom : Option (Shared × Fields V × ℕ) → Type 0
  FreeRoom = FreeAfter (λ p. p.0.heap)

  abbrev FreeStore : Option (Shared × Fields V) → Type 0
  FreeStore = FreeAfter (λ p. p.0.heap)

  ready_to_grow-FreeAfter :
      (slot_bytes : ℕ) (sh : Shared) (t : Fields V)
      → sh.heap.limited ≡ false
      → FreeRoom (ready_to_grow slot_bytes sh t)
  unfolding ready_to_grow
  ready_to_grow-FreeAfter slot_bytes sh t free =
      option-elim (FreeRoom) t.shape (λ _. free)
        (λ r _.
          if-elim FreeRoom ((shape_at sh.shapes r).dict && mostly_dead t)
            (λ _.
              charged-FreeAfter (λ p. p.0.heap) _
                (charge (pos_part (pos (length t.values) -ℤ t.dead) * 3 * slot_bytes) sh.heap)
                (λ h. refl) (charge-FreeAfter _ sh.heap free))
            (λ _. free))

  append_field-FreeAfter :
      (slot_bytes : ℕ) (sh : Shared) (t : Fields V) (r : ℕ) (key : Bytes) (v : Option V)
      → sh.heap.limited ≡ false
      → FreeStore (append_field slot_bytes sh t r key v)
  unfolding append_field
  append_field-FreeAfter slot_bytes sh t r key v free =
      charged-FreeAfter (λ p. p.0.heap) _ (charge (2 * slot_bytes) sh.heap) (λ h. refl)
        (charge-FreeAfter (2 * slot_bytes) sh.heap free)

  put_new-FreeAfter :
      (slot_bytes : ℕ) (sh : Shared) (t : Fields V) (key : Bytes) (v : Option V)
      → sh.heap.limited ≡ false
      → FreeStore (put_new slot_bytes sh t key v)
  unfolding put_new
  put_new-FreeAfter slot_bytes sh t key v free =
      go (ready_to_grow slot_bytes sh t) (ready_to_grow-FreeAfter slot_bytes sh t free)
    where
      go :
          (r : Option (Shared × Fields V × ℕ))
          → FreeRoom r
          → FreeStore (elim r as (λ _. Option (Shared × Fields V)) [
            | none ↦ none
            | some (sh', t', r') ↦ append_field slot_bytes sh' t' r' key v
          ])
      go none h = h
      go (some (sh', t', r')) h = append_field-FreeAfter slot_bytes sh' t' r' key v h

  put_string-FreeAfter :
      (slot_bytes : ℕ) (sh : Shared) (t : Fields V) (key : Bytes) (v : Option V)
      → sh.heap.limited ≡ false
      → FreeStore (put_string slot_bytes sh t key v)
  unfolding put_string
  put_string-FreeAfter slot_bytes sh t key v free =
      option-elim FreeStore (slot_of sh.shapes t key)
        {b = if is_nil v then some (sh, t) else put_new slot_bytes sh t key v}
        {f = λ i. some (
          sh,
          record t {
            values = set t.values i v;
            dead = recount (dict_of sh.shapes t) (get_or t.values i none) v t.dead;
          },
        )}
        (λ _.
          if-elim FreeStore (is_nil v) {a = some (sh, t)} (λ _. free)
            (λ _. put_new-FreeAfter slot_bytes sh t key v free))
        (λ i _. free)

  put_hash_total :
      (slot_bytes hash_entry_bytes : ℕ) (heap : Heap) (t : Table V) (k : Key) (v : Option V)
      → heap.limited ≡ false
      → put_hash slot_bytes hash_entry_bytes heap t k v ≢ none
  unfolding put_hash add_or_insert_hash charge
  put_hash_total slot_bytes hash_entry_bytes heap t k v free e = ground arith

  module _ (float_to_integer : ℕ → Option ℤ) (is_nan : ℕ → Bool) (slot_bytes hash_entry_bytes : ℕ)
      (sh : Shared) (o : Object V) (v : Option V) (free : sh.heap.limited ≡ false) where
    -- A result that is no memory error.
    abbrev Ends : PutResult V → Type 0
    Ends memory_thrown = ⊥
    Ends r = Unit {0}

    table_put-Ends : (k : Key) (r : Outcome V) → r ≢ none → Ends (table_put sh o k r)
    table_put-Ends k none ne = ne refl
    table_put-Ends k (some (heap, t)) ne = tt

    string_put-Ends : (r : Option (Shared × Fields V)) → FreeStore r → Ends (string_put o r)
    string_put-Ends none h = h
    string_put-Ends (some (sh', f)) h = tt

    number-Ends : (m : NumericKey) → Ends (put_number is_nan slot_bytes hash_entry_bytes sh o m v)
    unfolding put_number
    number-Ends (integer_number i) =
        table_put-Ends (integer i) _
          (put_at_int_total slot_bytes hash_entry_bytes sh.heap o.table i v free)
    number-Ends (float_number x) =
        if-elim Ends (is_nan x) (λ _. tt)
          (λ _. table_put-Ends (hash_number (float_number x)) _ (
            put_hash_total slot_bytes hash_entry_bytes sh.heap o.table
              (hash_number (float_number x)) v free))

    put-Ends :
        (k : AnyKey) → Ends (put float_to_integer is_nan slot_bytes hash_entry_bytes sh o k v)
    unfolding put
    put-Ends nil_key = tt
    put-Ends (text_key s) =
        string_put-Ends _ (put_string-FreeAfter slot_bytes sh o.strings s v free)
    put-Ends (number_key n) = number-Ends (normalise_key float_to_integer n)
    put-Ends (object_key n) =
        table_put-Ends (hash_object n) _
          (put_hash_total slot_bytes hash_entry_bytes sh.heap o.table (hash_object n) v free)

    -- A store of a value or nil at a key of any kind, in a state whose memory is not limited, throws no
    -- memory error.
    pub put-memory_thrown :
        (k : AnyKey)
        → put float_to_integer is_nan slot_bytes hash_entry_bytes sh o k v ≢ memory_thrown
    put-memory_thrown k e = subst Ends e (put-Ends k)
