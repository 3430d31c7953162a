-- ===== src/Table.antt =====
-- lua/tables.go: a table's array part and hash part, as integer keys see them: reading, writing,
-- growing the array, and the length operator. A value is a parameter, and none is nil.
pub mod Search
pub mod Length
pub mod Update
pub mod Grow
pub mod Put
pub mod Keep
mod Examples
use luart.Prelude.{
  ℕ, zero, suc, ◌+◌, ◌-◌, ◌*◌, ◌/◌, ◌^◌, ◌≤◌, ◌<◌, Bool, true, false, not, List, [], ◌∷◌, ◌++◌,
  Option, some, none, if◌then◌else◌, length, get_or, set, replicate, ltb, leb, ◌&&◌, max, ◌==◌,
}
use luart.Prelude.Int.{ℤ, pos, negsuc, eqb_ℤ, leb_ℤ, ltb_ℤ, ◌+ℤ◌, ◌-ℤ◌, sub_ℕ, pos_part}
use luart.Prelude.Word64.{wrap}

-- A key of the hash part: an integer, or the tag and payload of another value as one number.
pub data Key : Type 0 where
  integer : ℤ → Key
  other : ℕ → Key

abbrev pub same_key : Key → Key → Bool
same_key (integer i) (integer j) = eqb_ℤ i j
same_key (other a) (other b) = a == b
same_key (integer i) (other b) = false
same_key (other a) (integer j) = false

abbrev pub is_nil : {V : Type 0} → Option V → Bool
is_nil none = true
is_nil (some v) = false

pub record Table (V : Type 0) : Type 0 where
  pub array : List (Option V)
  pub has_hash : Bool
  pub hash : List (Key × Option V)

-- `(i + j) / 2` as an int, cut toward zero.
unfoldable pub half : ℤ → ℤ
half (pos n) = pos (n / 2)
half (negsuc n) = sub_ℕ 0 (suc n / 2)

-- The loop that narrows a present index i and an absent one j down to neighbours. It halves the
-- distance each round, so 64 rounds are enough.
unfoldable pub bisect : (ℤ → Bool) → ℕ → ℤ → ℤ → Option ℤ
unfolding half ◌+ℤ◌ ◌-ℤ◌ wrap
bisect absent zero i j = none
bisect absent (suc fuel) i j =
    let m = half (wrap (i +ℤ j)) in
    let rest = bisect absent fuel (if absent m then i else m) (if absent m then m else j) in
    if ltb_ℤ (pos 1) (wrap (j -ℤ i)) then rest else some i

-- The linear search for the first absent index.
unfoldable pub first_absent : (ℤ → Bool) → ℕ → ℤ → Option ℤ
first_absent absent zero i = none
first_absent absent (suc fuel) i =
    let rest = first_absent absent fuel (wrap (i +ℤ pos 1)) in
    if absent i then some (i -ℤ pos 1) else rest

-- The doubling loop of unboundSearch, and what follows it. An int doubles 63 times at most.
unfoldable pub double : (ℤ → Bool) → ℕ → ℕ → ℤ → ℤ → Option ℤ
double absent entries zero i j = none
double absent entries (suc fuel) i j =
    let j' = wrap (j +ℤ j) in
    let next = double absent entries fuel j j' in
    if absent j
    then bisect absent 64 i j
    else if ltb_ℤ j' (pos 0)
    then first_absent absent entries (pos 1)
    else next

module _ {V : Type 0} where
  unfoldable pub lookup : Key → List (Key × Option V) → Option V
  lookup k [] = none
  lookup k ((k', v) ∷ h) = if same_key k k' then v else lookup k h

  -- `1 <= k && k <= len(array)`
  abbrev pub in_array : List (Option V) → ℤ → Bool
  in_array a k = ltb_ℤ (pos 0) k && leb_ℤ k (pos (length a))

  -- `array[k-1]`, for an index in range.
  abbrev pub array_at : List (Option V) → ℤ → Option V
  array_at a (pos k) = get_or a (k - 1) none
  array_at a (negsuc k) = none

  -- `array[k-1] = v`, for an index in range.
  abbrev pub array_set : List (Option V) → ℤ → Option V → List (Option V)
  array_set a (pos k) v = set a (k - 1) v
  array_set a (negsuc k) v = a

  unfoldable pub at_int : Table V → ℤ → Option V
  at_int t k = if in_array t.array k then array_at t.array k else lookup (integer k) t.hash

  abbrev pub entries : Table V → ℕ
  entries t = suc (length t.array + length t.hash)

  unfoldable pub unbound_search : Table V → ℤ → Option ℤ
  unbound_search t j = double (λ k. is_nil (at_int t k)) (entries t) 64 j (wrap (j +ℤ pos 1))

  unfoldable pub table_length : Table V → Option ℤ
  unfolding lookup at_int double bisect first_absent unbound_search
  table_length t =
      let j = pos (length t.array) in
      if ltb 0 (length t.array) && is_nil (array_at t.array j)
      then bisect (λ k. is_nil (array_at t.array k)) 64 (pos 0) j
      else if not t.has_hash
      then some j
      else unbound_search t j

-- The memory that may still be counted, and whether there is a limit.
pub record Heap : Type 0 where
  pub remaining : ℕ
  pub limited : Bool

-- Counts n bytes; none is the memory error that is thrown.
unfoldable pub charge : ℕ → Heap → Option Heap
charge n heap =
    if leb n heap.remaining
    then some (record heap { remaining = heap.remaining - n })
    else if heap.limited
    then none
    else some (record heap { remaining = 2 ^ 63 - 1 - n })

-- The state after an operation, unless it throws.
abbrev pub Outcome : Type 0 → Type 0
Outcome V = Option (Heap × Table V)

abbrev pub charged : {S A : Type 0} → (S → A) → Option S → Option A
charged f none = none
charged f (some heap) = some (f heap)

module _ {V : Type 0} where
  -- The keys of the hash part that the array has room for move to it.
  unfoldable pub move_keys :
      List (Key × Option V) → List (Option V) → List (Option V) × List (Key × Option V)
  move_keys [] a = (a, [])
  move_keys ((other b, v) ∷ h) a = let (a', h') = move_keys h a in (a', (other b, v) ∷ h')
  move_keys ((integer i, v) ∷ h) a = elim (in_array a i) [
    | true ↦ move_keys h (array_set a i v)
    | false ↦ let (a', h') = move_keys h a in (a', (integer i, v) ∷ h')
  ]

  abbrev pub grown : Table V → ℕ → Table V
  grown t last =
      let (a, h) = move_keys t.hash (t.array ++ replicate (last - length t.array) none) in
      record t { array = a; hash = h }

  unfoldable pub count_array : List (Option V) → ℕ
  count_array [] = 0
  count_array (v ∷ a) = if is_nil v then count_array a else suc (count_array a)

  abbrev pub counts : Key → ℕ → Option V → Bool
  counts (integer i) key v = leb_ℤ i (pos key) && not (is_nil v)
  counts (other b) key v = false

  unfoldable pub count_hash : ℕ → List (Key × Option V) → ℕ
  count_hash key [] = 0
  count_hash key ((k, v) ∷ h) = if counts k key v then suc (count_hash key h) else count_hash key h

  unfoldable pub occupancy : Table V → ℕ → ℕ
  occupancy t key = count_array t.array + count_hash key t.hash

  -- The new array's length, if it is to grow for the key.
  unfoldable pub new_size : Table V → ℕ → Option ℕ
  new_size t key =
      if leb (key / 2) (occupancy t key) then some (max (occupancy t key * 2) key) else none

  unfoldable pub delete : Key → List (Key × Option V) → List (Key × Option V)
  delete k [] = []
  delete k ((k', v) ∷ h) = if same_key k k' then delete k h else (k', v) ∷ delete k h

  unfoldable pub has_key : Key → List (Key × Option V) → Bool
  has_key k [] = false
  has_key k ((k', v) ∷ h) = if same_key k k' then true else has_key k h

  unfoldable pub overwrite : Key → Option V → List (Key × Option V) → List (Key × Option V)
  overwrite k v [] = []
  overwrite k v ((k', w) ∷ h) = if same_key k k' then (k', v) ∷ h else (k', w) ∷ overwrite k v h

  abbrev pub stored : ℤ → Option V → Heap × Table V → Heap × Table V
  stored k v (heap, t) = (heap, record t { array = array_set t.array k v })

-- The sizes of a slot and of an entry of the hash part.
module _ {V : Type 0} (slot_bytes hash_entry_bytes : ℕ) where
  unfoldable pub extend_array : Heap → Table V → ℕ → Outcome V
  extend_array heap t last =
      charged (λ heap'. (heap', grown t last)) (charge ((last - length t.array) * slot_bytes) heap)

  unfoldable pub add_or_insert_hash : Heap → Table V → Key → Option V → Outcome V
  add_or_insert_hash heap t k v =
      if has_key k t.hash
      then some (heap, record t { hash = overwrite k v t.hash })
      else charged (λ heap'. (heap', record t { has_hash = true; hash = (k, v) ∷ t.hash }))
          (charge hash_entry_bytes heap)

  -- A value at a key above the array, which may grow for it.
  unfoldable pub put_above : Heap → Table V → ℤ → Option V → Outcome V
  put_above heap t k v = elim (new_size t (pos_part k)) [
    | some last ↦ charged (stored k v) (extend_array heap t last)
    | none ↦ add_or_insert_hash heap t (integer k) v
  ]

  unfoldable pub put_at_int : Heap → Table V → ℤ → Option V → Outcome V
  unfolding charge move_keys extend_array count_array count_hash occupancy new_size delete has_key
      overwrite add_or_insert_hash put_above
  put_at_int heap t k v =
      if in_array t.array k
      then some (stored k v (heap, t))
      else if is_nil v
      then some (heap, record t { hash = delete (integer k) t.hash })
      else if ltb_ℤ (pos 0) k
      then put_above heap t k v
      else add_or_insert_hash heap t (integer k) v
