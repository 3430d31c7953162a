-- ===== src/Shape/Keys.antt =====
-- lua/shape.go: the keys of a shape stand at the slots that its map gives, and at one slot each.
use luart.Prelude.{
  ℕ, suc, ◌<◌, ◌≡◌, ◌⊎◌, ◌∙◌, refl, sym, ap, ap₂, arith, Bool, true, false, List, [], ◌∷◌, ◌++◌,
  Option, none, some, if◌then◌else◌, if-true, if-false, Bool-cases, inl, inr, length,
}
use luart.Prelude.Texts.{equal_bytes, equal_bytes_sym, equal_bytes-eq}
use luart.Chunk.Proto.{Bytes}
use luart.Shape.{SlotKey, field_key, tombstone, lookup_string, Shape, add_key, dictionary}
use luart.Shape.Bury.{map_suc}

-- The slot of a key, from the keys of the slots.
unfoldable pub position : Bytes → List SlotKey → Option ℕ
position k [] = none
position k (tombstone h ∷ ks) = map_suc (position k ks)
position k (field_key k' ∷ ks) = if equal_bytes k k' then some 0 else map_suc (position k ks)

pub data Distinct : List SlotKey → Type 0 where
  no_keys : Distinct []
  buried_key : {h : ℕ} {ks : List SlotKey} → Distinct ks → Distinct (tombstone h ∷ ks)
  new_key :
      {k : Bytes} {ks : List SlotKey}
      → position k ks ≡ none
      → Distinct ks
      → Distinct (field_key k ∷ ks)

-- A shape whose map agrees with its keys.
pub record WfShape (s : Shape) : Type 0 where
  pub agrees : (k : Bytes) → lookup_string k s.slots ≡ position k s.keys
  pub distinct : Distinct s.keys

-- A key put after the others.
abbrev pub or_last : Option ℕ → Bool → ℕ → Option ℕ
or_last o b n = elim o [ some i ↦ some i | none ↦ if b then some n else none ]

or_last-suc :
    (o : Option ℕ) (b : Bool) (n : ℕ) → map_suc (or_last o b n) ≡ or_last (map_suc o) b (suc n)
or_last-suc none true n = refl
or_last-suc none false n = refl
or_last-suc (some i) b n = refl

or_last-false : (o : Option ℕ) (n : ℕ) → or_last o false n ≡ o
or_last-false none n = refl
or_last-false (some i) n = refl

pub map_suc-none : (o : Option ℕ) → map_suc o ≡ none → o ≡ none
map_suc-none none e = refl
map_suc-none (some i) e = absurd (ground (arith, e))

pub map_suc-some :
    (o : Option ℕ) (i : ℕ) → map_suc o ≡ some i → (j : ℕ) × (o ≡ some j) × (i ≡ suc j)
map_suc-some none i e = absurd (ground (arith, e))
map_suc-some (some j) i e = (j, refl, ground (arith, e))

-- Where a key is found that stands behind another.
pub found_cons :
    (b : Bool) (o : Option ℕ) (i : ℕ)
    → (if b then some 0 else map_suc o) ≡ some i
    → ((b ≡ true) × (i ≡ 0)) ⊎ ((b ≡ false) × ((j : ℕ) × (o ≡ some j) × (i ≡ suc j)))
found_cons true o i e = inl (refl, ground (arith, e))
found_cons false o i e = inr (refl, map_suc-some o i e)

pub absent_cons :
    (b : Bool) (o : Option ℕ) → (if b then some 0 else map_suc o) ≡ none → (b ≡ false) × (o ≡ none)
absent_cons true o e = absurd (ground (arith, e))
absent_cons false o e = (refl, map_suc-none o e)

pub position-append :
    (k key : Bytes) (ks : List SlotKey)
    → position k (ks ++ (field_key key ∷ []))
      ≡ or_last (position k ks) (equal_bytes k key) (length ks)
unfolding position
position-append k key [] = elim (equal_bytes k key) [ true ↦ refl | false ↦ refl ]
position-append k key (tombstone h ∷ ks) =
    ap map_suc (position-append k key ks)
    ∙ or_last-suc (position k ks) (equal_bytes k key) (length ks)
position-append k key (field_key k' ∷ ks) = elim (Bool-cases (equal_bytes k k')) [
  | inl e ↦
      if-true _ _ e
      ∙ sym (ap (λ (o : Option ℕ). or_last o (equal_bytes k key) (suc (length ks))) (if-true _ _ e))
  | inr e ↦
      if-false _ _ e
      ∙ ap map_suc (position-append k key ks)
      ∙ or_last-suc (position k ks) (equal_bytes k key) (length ks)
      ∙ sym
          (ap (λ (o : Option ℕ). or_last o (equal_bytes k key) (suc (length ks))) (if-false _ _ e))
]

pub position_bound :
    (k : Bytes) (ks : List SlotKey) (i : ℕ) → position k ks ≡ some i → i < length ks
unfolding position
position_bound k [] i e = absurd (ground (arith, e))
position_bound k (tombstone h ∷ ks) i e =
    let (j, found, next) = map_suc-some (position k ks) i e in
    omega (arith, next, position_bound k ks j found)
position_bound k (field_key k' ∷ ks) i e =
    elim (found_cons (equal_bytes k k') (position k ks) i e) [
      | inl (_, first) ↦ omega (arith, first)
      | inr (_, (j, found, next)) ↦ omega (arith, next, position_bound k ks j found)
    ]

Distinct-append :
    (key : Bytes) {ks : List SlotKey}
    → Distinct ks
    → position key ks ≡ none
    → Distinct (ks ++ (field_key key ∷ []))
unfolding position
Distinct-append key no_keys absent = new_key refl no_keys
Distinct-append key (buried_key {ks = ks} d) absent =
    buried_key (Distinct-append key d (map_suc-none (position key ks) absent))
Distinct-append key (new_key {k = k} {ks = ks} new d) absent =
    let (apart, absent') = absent_cons (equal_bytes key k) (position key ks) absent in
    new_key
      (position-append k key ks
        ∙ ap₂ (λ (o : Option ℕ) (b : Bool). or_last o b (length ks)) new
            (equal_bytes_sym k key ∙ apart))
      (Distinct-append key d absent')

pub add_key-WfShape :
    {s : Shape} (key : Bytes) → position key s.keys ≡ none → WfShape s → WfShape (add_key s key)
unfolding lookup_string
add_key-WfShape {s} key absent wf = record {
  agrees = λ k. elim (Bool-cases (equal_bytes k key)) [
    | inl e ↦
        let same : k ≡ key = equal_bytes-eq k key e in
        if-true _ _ e
        ∙ sym (
            position-append k key s.keys
            ∙ ap₂ (λ (o : Option ℕ) (b : Bool). or_last o b (length s.keys))
                (ap (λ (x : Bytes). position x s.keys) same ∙ absent) e)
    | inr e ↦
        if-false _ _ e
        ∙ wf.agrees k
        ∙ sym (
            position-append k key s.keys
            ∙ ap (λ (b : Bool). or_last (position k s.keys) b (length s.keys)) e
            ∙ or_last-false (position k s.keys) (length s.keys))
  ];
  distinct = Distinct-append key wf.distinct absent;
}

pub dictionary-WfShape : {s : Shape} → WfShape s → WfShape (dictionary s)
dictionary-WfShape wf = record { agrees = wf.agrees; distinct = wf.distinct }
