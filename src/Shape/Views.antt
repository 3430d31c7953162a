-- ===== src/Shape/Views.antt =====
-- lua/tables.go at string keys: the values in the slots of a shape, seen as a map from keys.
use luart.Prelude.{
  true_ne_false, none_ne_some, ℕ, suc, ◌+◌, ◌≡◌, ◌∙◌, refl, sym, ap, arith, Bool, true, false, List,
  [], ◌∷◌, ◌++◌, Option, none, some, if◌then◌else◌, if-true, if-false, Bool-cases, inl, inr, length,
  get_or, set,
}
use mathlib.Core.Path.{subst}
use luart.Prelude.Texts.{equal_bytes, equal_bytes-eq, equal_bytes_refl}
use luart.Chunk.Proto.{Bytes}
use luart.Shape.{SlotKey, field_key, tombstone}
use luart.Shape.Bury.{map_suc}
use luart.Shape.Keys.{position, absent_cons, map_suc-none, map_suc-some, found_cons}

-- One string is not equal to two that differ.
not_both :
    (k k' key : Bytes)
    → equal_bytes key k' ≡ false
    → equal_bytes k k' ≡ true
    → equal_bytes k key ≡ true
    → ⊥
not_both k k' key apart e f =
    let same : k' ≡ key = sym (equal_bytes-eq k k' e) ∙ equal_bytes-eq k key f in
    true_ne_false (sym (equal_bytes_refl key) ∙ ap (equal_bytes key) (sym same) ∙ apart)

-- An index n places later.
abbrev pub later : ℕ → Option ℕ → Option ℕ
later n o = elim o [ none ↦ none | some i ↦ some (n + i) ]

pub later-suc : (n : ℕ) (o : Option ℕ) → later (suc n) o ≡ later n (map_suc o)
later-suc n none = refl
later-suc n (some i) = ap some (omega arith)

module _ {V : Type 0} where
  -- Values in the slots of keys, where the slot of a buried key is nil.
  pub data Lays : List SlotKey → List (Option V) → Type 0 where
    lays_nothing : Lays [] []
    lays_field :
        {k : Bytes} {v : Option V} {ks : List SlotKey} {vs : List (Option V)}
        → Lays ks vs
        → Lays (field_key k ∷ ks) (v ∷ vs)
    lays_buried :
        {h : ℕ} {ks : List SlotKey} {vs : List (Option V)}
        → Lays ks vs
        → Lays (tombstone h ∷ ks) (none ∷ vs)

  pub Lays-length : {ks : List SlotKey} {vs : List (Option V)} → Lays ks vs → length vs ≡ length ks
  Lays-length lays_nothing = refl
  Lays-length (lays_field h) = ap suc (Lays-length h)
  Lays-length (lays_buried h) = ap suc (Lays-length h)

  pub Lays-append :
      (key : Bytes) (v : Option V) {ks : List SlotKey} {vs : List (Option V)}
      → Lays ks vs
      → Lays (ks ++ (field_key key ∷ [])) (vs ++ (v ∷ []))
  Lays-append key v lays_nothing = lays_field lays_nothing
  Lays-append key v (lays_field h) = lays_field (Lays-append key v h)
  Lays-append key v (lays_buried h) = lays_buried (Lays-append key v h)

  -- The value of a key.
  abbrev pub laid : List SlotKey → List (Option V) → Bytes → Option V
  laid ks vs k = elim (position k ks) [ none ↦ none | some i ↦ get_or vs i none ]

  laid_after :
      (o : Option ℕ) (v : Option V) (vs : List (Option V))
      → elim (map_suc o) as (λ _. Option V) [ none ↦ none | some i ↦ get_or (v ∷ vs) i none ]
        ≡ elim o [ none ↦ none | some i ↦ get_or vs i none ]
  laid_after none v vs = refl
  laid_after (some i) v vs = refl

  pub laid_field :
      (k k' : Bytes) (ks : List SlotKey) (v : Option V) (vs : List (Option V))
      → laid (field_key k' ∷ ks) (v ∷ vs) k ≡ (if equal_bytes k k' then v else laid ks vs k)
  unfolding position
  laid_field k k' ks v vs = elim (Bool-cases (equal_bytes k k')) [
    | inl e ↦
        ap (λ (o : Option ℕ). elim o [ none ↦ none | some i ↦ get_or (v ∷ vs) i none ])
          (if-true _ _ e)
        ∙ sym (if-true _ _ e)
    | inr e ↦
        ap (λ (o : Option ℕ). elim o [ none ↦ none | some i ↦ get_or (v ∷ vs) i none ])
          (if-false _ _ e)
        ∙ laid_after (position k ks) v vs
        ∙ sym (if-false _ _ e)
  ]

  pub laid_buried :
      (k : Bytes) (h : ℕ) (ks : List SlotKey) (v : Option V) (vs : List (Option V))
      → laid (tombstone h ∷ ks) (v ∷ vs) k ≡ laid ks vs k
  unfolding position
  laid_buried k h ks v vs = laid_after (position k ks) v vs

  pub laid_absent :
      (k k' : Bytes) (ks : List SlotKey) (vs : List (Option V))
      → position k' ks ≡ none
      → equal_bytes k k' ≡ true
      → laid ks vs k ≡ none
  laid_absent k k' ks vs absent e =
      ap (λ (o : Option ℕ). elim o [ none ↦ none | some i ↦ get_or vs i none ])
        (ap (λ (x : Bytes). position x ks) (equal_bytes-eq k k' e) ∙ absent)

  shadowed :
      (b : Bool) (x y z : Option V) → (if b then x else z) ≡ (if b then x else if b then y else z)
  shadowed true x y z = refl
  shadowed false x y z = refl

  -- Two tests that do not both hold can change places.
  swap_if :
      (b c : Bool) (x y z : Option V)
      → (b ≡ true → c ≡ true → ⊥)
      → (if b then x else if c then y else z) ≡ (if c then y else if b then x else z)
  swap_if true true x y z apart = absurd (apart refl refl)
  swap_if true false x y z apart = refl
  swap_if false true x y z apart = refl
  swap_if false false x y z apart = refl

  -- A value in a new slot is that of its key, and the other keys keep theirs.
  pub laid-append :
      (k key : Bytes) (v : Option V) {ks : List SlotKey} {vs : List (Option V)}
      → Lays ks vs
      → position key ks ≡ none
      → laid (ks ++ (field_key key ∷ [])) (vs ++ (v ∷ [])) k
        ≡ (if equal_bytes k key then v else laid ks vs k)
  unfolding position
  laid-append k key v lays_nothing absent = laid_field k key [] v []
  laid-append k key v (lays_buried {h = h} {ks = ks} {vs = vs} l) absent =
      laid_buried k h (ks ++ (field_key key ∷ [])) none (vs ++ (v ∷ []))
      ∙ laid-append k key v l (map_suc-none (position key ks) absent)
      ∙ ap (λ (o : Option V). if equal_bytes k key then v else o) (sym (laid_buried k h ks none vs))
  laid-append k key v (lays_field {k = k'} {v = w} {ks = ks} {vs = vs} l) absent =
      let (apart, rest) = absent_cons (equal_bytes key k') (position key ks) absent in
      laid_field k k' (ks ++ (field_key key ∷ [])) w (vs ++ (v ∷ []))
      ∙ ap (λ (o : Option V). if equal_bytes k k' then w else o) (laid-append k key v l rest)
      ∙ swap_if (equal_bytes k k') (equal_bytes k key) w v (laid ks vs k) (not_both k k' key apart)
      ∙ ap (λ (o : Option V). if equal_bytes k key then v else o) (sym (laid_field k k' ks w vs))

  -- A store to the slot of a key.
  pub laid-set :
      (k key : Bytes) (v : Option V) (i : ℕ) {ks : List SlotKey} {vs : List (Option V)}
      → Lays ks vs
      → position key ks ≡ some i
      → laid ks (set vs i v) k ≡ (if equal_bytes k key then v else laid ks vs k)
  unfolding position
  laid-set k key v i lays_nothing found = absurd (none_ne_some found)
  laid-set k key v i (lays_buried {h = h} {ks = ks} {vs = vs} l) found =
      let (j, there, next) = map_suc-some (position key ks) i found in
      ap (λ (m : ℕ). laid (tombstone h ∷ ks) (set (none ∷ vs) m v) k) next
      ∙ laid_buried k h ks none (set vs j v)
      ∙ laid-set k key v j l there
      ∙ ap (λ (o : Option V). if equal_bytes k key then v else o) (sym (laid_buried k h ks none vs))
  laid-set k key v i (lays_field {k = k'} {v = w} {ks = ks} {vs = vs} l) found =
      elim (found_cons (equal_bytes key k') (position key ks) i found) [
        | inl (here, first) ↦
            let same : k' ≡ key = sym (equal_bytes-eq key k' here) in
            ap (λ (m : ℕ). laid (field_key k' ∷ ks) (set (w ∷ vs) m v) k) first
            ∙ laid_field k k' ks v vs
            ∙ ap (λ (x : Bytes). if equal_bytes k x then v else laid ks vs k) same
            ∙ shadowed (equal_bytes k key) v w (laid ks vs k)
            ∙ ap
                (λ (x : Bytes).
                  if equal_bytes k key then v else if equal_bytes k x then w else laid ks vs k)
                (sym same)
            ∙ ap (λ (o : Option V). if equal_bytes k key then v else o)
                (sym (laid_field k k' ks w vs))
        | inr (apart, (j, there, next)) ↦
            ap (λ (m : ℕ). laid (field_key k' ∷ ks) (set (w ∷ vs) m v) k) next
            ∙ laid_field k k' ks w (set vs j v)
            ∙ ap (λ (o : Option V). if equal_bytes k k' then w else o) (laid-set k key v j l there)
            ∙ swap_if (equal_bytes k k') (equal_bytes k key) w v (laid ks vs k)
                (not_both k k' key apart)
            ∙ ap (λ (o : Option V). if equal_bytes k key then v else o)
                (sym (laid_field k k' ks w vs))
      ]

  pub Lays-set :
      (key : Bytes) (v : Option V) (i : ℕ) {ks : List SlotKey} {vs : List (Option V)}
      → Lays ks vs
      → position key ks ≡ some i
      → Lays ks (set vs i v)
  unfolding position
  Lays-set key v i lays_nothing found = absurd (none_ne_some found)
  Lays-set key v i (lays_buried {h = h} {ks = ks} {vs = vs} l) found =
      let (j, there, next) = map_suc-some (position key ks) i found in
      subst (λ (m : ℕ). Lays (tombstone h ∷ ks) (set (none ∷ vs) m v)) (sym next)
        (lays_buried (Lays-set key v j l there))
  Lays-set key v i (lays_field {k = k'} {v = w} {ks = ks} {vs = vs} l) found =
      elim (found_cons (equal_bytes key k') (position key ks) i found) [
        | inl (_, first) ↦
            subst (λ (m : ℕ). Lays (field_key k' ∷ ks) (set (w ∷ vs) m v)) (sym first)
              (lays_field l)
        | inr (_, (j, there, next)) ↦
            subst (λ (m : ℕ). Lays (field_key k' ∷ ks) (set (w ∷ vs) m v)) (sym next)
              (lays_field (Lays-set key v j l there))
      ]
