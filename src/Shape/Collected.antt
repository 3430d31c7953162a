-- ===== src/Shape/Collected.antt =====
-- lua/tables.go and lua/gc.go at string keys: burying the keys of nil slots, and starting a table
-- with the shape that others reached, change the map of no table.
use luart.Prelude.{
  none_ne_some, some_ne_none, ℕ, zero, suc, ◌<◌, ◌≡◌, ◌∙◌, refl, sym, ap, arith, List, [], ◌∷◌,
  Option, none, some, if◌then◌else◌, if-true, if-false, Bool-cases, inl, inr, length, get_or,
  some_injective, if-elim, option-elim, ◌&&◌, replicate,
}
use mathlib.Core.Path.{subst}
use luart.Prelude.Int.{ltb_ℤ}
use luart.Prelude.Texts.{equal_bytes}
use luart.Chunk.Proto.{Bytes}
use luart.Shape.{SlotKey, field_key, tombstone, lookup_string, Shapes, shape_at}
use luart.Shape.Fields.{Fields, at_string, new_table_at}
use luart.Shape.Bury.{map_suc, buried_keys, kept_slots, bury, bury_dead_keys}
use luart.Shape.Keys.{
  position, WfShape, Distinct, no_keys, buried_key, new_key, absent_cons, map_suc-none,
}
use luart.Shape.Store.{WfStore}
use luart.Shape.Views.{
  Lays, lays_nothing, lays_field, lays_buried, laid, laid_field, laid_buried, laid_absent, later,
  later-suc,
}
use luart.Shape.Growing.{Fits, at_laid, at_bare}
use luart.Shape.Moved.{Collected, moved-Collected}

later_zero : (o : Option ℕ) → later 0 o ≡ o
later_zero none = refl
later_zero (some i) = ap some (omega arith)

module _ {V : Type 0} (hash : Bytes → ℕ) where
  buried_absent :
      (k : Bytes) {ks : List SlotKey} {vs : List (Option V)}
      → Lays ks vs
      → position k ks ≡ none
      → position k (buried_keys hash ks vs) ≡ none
  unfolding buried_keys position
  buried_absent k lays_nothing e = refl
  buried_absent k (lays_buried {ks = ks} l) e =
      ap map_suc (buried_absent k l (map_suc-none (position k ks) e))
  buried_absent k (lays_field {k = k'} {v = none} {ks = ks} l) e =
      ap map_suc (buried_absent k l (absent_cons (equal_bytes k k') (position k ks) e).1)
  buried_absent k (lays_field {k = k'} {v = some v} {ks = ks} l) e =
      let (apart, rest) = absent_cons (equal_bytes k k') (position k ks) e in
      if-false _ _ apart ∙ ap map_suc (buried_absent k l rest)

  buried-Distinct :
      {ks : List SlotKey} {vs : List (Option V)}
      → Lays ks vs
      → Distinct ks
      → Distinct (buried_keys hash ks vs)
  unfolding buried_keys
  buried-Distinct lays_nothing d = no_keys
  buried-Distinct (lays_buried l) (buried_key d) = buried_key (buried-Distinct l d)
  buried-Distinct (lays_field {v = none} l) (new_key new d) = buried_key (buried-Distinct l d)
  buried-Distinct (lays_field {k = k} {v = some v} l) (new_key new d) =
      new_key (buried_absent k l new) (buried-Distinct l d)

  buried-Lays :
      {ks : List SlotKey} {vs : List (Option V)} → Lays ks vs → Lays (buried_keys hash ks vs) vs
  unfolding buried_keys
  buried-Lays lays_nothing = lays_nothing
  buried-Lays (lays_buried l) = lays_buried (buried-Lays l)
  buried-Lays (lays_field {v = none} l) = lays_buried (buried-Lays l)
  buried-Lays (lays_field {v = some v} l) = lays_field (buried-Lays l)

  lookup-kept :
      (k : Bytes) (n : ℕ) {ks : List SlotKey} {vs : List (Option V)}
      → Lays ks vs
      → lookup_string k (kept_slots hash ks vs n) ≡ later n (position k (buried_keys hash ks vs))
  unfolding buried_keys kept_slots lookup_string position
  lookup-kept k n lays_nothing = refl
  lookup-kept k n (lays_buried {ks = ks} {vs = vs} l) =
      lookup-kept k (suc n) l ∙ later-suc n (position k (buried_keys hash ks vs))
  lookup-kept k n (lays_field {v = none} {ks = ks} {vs = vs} l) =
      lookup-kept k (suc n) l ∙ later-suc n (position k (buried_keys hash ks vs))
  lookup-kept k n (lays_field {k = k'} {v = some v} {ks = ks} {vs = vs} l) =
      elim (Bool-cases (equal_bytes k k')) [
        | inl e ↦
            if-true _ _ e
            ∙ ap some (omega arith)
            ∙ sym
                (ap (later n) (if-true (some 0) (map_suc (position k (buried_keys hash ks vs))) e))
        | inr e ↦
            if-false _ _ e
            ∙ lookup-kept k (suc n) l
            ∙ later-suc n (position k (buried_keys hash ks vs))
            ∙ sym
                (ap (later n) (if-false (some 0) (map_suc (position k (buried_keys hash ks vs))) e))
      ]

  laid-bury :
      (k : Bytes) {ks : List SlotKey} {vs : List (Option V)}
      → Lays ks vs
      → Distinct ks
      → laid (buried_keys hash ks vs) vs k ≡ laid ks vs k
  unfolding buried_keys
  laid-bury k lays_nothing d = refl
  laid-bury k (lays_buried {h = h} {ks = ks} {vs = vs} l) (buried_key d) =
      laid_buried k h (buried_keys hash ks vs) none vs
      ∙ laid-bury k l d
      ∙ sym (laid_buried k h ks none vs)
  laid-bury k (lays_field {k = k'} {v = some v} {ks = ks} {vs = vs} l) (new_key new d) =
      laid_field k k' (buried_keys hash ks vs) (some v) vs
      ∙ ap (λ (o : Option V). if equal_bytes k k' then some v else o) (laid-bury k l d)
      ∙ sym (laid_field k k' ks (some v) vs)
  laid-bury k (lays_field {k = k'} {v = none} {ks = ks} {vs = vs} l) (new_key new d) =
      laid_buried k (hash k') (buried_keys hash ks vs) none vs
      ∙ laid-bury k l d
      ∙ elim (Bool-cases (equal_bytes k k')) [
        | inl e ↦ laid_absent k k' ks vs new e ∙ sym (laid_field k k' ks none vs ∙ if-true _ _ e)
        | inr e ↦ sym (laid_field k k' ks none vs ∙ if-false _ _ e)
      ]

-- Burying the keys of a dictionary's nil slots leaves the table its map, keeps the invariant of the
-- store, and is seen by no other table.
pub bury_dead_keys-Collected :
    {V : Type 0} (hash : Bytes → ℕ) (shapes : Shapes) (t : Fields V)
    → WfStore shapes
    → Fits shapes t
    → Collected shapes t (bury_dead_keys hash shapes t)
unfolding bury_dead_keys bury
bury_dead_keys-Collected hash shapes t wf fit =
    option-elim (Collected shapes t) t.shape (λ _. as_is)
      (λ r e.
        if-elim (Collected shapes t) ((shape_at shapes r).dict && ltb_ℤ t.buried t.dead)
          (λ _.
            let lies : Lays (shape_at shapes r).keys t.values = fit.lies r e in
            let whole : WfShape (shape_at shapes r) = wf.all_wf r (fit.in_store r e) in
            moved-Collected shapes t _ (bury hash (shape_at shapes r) t.values) wf
              (record {
                agrees = λ k. lookup-kept hash k 0 lies ∙ later_zero _;
                distinct = buried-Distinct hash lies whole.distinct;
              })
              refl refl (buried-Lays hash lies)
              (λ k.
                laid-bury hash k lies whole.distinct
                ∙ sym (at_laid shapes t r k wf (fit.in_store r e) e)))
          (λ _. as_is))
  where
    as_is : Collected shapes t (shapes, t)
    as_is = record {
      wf = wf;
      fits = fit;
      same = λ k. refl;
      untouched = λ t₂ fit₂. record { fits = fit₂; same = λ k. refl };
      apart = λ t₂ fit₂ apart. apart;
    }

replicate-Lays : {V : Type 0} (ks : List SlotKey) → Lays {V = V} ks (replicate (length ks) none)
replicate-Lays [] = lays_nothing
replicate-Lays (field_key k ∷ ks) = lays_field (replicate-Lays ks)
replicate-Lays (tombstone h ∷ ks) = lays_buried (replicate-Lays ks)

get_or-replicate : {V : Type 0} (n i : ℕ) → get_or {A = Option V} (replicate n none) i none ≡ none
get_or-replicate zero i = refl
get_or-replicate (suc n) zero = refl
get_or-replicate (suc n) (suc i) = get_or-replicate n i

-- A new table on the shape that its site learned fits the store and reads as empty.
pub new_table_at-Fits :
    {V : Type 0} (shapes : Shapes) (sites : List (Option ℕ)) (site : ℕ)
    → WfStore shapes
    → ((r : ℕ) → get_or sites site none ≡ some r → r < length shapes)
    → Fits {V = V} shapes (new_table_at shapes sites site)
      × ((k : Bytes) → at_string {V = V} shapes (new_table_at shapes sites site) k ≡ none)
unfolding new_table_at
new_table_at-Fits {V = V} shapes sites site wf learned =
    option-elim (λ (t : Fields V). Fits shapes t × ((k : Bytes) → at_string shapes t k ≡ none))
      (get_or sites site none)
      (λ _. (
        record {
          bare = λ _. refl;
          in_store = λ r q. absurd (none_ne_some q);
          lies = λ r q. absurd (none_ne_some q);
        },
        λ k. at_bare shapes _ k refl,
      ))
      (λ r e. (
        record {
          bare = λ q. absurd (some_ne_none q);
          in_store = λ i q. subst (λ (j : ℕ). j < length shapes) (some_injective q) (learned r e);
          lies = λ i q.
              subst
                (λ (j : ℕ).
                  Lays {V = V} (shape_at shapes j).keys
                    (replicate (length (shape_at shapes r).keys) none))
                (some_injective q) (replicate-Lays (shape_at shapes r).keys);
        },
        λ k.
            at_laid shapes _ r k wf (learned r e) refl
            ∙ nothing (position k (shape_at shapes r).keys) (length (shape_at shapes r).keys),
      ))
  where
    nothing :
        (o : Option ℕ) (n : ℕ)
        → elim o as (λ _. Option V) [ none ↦ none | some i ↦ get_or (replicate n none) i none ]
          ≡ none
    nothing none n = refl
    nothing (some i) n = get_or-replicate n i
