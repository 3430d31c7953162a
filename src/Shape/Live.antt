-- ===== src/Shape/Live.antt =====
-- lua/tables.go at string keys: dropping the nil slots of a dictionary leaves every key its value.
use luart.Prelude.{
  ℕ, suc, ◌≡◌, ◌∙◌, refl, sym, ap, arith, List, Option, none, some, if◌then◌else◌, if-true,
  if-false, Bool-cases, inl, inr,
}
use luart.Prelude.Texts.{equal_bytes}
use luart.Chunk.Proto.{Bytes}
use luart.Shape.{SlotKey, lookup_string}
use luart.Shape.Fields.{live_keys, live_slots, live_values}
use luart.Shape.Bury.{map_suc}
use luart.Shape.Keys.{position, Distinct, no_keys, buried_key, new_key, absent_cons, map_suc-none}
use luart.Shape.Views.{
  Lays, lays_nothing, lays_field, lays_buried, laid, laid_field, laid_buried, laid_absent, later,
  later-suc,
}

module _ {V : Type 0} where
  -- Dropping the nil slots leaves every key its value.
  pub laid-live :
      (k : Bytes) {ks : List SlotKey} {vs : List (Option V)}
      → Lays ks vs
      → Distinct ks
      → laid (live_keys ks vs) (live_values vs) k ≡ laid ks vs k
  unfolding live_keys live_values
  laid-live k lays_nothing d = refl
  laid-live k (lays_buried {h = h} {ks = ks} {vs = vs} l) (buried_key d) =
      laid-live k l d ∙ sym (laid_buried k h ks none vs)
  laid-live k (lays_field {k = k'} {v = some v} {ks = ks} {vs = vs} l) (new_key new d) =
      laid_field k k' (live_keys ks vs) (some v) (live_values vs)
      ∙ ap (λ (o : Option V). if equal_bytes k k' then some v else o) (laid-live k l d)
      ∙ sym (laid_field k k' ks (some v) vs)
  laid-live k (lays_field {k = k'} {v = none} {ks = ks} {vs = vs} l) (new_key new d) =
      laid-live k l d ∙ elim (Bool-cases (equal_bytes k k')) [
        | inl e ↦ laid_absent k k' ks vs new e ∙ sym (laid_field k k' ks none vs ∙ if-true _ _ e)
        | inr e ↦ sym (laid_field k k' ks none vs ∙ if-false _ _ e)
      ]

  pub live_absent :
      (k : Bytes) {ks : List SlotKey} {vs : List (Option V)}
      → Lays ks vs
      → position k ks ≡ none
      → position k (live_keys ks vs) ≡ none
  unfolding live_keys position
  live_absent k lays_nothing e = refl
  live_absent k (lays_buried {ks = ks} l) e = live_absent k l (map_suc-none (position k ks) e)
  live_absent k (lays_field {k = k'} {v = none} {ks = ks} l) e =
      live_absent k l (absent_cons (equal_bytes k k') (position k ks) e).1
  live_absent k (lays_field {k = k'} {v = some v} {ks = ks} {vs = vs} l) e =
      let (apart, rest) = absent_cons (equal_bytes k k') (position k ks) e in
      if-false _ _ apart ∙ ap map_suc (live_absent k l rest)

  pub live-Distinct :
      {ks : List SlotKey} {vs : List (Option V)}
      → Lays ks vs
      → Distinct ks
      → Distinct (live_keys ks vs)
  unfolding live_keys
  live-Distinct lays_nothing d = no_keys
  live-Distinct (lays_buried l) (buried_key d) = live-Distinct l d
  live-Distinct (lays_field {v = none} l) (new_key new d) = live-Distinct l d
  live-Distinct (lays_field {k = k} {v = some v} l) (new_key new d) =
      new_key (live_absent k l new) (live-Distinct l d)

  pub live-Lays :
      {ks : List SlotKey} {vs : List (Option V)}
      → Lays ks vs
      → Lays (live_keys ks vs) (live_values vs)
  unfolding live_keys live_values
  live-Lays lays_nothing = lays_nothing
  live-Lays (lays_buried l) = live-Lays l
  live-Lays (lays_field {v = none} l) = live-Lays l
  live-Lays (lays_field {v = some v} l) = lays_field (live-Lays l)

  lookup-live :
      (k : Bytes) (n : ℕ) {ks : List SlotKey} {vs : List (Option V)}
      → Lays ks vs
      → lookup_string k (live_slots ks vs n) ≡ later n (position k (live_keys ks vs))
  unfolding live_keys live_slots lookup_string position
  lookup-live k n lays_nothing = refl
  lookup-live k n (lays_buried l) = lookup-live k n l
  lookup-live k n (lays_field {v = none} l) = lookup-live k n l
  lookup-live k n (lays_field {k = k'} {v = some v} {ks = ks} {vs = vs} l) =
      elim (Bool-cases (equal_bytes k k')) [
        | inl e ↦
            if-true _ _ e
            ∙ ap some (omega arith)
            ∙ sym (ap (later n) (if-true (some 0) (map_suc (position k (live_keys ks vs))) e))
        | inr e ↦
            if-false _ _ e
            ∙ lookup-live k (suc n) l
            ∙ later-suc n (position k (live_keys ks vs))
            ∙ sym (ap (later n) (if-false (some 0) (map_suc (position k (live_keys ks vs))) e))
      ]

  pub live_slots-agree :
      (k : Bytes) {ks : List SlotKey} {vs : List (Option V)}
      → Lays ks vs
      → lookup_string k (live_slots ks vs 0) ≡ position k (live_keys ks vs)
  live_slots-agree k {ks} {vs} l = lookup-live k 0 l ∙ same (position k (live_keys ks vs))
    where
      same : (o : Option ℕ) → later 0 o ≡ o
      same none = refl
      same (some i) = ap some (omega arith)
