-- ===== src/Shape/Put.antt =====
-- lua/tables.go at string keys: putString is an update of the table's map, whatever it does to the
-- shapes, and other tables do not notice it.
use luart.Prelude.{
  true_ne_false, none_ne_some, ℕ, ◌<◌, ◌≡◌, ◌∙◌, refl, sym, ap, true, [], ◌∷◌, ◌++◌, Option, none,
  some, if◌then◌else◌, if-true, if-false, Bool-cases, Option-cases, inl, inr, length, get_or, set,
  some_injective, if-elim, option-elim, ◌&&◌, ◌*◌,
}
use mathlib.Core.Path.{subst}
use luart.Prelude.Int.{ℤ, pos, pos_part, ◌-ℤ◌}
use luart.Prelude.Texts.{equal_bytes, equal_bytes-eq}
use luart.Chunk.Proto.{Bytes}
use luart.Table.{Heap, charge, is_nil}
use luart.Shape.{lookup_string, Shape, Shapes, shape_at, root_shape}
use luart.Shape.Fields.{
  Fields, Shared, at_string, slot_of, dict_of, live_keys, live_slots, compact, mostly_dead,
  ready_to_grow, put_new, put_string, recount,
}
use luart.Shape.Keys.{position}
use luart.Shape.Store.{WfStore, at_new}
use luart.Shape.Views.{Lays, laid-set, Lays-set}
use luart.Shape.Live.{laid-live, live-Distinct, live-Lays, live_slots-agree, live_absent}
use luart.Shape.Moved.{Collected, moved-Collected}
use luart.Shape.Growing.{
  Fits, Apart, at_laid, Untouched, OnShape, own-OnShape, root-OnShape, Unless, given,
  charged-Unless, bind-Unless, weaken-Unless, Stored, append_field-Stored,
}

nowhere_lem : (k : Bytes) → position k [] ≡ none
unfolding position
nowhere_lem k = refl

module _ {V : Type 0} where
  -- A table with the same map on a shape that can grow, in a store that other tables see as before.
  pub record Ready (shapes : Shapes) (t : Fields V) (p : Shared × Fields V × ℕ) : Type 0 where
    pub wf : WfStore p.0.shapes
    pub on_shape : OnShape p.0.shapes p.1 p.2
    pub same : (k : Bytes) → at_string p.0.shapes p.1 k ≡ at_string shapes t k
    pub absent :
        (k : Bytes) → slot_of shapes t k ≡ none → position k (shape_at p.0.shapes p.2).keys ≡ none
    pub untouched :
        (t₂ : Fields V)
        → Fits shapes t₂
        → Apart shapes t t₂
        → Untouched shapes p.0.shapes t₂ × (Fits p.0.shapes t₂ × Apart p.0.shapes p.1 t₂)

  slot_absent :
      (shapes : Shapes) (t : Fields V) (r : ℕ) (k : Bytes)
      → WfStore shapes
      → r < length shapes
      → t.shape ≡ some r
      → slot_of shapes t k ≡ position k (shape_at shapes r).keys
  slot_absent shapes t r k wf lt e =
      ap
        (λ (o : Option ℕ). elim o as (λ _. Option ℕ) [
          | none ↦ none
          | some r ↦ lookup_string k (shape_at shapes r).slots
        ])
        e
      ∙ (wf.all_wf r lt).agrees k

  module _ (sh : Shared) (t : Fields V) (wf : WfStore sh.shapes) (fit : Fits sh.shapes t) where
    as_is-Ready :
        (r : ℕ)
        → OnShape sh.shapes t r
        → ((k : Bytes)
            → slot_of sh.shapes t k ≡ none
            → position k (shape_at sh.shapes r).keys ≡ none)
        → Ready sh.shapes t (sh, t, r)
    as_is-Ready r on absent = record {
      wf = wf;
      on_shape = on;
      same = λ k. refl;
      absent = absent;
      untouched = λ t₂ fit₂ apart. (record { fits = fit₂; same = λ k. refl }, (fit₂, apart));
    }

    compact-Ready :
        (r : ℕ) (heap : Heap)
        → t.shape ≡ some r
        → Ready sh.shapes t (
          record sh { shapes = (compact sh.shapes r t).0; heap = heap },
          (compact sh.shapes r t).1,
          length sh.shapes,
        )
    unfolding compact
    compact-Ready r heap e = record {
      wf = moved.wf;
      on_shape = own-OnShape shapes' t' (length sh.shapes) moved.wf moved.fits refl;
      same = moved.same;
      absent = λ k gone.
          ap (λ (y : Shape). position k y.keys) (at_new sh.shapes d)
          ∙ live_absent k lies (sym (slot_absent sh.shapes t r k wf lt e) ∙ gone);
      untouched = λ t₂ fit₂ apart.
          let kept : Untouched sh.shapes shapes' t₂ = moved.untouched t₂ fit₂ in
          (kept, (kept.fits, moved.apart t₂ fit₂ apart));
    }
      where
        lt : r < length sh.shapes
        lt = fit.in_store r e

        lies : Lays (shape_at sh.shapes r).keys t.values
        lies = fit.lies r e

        d : Shape
        d = record {
          slots = live_slots (shape_at sh.shapes r).keys t.values 0;
          keys = live_keys (shape_at sh.shapes r).keys t.values;
          next = [];
          dict = true;
        }

        shapes' : Shapes
        shapes' = sh.shapes ++ (d ∷ [])

        t' : Fields V
        t' = (compact sh.shapes r t).1

        moved : Collected sh.shapes t (shapes', t')
        moved =
            moved-Collected sh.shapes t t' d wf
              (record {
                agrees = λ k. live_slots-agree k lies;
                distinct = live-Distinct lies (wf.all_wf r lt).distinct;
              })
              refl refl (live-Lays lies)
              (λ k.
                laid-live k lies (wf.all_wf r lt).distinct ∙ sym (at_laid sh.shapes t r k wf lt e))

    ready_to_grow-Ready :
        (slot_bytes : ℕ) → Unless (Ready sh.shapes t) (ready_to_grow slot_bytes sh t)
    unfolding ready_to_grow
    ready_to_grow-Ready slot_bytes =
        option-elim (Unless (Ready sh.shapes t)) t.shape
          (λ e. given (
            as_is-Ready root_shape (root-OnShape sh.shapes t wf fit e)
              (λ k _. ap (position k) wf.root_empty ∙ nowhere k)))
          (λ r e.
            if-elim (Unless (Ready sh.shapes t)) ((shape_at sh.shapes r).dict && mostly_dead t)
              (λ _.
                charged-Unless (Ready sh.shapes t) _
                  (charge (pos_part (pos (length t.values) -ℤ t.dead) * 3 * slot_bytes) sh.heap)
                  (λ heap. compact-Ready r heap e))
              (λ _. given (
                as_is-Ready r (own-OnShape sh.shapes t r wf fit e)
                  (λ k gone. sym (slot_absent sh.shapes t r k wf (fit.in_store r e) e) ∙ gone))))
      where
        nowhere : (k : Bytes) → position k [] ≡ none
        nowhere k = nowhere_lem k

  -- A chain of two steps on the store.
  Untouched-trans :
      {shapes shapes' shapes'' : Shapes} {t₂ : Fields V}
      → Untouched shapes shapes' t₂
      → Untouched shapes' shapes'' t₂
      → Untouched shapes shapes'' t₂
  Untouched-trans h k = record { fits = k.fits; same = λ x. k.same x ∙ h.same x }

  put_new-Stored :
      (slot_bytes : ℕ) (sh : Shared) (t : Fields V) (key : Bytes) (v : Option V)
      → WfStore sh.shapes
      → Fits sh.shapes t
      → slot_of sh.shapes t key ≡ none
      → Unless (Stored sh.shapes t key v) (put_new slot_bytes sh t key v)
  unfolding put_new
  put_new-Stored slot_bytes sh t key v wf fit gone =
      bind-Unless _ (ready_to_grow-Ready sh t wf fit slot_bytes) (λ (sh', t', r) ready.
        weaken-Unless
          (λ p stored. record {
            wf = stored.wf;
            fits = stored.fits;
            mapped = λ k.
                stored.mapped k
                ∙ ap (λ (o : Option V). if equal_bytes k key then v else o) (ready.same k);
            untouched = λ t₂ fit₂ apart.
                let (kept, (fit', apart')) = ready.untouched t₂ fit₂ apart in
                let (kept', apart'') = stored.untouched t₂ fit' apart' in
                (Untouched-trans kept kept', apart'');
          })
          (append_field-Stored slot_bytes sh' t' r key v ready.wf ready.on_shape
            (ready.absent key gone)))

  no_slot :
      (shapes : Shapes) (t : Fields V) (k : Bytes) → t.shape ≡ none → slot_of shapes t k ≡ none
  no_slot shapes t k e =
      ap
        (λ (o : Option ℕ). elim o as (λ _. Option ℕ) [
          | none ↦ none
          | some r ↦ lookup_string k (shape_at shapes r).slots
        ])
        e

  at_no_slot :
      (shapes : Shapes) (t : Fields V) (k : Bytes)
      → slot_of shapes t k ≡ none
      → at_string shapes t k ≡ none
  unfolding at_string
  at_no_slot shapes t k e =
      ap (λ (o : Option ℕ). elim o [ none ↦ none | some i ↦ get_or t.values i none ]) e

  nil_is_none : (v : Option V) → is_nil v ≡ true → v ≡ none
  nil_is_none none e = refl
  nil_is_none (some v) e = absurd (true_ne_false (sym e))

  -- A nil for a key without a slot changes nothing.
  unchanged :
      (shapes : Shapes) (t : Fields V) (key k : Bytes) (v : Option V)
      → slot_of shapes t key ≡ none
      → is_nil v ≡ true
      → at_string shapes t k ≡ (if equal_bytes k key then v else at_string shapes t k)
  unchanged shapes t key k v gone is_none = elim (Bool-cases (equal_bytes k key)) [
    | inl e ↦
        ap (at_string shapes t) (equal_bytes-eq k key e)
        ∙ at_no_slot shapes t key gone
        ∙ sym (if-true _ _ e ∙ nil_is_none v is_none)
    | inr e ↦ sym (if-false _ _ e)
  ]

  pub overwrite-Stored :
      (sh : Shared) (t : Fields V) (key : Bytes) (v : Option V) (i : ℕ)
      → WfStore sh.shapes
      → Fits sh.shapes t
      → slot_of sh.shapes t key ≡ some i
      → (dead : ℤ)
      → Stored sh.shapes t key v (sh, record t { values = set t.values i v; dead = dead })
  overwrite-Stored sh t key v i wf fit found dead = elim (Option-cases t.shape) [
    | inl e ↦ absurd (none_ne_some (sym (no_slot sh.shapes t key e) ∙ found))
    | inr (r, e) ↦
        let lt : r < length sh.shapes = fit.in_store r e in
        let lies : Lays (shape_at sh.shapes r).keys t.values = fit.lies r e in
        let where_it_is : position key (shape_at sh.shapes r).keys ≡ some i =
          sym (slot_absent sh.shapes t r key wf lt e) ∙ found in
        record {
          wf = wf;
          fits = record {
            bare = λ q. absurd (none_ne_some (sym q ∙ e));
            in_store = fit.in_store;
            lies = λ r₂ e₂.
                subst (λ (j : ℕ). Lays (shape_at sh.shapes j).keys (set t.values i v))
                  (some_injective (sym e ∙ e₂)) (Lays-set key v i lies where_it_is);
          };
          mapped = λ k.
              at_laid sh.shapes (record t { values = set t.values i v; dead = dead }) r k wf lt e
              ∙ laid-set k key v i lies where_it_is
              ∙ ap (λ (o : Option V). if equal_bytes k key then v else o)
                  (sym (at_laid sh.shapes t r k wf lt e));
          untouched = λ t₂ fit₂ apart. (
            record { fits = fit₂; same = λ k. refl },
            record { no_dictionary = apart.no_dictionary },
          );
        }
  ]

  -- putString on a table that fits the store, unless it throws a memory error, makes v the value of
  -- key, nil included, and leaves every other key its value, whether it fills a slot, adds one to a
  -- shared shape or to a dictionary, turns the shape into a dictionary, or compacts one. Every other
  -- table that fits the store and shares no dictionary with this one keeps all its values, and this
  -- stays so: the tables still fit the store, which keeps its invariant, and share no dictionary.
  pub put_string-Stored :
      (slot_bytes : ℕ) (sh : Shared) (t : Fields V) (key : Bytes) (v : Option V)
      → WfStore sh.shapes
      → Fits sh.shapes t
      → Unless (Stored sh.shapes t key v) (put_string slot_bytes sh t key v)
  unfolding put_string
  put_string-Stored slot_bytes sh t key v wf fit =
      option-elim (Unless (Stored sh.shapes t key v)) (slot_of sh.shapes t key)
        (λ gone.
          if-elim (Unless (Stored sh.shapes t key v)) (is_nil v)
            (λ is_none. given (record {
              wf = wf;
              fits = fit;
              mapped = λ k. unchanged sh.shapes t key k v gone is_none;
              untouched = λ t₂ fit₂ apart. (record { fits = fit₂; same = λ k. refl }, apart);
            }))
            (λ _. put_new-Stored slot_bytes sh t key v wf fit gone))
        (λ i found. given (
          overwrite-Stored sh t key v i wf fit found
            (recount (dict_of sh.shapes t) (get_or t.values i none) v t.dead)))
