-- ===== src/Shape/Growing.antt =====
-- lua/tables.go at string keys: the fields of a table as a map, and what adding a field makes of
-- the maps of all tables that share the store.
use luart.Prelude.{
  true_ne_false, some_ne_none, ℕ, ◌≤◌, ◌<◌, ◌≡◌, ◌⊎◌, ◌∙◌, refl, sym, ap, arith, true, false, List,
  [], ◌∷◌, ◌++◌, Option, none, some, if◌then◌else◌, Bool-cases, Option-cases, inl, inr, length,
  get_or, some_injective, ◌*◌,
}
use mathlib.Core.Path.{subst}
use luart.Prelude.Texts.{equal_bytes}
use luart.Chunk.Proto.{Bytes}
use luart.Table.{charge, charged}
use luart.Shape.{SlotKey, lookup_string, Shapes, shape_at, root_shape, with_key}
use luart.Shape.Fields.{Fields, Shared, at_string, append_field}
use luart.Shape.Keys.{position}
use luart.Shape.Store.{SameView, WfStore}
use luart.Shape.Adding.{Added, with_key-Added}
use luart.Shape.Views.{Lays, lays_nothing, Lays-append, laid, laid-append}

module _ {V : Type 0} where
  -- A table whose values lie in the slots of its shape.
  pub record Fits (shapes : Shapes) (t : Fields V) : Type 0 where
    pub bare : t.shape ≡ none → t.values ≡ []
    pub in_store : (r : ℕ) → t.shape ≡ some r → r < length shapes
    pub lies : (r : ℕ) → t.shape ≡ some r → Lays (shape_at shapes r).keys t.values

  -- Two tables that share no dictionary.
  pub record Apart (shapes : Shapes) (t t₂ : Fields V) : Type 0 where
    pub no_dictionary :
        (r : ℕ) → t.shape ≡ some r → t₂.shape ≡ some r → (shape_at shapes r).dict ≡ false

  pub at_laid :
      (shapes : Shapes) (t : Fields V) (r : ℕ) (k : Bytes)
      → WfStore shapes
      → r < length shapes
      → t.shape ≡ some r
      → at_string shapes t k ≡ laid (shape_at shapes r).keys t.values k
  unfolding at_string
  at_laid shapes t r k wf lt e =
      ap (λ (o : Option ℕ). elim o [ none ↦ none | some i ↦ get_or t.values i none ])
        (ap
            (λ (o : Option ℕ). elim o as (λ _. Option ℕ) [
              | none ↦ none
              | some r ↦ lookup_string k (shape_at shapes r).slots
            ])
            e
          ∙ (wf.all_wf r lt).agrees k)

  pub at_bare :
      (shapes : Shapes) (t : Fields V) (k : Bytes) → t.shape ≡ none → at_string shapes t k ≡ none
  unfolding at_string
  at_bare shapes t k e =
      ap (λ (o : Option ℕ). elim o [ none ↦ none | some i ↦ get_or t.values i none ])
        (ap
          (λ (o : Option ℕ). elim o as (λ _. Option ℕ) [
            | none ↦ none
            | some r ↦ lookup_string k (shape_at shapes r).slots
          ])
          e)

  -- A table that a step leaves as it was: its map is the same in the new store.
  pub record Untouched (shapes shapes' : Shapes) (t₂ : Fields V) : Type 0 where
    pub fits : Fits shapes' t₂
    pub same : (k : Bytes) → at_string shapes' t₂ k ≡ at_string shapes t₂ k

  -- Every table whose shape is seen as before.
  pub kept-Untouched :
      (shapes shapes' : Shapes) (t₂ : Fields V)
      → WfStore shapes
      → WfStore shapes'
      → length shapes ≤ length shapes'
      → Fits shapes t₂
      → ((r : ℕ) → t₂.shape ≡ some r → SameView (shape_at shapes r) (shape_at shapes' r))
      → Untouched shapes shapes' t₂
  kept-Untouched shapes shapes' t₂ wf wf' grows fit view = record {
    fits = record {
      bare = fit.bare;
      in_store = λ r e. omega (arith, grows, fit.in_store r e);
      lies = λ r e. subst (λ ks. Lays ks t₂.values) (sym (view r e).keys_eq) (fit.lies r e);
    };
    same = λ k. elim (Option-cases t₂.shape) [
      | inl e ↦ at_bare shapes' t₂ k e ∙ sym (at_bare shapes t₂ k e)
      | inr (r, e) ↦
          at_laid shapes' t₂ r k wf' (omega (arith, grows, fit.in_store r e)) e
          ∙ ap (λ (ks : List SlotKey). laid ks t₂.values k) (view r e).keys_eq
          ∙ sym (at_laid shapes t₂ r k wf (fit.in_store r e) e)
    ];
  }

  -- A table about to get a field on the shape at r, which it has or, if it has none, starts from.
  pub record OnShape (shapes : Shapes) (t : Fields V) (r : ℕ) : Type 0 where
    pub in_store : r < length shapes
    pub lies : Lays (shape_at shapes r).keys t.values
    pub seen : (k : Bytes) → at_string shapes t k ≡ laid (shape_at shapes r).keys t.values k
    pub whose : (t.shape ≡ some r) ⊎ ((shape_at shapes r).dict ≡ false)

  pub own-OnShape :
      (shapes : Shapes) (t : Fields V) (r : ℕ)
      → WfStore shapes
      → Fits shapes t
      → t.shape ≡ some r
      → OnShape shapes t r
  own-OnShape shapes t r wf fit e = record {
    in_store = fit.in_store r e;
    lies = fit.lies r e;
    seen = λ k. at_laid shapes t r k wf (fit.in_store r e) e;
    whose = inl e;
  }

  pub root-OnShape :
      (shapes : Shapes) (t : Fields V)
      → WfStore shapes
      → Fits shapes t
      → t.shape ≡ none
      → OnShape shapes t root_shape
  unfolding position
  root-OnShape shapes t wf fit e = record {
    in_store = wf.rooted;
    lies =
        subst (λ ks. Lays ks t.values) (sym wf.root_empty)
          (subst (λ vs. Lays [] vs) (sym (fit.bare e)) lays_nothing);
    seen = λ k.
        at_bare shapes t k e ∙ sym (ap (λ (ks : List SlotKey). laid ks t.values k) wf.root_empty);
    whose = inr wf.root_shared;
  }

-- Nothing, where an error is thrown, or a result with the property.
pub data Unless {A : Type 0} (P : A → Type 0) : Option A → Type 0 where
  thrown : Unless P none
  given : {a : A} → P a → Unless P (some a)

pub charged-Unless :
    {S A : Type 0} (P : A → Type 0) (f : S → A) (o : Option S)
    → ((s : S) → P (f s))
    → Unless P (charged f o)
charged-Unless P f none h = thrown
charged-Unless P f (some s) h = given (h s)

pub bind-Unless :
    {A B : Type 0} {P : A → Type 0} {Q : B → Type 0} {o : Option A} (f : A → Option B)
    → Unless P o
    → ((a : A) → P a → Unless Q (f a))
    → Unless Q (elim o [ none ↦ none | some a ↦ f a ])
bind-Unless f thrown g = thrown
bind-Unless f (given h) g = g _ h

pub weaken-Unless :
    {A : Type 0} {P Q : A → Type 0} {o : Option A} → ((a : A) → P a → Q a) → Unless P o → Unless Q o
weaken-Unless f thrown = thrown
weaken-Unless f (given h) = given (f _ h)

module _ {V : Type 0} where
  -- What a store of v at key does: the table's map changes at key alone, and the tables that share no
  -- dictionary with it keep theirs, and share none after it.
  pub record Stored (shapes : Shapes) (t : Fields V) (key : Bytes) (v : Option V)
      (p : Shared × Fields V) : Type 0 where
    pub wf : WfStore p.0.shapes
    pub fits : Fits p.0.shapes p.1
    pub mapped :
        (k : Bytes)
        → at_string p.0.shapes p.1 k ≡ (if equal_bytes k key then v else at_string shapes t k)
    pub untouched :
        (t₂ : Fields V)
        → Fits shapes t₂
        → Apart shapes t t₂
        → Untouched shapes p.0.shapes t₂ × Apart p.0.shapes p.1 t₂

  pub append_field-Stored :
      (slot_bytes : ℕ) (sh : Shared) (t : Fields V) (r : ℕ) (key : Bytes) (v : Option V)
      → WfStore sh.shapes
      → OnShape sh.shapes t r
      → position key (shape_at sh.shapes r).keys ≡ none
      → Unless (Stored sh.shapes t key v) (append_field slot_bytes sh t r key v)
  unfolding append_field
  append_field-Stored slot_bytes sh t r key v wf on absent =
      charged-Unless (Stored sh.shapes t key v) _ (charge (2 * slot_bytes) sh.heap) (λ heap.
        record {
          wf = added.wf;
          fits = record {
            bare = λ e. absurd (some_ne_none e);
            in_store =
                λ r₂ e. subst (λ (i : ℕ). i < length shapes') (some_injective e) added.in_store;
            lies = λ r₂ e.
                subst (λ (i : ℕ). Lays (shape_at shapes' i).keys (t.values ++ (v ∷ [])))
                  (some_injective e) lies';
          };
          mapped = λ k.
              at_laid shapes' _ r' k added.wf added.in_store refl
              ∙ ap (λ (ks : List SlotKey). laid ks (t.values ++ (v ∷ [])) k) added.one_more
              ∙ laid-append k key v on.lies absent
              ∙ ap (λ (o : Option V). if equal_bytes k key then v else o) (sym (on.seen k));
          untouched = λ t₂ fit apart. (
            kept-Untouched sh.shapes shapes' t₂ wf added.wf added.keeps.grows fit (λ r₂ e.
                added.keeps.same r₂ (fit.in_store r₂ e)
                  (λ dict same. not_shared r₂ t₂ apart e dict same)),
            record { no_dictionary = λ r₂ e e₂. not_owned r₂ t₂ fit apart (some_injective e) e₂ },
          );
        })
    where
      shapes' : Shapes
      shapes' = (with_key sh.shapes r key).0

      r' : ℕ
      r' = (with_key sh.shapes r key).1

      added : Added sh.shapes r key (with_key sh.shapes r key)
      added = with_key-Added sh.shapes r key wf on.in_store absent

      lies' : Lays (shape_at shapes' r').keys (t.values ++ (v ∷ []))
      lies' =
          subst (λ ks. Lays ks (t.values ++ (v ∷ []))) (sym added.one_more)
            (Lays-append key v on.lies)

      not_shared :
          (r₂ : ℕ) (t₂ : Fields V)
          → Apart sh.shapes t t₂
          → t₂.shape ≡ some r₂
          → (shape_at sh.shapes r).dict ≡ true
          → r₂ ≡ r
          → ⊥
      not_shared r₂ t₂ apart e dict same = elim on.whose [
        | inl own ↦ true_ne_false (sym dict ∙ apart.no_dictionary r own (e ∙ ap some same))
        | inr shared ↦ true_ne_false (sym dict ∙ shared)
      ]

      not_owned :
          (r₂ : ℕ) (t₂ : Fields V)
          → Fits sh.shapes t₂
          → Apart sh.shapes t t₂
          → r' ≡ r₂
          → t₂.shape ≡ some r₂
          → (shape_at shapes' r₂).dict ≡ false
      not_owned r₂ t₂ fit apart same e = elim (Bool-cases (shape_at shapes' r₂).dict) [
        | inr shared ↦ shared
        | inl dict ↦
            let old : r' < length sh.shapes = omega (arith, same, fit.in_store r₂ e) in
            let (home, dict') =
              added.owned old (ap (λ (i : ℕ). (shape_at shapes' i).dict) same ∙ dict) in
            absurd (not_shared r₂ t₂ apart e dict' (sym same ∙ home))
      ]
