-- ===== src/Pattern/Plain/Search.antt =====
-- stdlib/pattern.go: the attempts of `string.find` at each position, and the search for a text.
use luart.Prelude.{
  ℕ, zero, suc, [], ◌∷◌, ◌+◌, ◌-◌, ◌≤◌, ◌<◌, ◌≡◌, ◌∙◌, sym, ap, ap₂, refl, Bool, true, false, List,
  Option, none, some, arith, length, drop, leb, if-true, if-false, Bool-cases, inl, inr, dec_lt,
}
use luart.Chunk.Proto.{Bytes}
use luart.Pattern.{Outcome, ok, byte_at, Capture}
use luart.Pattern.Find.{
  Value, nil_value, number, member, contains_any, pattern_specials, has_prefix, index, find_plain,
  find_pattern, find_loop, push_match, push_captures, push_count, push_loop, anchored, new_captures,
}
use luart.Pattern.Plain.{
  fits, Ordinary, byte_at-Ordinary, Here, element-Here, drop_all, bind-ok, either_false,
  either_left,
}
use luart.Pattern.Plain.Matching.{first_hit, first_miss}

index_here : (s p : Bytes) → has_prefix p s ≡ true → index s p ≡ some 0
unfolding index
index_here [] p e = if-true _ _ e
index_here (c ∷ s) p e = if-true _ _ e

-- The same index from one byte before.
abbrev shifted : Option ℕ → Option ℕ
shifted o = elim o [ none ↦ none | some i ↦ some (suc i) ]

index_next :
    (c : ℕ) (s p : Bytes) → has_prefix p (c ∷ s) ≡ false → index (c ∷ s) p ≡ shifted (index s p)
unfolding index
index_next c s p e = if-false _ _ e

index_end : (p : Bytes) → has_prefix p [] ≡ false → index [] p ≡ none
unfolding index
index_end p e = if-false _ _ e

module _ (src pat : Bytes) (plain : (i : ℕ) → Ordinary (byte_at pat i)) where
  index_after :
      (s : ℕ)
      → s < length src
      → fits src pat s 0 ≡ false
      → index (drop s src) pat ≡ shifted (index (drop (s + 1) src) pat)
  index_after s inside e =
      let head : Here src s = element-Here src s inside in
      let next : suc s ≡ s + 1 = omega arith in
      ap (λ (t : Bytes). index t pat) head.is_head
      ∙ index_next (byte_at src s) (drop (suc s) src) pat
          (ap (has_prefix pat) (sym head.is_head) ∙ e)
      ∙ ap (λ (i : ℕ). shifted (index (drop i src) pat)) next

  index_after_end :
      (s : ℕ) → length src ≤ s → fits src pat s 0 ≡ false → index (drop s src) pat ≡ none
  index_after_end s outside e =
      let nothing : drop s src ≡ [] = drop_all src s outside in
      ap (λ (t : Bytes). index t pat) nothing
      ∙ index_end pat (ap (has_prefix pat) (sym nothing) ∙ e)

  module _ (room : ℕ → Bool) (some_room : room 0 ≡ true) where
    -- What `find` pushes for the text at s.
    abbrev span : ℕ → List Value
    span s = number (s + 1) ∷ number (s + length pat) ∷ []

    -- What `find` pushes for the result of a search from s on.
    abbrev pushed : ℕ → Option ℕ → Outcome (List Value)
    pushed s o = elim o [ none ↦ ok (nil_value ∷ []) | some k ↦ ok (span (k + s)) ]

    push_match-Plain :
        (s : ℕ) (cs : List Capture)
        → push_match room src true s (s + length pat) (record { level = 0; captures = cs })
          ≡ pushed s (some 0)
    unfolding push_match push_captures push_count push_loop
    push_match-Plain s cs =
        let start : s ≡ 0 + s = omega arith in
        bind-ok _ (if-true _ _ some_room) ∙ ap (λ (i : ℕ). ok (span i)) start

    pushed_next : (s : ℕ) (o : Option ℕ) → pushed (s + 1) o ≡ pushed s (shifted o)
    pushed_next s none = refl
    pushed_next s (some k) = ap (λ (i : ℕ). ok (span i)) (omega arith)

    find_loop-Plain :
        (fuel s : ℕ) (cs : List Capture)
        → s ≤ length src
        → length src < fuel + s
        → find_loop room src pat true false fuel s cs ≡ pushed s (index (drop s src) pat)
    unfolding find_loop
    find_loop-Plain zero s cs le enough = absurd (omega (arith, le, enough))
    find_loop-Plain (suc fuel) s cs le enough = elim (Bool-cases (fits src pat s 0)) [
      | inl e ↦
          bind-ok _ (first_hit src pat plain s (record { level = 0; captures = cs }) e)
          ∙ push_match-Plain s cs
          ∙ sym (ap (pushed s) (index_here (drop s src) pat e))
      | inr e ↦
          bind-ok _ (first_miss src pat plain s (record { level = 0; captures = cs }) e)
          ∙ elim (dec_lt s (length src)) [
            | no outside ↦
                if-true _ _ (either_left (leb (length src) s) false (ground (arith, outside)))
                ∙ sym (ap (pushed s) (index_after_end s (omega (arith, outside)) e))
            | yes inside ↦
                if-false _ _ (either_false (leb (length src) s) false (ground (arith, inside)) refl)
                ∙ find_loop-Plain fuel (s + 1) cs (omega (arith, inside)) (omega (arith, enough))
                ∙ pushed_next s (index (drop (s + 1) src) pat)
                ∙ sym (ap (pushed s) (index_after s inside e))
          ]
    ]

    pushed_plain :
        (init : ℕ) (o : Option ℕ)
        → 0 < init
        → pushed (init - 1) o ≡ elim o [
          | none ↦ ok (nil_value ∷ [])
          | some start ↦ ok (number (start + init) ∷ number (start + init + length pat - 1) ∷ [])
        ]
    pushed_plain init none positive = refl
    pushed_plain init (some k) positive =
        let first_byte : k + (init - 1) + 1 ≡ k + init = omega (arith, positive) in
        let last_byte : k + (init - 1) + length pat ≡ k + init + length pat - 1 =
          omega (arith, positive) in
        ap₂ (λ (i j : ℕ). ok (number i ∷ number j ∷ [])) first_byte last_byte

    find_pattern-Plain :
        (init : ℕ)
        → 0 < init
        → init ≤ length src + 1
        → anchored pat ≡ false
        → find_pattern room src pat true init ≡ find_plain src pat init
    unfolding find_pattern find_plain
    find_pattern-Plain init positive le free =
        ap₂
          (λ (ps : Bytes) (b : Bool).
            find_loop room src ps true b (suc (length src)) (init - 1) new_captures)
          (if-false _ _ free) free
        ∙ find_loop-Plain (suc (length src)) (init - 1) new_captures (omega (arith, le))
            (omega arith)
        ∙ pushed_plain init (index (drop (init - 1) src) pat) positive

not_anchored : (p : Bytes) → Ordinary (byte_at p 0) → anchored p ≡ false
unfolding anchored
not_anchored [] c = refl
not_anchored (x ∷ p) c = c.not_caret

-- `find` may look for a pattern of ordinary bytes as a text: the matcher finds the same, at any
-- position in the subject, where the stack has room.
pub find_pattern-find_plain :
    (room : ℕ → Bool) (s p : Bytes) (init : ℕ)
    → room 0 ≡ true
    → contains_any p pattern_specials ≡ false
    → member 41 p ≡ false
    → 0 < init
    → init ≤ length s + 1
    → find_pattern room s p true init ≡ find_plain s p init
find_pattern-find_plain room s p init some_room plain no_close positive le =
    let bytes : (i : ℕ) → Ordinary (byte_at p i) = λ i. byte_at-Ordinary p i plain no_close in
    find_pattern-Plain s p bytes room some_room init positive le (not_anchored p (bytes 0))
