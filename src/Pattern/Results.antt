-- ===== src/Pattern/Results.antt =====
-- stdlib/pattern.go: the results of `string.find` and `string.match`.
use luart.Prelude.{
  ℕ, zero, suc, [], ◌∷◌, ◌+◌, ◌-◌, ◌≤◌, ◌<◌, ◌≡◌, ◌⊎◌, refl, ◌∙◌, Bool, true, false, List, Option,
  none, some, arith, length, length-drop, drop, All, leb, ◌&&◌, ◌||◌, not, if◌then◌else◌, inl, inr,
}
use luart.Prelude.Int.{ℤ, pos, negsuc}
use luart.Chunk.Proto.{Bytes}
use luart.Pattern.{MatchState, Capture, max_match_calls}
use luart.Pattern.Find.{
  Value, nil_value, number, push_match, find_loop, has_prefix, index, find_plain, find_pattern,
  find_init, find, relative_position, anchored, unanchor, contains_any, pattern_specials,
  new_captures,
}
use luart.Pattern.Ends.{Ends, ends_ok, bind-Ends, if-Ends, option-Ends, weaken-Ends}
use luart.Pattern.Captures.{Inv}
use luart.Pattern.Safety.Steps.{match-Safe}
use luart.Pattern.Found.{
  Part, attempt-Ends, reset-Inv, new_captures-length, captures_only-Ends, push_captures-Ends,
}

-- What a search pushes: nil; for `find`, the ends of the match, from 1 and inclusive, in the
-- subject, and parts of the subject; for `match`, one part at least.
pub data SearchResult (src : Bytes) : Bool → List Value → Type 0 where
  missing : {is_find : Bool} → SearchResult src is_find (nil_value ∷ [])
  at_span :
      {start e : ℕ} {vs : List Value}
      → 0 < start
      → start ≤ e + 1
      → e ≤ length src
      → All (Part src) vs
      → SearchResult src true (number start ∷ number e ∷ vs)
  with_parts : {vs : List Value} → All (Part src) vs → 0 < length vs → SearchResult src false vs

has_prefix_bound : (p s : Bytes) → has_prefix p s ≡ true → length p ≤ length s
unfolding has_prefix
has_prefix_bound [] s h = omega arith
has_prefix_bound (x ∷ p) [] h = absurd (ground (arith, h))
has_prefix_bound (x ∷ p) (c ∷ s) h = omega (arith, has_prefix_bound p s (ground (arith, h)))

where_found :
    (b : Bool) (o : Option ℕ) (i : ℕ)
    → (if b then some 0 else elim o [ none ↦ none | some j ↦ some (suc j) ]) ≡ some i
    → ((b ≡ true) × (i ≡ 0)) ⊎ ((j : ℕ) × (o ≡ some j) × (i ≡ suc j))
where_found true o i h = inl (refl, ground (arith, h))
where_found false none i h = absurd (ground (arith, h))
where_found false (some j) i h = inr (j, refl, ground (arith, h))

-- A text that is found fits where it is found.
pub index_bound : (s p : Bytes) (i : ℕ) → index s p ≡ some i → i + length p ≤ length s
unfolding index
index_bound [] p i h =
    let empty : (has_prefix p [] ≡ true) × (i ≡ 0) = ground (arith, h) in
    omega (arith, has_prefix_bound p [] empty.0, empty.1)
index_bound (c ∷ s) p i h = elim (where_found (has_prefix p (c ∷ s)) (index s p) i h) [
  | inl (here, e) ↦ omega (arith, e, has_prefix_bound p (c ∷ s) here)
  | inr (j, there, e) ↦ omega (arith, e, index_bound s p j there)
]

find_init_bound :
    (z : ℤ) (len init : ℕ) → find_init z len ≡ some init → (0 < init) × (init ≤ len + 1)
unfolding find_init
find_init_bound (negsuc k) len init h = ground (arith, h)
find_init_bound (pos k) len init h = ground (arith, h)

module _ (room : ℕ → Bool) (src : Bytes) where
  push_match-Ends :
      (is_find : Bool) (s e : ℕ) (st : MatchState)
      → s ≤ e
      → e ≤ length src
      → Inv (length src) e st
      → Ends (SearchResult src is_find) (push_match room src is_find s e st)
  unfolding push_match
  push_match-Ends true s e st low high inv =
      bind-Ends (captures_only-Ends src room 0 e st inv)
        (λ vs parts. ends_ok (at_span (omega arith) (omega (arith, low)) high parts))
  push_match-Ends false s e st low high inv =
      weaken-Ends (λ vs (parts, some_parts). with_parts parts some_parts)
        (push_captures-Ends src room s e st low high inv)

  find_loop-Ends :
      (pat : Bytes) (is_find anchor : Bool) (fuel s : ℕ) (cs : List Capture)
      → 0 < fuel
      → length src < fuel + s
      → s ≤ length src
      → length cs ≡ 32
      → Ends (SearchResult src is_find) (find_loop room src pat is_find anchor fuel s cs)
  unfolding find_loop
  find_loop-Ends pat is_find anchor zero s cs some_fuel enough le size =
      absurd (omega (arith, some_fuel))
  find_loop-Ends pat is_find anchor (suc fuel) s cs some_fuel enough le size =
      attempt-Ends _
        ((match-Safe src pat max_match_calls).run s 0 _ (omega arith) le (reset-Inv cs size))
        (λ e st' low high inv. push_match-Ends is_find s e st' low high inv)
        (λ st' same.
          if-Ends (leb (length src) s || anchor) (λ _. ends_ok missing)
            (λ more.
              let lt : s < length src = ground (arith, more) in
              find_loop-Ends pat is_find anchor fuel (s + 1) st'.captures
                (omega (arith, enough, lt)) (omega (arith, enough)) (omega (arith, lt))
                (same.length_eq ∙ size)))

  find_plain-Ends :
      (p : Bytes) (init : ℕ)
      → 0 < init
      → init ≤ length src + 1
      → Ends (SearchResult src true) (find_plain src p init)
  unfolding find_plain
  find_plain-Ends p init positive le =
      option-Ends (index (drop (init - 1) src) p) (λ _. ends_ok missing)
        (λ i e.
          let fits : i + length p ≤ length (drop (init - 1) src) =
            index_bound (drop (init - 1) src) p i e in
          ends_ok (
            at_span (omega (arith, positive)) (omega (arith, positive))
              (omega (arith, fits, positive, le, length-drop (init - 1) src)) tt))

  find_pattern-Ends :
      (p : Bytes) (is_find : Bool) (init : ℕ)
      → 0 < init
      → init ≤ length src + 1
      → Ends (SearchResult src is_find) (find_pattern room src p is_find init)
  unfolding find_pattern
  find_pattern-Ends p is_find init positive le =
      find_loop-Ends (unanchor p) is_find (anchored p) (suc (length src)) (init - 1) new_captures
        (omega arith) (omega arith) (omega (arith, le)) new_captures-length

  search-Ends :
      (is_find plainly : Bool) (p : Bytes) (init : ℕ)
      → (0 < init) × (init ≤ length src + 1)
      → Ends (SearchResult src is_find) (
          if is_find && plainly
          then find_plain src p init
          else find_pattern room src p is_find init)
  search-Ends true true p init (positive, le) = find_plain-Ends p init positive le
  search-Ends true false p init (positive, le) = find_pattern-Ends p true init positive le
  search-Ends false plainly p init (positive, le) = find_pattern-Ends p false init positive le

  -- Every search ends with a result in the subject or with an error of the library's: no index is
  -- out of range, whatever the subject, the pattern and the position.
  pub find-Ends :
      (is_find : Bool) (p : Bytes) (position : ℤ) (plain : Bool)
      → Ends (SearchResult src is_find) (find room is_find src p position plain)
  unfolding find
  find-Ends is_find p position plain =
      option-Ends (find_init (relative_position position (length src)) (length src))
        (λ _. ends_ok missing)
        (λ init e.
          search-Ends is_find (plain || not (contains_any p pattern_specials)) p init
            (find_init_bound (relative_position position (length src)) (length src) init e))
