-- ===== src/Pattern/Find.antt =====
-- stdlib/pattern.go and the positions of stdlib/string.go and stdlib/pack.go: captures as values,
-- `string.find`, `string.match` and `string.gmatch`.
use luart.Prelude.{
  ℕ, zero, suc, ◌+◌, ◌-◌, Bool, true, false, List, [], ◌∷◌, Option, none, some, ◌&&◌, ◌||◌, not,
  leb, ltb, ◌==◌, if◌then◌else◌, length, drop, replicate,
}
use luart.Prelude.Int.{ℤ, pos, negsuc, ◌+ℤ◌, ◌-ℤ◌, leb_ℤ, ltb_ℤ, eqb_ℤ}
use luart.Prelude.Word64.{wrap}
use luart.Chunk.Proto.{Bytes}
use luart.Pattern.{
  Outcome, ok, err, panic, stuck, ◌>>=◌, element, slice, MatchState, Capture, max_match_calls,
  unfinished_capture, invalid_capture_index, no_room,
}
use luart.Pattern.Classes.{caret}
use luart.Pattern.Match.{match}

-- The values the functions push.
pub data Value : Type 0 where
  nil_value : Value
  number : ℕ → Value
  text : Bytes → Value

-- A position from 1, counting back from the end if negative.
unfoldable pub relative_position : ℤ → ℕ → ℤ
unfolding ◌+ℤ◌ ◌-ℤ◌ wrap
relative_position p len =
    if leb_ℤ (pos 0) p
    then p
    else if ltb_ℤ (pos len) (wrap (pos 0 -ℤ p))
    then pos 0
    else pos len +ℤ p +ℤ pos 1

-- The same, clipped to 1, and past the end of the string if it lies out of it.
unfoldable pub unpack_position : ℤ → ℕ → ℕ
unpack_position (pos zero) len = 1
unpack_position (pos (suc p)) len = if ltb (len + 1) (suc p) then len + 2 else suc p
unpack_position (negsuc p) len = if ltb len (suc p) then 1 else len + 1 - suc p

module _ (src : Bytes) where
  -- The whole match, from s to e.
  unfoldable pub whole_match : Option ℕ → ℕ → Outcome Value
  unfolding slice
  whole_match none e = panic
  whole_match (some s) e = do t ← slice src s e; ok (text t)

  unfoldable pub capture_value : ℕ → ℤ → Outcome Value
  unfolding slice
  capture_value init (pos n) = do t ← slice src init (init + n); ok (text t)
  capture_value init (negsuc zero) = err unfinished_capture
  capture_value init (negsuc (suc zero)) = ok (number (init + 1))
  capture_value init (negsuc (suc (suc n))) = panic

  unfoldable pub push_capture : ℕ → Option ℕ → ℕ → MatchState → Outcome Value
  unfolding whole_match capture_value element
  push_capture i s e st =
      if leb st.level i
      then (if i == 0 then whole_match s e else err (invalid_capture_index (pos (i + 1))))
      else do c ← element st.captures i; capture_value c.init c.len

  unfoldable pub push_loop : ℕ → ℕ → Option ℕ → ℕ → MatchState → Outcome (List Value)
  unfolding push_capture
  push_loop zero i s e st = ok []
  push_loop (suc k) i s e st = do
    v ← push_capture i s e st
    vs ← push_loop k (i + 1) s e st
    ok (v ∷ vs)

-- How many values `pushCaptures` pushes.
unfoldable pub push_count : Option ℕ → MatchState → ℕ
push_count none st = st.level
push_count (some s) st = if st.level == 0 then 1 else st.level

-- `room n` is whether the stack has room for n values.
module _ (room : ℕ → Bool) where
  unfoldable pub push_captures : Bytes → Option ℕ → ℕ → MatchState → Outcome (List Value)
  unfolding push_count push_loop
  push_captures src s e st =
      if room (push_count s st) then push_loop src (push_count s st) 0 s e st else err no_room

  -- What a match from s₁ to e pushes.
  unfoldable pub push_match : Bytes → Bool → ℕ → ℕ → MatchState → Outcome (List Value)
  unfolding push_captures
  push_match src is_find s₁ e st =
      if is_find
      then (push_captures src none 0 st >>= λ vs. ok (number (s₁ + 1) ∷ number e ∷ vs))
      else push_captures src (some s₁) e st

  -- The attempts from s₁ on.
  unfoldable pub find_loop :
      Bytes → Bytes → Bool → Bool → ℕ → ℕ → List Capture → Outcome (List Value)
  unfolding match max_match_calls push_match
  find_loop src pat is_find anchor zero s₁ cs = stuck
  find_loop src pat is_find anchor (suc fuel) s₁ cs =
      match src pat max_match_calls s₁ 0 (record { level = 0; captures = cs }) >>= λ (r, st).
      elim r [
        | some e ↦ push_match src is_find s₁ e st
        | none ↦
            if leb (length src) s₁ || anchor
            then ok (nil_value ∷ [])
            else find_loop src pat is_find anchor fuel (s₁ + 1) st.captures
      ]

-- strings.Index and strings.ContainsAny.
unfoldable pub has_prefix : Bytes → Bytes → Bool
has_prefix [] s = true
has_prefix (p ∷ ps) [] = false
has_prefix (p ∷ ps) (c ∷ cs) = (c == p) && has_prefix ps cs

unfoldable pub index : Bytes → Bytes → Option ℕ
unfolding has_prefix
index [] p = if has_prefix p [] then some 0 else none
index (c ∷ cs) p =
    if has_prefix p (c ∷ cs)
    then some 0
    else elim (index cs p) [ none ↦ none | some i ↦ some (suc i) ]

unfoldable pub member : ℕ → Bytes → Bool
member c [] = false
member c (x ∷ xs) = (c == x) || member c xs

unfoldable pub contains_any : Bytes → Bytes → Bool
unfolding member
contains_any [] specials = false
contains_any (c ∷ cs) specials = member c specials || contains_any cs specials

-- "^$*+?.([%-"
abbrev pub pattern_specials : Bytes
pattern_specials = 94 ∷ 36 ∷ 42 ∷ 43 ∷ 63 ∷ 46 ∷ 40 ∷ 91 ∷ 37 ∷ 45 ∷ []

abbrev pub new_captures : List Capture
new_captures = replicate 32 (record { init = 0; len = pos 0 })

-- The pattern without its anchor, and whether it has one.
unfoldable pub anchored : Bytes → Bool
anchored [] = false
anchored (c ∷ cs) = c == caret

abbrev pub unanchor : Bytes → Bytes
unanchor p = if anchored p then drop 1 p else p

-- The search for a text from position init on.
unfoldable pub find_plain : Bytes → Bytes → ℕ → Outcome (List Value)
unfolding index
find_plain s p init = elim (index (drop (init - 1) s) p) [
  | none ↦ ok (nil_value ∷ [])
  | some start ↦ ok (number (start + init) ∷ number (start + init + length p - 1) ∷ [])
]

-- The search for a pattern from position init on.
unfoldable pub find_pattern : (ℕ → Bool) → Bytes → Bytes → Bool → ℕ → Outcome (List Value)
unfolding find_loop anchored
find_pattern room s p is_find init =
    find_loop room s (unanchor p) is_find (anchored p) (suc (length s)) (init - 1) new_captures

-- Where `find` starts, from 1, unless it starts after the end.
unfoldable pub find_init : ℤ → ℕ → Option ℕ
find_init (negsuc n) len = some 1
find_init (pos n) len = if ltb n 1 then some 1 else if ltb (len + 1) n then none else some n

-- string.find, and string.match if not is_find. `plain` is the fourth argument.
unfoldable pub find : (ℕ → Bool) → Bool → Bytes → Bytes → ℤ → Bool → Outcome (List Value)
unfolding relative_position find_init contains_any find_plain find_pattern
find room is_find s p position plain =
    elim (find_init (relative_position position (length s)) (length s)) [
      | none ↦ ok (nil_value ∷ [])
      | some init ↦
          if is_find && (plain || not (contains_any p pattern_specials))
          then find_plain s p init
          else find_pattern room s p is_find init
    ]

-- The upvalues of an iterator over matches: the strings, where to go on, and the end of the last
-- match, -1 at first.
pub record Matches : Type 0 where
  pub subject : Bytes
  pub pattern_text : Bytes
  pub start : ℕ
  pub last : ℤ

unfoldable pub gmatch : Bytes → Bytes → ℤ → Matches
unfolding unpack_position
gmatch s p position =
    let init = unpack_position position (length s) - 1 in
    record {
      subject = s;
      pattern_text = p;
      start = if ltb (length s) init then length s + 1 else init;
      last = negsuc 0;
    }

-- The attempts of the iterator from s₁ on.
unfoldable pub gmatch_loop :
    (ℕ → Bool) → Matches → ℕ → ℕ → List Capture → Outcome (List Value × Matches)
unfolding match max_match_calls push_captures
gmatch_loop room m zero s₁ cs = stuck
gmatch_loop room m (suc fuel) s₁ cs =
    if leb s₁ (length m.subject)
    then (match m.subject m.pattern_text max_match_calls s₁ 0 (record { level = 0; captures = cs })
        >>= λ (r, st).
            let rest = gmatch_loop room m fuel (s₁ + 1) st.captures in
            elim r [
              | none ↦ rest
              | some e ↦
                  if eqb_ℤ (pos e) m.last
                  then rest
                  else (push_captures room m.subject (some s₁) e st >>= λ vs.
                      ok (vs, record m { start = e; last = pos e }))
            ])
    else ok ([], m)

unfoldable pub gmatch_next : (ℕ → Bool) → Matches → Outcome (List Value × Matches)
unfolding gmatch_loop
gmatch_next room m = gmatch_loop room m (length m.subject + 2) m.start new_captures
