-- ===== src/Pattern/Found.antt =====
-- stdlib/pattern.go: what `string.find` and `string.match` push lies in the subject.
use luart.Prelude.{
  ℕ, zero, suc, ◌+◌, ◌-◌, ◌≤◌, ◌<◌, ◌≡◌, ◌⊎◌, inl, inr, ap, refl, Bool, List, Option, none, some,
  arith, length, take, drop, All, leb, ◌==◌,
}
use luart.Prelude.Int.{ℤ, pos, negsuc, pos_part, neg_part}
use luart.Chunk.Proto.{Bytes}
use luart.Pattern.{Outcome, ◌>>=◌, MatchState, Capture, Answer}
use luart.Pattern.Find.{
  Value, number, text, whole_match, capture_value, push_capture, push_loop, push_count,
  push_captures, new_captures,
}
use luart.Pattern.Ends.{
  Ends, ends_ok, ends_err, bind-Ends, if-Ends, weaken-Ends, element-Ends, slice-Ends,
}
use luart.Pattern.Captures.{Inv, Fits, Same}
use luart.Pattern.Safety.{Good, found, missed}

-- A value of a match: a position of the subject, from 1 to just after its end, or a text of it.
pub data Part (src : Bytes) : Value → Type 0 where
  part_position : {n : ℕ} → 0 < n → n ≤ length src + 1 → Part src (number n)
  part_text :
      {t : Bytes} (i j : ℕ)
      → i ≤ j
      → j ≤ length src
      → t ≡ take (j - i) (drop i src)
      → Part src (text t)

-- What a match, or a miss, does with the state is all that its continuation depends on.
pub attempt-Ends :
    {B : Type 0} {Q : B → Type 0} {n s : ℕ} {st : MatchState} {m : Answer}
    (f : Option ℕ × MatchState → Outcome B)
    → Ends (Good n s st) m
    → ((e : ℕ) (st' : MatchState) → s ≤ e → e ≤ n → Inv n e st' → Ends Q (f (some e, st')))
    → ((st' : MatchState) → Same st st' → Ends Q (f (none, st')))
    → Ends Q (m >>= f)
attempt-Ends f (ends_ok (found low high inv)) hit miss = hit _ _ low high inv
attempt-Ends f (ends_ok (missed same)) hit miss = miss _ same
attempt-Ends f ends_err hit miss = ends_err

-- A reset matcher.
pub reset-Inv :
    {n s : ℕ} (cs : List Capture) → length cs ≡ 32 → Inv n s (record { level = 0; captures = cs })
reset-Inv cs e = record {
  room = e;
  bound = omega arith;
  fits = λ i c lt _. absurd (omega (arith, lt));
}

pub new_captures-length : length new_captures ≡ 32
new_captures-length = refl

-- A capture that `push_capture` can push: one that is started, or any where s and e are the ends of
-- a match.
abbrev pub Pushable : ℕ → Option ℕ → ℕ → MatchState → ℕ → Type 0
Pushable n s e st i = (i < st.level) ⊎ ((low : ℕ) × (s ≡ some low) × (low ≤ e) × (e ≤ n))

module _ (src : Bytes) where
  capture_value-Ends :
      (init : ℕ) (len : ℤ)
      → init + pos_part len ≤ length src
      → neg_part len ≤ 2
      → Ends (Part src) (capture_value src init len)
  unfolding capture_value
  capture_value-Ends init (pos n) stops known =
      bind-Ends (slice-Ends src init (init + n) (omega arith) stops)
        (λ t e. ends_ok (part_text init (init + n) (omega arith) stops e))
  capture_value-Ends init (negsuc zero) stops known = ends_err
  capture_value-Ends init (negsuc (suc zero)) stops known =
      ends_ok (part_position (omega arith) (omega (arith, stops)))
  capture_value-Ends init (negsuc (suc (suc n))) stops known = absurd (omega (arith, known))

  whole_match-Ends :
      (s e : ℕ) → s ≤ e → e ≤ length src → Ends (Part src) (whole_match src (some s) e)
  unfolding whole_match
  whole_match-Ends s e low high =
      bind-Ends (slice-Ends src s e low high) (λ t same. ends_ok (part_text s e low high same))

  pub push_capture-Ends :
      (i : ℕ) (s : Option ℕ) (e at : ℕ) (st : MatchState)
      → Inv (length src) at st
      → Pushable (length src) s e st i
      → Ends (Part src) (push_capture src i s e st)
  unfolding push_capture
  push_capture-Ends i s e at st inv can =
      if-Ends (leb st.level i)
        (λ above.
          if-Ends (i == 0)
            (λ first. elim can [
              | inl lt ↦ absurd (ground (arith, lt, above))
              | inr (low, same, le, in_src) ↦ rw same (whole_match-Ends low e le in_src)
            ])
            (λ _. ends_err))
        (λ below.
          let lt : i < st.level = ground (arith, below) in
          bind-Ends (element-Ends st.captures i (omega (arith, lt, inv.bound, inv.room))) (λ c here.
            let fits : Fits (length src) at c = inv.fits i c lt here in
            capture_value-Ends c.init c.len fits.stops fits.known))

  push_loop-Ends :
      (k i : ℕ) (s : Option ℕ) (e at : ℕ) (st : MatchState)
      → Inv (length src) at st
      → ((j : ℕ) → i ≤ j → j < i + k → Pushable (length src) s e st j)
      → Ends (λ vs. All (Part src) vs × (length vs ≡ k)) (push_loop src k i s e st)
  unfolding push_loop
  push_loop-Ends zero i s e at st inv can = ends_ok (tt, refl)
  push_loop-Ends (suc k) i s e at st inv can =
      bind-Ends (push_capture-Ends i s e at st inv (can i (omega arith) (omega arith))) (λ v part.
        bind-Ends
          (push_loop-Ends k (i + 1) s e at st inv
            (λ j low high. can j (omega (arith, low)) (omega (arith, high))))
          (λ vs (parts, size). ends_ok ((part, parts), ap suc size)))

  module _ (room : ℕ → Bool) where
    -- The captures alone.
    pub captures_only-Ends :
        (e at : ℕ) (st : MatchState)
        → Inv (length src) at st
        → Ends (All (Part src)) (push_captures room src none e st)
    unfolding push_captures push_count
    captures_only-Ends e at st inv =
        if-Ends (room st.level)
          (λ _.
            weaken-Ends (λ vs (parts, _). parts)
              (push_loop-Ends st.level 0 none e at st inv (λ j _ lt. inl (omega (arith, lt)))))
          (λ _. ends_err)

    -- The captures of a match, or the whole of it: a value at least.
    pub push_captures-Ends :
        (s e : ℕ) (st : MatchState)
        → s ≤ e
        → e ≤ length src
        → Inv (length src) e st
        → Ends (λ vs. All (Part src) vs × 0 < length vs) (push_captures room src (some s) e st)
    unfolding push_captures push_count
    push_captures-Ends s e st low high inv =
        if-Ends (room (push_count (some s) st))
          (λ _.
            weaken-Ends (λ vs (parts, size). (parts, omega (arith, size, positive)))
              (push_loop-Ends (push_count (some s) st) 0 (some s) e e st inv
                (λ _ _ _. inr (s, refl, low, high))))
          (λ _. ends_err)
      where
        positive : 0 < push_count (some s) st
        positive = ground arith
