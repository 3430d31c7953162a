-- ===== src/Pattern/Progress.antt =====
-- stdlib/pattern.go: the iterator of `string.gmatch` and the loop of `string.gsub` come to an end.
use luart.Prelude.{
  ℕ, zero, suc, [], ◌∷◌, ◌+◌, ◌-◌, ◌*◌, ◌≤◌, ◌<◌, ◌≡◌, ◌≢◌, ◌∙◌, ap, Bool, List, arith, length, All,
  leb, if◌then◌else◌,
}
use luart.Prelude.Int.{ℤ, pos, negsuc, eqb_ℤ}
use luart.Chunk.Proto.{Bytes}
use luart.Pattern.{Outcome, ok, stuck, ◌>>=◌, Capture, max_match_calls}
use luart.Pattern.Find.{Value, Matches, gmatch, gmatch_loop, gmatch_next, new_captures}
use luart.Pattern.Ends.{Ends, ends_ok, ends_err, bind-Ends, if-Ends}
use luart.Pattern.Safety.Steps.{match-Safe}
use luart.Pattern.Found.{Part, attempt-Ends, reset-Inv, new_captures-length, push_captures-Ends}

-- What a call of the iterator gives: nothing, or parts of the subject for a match that ends where
-- the last one did not.
pub data Next (m : Matches) : List Value × Matches → Type 0 where
  finished : Next m ([], m)
  yields :
      {vs : List Value} {e : ℕ}
      → m.start ≤ e
      → e ≤ length m.subject
      → pos e ≢ m.last
      → All (Part m.subject) vs
      → 0 < length vs
      → Next m (vs, record m { start = e; last = pos e })

abbrev pub Started : Matches → Type 0
Started m = m.start ≤ length m.subject + 1

-- How many rounds are left on a subject of n bytes at s, where the last match ended at `last`: one
-- for each position, and one more for each where an empty match can still be.
abbrev pub rounds_left : ℕ → ℕ → ℤ → ℕ
rounds_left n s last = 2 * (n + 1 - s) + (if eqb_ℤ (pos s) last then 0 else 1)

-- A match that ends elsewhere than the last one uses up a round.
pub match_uses_round :
    (n s e : ℕ) (last : ℤ)
    → s ≤ e
    → e ≤ n
    → pos e ≢ last
    → rounds_left n e (pos e) < rounds_left n s last
match_uses_round n s e (negsuc l) low high new = ground (arith, low, high)
match_uses_round n s e (pos l) low high new =
    let apart : e ≢ l = λ q. new (ap pos q) in ground (arith, low, high, apart)

pub rounds_left_bound : (n s : ℕ) (last : ℤ) → rounds_left n s last < 2 * n + 4
rounds_left_bound n s last = ground arith

-- The same for a byte that is copied.
pub copy_uses_round :
    (n s : ℕ) (last : ℤ) → s < n → rounds_left n (s + 1) last < rounds_left n s last
copy_uses_round n s last lt = ground (arith, lt)

module _ (room : ℕ → Bool) where
  gmatch_loop-Ends :
      (m : Matches) (fuel s : ℕ) (cs : List Capture)
      → 0 < fuel
      → length m.subject + 1 < fuel + s
      → m.start ≤ s
      → length cs ≡ 32
      → Ends (Next m) (gmatch_loop room m fuel s cs)
  unfolding gmatch_loop
  gmatch_loop-Ends m zero s cs some_fuel enough from size = absurd (omega (arith, some_fuel))
  gmatch_loop-Ends m (suc fuel) s cs some_fuel enough from size =
      if-Ends (leb s (length m.subject))
        (λ inside.
          let le : s ≤ length m.subject = ground (arith, inside) in
          let rest : (cs' : List Capture)
              → length cs' ≡ 32
              → Ends (Next m) (gmatch_loop room m fuel (s + 1) cs') =
            λ cs' size'.
              gmatch_loop-Ends m fuel (s + 1) cs' (omega (arith, enough, le))
                (omega (arith, enough)) (omega (arith, from)) size' in
          attempt-Ends _
            ((match-Safe m.subject m.pattern_text max_match_calls).run s 0 _ (omega arith) le
              (reset-Inv cs size))
            (λ e st' low high inv.
              if-Ends (eqb_ℤ (pos e) m.last) (λ _. rest st'.captures inv.room)
                (λ new.
                  bind-Ends (push_captures-Ends m.subject room s e st' low high inv)
                    (λ vs (parts, some_parts). ends_ok (
                      yields (omega (arith, from, low)) high (λ q. absurd (ground (arith, q, new)))
                        parts some_parts))))
            (λ st' same. rest st'.captures (same.length_eq ∙ size)))
        (λ _. ends_ok finished)

  pub gmatch_next-Ends : (m : Matches) → Started m → Ends (Next m) (gmatch_next room m)
  unfolding gmatch_next
  gmatch_next-Ends m started =
      gmatch_loop-Ends m (length m.subject + 2) m.start new_captures (omega arith) (omega arith)
        (omega arith) new_captures-length

pub gmatch-Started : (s p : Bytes) (position : ℤ) → Started (gmatch s p position)
unfolding gmatch
gmatch-Started s p position = ground arith

-- A loop over the iterator: the values of each of its matches.
unfoldable pub all_matches : (ℕ → Bool) → ℕ → Matches → Outcome (List (List Value))
unfolding gmatch_next
all_matches room zero m = stuck
all_matches room (suc fuel) m = gmatch_next room m >>= λ (vs, m'). elim vs [
  | [] ↦ ok []
  | v ∷ more ↦ all_matches room fuel m' >>= λ rest. ok ((v ∷ more) ∷ rest)
]

Next-Ends :
    {m : Matches} {r : Outcome (List Value × Matches)} {B : Type 0} {Q : B → Type 0}
    (f : List Value × Matches → Outcome B)
    → Ends (Next m) r
    → Ends Q (f ([], m))
    → ((v : Value) (vs : List Value) (e : ℕ)
        → m.start ≤ e
        → e ≤ length m.subject
        → pos e ≢ m.last
        → All (Part m.subject) (v ∷ vs)
        → Ends Q (f (v ∷ vs, record m { start = e; last = pos e })))
    → Ends Q (r >>= f)
Next-Ends f (ends_ok finished) done more = done
Next-Ends f (ends_ok (yields {vs = []} _ _ _ _ empty)) done more = absurd (omega (arith, empty))
Next-Ends f (ends_ok (yields {vs = v ∷ vs} low high new parts _)) done more =
    more v vs _ low high new parts
Next-Ends f ends_err done more = ends_err

all_matches-Ends :
    (room : ℕ → Bool) (fuel : ℕ) (m : Matches)
    → Started m
    → rounds_left (length m.subject) m.start m.last < fuel
    → Ends (All (All (Part m.subject))) (all_matches room fuel m)
unfolding all_matches
all_matches-Ends room zero m started enough = absurd (omega (arith, enough))
all_matches-Ends room (suc fuel) m started enough =
    Next-Ends _ (gmatch_next-Ends room m started) (ends_ok tt) (λ v vs e low high new parts.
      bind-Ends
        (all_matches-Ends room fuel (record m { start = e; last = pos e }) (omega (arith, high))
          (omega
            (arith, enough, match_uses_round (length m.subject) m.start e m.last low high new)))
        (λ rest h. ends_ok (parts, h)))

-- A loop over the matches of a pattern ends within two rounds for each byte of the subject and
-- four more, and all it gives are positions and texts of the subject, or an error of the library's.
pub gmatch-Ends :
    (room : ℕ → Bool) (s p : Bytes) (position : ℤ)
    → Ends (All (All (Part s))) (all_matches room (2 * length s + 4) (gmatch s p position))
unfolding gmatch
gmatch-Ends room s p position =
    all_matches-Ends room (2 * length s + 4) (gmatch s p position) (gmatch-Started s p position)
      (rounds_left_bound (length s) (gmatch s p position).start (negsuc 0))
