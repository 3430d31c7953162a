-- ===== src/Pattern/Replaced.antt =====
-- stdlib/pattern.go: the loop of `string.gsub` ends, and replaces no more matches than the subject
-- has positions.
use luart.Prelude.{
  ℕ, zero, suc, [], ◌∷◌, ◌++◌, ◌+◌, ◌-◌, ◌*◌, ◌≤◌, ◌<◌, ◌≡◌, ◌≢◌, inr, ◌∙◌, refl, ap, Bool, Option,
  none, some, arith, length, not, ltb, ◌==◌, ◌||◌,
}
use luart.Prelude.Int.{ℤ, pos, negsuc, pos_part, neg_part, eqb_ℤ, ltb_ℤ}
use luart.Chunk.Proto.{Bytes}
use luart.Pattern.{Outcome, ◌>>=◌, MatchState, max_match_calls}
use luart.Pattern.Classes.{percent, is_digit}
use luart.Pattern.Find.{anchored, unanchor}
use luart.Pattern.Substitute.{
  Reply, keeps, replaces, wrong, raises, Replacement, by_text, by_function, by_table, Gsub, settle,
  replacement_item, add_string, add_value, gsub_match, gsub_copy, gsub_round, gsub_loop, gsub,
}
use luart.Pattern.Ends.{
  Ends, ends_ok, ends_err, bind-Ends, if-Ends, weaken-Ends, element-Ends, slice-Ends,
}
use luart.Pattern.Captures.{Inv}
use luart.Pattern.Safety.Steps.{match-Safe}
use luart.Pattern.Found.{
  attempt-Ends, reset-Inv, new_captures-length, push_captures-Ends, push_capture-Ends,
}
use luart.Pattern.Progress.{rounds_left, rounds_left_bound, match_uses_round, copy_uses_round}

-- A result, whichever it is.
abbrev pub Any : {A : Type 0} → Outcome A → Type 0
Any {A} r = Ends (λ (a : A). Unit {0}) r

module _ (src : Bytes) (s e : ℕ) (low : s ≤ e) (high : e ≤ length src) where
  replacement_item-Ends :
      (d : ℕ) (st : MatchState) → Inv (length src) e st → Any (replacement_item src d s e st)
  unfolding replacement_item
  replacement_item-Ends d st inv =
      if-Ends (not (is_digit d)) (λ _. if-Ends (d == percent) (λ _. ends_ok tt) (λ _. ends_err))
        (λ _.
          if-Ends (d == 48) (λ _. weaken-Ends (λ _ _. tt) (slice-Ends src s e low high))
            (λ _.
              bind-Ends
                (push_capture-Ends src (d - 49) (some s) e e st inv (inr (s, refl, low, high)))
                (λ v _. ends_ok tt)))

  add_string-Ends :
      (repl : Bytes) (st : MatchState) → Inv (length src) e st → Any (add_string src repl s e st)
  unfolding add_string
  add_string-Ends [] st inv = ends_ok tt
  add_string-Ends (c ∷ []) st inv =
      if-Ends (c == percent) (λ _. replacement_item-Ends 0 st inv) (λ _. ends_ok tt)
  add_string-Ends (c ∷ d ∷ rest) st inv =
      if-Ends (c == percent)
        (λ _.
          bind-Ends (replacement_item-Ends d st inv)
            (λ t _. bind-Ends (add_string-Ends rest st inv) (λ more _. ends_ok tt)))
        (λ _. bind-Ends (add_string-Ends (d ∷ rest) st inv) (λ more _. ends_ok tt))

  settle-Ends : {World : Type 0} (reply : Reply) (w : World) → Any (settle src s e reply w)
  unfolding settle
  settle-Ends keeps w = bind-Ends (slice-Ends src s e low high) (λ t _. ends_ok tt)
  settle-Ends (replaces t) w = ends_ok tt
  settle-Ends (wrong name) w = ends_err
  settle-Ends raises w = ends_err

  module _ (room allowed : ℕ → Bool) {World : Type 0} where
    add_value-Ends :
        (repl : Replacement World) (st : MatchState) (w : World)
        → Inv (length src) e st
        → Any (add_value room allowed repl src s e st w)
    unfolding add_value
    add_value-Ends (by_text t) st w inv = bind-Ends (add_string-Ends t st inv) (λ out _. ends_ok tt)
    add_value-Ends (by_function f) st w inv =
        bind-Ends (push_captures-Ends src room s e st low high inv)
          (λ vs _. settle-Ends (f vs w).0 (f vs w).1)
    add_value-Ends (by_table f) st w inv =
        bind-Ends (push_capture-Ends src 0 (some s) e e st inv (inr (s, refl, low, high)))
          (λ v _. settle-Ends (f v w).0 (f v w).1)

-- A match that ends elsewhere than the last is one more, and ends later.
one_more :
    (last : ℤ) (count s e : ℕ)
    → s ≤ e
    → pos e ≢ last
    → count + neg_part last ≤ pos_part last + 1
    → pos_part last ≤ s
    → count + 1 + 0 ≤ e + 1
one_more (negsuc l) count s e low new few before = omega (arith, low, few, before)
one_more (pos l) count s e low new few before =
    let apart : e ≢ l = λ q. new (ap pos q) in omega (arith, low, few, before, apart)

module _ (room allowed : ℕ → Bool) {World : Type 0} (repl : Replacement World) (src pat : Bytes)
    (max_n : ℤ) (anchor : Bool) where
  abbrev n : ℕ
  n = length src

  -- The invariant of the loop: the position and the last match lie in the subject, and there were
  -- no more matches than positions up to the end of the last.
  record Going (g : Gsub World) : Type 0 where
    inside : g.here ≤ n
    last_before : pos_part g.last ≤ g.here
    few : g.count + neg_part g.last ≤ pos_part g.last + 1
    room_left : length g.slots ≡ 32

  abbrev left : Gsub World → ℕ
  left g = rounds_left n g.here g.last

  -- Where a round goes on: with less left to do, or nowhere.
  data Goes (g : Gsub World) : Option (Gsub World) → Type 0 where
    stops : Goes g none
    goes : {g' : Gsub World} → Going g' → left g' < left g → Goes g (some g')

  Goes-Ends :
      {g : Gsub World} {r : Outcome (Option (Gsub World))} {B : Type 0} {Q : B → Type 0}
      (f : Option (Gsub World) → Outcome B)
      → Ends (Goes g) r
      → Ends Q (f none)
      → ((g' : Gsub World) → Going g' → left g' < left g → Ends Q (f (some g')))
      → Ends Q (r >>= f)
  Goes-Ends f (ends_ok stops) done more = done
  Goes-Ends f (ends_ok (goes going less)) done more = more _ going less
  Goes-Ends f ends_err done more = ends_err

  copy-Goes :
      (g : Gsub World) (st : MatchState)
      → Going g
      → length st.captures ≡ 32
      → Ends (Goes g) (gsub_copy room allowed repl src pat max_n anchor g st)
  unfolding gsub_copy
  copy-Goes g st going size =
      if-Ends (ltb g.here n)
        (λ e.
          let lt : g.here < n = ground (arith, e) in
          bind-Ends (element-Ends src g.here lt) (λ c _. ends_ok (
            goes
              (record {
                inside = omega (arith, lt);
                last_before = omega (arith, going.last_before);
                few = going.few;
                room_left = size;
              })
              (copy_uses_round n g.here g.last lt))))
        (λ _. ends_ok stops)

  match-Goes :
      (g : Gsub World) (e : ℕ) (st : MatchState)
      → Going g
      → g.here ≤ e
      → e ≤ n
      → pos e ≢ g.last
      → Inv n e st
      → Ends
          (λ g'. Going g' × left g' < left g)
          (gsub_match room allowed repl src pat max_n anchor g e st)
  unfolding gsub_match
  match-Goes g e st going low high new inv =
      bind-Ends (add_value-Ends src g.here e low high room allowed repl st g.world inv)
        (λ (t, changed, w) _.
          if-Ends (allowed (length (g.out ++ t)))
            (λ _. ends_ok (
              record {
                inside = high;
                last_before = omega arith;
                few = one_more g.last g.count g.here e low new going.few going.last_before;
                room_left = inv.room;
              },
              match_uses_round n g.here e g.last low high new,
            ))
            (λ _. ends_err))

  round-Goes :
      (g : Gsub World)
      → Going g
      → Ends (Goes g) (gsub_round room allowed repl src pat max_n anchor g)
  unfolding gsub_round
  round-Goes g going =
      attempt-Ends _
        ((match-Safe src pat max_match_calls).run g.here 0 _ (omega arith) going.inside
          (reset-Inv g.slots going.room_left))
        (λ e st low high inv.
          if-Ends (eqb_ℤ (pos e) g.last) (λ _. copy-Goes g st going inv.room)
            (λ new.
              bind-Ends
                (match-Goes g e st going low high (λ q. absurd (ground (arith, q, new))) inv)
                (λ g' (going', less). ends_ok (goes going' less))))
        (λ st same. copy-Goes g st going (same.length_eq ∙ going.room_left))

  loop-Ends :
      (fuel : ℕ) (g : Gsub World)
      → Going g
      → left g < fuel
      → Ends Going (gsub_loop room allowed repl src pat max_n anchor fuel g)
  unfolding gsub_loop
  loop-Ends zero g going enough = absurd (omega (arith, enough))
  loop-Ends (suc fuel) g going enough =
      if-Ends (ltb_ℤ max_n (pos 0) || ltb_ℤ (pos g.count) max_n)
        (λ _. Goes-Ends _ (round-Goes g going) (ends_ok going) (λ g' going' less.
          if-Ends anchor (λ _. ends_ok going')
            (λ _. loop-Ends fuel g' going' (omega (arith, enough, less)))))
        (λ _. ends_ok going)

-- Every substitution ends, within the rounds of the model, with a text and a count of at most one
-- match for each position of the subject, or with an error of the library's or the replacement's:
-- no index is out of range, whatever the subject, the pattern, the limit and the replacement.
pub gsub-Ends :
    (room allowed : ℕ → Bool) {World : Type 0} (repl : Replacement World) (src p : Bytes)
    (limit : Option ℤ) (w : World)
    → Ends (λ (t, count, w'). count ≤ length src + 1) (gsub room allowed repl src p limit w)
unfolding gsub
gsub-Ends room allowed repl src p limit w =
    let max_n : ℤ = elim limit [ none ↦ pos (length src + 1) | some n ↦ n ] in
    bind-Ends
      (loop-Ends room allowed repl src (unanchor p) max_n (anchored p) (2 * length src + 4) _
        (record {
          inside = omega arith;
          last_before = omega arith;
          few = omega arith;
          room_left = new_captures-length;
        })
        (rounds_left_bound (length src) 0 (negsuc 0)))
      (λ g going.
        if-Ends g.changed
          (λ _.
            bind-Ends (slice-Ends src g.here (length src) going.inside (omega arith))
              (λ rest _. ends_ok (omega (arith, going.few, going.last_before, going.inside))))
          (λ _. ends_ok (omega (arith, going.few, going.last_before, going.inside))))
