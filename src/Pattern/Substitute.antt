-- ===== src/Pattern/Substitute.antt =====
-- stdlib/pattern.go: `string.gsub`. The replacement is a text, or a function or a table, whose
-- calls may change a `World` that stands for what they can reach.
use luart.Prelude.{
  ℕ, zero, suc, ◌+◌, ◌-◌, ◌*◌, ◌/◌, ◌%◌, Bool, true, false, List, [], ◌∷◌, ◌++◌, Option, none, some,
  not, ◌||◌, ltb, ◌==◌, if◌then◌else◌, length,
}
use luart.Prelude.Int.{ℤ, pos, negsuc, ltb_ℤ, eqb_ℤ}
use luart.Chunk.Proto.{Bytes}
use luart.Pattern.{
  Outcome, ok, err, stuck, ◌>>=◌, element, slice, Capture, MatchState, max_match_calls,
  invalid_replacement_use, invalid_replacement_value, no_room, raised,
}
use luart.Pattern.Classes.{percent, is_digit}
use luart.Pattern.Match.{match}
use luart.Pattern.Find.{
  Value, nil_value, number, text, push_capture, push_captures, anchored, unanchor, new_captures,
}

-- What a function or a table gives for a match: nil or false, a text, a value of another type, or
-- an error.
pub data Reply : Type 0 where
  keeps : Reply
  replaces : Bytes → Reply
  wrong : Bytes → Reply
  raises : Reply

pub data Replacement (World : Type 0) : Type 0 where
  by_text : Bytes → Replacement World
  by_function : (List Value → World → Reply × World) → Replacement World
  by_table : (Value → World → Reply × World) → Replacement World

unfoldable pub decimal_loop : ℕ → ℕ → Bytes → Bytes
decimal_loop zero n rest = rest
decimal_loop (suc fuel) n rest =
    if n / 10 == 0 then (48 + n % 10) ∷ rest else decimal_loop fuel (n / 10) ((48 + n % 10) ∷ rest)

-- The text of a value that a capture pushed.
unfoldable pub to_text : Value → Bytes
unfolding decimal_loop
to_text nil_value = []
to_text (number n) = decimal_loop (suc n) n []
to_text (text t) = t

-- What '%' and d stand for.
unfoldable pub replacement_item : Bytes → ℕ → ℕ → ℕ → MatchState → Outcome Bytes
unfolding is_digit slice push_capture to_text
replacement_item src d s e st =
    if not (is_digit d)
    then (if d == percent then ok (d ∷ []) else err invalid_replacement_use)
    else if d == 48
    then slice src s e
    else push_capture src (d - 49) (some s) e st >>= λ v. ok (to_text v)

-- What repl appends for the match from s to e.
unfoldable pub add_string : Bytes → Bytes → ℕ → ℕ → MatchState → Outcome Bytes
unfolding replacement_item
add_string src [] s e st = ok []
add_string src (c ∷ []) s e st = if c == percent then replacement_item src 0 s e st else ok (c ∷ [])
add_string src (c ∷ d ∷ rest) s e st =
    if c == percent
    then (replacement_item src d s e st >>= λ t.
        add_string src rest s e st >>= λ more. ok (t ++ more))
    else add_string src (d ∷ rest) s e st >>= λ more. ok (c ∷ more)

module _ {World : Type 0} where
  -- The text to append, and whether it changed the match.
  unfoldable pub settle : Bytes → ℕ → ℕ → Reply → World → Outcome (Bytes × Bool × World)
  unfolding slice
  settle src s e keeps w = slice src s e >>= λ t. ok (t, false, w)
  settle src s e (replaces t) w = ok (t, true, w)
  settle src s e (wrong name) w = err (invalid_replacement_value name)
  settle src s e raises w = err raised

-- Where a substitution stands: the position, the matches replaced, the end of the last match or
-- -1, the text made, whether it differs from the subject, and the matcher's captures.
pub record Gsub (World : Type 0) : Type 0 where
  pub here : ℕ
  pub count : ℕ
  pub last : ℤ
  pub out : Bytes
  pub changed : Bool
  pub world : World
  pub slots : List Capture

-- `room n` is whether the stack has room for n values, `allowed n` whether a text of n bytes may be
-- made.
module _ (room allowed : ℕ → Bool) {World : Type 0} (repl : Replacement World) where
  unfoldable pub add_value : Bytes → ℕ → ℕ → MatchState → World → Outcome (Bytes × Bool × World)
  unfolding add_string settle push_captures push_capture
  add_value src s e st w = elim repl [
    | by_text t ↦ add_string src t s e st >>= λ out. ok (out, true, w)
    | by_function f ↦
        push_captures room src (some s) e st >>= λ vs. settle src s e (f vs w).0 (f vs w).1
    | by_table f ↦ push_capture src 0 (some s) e st >>= λ v. settle src s e (f v w).0 (f v w).1
  ]

  module _ (src pat : Bytes) (max_n : ℤ) (anchor : Bool) where
    -- A match from the position of g to e.
    unfoldable pub gsub_match : Gsub World → ℕ → MatchState → Outcome (Gsub World)
    unfolding add_value
    gsub_match g e st = add_value src g.here e st g.world >>= λ (t, changed, w).
        if allowed (length (g.out ++ t))
        then ok (record {
          here = e;
          count = g.count + 1;
          last = pos e;
          out = g.out ++ t;
          changed = changed || g.changed;
          world = w;
          slots = st.captures;
        })
        else err no_room

    -- No match at the position of g: a byte is copied, if there is one.
    unfoldable pub gsub_copy : Gsub World → MatchState → Outcome (Option (Gsub World))
    unfolding element
    gsub_copy g st =
        if ltb g.here (length src)
        then (element src g.here >>= λ c.
            ok
              (some (record g { here = g.here + 1; out = g.out ++ (c ∷ []); slots = st.captures })))
        else ok none

    -- One round of the loop: where it goes on, or none at the end.
    unfoldable pub gsub_round : Gsub World → Outcome (Option (Gsub World))
    unfolding match max_match_calls gsub_match gsub_copy
    gsub_round g =
        match src pat max_match_calls g.here 0 (record { level = 0; captures = g.slots })
        >>= λ (r, st). elim r [
          | none ↦ gsub_copy g st
          | some e ↦
              if eqb_ℤ (pos e) g.last
              then gsub_copy g st
              else gsub_match g e st >>= λ g'. ok (some g')
        ]

    unfoldable pub gsub_loop : ℕ → Gsub World → Outcome (Gsub World)
    unfolding gsub_round
    gsub_loop zero g = stuck
    gsub_loop (suc fuel) g =
        if ltb_ℤ max_n (pos 0) || ltb_ℤ (pos g.count) max_n
        then (gsub_round g >>= λ r. elim r [
          | none ↦ ok g
          | some g' ↦ if anchor then ok g' else gsub_loop fuel g'
        ])
        else ok g

  -- The text and the number of matches that string.gsub pushes, and the world after it.
  unfoldable pub gsub : Bytes → Bytes → Option ℤ → World → Outcome (Bytes × ℕ × World)
  unfolding gsub_loop slice anchored
  gsub src p limit w =
      let start : Gsub World = record {
        here = 0;
        count = 0;
        last = negsuc 0;
        out = [];
        changed = false;
        world = w;
        slots = new_captures;
      } in
      let max_n : ℤ = elim limit [ none ↦ pos (length src + 1) | some n ↦ n ] in
      gsub_loop src (unanchor p) max_n (anchored p) (2 * length src + 4) start >>= λ g.
      if g.changed
      then (slice src g.here (length src) >>= λ rest. ok (g.out ++ rest, g.count, g.world))
      else ok (src, g.count, g.world)
