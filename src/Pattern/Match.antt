-- ===== src/Pattern/Match.antt =====
-- stdlib/pattern.go: the matcher. `match` and `doMatch` call each other through the functions
-- below, which take the matcher that is one level deeper as `next`, and the matcher that goes on
-- with the loop of `doMatch` as `again`.
use luart.Prelude.{
  ℕ, zero, suc, ◌+◌, ◌-◌, Bool, true, false, List, Option, none, some, ◌&&◌, ◌||◌, leb, ltb, ◌==◌,
  if◌then◌else◌, length,
}
use luart.Prelude.Texts.{equal_bytes}
use luart.Prelude.Int.{ℤ, pos, negsuc, sub_ℕ, ◌+ℤ◌, eqb_ℤ}
use luart.Chunk.Proto.{Bytes}
use luart.Pattern.{
  Outcome, ok, err, stuck, ◌>>=◌, element, write_element, slice, byte_at, max_captures,
  cap_unfinished, cap_position, Capture, MatchState, Answer, Matcher, or_else, too_complex,
  too_many_captures, invalid_capture_index, invalid_pattern_capture, missing_arguments,
  missing_frontier_set,
}
use luart.Pattern.Classes.{
  percent, open_bracket, dot, is_digit, match_class, class_end, match_bracket_class,
}

-- The innermost open capture below a level.
unfoldable pub capture_to_close : ℕ → List Capture → Outcome ℕ
unfolding element
capture_to_close zero cs = err invalid_pattern_capture
capture_to_close (suc l) cs = do
  c ← element cs l
  if eqb_ℤ c.len cap_unfinished then ok l else capture_to_close l cs

-- The capture of an index, if it is started and closed.
unfoldable pub closed_capture : ℤ → MatchState → Outcome ℕ
unfolding element ◌+ℤ◌
closed_capture (negsuc n) st = err (invalid_capture_index (negsuc n +ℤ pos 1))
closed_capture (pos l) st =
    if leb st.level l then err (invalid_capture_index (pos l +ℤ pos 1)) else do
      k ← element st.captures l
      if eqb_ℤ k.len cap_unfinished then err (invalid_capture_index (pos l +ℤ pos 1)) else ok l

-- The capture that the digit c names, from '1'.
unfoldable pub check_capture : ℕ → MatchState → Outcome ℕ
unfolding closed_capture
check_capture c st = closed_capture (sub_ℕ c 49) st

unfoldable pub start_capture : Matcher → ℕ → ℕ → ℤ → MatchState → Answer
unfolding write_element
start_capture next s p what st = if leb max_captures st.level then err too_many_captures else do
  cs ← write_element st.captures st.level (record { init = s; len = what })
  or_else (next s p (record { level = suc st.level; captures = cs }))
      (λ st'. ok (none, record st' { level = st'.level - 1 }))

-- A capture with another length.
unfoldable pub set_len : List Capture → ℕ → ℤ → Outcome (List Capture)
unfolding element write_element
set_len cs l n = do c ← element cs l; write_element cs l (record c { len = n })

unfoldable pub end_capture : Matcher → ℕ → ℕ → MatchState → Answer
unfolding capture_to_close element set_len
end_capture next s p st = do
  l ← capture_to_close st.level st.captures
  c ← element st.captures l
  cs ← set_len st.captures l (sub_ℕ s c.init)
  or_else (next s p (record st { captures = cs })) (λ st'.
      set_len st'.captures l cap_unfinished >>= λ cs'. ok (none, record st' { captures = cs' }))

module _ (src pat : Bytes) where
  unfoldable pub single_match : ℕ → ℕ → ℕ → Outcome Bool
  unfolding element match_class match_bracket_class
  single_match s p ep = if leb (length src) s then ok false else do
    c ← element src s
    b ← element pat p
    if b == dot
        then ok true
        else if b == percent
        then ok (match_class c (byte_at pat (p + 1)))
        else if b == open_bracket
        then match_bracket_class pat c p (ep - 1)
        else ok (b == c)

  -- The loop of `matchBalance` from s on, with `cont` delimiters b open.
  unfoldable pub balance_loop : ℕ → ℕ → ℕ → ℕ → ℕ → Outcome (Option ℕ)
  unfolding element
  balance_loop zero b e cont s = stuck
  balance_loop (suc fuel) b e cont s = if leb (length src) s then ok none else do
    c ← element src s
    if c == e
        then (if cont - 1 == 0 then ok (some (s + 1)) else balance_loop fuel b e (cont - 1) (s + 1))
        else balance_loop fuel b e (if c == b then cont + 1 else cont) (s + 1)

  unfoldable pub match_balance : ℕ → ℕ → Outcome (Option ℕ)
  unfolding element balance_loop
  match_balance s p = if leb (length pat) (p + 1) then err missing_arguments else do
    b ← element pat p
    e ← element pat (p + 1)
    if byte_at src s == b then balance_loop (suc (length src)) b e 1 (s + 1) else ok none

  -- The end of the text of a capture where it stands again at s. A position has no text.
  unfoldable pub match_text : ℕ → ℕ → ℤ → Outcome (Option ℕ)
  unfolding slice equal_bytes
  match_text s init (negsuc n) = ok none
  match_text s init (pos n) =
      if leb (s + n) (length src)
      then (slice src init (init + n) >>= λ captured. slice src s (s + n) >>= λ here.
          if equal_bytes captured here then ok (some (s + n)) else ok none)
      else ok none

  unfoldable pub match_capture : ℕ → ℕ → MatchState → Outcome (Option ℕ)
  unfolding check_capture element match_text
  match_capture s c st = do
    l ← check_capture c st
    k ← element st.captures l
    match_text s k.init k.len

  -- How often the item from p to ep matches from s on.
  unfoldable pub count_repeats : ℕ → ℕ → ℕ → ℕ → Outcome ℕ
  unfolding single_match
  count_repeats zero s p ep = stuck
  count_repeats (suc fuel) s p ep = do
    m ← single_match s p ep
    if m then (count_repeats fuel (s + 1) p ep >>= λ i. ok (suc i)) else ok 0

  -- The rest of the pattern after i repetitions, or fewer and fewer.
  unfoldable pub try_down : Matcher → ℕ → ℕ → ℕ → MatchState → Answer
  try_down next zero s ep st = next s (ep + 1) st
  try_down next (suc i) s ep st = or_else (next (s + suc i) (ep + 1) st) (try_down next i s ep)

  unfoldable pub max_expand : Matcher → ℕ → ℕ → ℕ → MatchState → Answer
  unfolding count_repeats try_down
  max_expand next s p ep st = do
    i ← count_repeats (suc (length src)) s p ep
    try_down next i s ep st

  unfoldable pub min_expand : Matcher → ℕ → ℕ → ℕ → ℕ → MatchState → Answer
  unfolding single_match
  min_expand next zero s p ep st = stuck
  min_expand next (suc fuel) s p ep st = or_else (next s (ep + 1) st) (λ st'.
      single_match s p ep >>= λ m.
      if m then min_expand next fuel (s + 1) p ep st' else ok (none, st'))

  -- A single-character class that ends at ep and matches at s, with the suffix c.
  unfoldable pub suffix : ℕ → Matcher → Matcher → ℕ → ℕ → ℕ → MatchState → Answer
  unfolding max_expand min_expand
  suffix c next again s p ep st =
      if c == 63
      then or_else (next (s + 1) (ep + 1) st) (again s (ep + 1))
      else if c == 43
      then max_expand next (s + 1) p ep st
      else if c == 42
      then max_expand next s p ep st
      else if c == 45
      then min_expand next (suc (length src)) s p ep st
      else again (s + 1) ep st

  -- A single-character class and an optional suffix.
  unfoldable pub item : Matcher → Matcher → ℕ → ℕ → MatchState → Answer
  unfolding class_end single_match suffix
  item next again s p st = do
    ep ← class_end pat p
    m ← single_match s p ep
    let c = byte_at pat ep
    if m
        then suffix c next again s p ep st
        else if (c == 42) || (c == 63) || (c == 45)
        then again s (ep + 1) st
        else ok (none, st)

  -- '%f' at p - 2.
  unfoldable pub frontier : Matcher → ℕ → ℕ → MatchState → Answer
  unfolding class_end element match_bracket_class
  frontier again s p st =
      if byte_at pat p == open_bracket
      then (class_end pat p >>= λ ep.
          (if ltb 0 s then element src (s - 1) else ok 0) >>= λ previous.
          match_bracket_class pat previous p (ep - 1) >>= λ before.
          if before
          then ok (none, st)
          else match_bracket_class pat (byte_at src s) p (ep - 1) >>= λ here.
              if here then again s ep st else ok (none, st))
      else err missing_frontier_set

  -- Goes on after an item that takes the subject up to r.
  abbrev pub go_on : Matcher → Option ℕ → ℕ → MatchState → Answer
  go_on again r p st = elim r [ none ↦ ok (none, st) | some s ↦ again s p st ]

  -- '%' and the byte d after it, at p.
  unfoldable pub escape : ℕ → Matcher → Matcher → ℕ → ℕ → MatchState → Answer
  unfolding match_balance frontier match_capture item is_digit element
  escape d next again s p st =
      if d == 98
      then (match_balance s (p + 2) >>= λ r. go_on again r (p + 4) st)
      else if d == 102
      then frontier again s (p + 2) st
      else if is_digit d
      then (element pat (p + 1) >>= λ c. match_capture s c st >>= λ r. go_on again r (p + 2) st)
      else item next again s p st

  -- The body of the loop of `doMatch`, where c is the pattern's byte at p.
  unfoldable pub step : ℕ → Matcher → Matcher → ℕ → ℕ → MatchState → Answer
  unfolding start_capture end_capture escape item
  step c next again s p st =
      if c == 40
      then (if byte_at pat (p + 1) == 41
          then start_capture next s (p + 2) cap_position st
          else start_capture next s (p + 1) cap_unfinished st)
      else if c == 41
      then end_capture next s (p + 1) st
      else if (c == 36) && (p + 1 == length pat)
      then ok (if s == length src then some s else none, st)
      else if c == percent
      then escape (byte_at pat (p + 1)) next again s p st
      else item next again s p st

  unfoldable pub do_match : ℕ → Matcher → Matcher
  unfolding step element
  do_match zero next s p st = stuck
  do_match (suc fuel) next s p st =
      if ltb p (length pat)
      then (element pat p >>= λ c. step c next (do_match fuel next) s p st)
      else ok (some s, st)

  -- `depth` is the number of match calls left.
  unfoldable pub match : ℕ → Matcher
  unfolding do_match
  match zero s p st = err too_complex
  match (suc depth) s p st = do_match (suc (length pat)) (match depth) s p st
