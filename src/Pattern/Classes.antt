-- ===== src/Pattern/Classes.antt =====
-- stdlib/pattern.go: classes of characters, single ones and sets in brackets.
use luart.Prelude.{
  ℕ, zero, suc, ◌+◌, ◌-◌, Bool, true, false, Option, none, some, not, ◌&&◌, ◌||◌, leb, ltb, ◌==◌,
  if◌then◌else◌, length,
}
use luart.Chunk.Proto.{Bytes}
use luart.Pattern.{
  Outcome, ok, err, stuck, ◌>>=◌, element, byte_at, ends_with_percent, missing_bracket,
}

abbrev pub percent : ℕ
percent = 37

abbrev pub open_bracket : ℕ
open_bracket = 91

abbrev pub close_bracket : ℕ
close_bracket = 93

abbrev pub caret : ℕ
caret = 94

abbrev pub dash : ℕ
dash = 45

abbrev pub dot : ℕ
dot = 46

abbrev pub within : ℕ → ℕ → ℕ → Bool
within low c high = leb low c && leb c high

unfoldable pub to_lower : ℕ → ℕ
to_lower c = if within 65 c 90 then c + 97 - 65 else c

unfoldable pub is_alpha : ℕ → Bool
is_alpha c = within 97 (to_lower c) 122

unfoldable pub is_digit : ℕ → Bool
is_digit c = within 48 c 57

unfoldable pub is_graph : ℕ → Bool
is_graph c = within 33 c 126

-- What the class letter cl says of c, if cl in lower case is the letter of a class.
unfoldable pub class_test : ℕ → ℕ → Option Bool
unfolding to_lower is_alpha is_digit is_graph
class_test c l =
    if l == 97
    then some (is_alpha c)
    else if l == 99
    then some (ltb c 32 || (c == 127))
    else if l == 100
    then some (is_digit c)
    else if l == 103
    then some (is_graph c)
    else if l == 108
    then some (within 97 c 122)
    else if l == 112
    then some (is_graph c && not (is_alpha c) && not (is_digit c))
    else if l == 115
    then some ((c == 32) || within 9 c 13)
    else if l == 117
    then some (within 65 c 90)
    else if l == 119
    then some (is_alpha c || is_digit c)
    else if l == 120
    then some (is_digit c || within 97 (to_lower c) 102)
    else if l == 122
    then some (c == 0)
    else none

-- An upper case letter stands for the complement of the class.
unfoldable pub match_class : ℕ → ℕ → Bool
unfolding class_test to_lower
match_class c cl = elim (class_test c (to_lower cl)) [
  | none ↦ cl == c
  | some res ↦ if within 97 cl 122 then res else not res
]

module _ (pat : Bytes) where
  -- The search for the ']' of a set, from p on.
  unfoldable pub bracket_end : ℕ → ℕ → Outcome ℕ
  unfolding element
  bracket_end zero p = stuck
  bracket_end (suc fuel) p = if leb (length pat) p then err missing_bracket else do
    c ← element pat p
    let q = if (c == percent) && ltb (p + 1) (length pat) then p + 2 else p + 1
    if byte_at pat q == close_bracket then ok (q + 1) else bracket_end fuel q

  -- The end of the single-character class at p.
  unfoldable pub class_end : ℕ → Outcome ℕ
  unfolding bracket_end element
  class_end p = do
    c ← element pat p
    if c == percent
        then (if leb (length pat) (p + 1) then err ends_with_percent else ok (p + 2))
        else if c == open_bracket
        then bracket_end (suc (length pat)) (if byte_at pat (p + 1) == caret then p + 2 else p + 1)
        else ok (p + 1)

  -- The loop of `matchBracketClass` over the items of a set, from p to its ']'.
  unfoldable pub bracket_loop : ℕ → ℕ → Bool → ℕ → ℕ → Outcome Bool
  unfolding element match_class
  bracket_loop zero c sig p ec = stuck
  bracket_loop (suc fuel) c sig p ec =
      if ltb p ec
      then (element pat p >>= λ b.
          if b == percent
          then (if match_class c (byte_at pat (p + 1))
              then ok sig
              else bracket_loop fuel c sig (p + 2) ec)
          else if (byte_at pat (p + 1) == dash) && ltb (p + 2) ec
          then (element pat p >>= λ low. element pat (p + 2) >>= λ high.
              if within low c high then ok sig else bracket_loop fuel c sig (p + 3) ec)
          else if b == c
          then ok sig
          else bracket_loop fuel c sig (p + 1) ec)
      else ok (not sig)

  -- Whether c is in the set from p to ec.
  unfoldable pub match_bracket_class : ℕ → ℕ → ℕ → Outcome Bool
  unfolding bracket_loop
  match_bracket_class c p ec =
      if byte_at pat (p + 1) == caret
      then bracket_loop (suc ec) c false (p + 2) ec
      else bracket_loop (suc ec) c true (p + 1) ec
