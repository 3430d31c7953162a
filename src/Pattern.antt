-- ===== src/Pattern.antt =====
-- stdlib/pattern.go: Lua's pattern matching. Here are the results of a match, the state of a
-- matcher and the reads of its subject and its pattern. The children model the classes of
-- characters, the matcher, and the library's functions on top of it.
pub mod Classes
pub mod Match
pub mod Find
pub mod Substitute
pub mod Found
pub mod Results
pub mod Progress
pub mod Replaced
pub mod Plain
pub mod Ends
pub mod Sets
pub mod Captures
pub mod Safety
mod Examples
use luart.Prelude.{
  ℕ, zero, suc, ◌+◌, ◌-◌, Bool, List, Option, none, some, leb, ltb, ◌&&◌, if◌then◌else◌, get_elem?,
  set, get_or, length, take, drop,
}
use luart.Prelude.Int.{ℤ, negsuc}
use luart.Chunk.Proto.{Bytes}

-- The errors a match raises.
pub data PatternError : Type 0 where
  too_complex : PatternError
  too_many_captures : PatternError
  invalid_capture_index : ℤ → PatternError
  invalid_pattern_capture : PatternError
  unfinished_capture : PatternError
  ends_with_percent : PatternError
  missing_bracket : PatternError
  missing_arguments : PatternError
  missing_frontier_set : PatternError
  invalid_replacement_use : PatternError
  invalid_replacement_value : Bytes → PatternError
  no_room : PatternError
  raised : PatternError

-- `panic` is Go's panic at an index out of range, `stuck` a loop that ran out of fuel.
pub data Outcome (A : Type 0) : Type 0 where
  ok : A → Outcome A
  err : PatternError → Outcome A
  panic : Outcome A
  stuck : Outcome A

infixl 5 ◌>>=◌
abbrev pub ◌>>=◌ : {A B : Type 0} → Outcome A → (A → Outcome B) → Outcome B
m >>= f = elim m [ ok a ↦ f a | err e ↦ err e | panic ↦ panic | stuck ↦ stuck ]

-- An element of a Go array or string, and a slice of one.
unfoldable pub element : {A : Type 0} → List A → ℕ → Outcome A
element xs i = elim (get_elem? xs i) [ none ↦ panic | some a ↦ ok a ]

unfoldable pub write_element : {A : Type 0} → List A → ℕ → A → Outcome (List A)
write_element xs i a = if ltb i (length xs) then ok (set xs i a) else panic

unfoldable pub slice : Bytes → ℕ → ℕ → Outcome Bytes
slice xs i j = if leb i j && leb j (length xs) then ok (take (j - i) (drop i xs)) else panic

-- The byte at i, or 0 at the end.
abbrev pub byte_at : Bytes → ℕ → ℕ
byte_at xs i = get_or xs i 0

abbrev pub max_captures : ℕ
max_captures = 32

unfoldable pub max_match_calls : ℕ
max_match_calls = 200

-- The lengths of a capture that is open, and of one that stands for a position.
abbrev pub cap_unfinished : ℤ
cap_unfinished = negsuc 0

abbrev pub cap_position : ℤ
cap_position = negsuc 1

pub record Capture : Type 0 where
  pub init : ℕ
  pub len : ℤ

-- The captures started, and the array they stand in.
pub record MatchState : Type 0 where
  pub level : ℕ
  pub captures : List Capture

-- The end of a match, or none, with the state it leaves.
abbrev pub Answer : Type 0
Answer = Outcome (Option ℕ × MatchState)

-- A matcher of the pattern from p against the subject from s.
abbrev pub Matcher : Type 0
Matcher = ℕ → ℕ → MatchState → Answer

-- What comes after a match that failed.
abbrev pub or_else : Answer → (MatchState → Answer) → Answer
or_else m f = elim m [
  | ok (some e, st) ↦ ok (some e, st)
  | ok (none, st) ↦ f st
  | err e ↦ err e
  | panic ↦ panic
  | stuck ↦ stuck
]
