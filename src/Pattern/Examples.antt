-- ===== src/Pattern/Examples.antt =====
-- stdlib/pattern.go at concrete inputs.
use luart.Prelude.{ℕ, [], ◌∷◌, ◌≡◌, ◌≤◌, refl, arith, none, Bool, true, false, All}
use luart.Prelude.Int.{pos, negsuc}
use luart.Chunk.Proto.{Bytes}
use luart.Pattern.{MatchState, ok}
use luart.Pattern.Match.{match}
use luart.Pattern.Find.{
  number, text, new_captures, find, find_pattern, find_plain, gmatch, gmatch_next, contains_any,
}
use luart.Pattern.Substitute.{gsub, by_text}
use luart.Pattern.Ends.{Ends}
use luart.Pattern.Safety.{Good}
use luart.Pattern.Safety.Steps.{match-Ends}
use luart.Pattern.Found.{Part, reset-Inv}
use luart.Pattern.Results.{SearchResult, find-Ends}
use luart.Pattern.Progress.{all_matches, gmatch-Ends}
use luart.Pattern.Replaced.{gsub-Ends}
use luart.Pattern.Plain.Search.{find_pattern-find_plain}

abbrev plenty : ℕ → Bool
plenty n = true

abbrev the_world : ℕ
the_world = 7

abbrev hello : Bytes
hello = 104 ∷ 101 ∷ 108 ∷ 108 ∷ 111 ∷ []

abbrev start_state : MatchState
start_state = record { level = 0; captures = new_captures }

-- "(l)(.)()"
abbrev captures_pattern : Bytes
captures_pattern = 40 ∷ 108 ∷ 41 ∷ 40 ∷ 46 ∷ 41 ∷ 40 ∷ 41 ∷ []

find_captures :
    find plenty true hello captures_pattern (pos 1) false
    ≡ ok (number 3 ∷ number 4 ∷ text (108 ∷ []) ∷ text (108 ∷ []) ∷ number 5 ∷ [])
unfolding find
find_captures = refl

-- "l+" replaced by "<%1>".
gsub_captures :
    gsub plenty plenty (by_text (60 ∷ 37 ∷ 49 ∷ 62 ∷ [])) hello (108 ∷ 43 ∷ []) none the_world
    ≡ ok (104 ∷ 101 ∷ 60 ∷ 108 ∷ 108 ∷ 62 ∷ 111 ∷ [], 1, the_world)
unfolding gsub
gsub_captures = refl

-- "(a+)b%1" against "aabaac".
back_reference :
    find plenty false
      (97 ∷ 97 ∷ 98 ∷ 97 ∷ 97 ∷ 99 ∷ [])
      (40 ∷ 97 ∷ 43 ∷ 41 ∷ 98 ∷ 37 ∷ 49 ∷ [])
      (pos 1)
      false
    ≡ ok (text (97 ∷ 97 ∷ []) ∷ [])
unfolding find
back_reference = refl

gmatch_runs :
    gmatch_next plenty (gmatch hello (108 ∷ 42 ∷ []) (pos 3))
    ≡ ok (
      text (108 ∷ 108 ∷ []) ∷ [],
      record { subject = hello; pattern_text = 108 ∷ 42 ∷ []; start = 4; last = pos 4 },
    )
unfolding gmatch_next gmatch
gmatch_runs = refl

match-Ends_example : Ends (Good 5 2 start_state) (match hello captures_pattern 200 2 0 start_state)
match-Ends_example =
    match-Ends hello captures_pattern 200 2 0 start_state (omega arith)
      (reset-Inv new_captures refl)

find-Ends_example :
    Ends (SearchResult hello true) (find plenty true hello captures_pattern (negsuc 3) false)
find-Ends_example = find-Ends plenty hello true captures_pattern (negsuc 3) false

gmatch-Ends_example :
    Ends (All (All (Part hello))) (all_matches plenty 14 (gmatch hello (108 ∷ 42 ∷ []) (pos 1)))
gmatch-Ends_example = gmatch-Ends plenty hello (108 ∷ 42 ∷ []) (pos 1)

gsub-Ends_example :
    Ends
      (λ ((t, count, w) : Bytes × ℕ × ℕ). count ≤ 6)
      (gsub plenty plenty (by_text (60 ∷ 37 ∷ 49 ∷ 62 ∷ [])) hello (108 ∷ 42 ∷ []) none the_world)
gsub-Ends_example =
    gsub-Ends plenty plenty (by_text (60 ∷ 37 ∷ 49 ∷ 62 ∷ [])) hello (108 ∷ 42 ∷ []) none the_world

find_pattern-find_plain_example :
    find_pattern plenty hello (108 ∷ 111 ∷ []) true 2 ≡ find_plain hello (108 ∷ 111 ∷ []) 2
unfolding contains_any
find_pattern-find_plain_example =
    find_pattern-find_plain plenty hello (108 ∷ 111 ∷ []) 2 refl refl refl (omega arith)
      (omega arith)
