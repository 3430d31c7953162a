-- ===== src/Pattern/Safety/Steps.antt =====
-- stdlib/pattern.go: `doMatch` and `match` as a whole.
use luart.Prelude.{
  ℕ, zero, suc, ◌+◌, ◌-◌, ◌≤◌, ◌<◌, ◌≡◌, refl, ap, ◌∙◌, [], ◌∷◌, Bool, true, false, arith, Option,
  none, some, length, ltb, ltb→lt, ◌==◌, ◌&&◌, ◌||◌, if◌then◌else◌,
}
use luart.Chunk.Proto.{Bytes}
use luart.Pattern.{MatchState, Matcher, byte_at, element, ok, cap_position, cap_unfinished}
use luart.Pattern.Classes.{percent, open_bracket, is_digit, match_bracket_class}
use luart.Pattern.Match.{suffix, item, frontier, go_on, escape, step, do_match, match}
use luart.Pattern.Ends.{Ends, ends_ok, ends_err, bind-Ends, if-Ends, weaken-Ends, element-Ends}
use luart.Pattern.Sets.{
  byte_at_nonzero, class_end-Ends, single_match-Ends, match_bracket_class-Ends,
}
use luart.Pattern.Captures.{Inv, Inv-Same, Same-refl, Inv-later}
use luart.Pattern.Safety.{
  Good, found, missed, or_else-Ends, later-Good, Same-Good, Safe, start_capture-Good,
  end_capture-Good,
}
use luart.Pattern.Safety.Moves.{
  Forward, forward, match_balance-Ends, match_capture-Ends, max_expand-Good, min_expand-Good,
}

byte_at_digit : (xs : Bytes) (i : ℕ) → is_digit (byte_at xs i) ≡ true → i < length xs
unfolding is_digit
byte_at_digit [] i h = absurd (ground (arith, h))
byte_at_digit (x ∷ xs) zero h = omega arith
byte_at_digit (x ∷ xs) (suc i) h = omega (arith, byte_at_digit xs i h)

module _ (src pat : Bytes) where
  abbrev n : ℕ
  n = length src

  go_on-Good :
      {again : Matcher} {k s : ℕ} (r : Option ℕ) (p : ℕ) (st : MatchState)
      → Safe n k again
      → k ≤ p
      → Inv n s st
      → Forward n s r
      → Ends (Good n s st) (go_on src pat again r p st)
  go_on-Good none p st goes le inv h = ends_ok (missed (Same-refl st))
  go_on-Good (some e) p st goes le inv (forward low high) =
      later-Good low (goes.run e p st le high (Inv-later low inv))

  module _ {next again : Matcher} (deeper : Safe n 0 next) (p : ℕ)
      (goes : Safe n (suc p) again) where
    suffix-Good :
        (c s ep : ℕ) (st : MatchState)
        → p < ep
        → ep ≤ length pat
        → s < n
        → Inv n s st
        → Ends (Good n s st) (suffix src pat c next again s p ep st)
    unfolding suffix
    suffix-Good c s ep st after in_pat lt inv =
        let inv' : Inv n (s + 1) st = Inv-later (omega arith) inv in
        let inside : p < length pat = omega (arith, after, in_pat) in
        let le : s ≤ n = omega (arith, lt) in
        let le' : s + 1 ≤ n = omega (arith, lt) in
        if-Ends (c == 63)
          (λ _.
            or_else-Ends (omega arith) (deeper.run (s + 1) (ep + 1) st (omega arith) le' inv')
              (λ st' same.
                Same-Good same
                  (goes.run s (ep + 1) st' (omega (arith, after)) le (Inv-Same same inv))))
          (λ _.
            if-Ends (c == 43)
              (λ _.
                later-Good (omega arith)
                  (max_expand-Good src pat deeper (s + 1) p ep st inside in_pat le' inv'))
              (λ _.
                if-Ends (c == 42)
                  (λ _. max_expand-Good src pat deeper s p ep st inside in_pat le inv)
                  (λ _.
                    if-Ends (c == 45)
                      (λ _.
                        min_expand-Good src pat deeper (suc n) s p ep st inside in_pat (omega arith)
                          (omega arith) le inv)
                      (λ _. later-Good (omega arith) (goes.run (s + 1) ep st after le' inv')))))

    item-Good :
        (s : ℕ) (st : MatchState)
        → p < length pat
        → s ≤ n
        → Inv n s st
        → Ends (Good n s st) (item src pat next again s p st)
    unfolding item
    item-Good s st inside le inv = bind-Ends (class_end-Ends pat p inside) (λ ep (after, in_pat).
        bind-Ends (single_match-Ends src pat s p ep inside in_pat) (λ m matches.
          let c : ℕ = byte_at pat ep in
          if-Ends m (λ e. suffix-Good c s ep st after in_pat (matches e) inv)
            (λ _.
              if-Ends ((c == 42) || (c == 63) || (c == 45))
                (λ _. goes.run s (ep + 1) st (omega (arith, after)) le inv)
                (λ _. ends_ok (missed (Same-refl st))))))

    frontier-Good :
        (s : ℕ) (st : MatchState)
        → s ≤ n
        → Inv n s st
        → Ends (Good n s st) (frontier src pat again s (p + 2) st)
    unfolding frontier
    frontier-Good s st le inv =
        if-Ends (byte_at pat (p + 2) == open_bracket)
          (λ bracket.
            bind-Ends (class_end-Ends pat (p + 2) (byte_at_nonzero pat (p + 2) 90 bracket))
              (λ ep (after, in_pat).
                let in_set : (c : ℕ)
                    → Ends (λ _. Unit {0}) (match_bracket_class pat c (p + 2) (ep - 1)) =
                  λ c. match_bracket_class-Ends pat c (p + 2) (ep - 1) (omega (arith, in_pat)) in
                let previous : Ends (λ _. Unit {0})
                    (if ltb 0 s then element src (s - 1) else ok 0) =
                  if-Ends (ltb 0 s)
                    (λ e.
                      weaken-Ends (λ _ _. tt)
                        (element-Ends src (s - 1) (omega (arith, le, ltb→lt 0 s e))))
                    (λ _. ends_ok tt) in
                bind-Ends previous (λ c _. bind-Ends (in_set c) (λ before _.
                  if-Ends before (λ _. ends_ok (missed (Same-refl st)))
                    (λ _. bind-Ends (in_set (byte_at src s)) (λ here _.
                      if-Ends here (λ _. goes.run s ep st (omega (arith, after)) le inv)
                        (λ _. ends_ok (missed (Same-refl st)))))))))
          (λ _. ends_err)

    escape-Good :
        (d s : ℕ) (st : MatchState)
        → p < length pat
        → byte_at pat (p + 1) ≡ d
        → s ≤ n
        → Inv n s st
        → Ends (Good n s st) (escape src pat d next again s p st)
    unfolding escape
    escape-Good d s st inside here le inv =
        if-Ends (d == 98)
          (λ _.
            bind-Ends (match_balance-Ends src pat s (p + 2) le)
              (λ r (ahead, _). go_on-Good r (p + 4) st goes (omega arith) inv ahead))
          (λ _.
            if-Ends (d == 102) (λ _. frontier-Good s st le inv)
              (λ _.
                if-Ends (is_digit d)
                  (λ digit.
                    bind-Ends
                      (element-Ends pat (p + 1)
                        (byte_at_digit pat (p + 1) (ap is_digit here ∙ digit)))
                      (λ c _.
                        bind-Ends (match_capture-Ends src pat s c st inv)
                          (λ r ahead. go_on-Good r (p + 2) st goes (omega arith) inv ahead)))
                  (λ _. item-Good s st inside le inv)))

    step-Good :
        (c s : ℕ) (st : MatchState)
        → p < length pat
        → s ≤ n
        → Inv n s st
        → Ends (Good n s st) (step src pat c next again s p st)
    unfolding step
    step-Good c s st inside le inv =
        if-Ends (c == 40)
          (λ _.
            if-Ends (byte_at pat (p + 1) == 41)
              (λ _. start_capture-Good deeper s (p + 2) cap_position st refl (omega arith) le inv)
              (λ _.
                start_capture-Good deeper s (p + 1) cap_unfinished st refl (omega arith) le inv))
          (λ _.
            if-Ends (c == 41) (λ _. end_capture-Good deeper s (p + 1) st le inv)
              (λ _.
                if-Ends ((c == 36) && (p + 1 == length pat)) (λ _. at_end (s == n))
                  (λ _.
                    if-Ends (c == percent)
                      (λ _. escape-Good (byte_at pat (p + 1)) s st inside refl le inv)
                      (λ _. item-Good s st inside le inv))))
      where
        at_end : (b : Bool) → Ends (Good n s st) (ok (if b then some s else none, st))
        at_end true = ends_ok (found (omega arith) le inv)
        at_end false = ends_ok (missed (Same-refl st))

  do_match-Safe :
      {next : Matcher} (fuel k : ℕ)
      → Safe n 0 next
      → 0 < fuel
      → length pat < fuel + k
      → Safe n k (do_match src pat fuel next)
  unfolding do_match
  do_match-Safe zero k deeper some_fuel enough = absurd (omega (arith, some_fuel))
  do_match-Safe (suc fuel) k deeper some_fuel enough = record {
    run = λ s p st low le inv.
        if-Ends (ltb p (length pat))
          (λ e.
            let inside : p < length pat = ground (arith, e) in
            bind-Ends (element-Ends pat p inside) (λ c _.
              step-Good deeper p
                (do_match-Safe fuel (suc p) deeper (omega (arith, inside, low, enough))
                  (omega (arith, low, enough)))
                c s st inside le inv))
          (λ _. ends_ok (found (omega arith) le inv));
  }

  -- The matcher is safe at any depth.
  pub match-Safe : (depth : ℕ) → Safe n 0 (match src pat depth)
  unfolding match
  match-Safe zero = record { run = λ s p st _ _ _. ends_err }
  match-Safe (suc depth) =
      let whole : Safe n 0 (do_match src pat (suc (length pat)) (match src pat depth)) =
        do_match-Safe (suc (length pat)) 0 (match-Safe depth) (omega arith) (omega arith) in
      record { run = λ s p st low le inv. whole.run s p st low le inv }

-- From any position s of the subject, any position of the pattern and any state where the captures
-- lie in the subject up to s, the matcher ends at any depth, with no index out of range: with an
-- error of the library's, with an end from s on where the captures lie in the subject, or with no
-- match and the started captures as they were.
pub match-Ends :
    (src pat : Bytes) (depth s p : ℕ) (st : MatchState)
    → s ≤ length src
    → Inv (length src) s st
    → Ends (Good (length src) s st) (match src pat depth s p st)
match-Ends src pat depth s p st le inv = (match-Safe src pat depth).run s p st (omega arith) le inv
