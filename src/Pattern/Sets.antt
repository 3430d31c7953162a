-- ===== src/Pattern/Sets.antt =====
-- stdlib/pattern.go: the ends of single-character classes lie in the pattern, and matching one
-- reads the pattern and the subject in range.
use luart.Prelude.{
  ℕ, zero, suc, ◌∷◌, [], ◌+◌, ◌-◌, ◌≤◌, ◌<◌, ◌≡◌, Bool, true, false, arith, length, ltb, leb, ◌==◌,
  ◌&&◌, if◌then◌else◌,
}
use luart.Chunk.Proto.{Bytes}
use luart.Pattern.{byte_at}
use luart.Pattern.Classes.{
  percent, open_bracket, close_bracket, caret, dash, dot, within, match_class, bracket_end,
  class_end, bracket_loop, match_bracket_class,
}
use luart.Pattern.Match.{single_match}
use luart.Pattern.Ends.{Ends, ends_ok, ends_err, bind-Ends, if-Ends, weaken-Ends, element-Ends}

-- A byte that is not 0 is not past the end.
pub byte_at_nonzero : (xs : Bytes) (i c : ℕ) → (byte_at xs i == suc c) ≡ true → i < length xs
byte_at_nonzero [] i c h = absurd (ground (arith, h))
byte_at_nonzero (x ∷ xs) zero c h = omega arith
byte_at_nonzero (x ∷ xs) (suc i) c h = omega (arith, byte_at_nonzero xs i c h)

module _ (pat : Bytes) where
  pub bracket_end-Ends :
      (fuel p : ℕ)
      → 0 < fuel
      → length pat < fuel + p
      → Ends (λ ep. p < ep × ep ≤ length pat) (bracket_end pat fuel p)
  unfolding bracket_end
  bracket_end-Ends zero p some_fuel enough = absurd (omega (arith, some_fuel))
  bracket_end-Ends (suc fuel) p some_fuel enough =
      if-Ends (leb (length pat) p) (λ _. ends_err)
        (λ e.
          let inside : p < length pat = ground (arith, e) in
          bind-Ends (element-Ends pat p inside) (λ c _.
            let q : ℕ = if (c == percent) && ltb (p + 1) (length pat) then p + 2 else p + 1 in
            let low : p + 1 ≤ q = ground arith in
            if-Ends (byte_at pat q == close_bracket)
              (λ e. ends_ok (omega (arith, low), omega (arith, byte_at_nonzero pat q 92 e)))
              (λ _.
                weaken-Ends (λ ep (lt, le). (omega (arith, low, lt), le))
                  (bracket_end-Ends fuel q (omega (arith, enough, inside))
                    (omega (arith, enough, low))))))

  -- A class takes a byte of the pattern at least.
  pub class_end-Ends :
      (p : ℕ) → p < length pat → Ends (λ ep. p < ep × ep ≤ length pat) (class_end pat p)
  unfolding class_end
  class_end-Ends p inside = bind-Ends (element-Ends pat p inside) (λ c _.
      if-Ends (c == percent)
        (λ _.
          if-Ends (leb (length pat) (p + 1)) (λ _. ends_err)
            (λ e. ends_ok (omega arith, ground (arith, e))))
        (λ _.
          if-Ends (c == open_bracket)
            (λ _.
              let q : ℕ = if byte_at pat (p + 1) == caret then p + 2 else p + 1 in
              let low : p + 1 ≤ q = ground arith in
              weaken-Ends (λ ep (lt, le). (omega (arith, low, lt), le))
                (bracket_end-Ends (suc (length pat)) q (omega arith) (omega (arith, low))))
            (λ _. ends_ok (omega arith, omega (arith, inside)))))

  pub bracket_loop-Ends :
      (fuel c : ℕ) (sig : Bool) (p ec : ℕ)
      → 0 < fuel
      → ec < fuel + p
      → ec ≤ length pat
      → Ends (λ _. Unit {0}) (bracket_loop pat fuel c sig p ec)
  unfolding bracket_loop
  bracket_loop-Ends zero c sig p ec some_fuel enough le = absurd (omega (arith, some_fuel))
  bracket_loop-Ends (suc fuel) c sig p ec some_fuel enough le =
      if-Ends (ltb p ec)
        (λ below.
          let lt : p < ec = ground (arith, below) in
          bind-Ends (element-Ends pat p (omega (arith, lt, le))) (λ b _.
            if-Ends (b == percent)
              (λ _.
                if-Ends (match_class c (byte_at pat (p + 1))) (λ _. ends_ok tt)
                  (λ _.
                    bracket_loop-Ends fuel c sig (p + 2) ec (omega (arith, enough, lt))
                      (omega (arith, enough)) le))
              (λ _.
                if-Ends ((byte_at pat (p + 1) == dash) && ltb (p + 2) ec)
                  (λ range.
                    let high_lt : p + 2 < ec = ground (arith, range) in
                    bind-Ends (element-Ends pat p (omega (arith, lt, le))) (λ low _.
                      bind-Ends (element-Ends pat (p + 2) (omega (arith, high_lt, le))) (λ high _.
                        if-Ends (within low c high) (λ _. ends_ok tt)
                          (λ _.
                            bracket_loop-Ends fuel c sig (p + 3) ec (omega (arith, enough, lt))
                              (omega (arith, enough)) le))))
                  (λ _.
                    if-Ends (b == c) (λ _. ends_ok tt)
                      (λ _.
                        bracket_loop-Ends fuel c sig (p + 1) ec (omega (arith, enough, lt))
                          (omega (arith, enough)) le)))))
        (λ _. ends_ok tt)

  pub match_bracket_class-Ends :
      (c p ec : ℕ) → ec ≤ length pat → Ends (λ _. Unit {0}) (match_bracket_class pat c p ec)
  unfolding match_bracket_class
  match_bracket_class-Ends c p ec le =
      if-Ends (byte_at pat (p + 1) == caret)
        (λ _. bracket_loop-Ends (suc ec) c false (p + 2) ec (omega arith) (omega arith) le)
        (λ _. bracket_loop-Ends (suc ec) c true (p + 1) ec (omega arith) (omega arith) le)

-- A class that matches takes a byte of the subject.
pub single_match-Ends :
    (src pat : Bytes) (s p ep : ℕ)
    → p < length pat
    → ep ≤ length pat
    → Ends (λ m. m ≡ true → s < length src) (single_match src pat s p ep)
unfolding single_match
single_match-Ends src pat s p ep inside le =
    if-Ends (leb (length src) s) (λ _. ends_ok (λ h. absurd (ground (arith, h))))
      (λ e.
        let lt : s < length src = ground (arith, e) in
        bind-Ends (element-Ends src s lt) (λ c _. bind-Ends (element-Ends pat p inside) (λ b _.
          if-Ends (b == dot) (λ _. ends_ok (λ _. lt))
            (λ _.
              if-Ends (b == percent) (λ _. ends_ok (λ _. lt))
                (λ _.
                  if-Ends (b == open_bracket)
                    (λ _.
                      weaken-Ends (λ _ _ _. lt)
                        (match_bracket_class-Ends pat c p (ep - 1) (omega (arith, le))))
                    (λ _. ends_ok (λ _. lt)))))))
