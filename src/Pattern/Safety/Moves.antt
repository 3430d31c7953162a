-- ===== src/Pattern/Safety/Moves.antt =====
-- stdlib/pattern.go: balanced strings, back references and repetitions move forward in the subject
-- and stop at its end.
use luart.Prelude.{
  ℕ, zero, suc, ◌+◌, ◌-◌, ◌≤◌, ◌<◌, arith, Option, none, some, length, leb, ◌==◌, if◌then◌else◌,
}
use luart.Prelude.Texts.{equal_bytes}
use luart.Prelude.Int.{ℤ, pos_part, pos, negsuc}
use luart.Chunk.Proto.{Bytes}
use luart.Pattern.{MatchState, Matcher, byte_at}
use luart.Pattern.Match.{
  match_balance, balance_loop, match_capture, match_text, count_repeats, try_down, max_expand,
  min_expand,
}
use luart.Pattern.Ends.{
  Ends, ends_ok, ends_err, bind-Ends, if-Ends, weaken-Ends, element-Ends, slice-Ends,
}
use luart.Pattern.Sets.{single_match-Ends}
use luart.Pattern.Captures.{Inv, Inv-Same, Inv-later, check_capture-Ends}
use luart.Pattern.Safety.{Good, missed, or_else-Ends, later-Good, Same-Good, Safe}

-- A position from s on, if there is one.
pub data Forward (n s : ℕ) : Option ℕ → Type 0 where
  nowhere : Forward n s none
  forward : {e : ℕ} → s ≤ e → e ≤ n → Forward n s (some e)

module _ (src pat : Bytes) where
  balance_loop-Ends :
      (fuel b e cont s low : ℕ)
      → low ≤ s
      → 0 < fuel
      → length src < fuel + s
      → Ends (Forward (length src) low) (balance_loop src pat fuel b e cont s)
  unfolding balance_loop
  balance_loop-Ends zero b e cont s low le some_fuel enough = absurd (omega (arith, some_fuel))
  balance_loop-Ends (suc fuel) b e cont s low le some_fuel enough =
      if-Ends (leb (length src) s) (λ _. ends_ok nowhere)
        (λ outside.
          let lt : s < length src = ground (arith, outside) in
          let rest = λ (k : ℕ).
            balance_loop-Ends fuel b e k (s + 1) low (omega (arith, le)) (omega (arith, enough, lt))
              (omega (arith, enough)) in
          bind-Ends (element-Ends src s lt) (λ c _.
            if-Ends (c == e)
              (λ _.
                if-Ends (cont - 1 == 0)
                  (λ _. ends_ok (forward (omega (arith, le)) (omega (arith, lt))))
                  (λ _. rest (cont - 1)))
              (λ _. rest (if c == b then cont + 1 else cont))))

  pub match_balance-Ends :
      (s p : ℕ)
      → s ≤ length src
      → Ends (λ r. Forward (length src) s r × p + 1 < length pat) (match_balance src pat s p)
  unfolding match_balance
  match_balance-Ends s p le =
      if-Ends (leb (length pat) (p + 1)) (λ _. ends_err)
        (λ outside.
          let lt : p + 1 < length pat = ground (arith, outside) in
          bind-Ends (element-Ends pat p (omega (arith, lt))) (λ b _.
            bind-Ends (element-Ends pat (p + 1) lt) (λ e _.
              if-Ends (byte_at src s == b)
                (λ _.
                  weaken-Ends (λ r h. (h, lt))
                    (balance_loop-Ends (suc (length src)) b e 1 (s + 1) s (omega arith)
                      (omega arith) (omega arith)))
                (λ _. ends_ok (nowhere, lt)))))

  match_text-Ends :
      (s init : ℕ) (len : ℤ)
      → init + pos_part len ≤ length src
      → Ends (Forward (length src) s) (match_text src pat s init len)
  unfolding match_text
  match_text-Ends s init (negsuc n) stops = ends_ok nowhere
  match_text-Ends s init (pos n) stops =
      if-Ends (leb (s + n) (length src))
        (λ e.
          let fits : s + n ≤ length src = ground (arith, e) in
          bind-Ends (slice-Ends src init (init + n) (omega arith) stops) (λ captured _.
            bind-Ends (slice-Ends src s (s + n) (omega arith) fits) (λ here _.
              if-Ends (equal_bytes captured here) (λ _. ends_ok (forward (omega arith) fits))
                (λ _. ends_ok nowhere))))
        (λ _. ends_ok nowhere)

  pub match_capture-Ends :
      (s c : ℕ) (st : MatchState)
      → Inv (length src) s st
      → Ends (Forward (length src) s) (match_capture src pat s c st)
  unfolding match_capture
  match_capture-Ends s c st inv = bind-Ends (check_capture-Ends c st inv) (λ l lt.
      bind-Ends (element-Ends st.captures l (omega (arith, lt, inv.bound, inv.room)))
        (λ k here. match_text-Ends s k.init k.len (inv.fits l k lt here).stops))

  count_repeats-Ends :
      (fuel s p ep : ℕ)
      → p < length pat
      → ep ≤ length pat
      → 0 < fuel
      → length src < fuel + s
      → s ≤ length src
      → Ends (λ i. s + i ≤ length src) (count_repeats src pat fuel s p ep)
  unfolding count_repeats
  count_repeats-Ends zero s p ep inside in_pat some_fuel enough le =
      absurd (omega (arith, some_fuel))
  count_repeats-Ends (suc fuel) s p ep inside in_pat some_fuel enough le =
      bind-Ends (single_match-Ends src pat s p ep inside in_pat) (λ m matches.
        if-Ends m
          (λ e.
            let lt : s < length src = matches e in
            bind-Ends
              (count_repeats-Ends fuel (s + 1) p ep inside in_pat (omega (arith, enough, lt))
                (omega (arith, enough)) (omega (arith, lt)))
              (λ i h. ends_ok (omega (arith, h))))
          (λ _. ends_ok (omega (arith, le))))

  module _ {next : Matcher} (deeper : Safe (length src) 0 next) where
    try_down-Good :
        (i s ep : ℕ) (st : MatchState)
        → s + i ≤ length src
        → Inv (length src) s st
        → Ends (Good (length src) s st) (try_down src pat next i s ep st)
    unfolding try_down
    try_down-Good zero s ep st le inv =
        deeper.run s (ep + 1) st (omega arith) (omega (arith, le)) inv
    try_down-Good (suc i) s ep st le inv =
        or_else-Ends (omega arith)
          (deeper.run (s + suc i) (ep + 1) st (omega arith) le (Inv-later (omega arith) inv))
          (λ st' same.
            Same-Good same (try_down-Good i s ep st' (omega (arith, le)) (Inv-Same same inv)))

    pub max_expand-Good :
        (s p ep : ℕ) (st : MatchState)
        → p < length pat
        → ep ≤ length pat
        → s ≤ length src
        → Inv (length src) s st
        → Ends (Good (length src) s st) (max_expand src pat next s p ep st)
    unfolding max_expand
    max_expand-Good s p ep st inside in_pat le inv =
        bind-Ends
          (count_repeats-Ends (suc (length src)) s p ep inside in_pat (omega arith) (omega arith)
            le)
          (λ i fits. try_down-Good i s ep st fits inv)

    pub min_expand-Good :
        (fuel s p ep : ℕ) (st : MatchState)
        → p < length pat
        → ep ≤ length pat
        → 0 < fuel
        → length src < fuel + s
        → s ≤ length src
        → Inv (length src) s st
        → Ends (Good (length src) s st) (min_expand src pat next fuel s p ep st)
    unfolding min_expand
    min_expand-Good zero s p ep st inside in_pat some_fuel enough le inv =
        absurd (omega (arith, some_fuel))
    min_expand-Good (suc fuel) s p ep st inside in_pat some_fuel enough le inv =
        or_else-Ends (omega arith) (deeper.run s (ep + 1) st (omega arith) le inv) (λ st' same.
          bind-Ends (single_match-Ends src pat s p ep inside in_pat) (λ m matches.
            if-Ends m
              (λ e.
                let lt : s < length src = matches e in
                Same-Good same (
                  later-Good (omega arith) (
                    min_expand-Good fuel (s + 1) p ep st' inside in_pat (omega (arith, enough, lt))
                      (omega (arith, enough)) (omega (arith, lt))
                      (Inv-later (omega arith) (Inv-Same same inv)))))
              (λ _. ends_ok (missed same))))
