-- ===== src/Pattern/Safety.antt =====
-- stdlib/pattern.go: the matcher reads its strings and its captures in range, its loops end, a
-- match it finds lies in the subject, and an attempt that fails leaves the captures as they were.
pub mod Moves
pub mod Steps
use luart.Prelude.{
  some_injective, ℕ, zero, suc, ◌+◌, ◌-◌, ◌≤◌, ◌<◌, ◌≡◌, ◌≢◌, ◌∙◌, refl, sym, ap, Bool, true, false,
  arith, List, Option, none, some, length, length-set, get_elem?, set, get_elem?-set_self,
  get_elem?-set_ne, leb, ltb, if◌then◌else◌, ℕ_discrete, ◌==◌, ◌&&◌, ◌||◌,
}
use mathlib.Core.Path.{subst}
use luart.Prelude.Int.{ℤ, pos, negsuc, pos_part, neg_part, sub_ℕ}
use luart.Chunk.Proto.{Bytes}
use luart.Pattern.{
  Outcome, ok, Capture, MatchState, Matcher, Answer, or_else, cap_unfinished, cap_position,
  max_captures, byte_at,
}
use luart.Pattern.Classes.{class_end, percent, open_bracket}
use luart.Pattern.Match.{
  start_capture, end_capture, match_balance, balance_loop, match_capture, count_repeats, try_down,
  max_expand, min_expand, suffix, item, frontier, escape, step, do_match, match, go_on,
}
use luart.Pattern.Ends.{
  Ends, ends_ok, ends_err, bind-Ends, if-Ends, weaken-Ends, element-Ends, write_element-Ends,
  slice-Ends,
}
use luart.Pattern.Sets.{class_end-Ends, single_match-Ends, match_bracket_class-Ends}
use luart.Pattern.Captures.{
  Inv, Fits, Same, Same-refl, Same-trans, Inv-Same, Inv-later, Inv-set, capture_to_close-Ends,
  reopened-Same, check_capture-Ends, set_len-Ends, get_elem?_bound,
}

-- What a match from s makes of the state: an end between s and the end n of the subject where the
-- invariant holds, or the captures as they were.
pub data Good (n s : ℕ) (st : MatchState) : Option ℕ × MatchState → Type 0 where
  found : {e : ℕ} {st' : MatchState} → s ≤ e → e ≤ n → Inv n e st' → Good n s st (some e, st')
  missed : {st' : MatchState} → Same st st' → Good n s st (none, st')

pub or_else-Ends :
    {n s s' : ℕ} {st st₁ : MatchState} {m : Answer} {f : MatchState → Answer}
    → s ≤ s'
    → Ends (Good n s' st₁) m
    → ((st' : MatchState) → Same st₁ st' → Ends (Good n s st) (f st'))
    → Ends (Good n s st) (or_else m f)
or_else-Ends le (ends_ok (found low high inv)) g = ends_ok (found (omega (arith, le, low)) high inv)
or_else-Ends le (ends_ok (missed same)) g = g _ same
or_else-Ends le ends_err g = ends_err

pub later-Good :
    {n s s' : ℕ} {st : MatchState} {m : Answer}
    → s ≤ s'
    → Ends (Good n s' st) m
    → Ends (Good n s st) m
later-Good {n} {s} {s'} {st} le h = weaken-Ends go h
  where
    go : (r : Option ℕ × MatchState) → Good n s' st r → Good n s st r
    go r (found low high inv) = found (omega (arith, le, low)) high inv
    go r (missed same) = missed same

pub Same-Good :
    {n s : ℕ} {st st' : MatchState} {m : Answer}
    → Same st st'
    → Ends (Good n s st') m
    → Ends (Good n s st) m
Same-Good {n} {s} {st} {st'} same h = weaken-Ends go h
  where
    go : (r : Option ℕ × MatchState) → Good n s st' r → Good n s st r
    go r (found low high inv) = found low high inv
    go r (missed k) = missed (Same-trans same k)

-- A matcher that is safe for patterns from position k on.
pub record Safe (n k : ℕ) (m : Matcher) : Type 0 where
  pub run : (s p : ℕ) (st : MatchState) → k ≤ p → s ≤ n → Inv n s st → Ends (Good n s st) (m s p st)

module _ {n : ℕ} {next : Matcher} (deeper : Safe n 0 next) where
  pub start_capture-Good :
      (s p : ℕ) (what : ℤ) (st : MatchState)
      → pos_part what ≡ 0
      → neg_part what ≤ 2
      → s ≤ n
      → Inv n s st
      → Ends (Good n s st) (start_capture next s p what st)
  unfolding start_capture
  start_capture-Good s p what st empty known le inv =
      if-Ends (leb max_captures st.level) (λ _. ends_err)
        (λ e.
          let below : st.level < 32 = ground (arith, e) in
          let new : Capture = record { init = s; len = what } in
          bind-Ends (write_element-Ends st.captures st.level new (omega (arith, below, inv.room)))
            (λ cs same.
              let started : Inv n s (record { level = suc st.level; captures = cs }) =
                subst (λ ks. Inv n s (record { level = suc st.level; captures = ks })) (sym same)
                  (Inv-set inv (omega arith) below (λ i lt ne. omega (arith, lt, ne))
                    (record {
                      starts = omega arith;
                      stops = omega (arith, le, empty);
                      known = known;
                    })) in
              or_else-Ends (omega arith) (deeper.run s p _ (omega arith) le started) (λ st' k.
                ends_ok (
                  missed (record {
                    level_eq = omega (arith, k.level_eq);
                    length_eq = k.length_eq ∙ ap length same ∙ length-set st.captures st.level new;
                    kept = λ i lt.
                        k.kept i (omega (arith, lt))
                        ∙ ap (λ (ks : List Capture). get_elem? ks i) same
                        ∙ get_elem?-set_ne st.captures new (omega (arith, lt));
                  })))))

  pub end_capture-Good :
      (s p : ℕ) (st : MatchState)
      → s ≤ n
      → Inv n s st
      → Ends (Good n s st) (end_capture next s p st)
  unfolding end_capture
  end_capture-Good s p st le inv =
      bind-Ends (capture_to_close-Ends st.level st.captures (omega (arith, inv.bound, inv.room)))
        (λ l (lt, (c, here, unfinished)).
          bind-Ends (element-Ends st.captures l (get_elem?_bound st.captures l here)) (λ c' here'.
            let len : ℤ = sub_ℕ s c'.init in
            let closed : Capture = record c' { len = len } in
            let open_one : c'.len ≡ cap_unfinished =
              ap (λ (k : Capture). k.len) (some_injective (sym here' ∙ here)) ∙ unfinished in
            let start : c'.init ≤ s = (inv.fits l c' lt here').starts in
            bind-Ends (set_len-Ends st.captures l len c' here') (λ cs same.
              let ended : Inv n s (record st { captures = cs }) =
                subst (λ ks. Inv n s (record st { captures = ks })) (sym same)
                  (Inv-set inv lt inv.bound (λ i below _. below)
                    (record {
                      starts = start;
                      stops = ground (arith, start, le);
                      known = ground (arith, start);
                    })) in
              or_else-Ends (omega arith) (deeper.run s p _ (omega arith) le ended) (λ st' k.
                let kept : get_elem? st'.captures l ≡ some closed =
                  k.kept l lt
                  ∙ ap (λ (ks : List Capture). get_elem? ks l) same
                  ∙ get_elem?-set_self st.captures l closed (get_elem?_bound st.captures l here) in
                bind-Ends (set_len-Ends st'.captures l cap_unfinished closed kept) (λ cs' same'.
                  ends_ok (missed (reopened-Same l len here' open_one same k same')))))))
