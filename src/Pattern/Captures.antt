-- ===== src/Pattern/Captures.antt =====
-- stdlib/pattern.go: the captures of a match lie in the subject, and what opening and closing one
-- does to the others.
use luart.Prelude.{
  ℕ, zero, suc, [], ◌∷◌, ◌+◌, ◌≤◌, ◌<◌, ◌≡◌, ◌≢◌, ◌∙◌, refl, sym, ap, arith, List, some, length,
  some_injective, length-set, get_elem?, set, get_elem?-set_self, get_elem?-set_ne, leb, ℕ_discrete,
}
use mathlib.Core.Path.{subst}
use luart.Prelude.Int.{ℤ, pos, negsuc, pos_part, neg_part, sub_ℕ, eqb_ℤ, eq_of_parts}
use luart.Pattern.{Capture, MatchState, cap_unfinished}
use luart.Pattern.Match.{capture_to_close, closed_capture, check_capture, set_len}
use luart.Pattern.Ends.{
  Ends, ends_ok, ends_err, bind-Ends, if-Ends, weaken-Ends, element-Ends, write_element-Ends,
}

-- A capture that starts at s or before it and ends within the n bytes of the subject, whose length
-- is a number or one of the two marks.
pub record Fits (n s : ℕ) (c : Capture) : Type 0 where
  pub starts : c.init ≤ s
  pub stops : c.init + pos_part c.len ≤ n
  pub known : neg_part c.len ≤ 2

-- The invariant of a matcher that has come to s.
pub record Inv (n s : ℕ) (st : MatchState) : Type 0 where
  pub room : length st.captures ≡ 32
  pub bound : st.level ≤ 32
  pub fits : (i : ℕ) (c : Capture) → i < st.level → get_elem? st.captures i ≡ some c → Fits n s c

-- The same captures are started, with the same contents.
pub record Same (st st' : MatchState) : Type 0 where
  pub level_eq : st'.level ≡ st.level
  pub length_eq : length st'.captures ≡ length st.captures
  pub kept : (i : ℕ) → i < st.level → get_elem? st'.captures i ≡ get_elem? st.captures i

pub Same-refl : (st : MatchState) → Same st st
Same-refl st = record { level_eq = refl; length_eq = refl; kept = λ i _. refl }

pub Same-trans : {st st' st'' : MatchState} → Same st st' → Same st' st'' → Same st st''
Same-trans h k = record {
  level_eq = k.level_eq ∙ h.level_eq;
  length_eq = k.length_eq ∙ h.length_eq;
  kept = λ i lt. k.kept i (omega (arith, lt, h.level_eq)) ∙ h.kept i lt;
}

pub Inv-Same : {n s : ℕ} {st st' : MatchState} → Same st st' → Inv n s st → Inv n s st'
Inv-Same h inv = record {
  room = h.length_eq ∙ inv.room;
  bound = omega (arith, h.level_eq, inv.bound);
  fits = λ i c lt e.
      let below : i < _ = omega (arith, lt, h.level_eq) in
      inv.fits i c below (sym (h.kept i below) ∙ e);
}

pub Inv-later : {n s s' : ℕ} {st : MatchState} → s ≤ s' → Inv n s st → Inv n s' st
Inv-later le inv = record {
  room = inv.room;
  bound = inv.bound;
  fits = λ i c lt e.
      let f = inv.fits i c lt e in
      record { starts = omega (arith, f.starts, le); stops = f.stops; known = f.known };
}

pub get_elem?_bound :
    {A : Type 0} (xs : List A) (i : ℕ) {a : A} → get_elem? xs i ≡ some a → i < length xs
get_elem?_bound [] i e = absurd (ground (arith, e))
get_elem?_bound (x ∷ xs) zero e = omega arith
get_elem?_bound (x ∷ xs) (suc i) e = omega (arith, get_elem?_bound xs i e)

-- A capture put in the array keeps the invariant, if it fits.
pub Inv-set :
    {n s l level : ℕ} {c : Capture} {st : MatchState}
    → Inv n s st
    → l < level
    → level ≤ 32
    → ((i : ℕ) → i < level → i ≢ l → i < st.level)
    → Fits n s c
    → Inv n s (record { level = level; captures = set st.captures l c })
Inv-set {n} {s} {l} {c = c} {st} inv lt le others f = record {
  room = length-set st.captures l c ∙ inv.room;
  bound = le;
  fits = λ i c' below e. elim (ℕ_discrete l i) [
    | yes same ↦
        let here : get_elem? (set st.captures l c) i ≡ some c =
          rw (sym same) (get_elem?-set_self st.captures l c (omega (arith, lt, le, inv.room))) in
        subst (λ k. Fits n s k) (some_injective (sym here ∙ e)) f
    | no apart ↦
        inv.fits i c' (others i below (λ q. apart (sym q)))
          (sym (get_elem?-set_ne st.captures c apart) ∙ e)
  ];
}

pub capture_to_close-Ends :
    (l : ℕ) (cs : List Capture)
    → l ≤ length cs
    → Ends
        (λ k. k < l × ((c : Capture) × (get_elem? cs k ≡ some c) × (c.len ≡ cap_unfinished)))
        (capture_to_close l cs)
unfolding capture_to_close
capture_to_close-Ends zero cs le = ends_err
capture_to_close-Ends (suc l) cs le = bind-Ends (element-Ends cs l le) (λ c e.
    if-Ends (eqb_ℤ c.len cap_unfinished)
      (λ unfinished.
        ends_ok
          (omega arith, (c, e, eq_of_parts c.len cap_unfinished (ground (arith, unfinished)))))
      (λ _.
        weaken-Ends (λ k (lt, found). (omega (arith, lt), found))
          (capture_to_close-Ends l cs (omega (arith, le)))))

closed_capture-Ends :
    {n s : ℕ} (z : ℤ) (st : MatchState)
    → Inv n s st
    → Ends (λ l. l < st.level) (closed_capture z st)
unfolding closed_capture
closed_capture-Ends (negsuc k) st inv = ends_err
closed_capture-Ends (pos l) st inv =
    if-Ends (leb st.level l) (λ _. ends_err)
      (λ e.
        let lt : l < st.level = ground (arith, e) in
        bind-Ends (element-Ends st.captures l (omega (arith, lt, inv.bound, inv.room)))
          (λ k _. if-Ends (eqb_ℤ k.len cap_unfinished) (λ _. ends_err) (λ _. ends_ok lt)))

pub check_capture-Ends :
    {n s : ℕ} (c : ℕ) (st : MatchState) → Inv n s st → Ends (λ l. l < st.level) (check_capture c st)
unfolding check_capture
check_capture-Ends c st inv = closed_capture-Ends (sub_ℕ c 49) st inv

pub set_len-Ends :
    (cs : List Capture) (l : ℕ) (n : ℤ) (c : Capture)
    → get_elem? cs l ≡ some c
    → Ends (λ ys. ys ≡ set cs l (record c { len = n })) (set_len cs l n)
unfolding set_len
set_len-Ends cs l n c e = bind-Ends (element-Ends cs l (get_elem?_bound cs l e)) (λ c' e'.
    weaken-Ends
      (λ ys same.
        same ∙ ap (λ (k : Capture). set cs l (record k { len = n })) (some_injective (sym e' ∙ e)))
      (write_element-Ends cs l (record c' { len = n }) (get_elem?_bound cs l e)))

-- Closing a capture and opening it again leaves the captures as they were.
pub reopened-Same :
    {st st' : MatchState} {c : Capture} {closed cs' : List Capture} (l : ℕ) (n : ℤ)
    → get_elem? st.captures l ≡ some c
    → c.len ≡ cap_unfinished
    → closed ≡ set st.captures l (record c { len = n })
    → Same (record st { captures = closed }) st'
    → cs' ≡ set st'.captures l (record c { len = cap_unfinished })
    → Same st (record st' { captures = cs' })
reopened-Same {st} {st'} {c} {closed} {cs'} l n here unfinished close same reopen = record {
  level_eq = same.level_eq;
  length_eq = ap length reopen ∙ length-set st'.captures l again ∙ same_length;
  kept = λ i lt. ap (λ (ks : List Capture). get_elem? ks i) reopen ∙ elim (ℕ_discrete l i) [
    | yes e ↦ rw (sym e) (
        get_elem?-set_self st'.captures l again (omega (arith, bound, same_length))
        ∙ ap (λ (k : ℤ). some (record c { len = k })) (sym unfinished)
        ∙ sym here)
    | no apart ↦
        get_elem?-set_ne st'.captures again apart
        ∙ same.kept i lt
        ∙ ap (λ (ks : List Capture). get_elem? ks i) close
        ∙ get_elem?-set_ne st.captures (record c { len = n }) apart
  ];
}
  where
    again : Capture
    again = record c { len = cap_unfinished }

    bound : l < length st.captures
    bound = get_elem?_bound st.captures l here

    same_length : length st'.captures ≡ length st.captures
    same_length = same.length_eq ∙ ap length close ∙ length-set st.captures l (record c { len = n })
