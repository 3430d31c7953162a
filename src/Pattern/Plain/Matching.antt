-- ===== src/Pattern/Plain/Matching.antt =====
-- stdlib/pattern.go: the matcher on a pattern of ordinary bytes compares strings.
use luart.Prelude.{
  ℕ, zero, suc, ◌+◌, ◌-◌, ◌≤◌, ◌<◌, ◌≡◌, ◌∙◌, sym, ap, ap₂, Bool, true, false, Option, none, some,
  arith, length, drop, ltb, leb, lt→ltb, ◌==◌, ◌&&◌, if◌then◌else◌, if-true, if-false, Bool-cases,
  inl, inr, dec_lt,
}
use luart.Chunk.Proto.{Bytes}
use luart.Pattern.{ok, MatchState, Matcher, Answer, byte_at, max_match_calls}
use luart.Pattern.Classes.{class_end}
use luart.Pattern.Match.{step, item, suffix, single_match, do_match, match}
use luart.Pattern.Find.{has_prefix}
use luart.Pattern.Plain.{
  fits, Ordinary, Here, element-Here, drop_all, eqb_sym, has_prefix-nil, pick, bind-ok,
  either_false,
}

module _ (src pat : Bytes) (plain : (i : ℕ) → Ordinary (byte_at pat i)) where
  step-Plain :
      (next again : Matcher) (s p : ℕ) (st : MatchState)
      → p < length pat
      → step src pat (byte_at pat p) next again s p st ≡ item src pat next again s p st
  unfolding step
  step-Plain next again s p st inside =
      let c : Ordinary (byte_at pat p) = plain p in
      if-false _ _ c.not_open
      ∙ if-false _ _ c.not_close
      ∙ if-false _ _ (ap (λ (b : Bool). b && (p + 1 == length pat)) c.not_dollar)
      ∙ if-false _ _ c.not_percent

  class_end-Plain : (p : ℕ) → p < length pat → class_end pat p ≡ ok (p + 1)
  unfolding class_end
  class_end-Plain p inside =
      let c : Ordinary (byte_at pat p) = plain p in
      bind-ok _ (element-Here pat p inside).is_element
      ∙ if-false _ _ c.not_percent
      ∙ if-false _ _ c.not_bracket

  single_match-Plain :
      (s p : ℕ)
      → p < length pat
      → single_match src pat s p (p + 1)
        ≡ ok (ltb s (length src) && (byte_at pat p == byte_at src s))
  unfolding single_match
  single_match-Plain s p inside = elim (Bool-cases (leb (length src) s)) [
    | inl e ↦
        if-true _ _ e
        ∙ ap (λ (b : Bool). ok (b && (byte_at pat p == byte_at src s))) (sym (outside e))
    | inr e ↦
        let c : Ordinary (byte_at pat p) = plain p in
        if-false _ _ e
        ∙ bind-ok _ (element-Here src s (within_src e)).is_element
        ∙ bind-ok _ (element-Here pat p inside).is_element
        ∙ if-false _ _ c.not_dot
        ∙ if-false _ _ c.not_percent
        ∙ if-false _ _ c.not_bracket
        ∙ ap (λ (b : Bool). ok (b && (byte_at pat p == byte_at src s)))
            (sym (lt→ltb s (length src) (within_src e)))
  ]
    where
      outside : leb (length src) s ≡ true → ltb s (length src) ≡ false
      outside e = ground (arith, e)

      within_src : leb (length src) s ≡ false → s < length src
      within_src e = ground (arith, e)

  suffix-Plain :
      (next again : Matcher) (s p : ℕ) (st : MatchState)
      → suffix src pat (byte_at pat (p + 1)) next again s p (p + 1) st ≡ again (s + 1) (p + 1) st
  unfolding suffix
  suffix-Plain next again s p st =
      let c : Ordinary (byte_at pat (p + 1)) = plain (p + 1) in
      if-false _ _ c.not_question
      ∙ if-false _ _ c.not_plus
      ∙ if-false _ _ c.not_star
      ∙ if-false _ _ c.not_dash

  -- A byte that stands for itself takes one of the subject, or the match fails.
  item-Plain :
      (next again : Matcher) (s p : ℕ) (st : MatchState)
      → p < length pat
      → item src pat next again s p st ≡ (
          if ltb s (length src) && (byte_at pat p == byte_at src s)
          then again (s + 1) (p + 1) st
          else ok (none, st))
  unfolding item
  item-Plain next again s p st inside =
      let c : Ordinary (byte_at pat (p + 1)) = plain (p + 1) in
      bind-ok _ (class_end-Plain p inside)
      ∙ bind-ok _ (single_match-Plain s p inside)
      ∙ ap₂
          (λ (x y : Answer).
            if ltb s (length src) && (byte_at pat p == byte_at src s) then x else y)
          (suffix-Plain next again s p st)
          (if-false _ _ (either_false _ _ (either_false _ _ c.not_star c.not_question) c.not_dash))

  fits_next :
      (s p : ℕ)
      → p < length pat
      → fits src pat s p
        ≡ (ltb s (length src) && (byte_at pat p == byte_at src s)) && fits src pat (s + 1) (p + 1)
  unfolding has_prefix
  fits_next s p inside =
      let head : Here pat p = element-Here pat p inside in
      elim (dec_lt s (length src)) [
        | no outside ↦
            let no_byte : ltb s (length src) ≡ false = ground (arith, outside) in
            ap₂ has_prefix head.is_head (drop_all src s (omega (arith, outside)))
            ∙ sym (
                ap
                  (λ (b : Bool).
                    (b && (byte_at pat p == byte_at src s)) && fits src pat (s + 1) (p + 1))
                  no_byte)
        | yes within_src ↦
            let same_byte : (byte_at src s == byte_at pat p) ≡ (byte_at pat p == byte_at src s) =
              eqb_sym _ _ in
            let rest : has_prefix (drop (suc p) pat) (drop (suc s) src)
                ≡ fits src pat (s + 1) (p + 1) =
              let p_eq : suc p ≡ p + 1 = omega arith in
              let s_eq : suc s ≡ s + 1 = omega arith in
              ap₂ (λ (i j : ℕ). has_prefix (drop i pat) (drop j src)) p_eq s_eq in
            ap₂ has_prefix head.is_head (element-Here src s within_src).is_head
            ∙ ap₂ (λ (b c : Bool). b && c) same_byte rest
            ∙ sym (
                ap
                  (λ (b : Bool).
                    (b && (byte_at pat p == byte_at src s)) && fits src pat (s + 1) (p + 1))
                  (lt→ltb s (length src) within_src))
      ]

  -- The rest of the pattern matches if it stands at s.
  do_match-Plain :
      (fuel : ℕ) (next : Matcher) (s p : ℕ) (st : MatchState)
      → p ≤ length pat
      → length pat < fuel + p
      → do_match src pat fuel next s p st
        ≡ ok (if fits src pat s p then some (s + (length pat - p)) else none, st)
  unfolding do_match
  do_match-Plain zero next s p st le enough = absurd (omega (arith, le, enough))
  do_match-Plain (suc fuel) next s p st le enough = elim (dec_lt p (length pat)) [
    | no outside ↦
        let at_end : p ≡ length pat = omega (arith, le, outside) in
        let no_more : ltb p (length pat) ≡ false = ground (arith, at_end) in
        let whole : fits src pat s p ≡ true =
          ap (λ (ps : Bytes). has_prefix ps (drop s src)) (drop_all pat p (omega (arith, at_end)))
          ∙ has_prefix-nil (drop s src) in
        if-false _ _ no_more
        ∙ ap (λ (o : Option ℕ). ok (o, st))
            (ap some (omega (arith, at_end))
              ∙ sym (if-true (some (s + (length pat - p))) none whole))
    | yes inside ↦
        let head : Here pat p = element-Here pat p inside in
        let rest =
          do_match-Plain fuel next (s + 1) (p + 1) st (omega (arith, inside))
            (omega (arith, enough)) in
        if-true _ _ (lt→ltb p (length pat) inside)
        ∙ bind-ok _ head.is_element
        ∙ step-Plain next (do_match src pat fuel next) s p st inside
        ∙ item-Plain next (do_match src pat fuel next) s p st inside
        ∙ ap
            (λ (x : Answer).
              if ltb s (length src) && (byte_at pat p == byte_at src s) then x else ok (none, st))
            rest
        ∙ pick (ltb s (length src) && (byte_at pat p == byte_at src s))
            (fits src pat (s + 1) (p + 1)) (s + 1 + (length pat - (p + 1))) st
        ∙ ap₂ (λ (b : Bool) (e : ℕ). ok (if b then some e else none, st))
            (sym (fits_next s p inside)) (omega (arith, inside))
  ]

  match-Plain :
      (depth s : ℕ) (st : MatchState)
      → match src pat (suc depth) s 0 st
        ≡ ok (if fits src pat s 0 then some (s + length pat) else none, st)
  unfolding match
  match-Plain depth s st =
      do_match-Plain (suc (length pat)) (match src pat depth) s 0 st (omega arith) (omega arith)
      ∙ ap (λ (e : ℕ). ok (if fits src pat s 0 then some e else none, st)) (omega arith)

  -- The first byte of the pattern against the subject's at s.
  first :
      (s : ℕ) (st : MatchState)
      → match src pat max_match_calls s 0 st
        ≡ ok (if fits src pat s 0 then some (s + length pat) else none, st)
  unfolding max_match_calls
  first s st = match-Plain 199 s st

  pub first_hit :
      (s : ℕ) (st : MatchState)
      → fits src pat s 0 ≡ true
      → match src pat max_match_calls s 0 st ≡ ok (some (s + length pat), st)
  first_hit s st e =
      first s st ∙ ap (λ (o : Option ℕ). ok (o, st)) (if-true (some (s + length pat)) none e)

  pub first_miss :
      (s : ℕ) (st : MatchState)
      → fits src pat s 0 ≡ false
      → match src pat max_match_calls s 0 st ≡ ok (none, st)
  first_miss s st e =
      first s st ∙ ap (λ (o : Option ℕ). ok (o, st)) (if-false (some (s + length pat)) none e)
