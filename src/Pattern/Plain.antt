-- ===== src/Pattern/Plain.antt =====
-- stdlib/pattern.go: patterns of bytes that stand for themselves. On them, the matcher finds what
-- the search for a text finds, which `string.find` does in its place.
pub mod Matching
pub mod Search
use luart.Prelude.{
  ℕ, zero, suc, [], ◌∷◌, ◌+◌, ◌-◌, ◌≤◌, ◌<◌, ◌≡◌, ◌∙◌, sym, ap, ap₂, refl, Bool, true, false, List,
  Option, none, some, arith, length, drop, get_elem?, ltb, leb, lt→ltb, ◌==◌, ◌&&◌, ◌||◌,
  if◌then◌else◌, if-true, if-false, Bool-cases, inl, inr, dec_lt,
}
use luart.Prelude.Int.{ℤ, pos}
use luart.Chunk.Proto.{Bytes}
use luart.Pattern.{
  Outcome, ok, ◌>>=◌, MatchState, Matcher, Answer, byte_at, element, max_match_calls, Capture,
}
use luart.Pattern.Classes.{class_end, percent, open_bracket, dot}
use luart.Pattern.Match.{step, item, suffix, single_match, do_match, match}
use luart.Pattern.Find.{
  Value, nil_value, number, member, contains_any, pattern_specials, has_prefix, index, find_plain,
  find_pattern, find_loop, push_match, push_captures, push_count, push_loop, anchored, unanchor,
  new_captures,
}

-- Whether c has a meaning in a pattern. `find` does not look for ')'.
abbrev special : ℕ → Bool
special c = member c pattern_specials || (41 == c)

-- The tests of the matcher on a byte that stands for itself.
record Ordinary (c : ℕ) : Type 0 where
  not_open : (c == 40) ≡ false
  not_close : (c == 41) ≡ false
  not_dollar : (c == 36) ≡ false
  not_percent : (c == percent) ≡ false
  not_bracket : (c == open_bracket) ≡ false
  not_dot : (c == dot) ≡ false
  not_question : (c == 63) ≡ false
  not_plus : (c == 43) ≡ false
  not_star : (c == 42) ≡ false
  not_dash : (c == 45) ≡ false
  not_caret : (c == 94) ≡ false

ordinary : (c : ℕ) → special c ≡ false → Ordinary c
unfolding member
ordinary c h = record {
  not_open = ground (arith, h);
  not_close = ground (arith, h);
  not_dollar = ground (arith, h);
  not_percent = ground (arith, h);
  not_bracket = ground (arith, h);
  not_dot = ground (arith, h);
  not_question = ground (arith, h);
  not_plus = ground (arith, h);
  not_star = ground (arith, h);
  not_dash = ground (arith, h);
  not_caret = ground (arith, h);
}

or_false : (a b : Bool) → (a || b) ≡ false → (a ≡ false) × (b ≡ false)
or_false true b h = absurd (ground (arith, h))
or_false false b h = (refl, h)

either_false : (a b : Bool) → a ≡ false → b ≡ false → (a || b) ≡ false
either_false true b h k = h
either_false false b h k = k

either_left : (a b : Bool) → a ≡ true → (a || b) ≡ true
either_left true b h = refl
either_left false b h = absurd (ground (arith, h))

byte_at-Ordinary :
    (pat : Bytes) (i : ℕ)
    → contains_any pat pattern_specials ≡ false
    → member 41 pat ≡ false
    → Ordinary (byte_at pat i)
unfolding contains_any member
byte_at-Ordinary [] i h k = ordinary 0 refl
byte_at-Ordinary (c ∷ pat) zero h k =
    let (specials, others) = or_false (member c pattern_specials) _ h in
    let (close, _) = or_false (41 == c) _ k in
    ordinary c (either_false (member c pattern_specials) (41 == c) specials close)
byte_at-Ordinary (c ∷ pat) (suc i) h k =
    byte_at-Ordinary pat i (or_false (member c pattern_specials) _ h).1 (or_false (41 == c) _ k).1

-- The element at an index in range, and what stands from there on.
record Here (xs : Bytes) (i : ℕ) : Type 0 where
  is_element : element xs i ≡ ok (byte_at xs i)
  is_head : drop i xs ≡ byte_at xs i ∷ drop (suc i) xs

element-Here : (xs : Bytes) (i : ℕ) → i < length xs → Here xs i
unfolding element
element-Here [] i h = absurd (omega (arith, h))
element-Here (x ∷ xs) zero h = record { is_element = refl; is_head = refl }
element-Here (x ∷ xs) (suc i) h =
    let rest : Here xs i = element-Here xs i (omega (arith, h)) in
    record { is_element = rest.is_element; is_head = rest.is_head }

drop_all : (xs : Bytes) (i : ℕ) → length xs ≤ i → drop i xs ≡ []
drop_all [] zero h = refl
drop_all [] (suc i) h = refl
drop_all (x ∷ xs) zero h = absurd (omega (arith, h))
drop_all (x ∷ xs) (suc i) h = drop_all xs i (omega (arith, h))

eqb_sym : (a b : ℕ) → (a == b) ≡ (b == a)
eqb_sym a b = ground arith

has_prefix-nil : (s : Bytes) → has_prefix [] s ≡ true
unfolding has_prefix
has_prefix-nil s = refl

pick :
    (b c : Bool) (e : ℕ) (st : MatchState)
    → if◌then◌else◌ {A = Answer} b (ok (if c then some e else none, st)) (ok (none, st))
      ≡ ok (if b && c then some e else none, st)
pick true c e st = refl
pick false c e st = refl

bind-ok : {A B : Type 0} {r : Outcome A} {a : A} (f : A → Outcome B) → r ≡ ok a → (r >>= f) ≡ f a
bind-ok f e = rw e refl

-- Whether what is left of the pattern at p stands in the subject at s.
abbrev fits : Bytes → Bytes → ℕ → ℕ → Bool
fits src pat s p = has_prefix (drop p pat) (drop s src)
