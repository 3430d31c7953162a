-- ===== src/Pattern/Ends.antt =====
-- stdlib/pattern.go: results that are a value or an error the code raises, with no panic and no
-- loop out of fuel, and how they compose.
use luart.Prelude.{
  ℕ, zero, suc, ◌-◌, ◌≤◌, ◌<◌, ◌≡◌, refl, Bool, true, false, List, [], ◌∷◌, Option, none, some,
  arith, get_elem?, ltb, leb, ◌&&◌, set, length, take, drop, if◌then◌else◌,
}
use luart.Chunk.Proto.{Bytes}
use luart.Pattern.{Outcome, ok, err, PatternError, ◌>>=◌, element, write_element, slice}

pub data Ends {A : Type 0} (P : A → Type 0) : Outcome A → Type 0 where
  ends_ok : {a : A} → P a → Ends P (ok a)
  ends_err : {e : PatternError} → Ends P (err e)

pub bind-Ends :
    {A B : Type 0} {P : A → Type 0} {Q : B → Type 0} {r : Outcome A} {f : A → Outcome B}
    → Ends P r
    → ((a : A) → P a → Ends Q (f a))
    → Ends Q (r >>= f)
bind-Ends (ends_ok h) g = g _ h
bind-Ends ends_err g = ends_err

pub if-Ends :
    {A : Type 0} {P : A → Type 0} (c : Bool) {a b : Outcome A}
    → (c ≡ true → Ends P a)
    → (c ≡ false → Ends P b)
    → Ends P (if c then a else b)
if-Ends true h k = h refl
if-Ends false h k = k refl

pub option-Ends :
    {A B : Type 0} {P : B → Type 0} (o : Option A) {b : Outcome B} {f : A → Outcome B}
    → (o ≡ none → Ends P b)
    → ((a : A) → o ≡ some a → Ends P (f a))
    → Ends P (elim o [ none ↦ b | some a ↦ f a ])
option-Ends none h k = h refl
option-Ends (some a) h k = k a refl

pub weaken-Ends :
    {A : Type 0} {P Q : A → Type 0} {r : Outcome A} → ((a : A) → P a → Q a) → Ends P r → Ends Q r
weaken-Ends f (ends_ok h) = ends_ok (f _ h)
weaken-Ends f ends_err = ends_err

pub element-Ends :
    {A : Type 0} (xs : List A) (i : ℕ)
    → i < length xs
    → Ends (λ a. get_elem? xs i ≡ some a) (element xs i)
unfolding element
element-Ends [] i h = absurd (omega (arith, h))
element-Ends (x ∷ xs) zero h = ends_ok refl
element-Ends (x ∷ xs) (suc i) h = element-Ends xs i (omega (arith, h))

pub write_element-Ends :
    {A : Type 0} (xs : List A) (i : ℕ) (a : A)
    → i < length xs
    → Ends (λ ys. ys ≡ set xs i a) (write_element xs i a)
unfolding write_element
write_element-Ends xs i a h =
    if-Ends (ltb i (length xs)) (λ _. ends_ok refl) (λ e. absurd (ground (arith, h, e)))

pub slice-Ends :
    (xs : Bytes) (i j : ℕ)
    → i ≤ j
    → j ≤ length xs
    → Ends (λ t. t ≡ take (j - i) (drop i xs)) (slice xs i j)
unfolding slice
slice-Ends xs i j h k =
    if-Ends (leb i j && leb j (length xs)) (λ _. ends_ok refl)
      (λ e. absurd (ground (arith, h, k, e)))
