-- ===== src/Prelude/Texts.antt =====
-- Equality of strings of bytes, as a test.
use luart.Prelude.Tests.{◌==◌}
use Prim.Native.Nat.{ℕ}
use mathlib.Core.Path.{◌≡◌, refl, ap, ap₂, ◌∙◌}
use mathlib.Core.Bool.{Bool, true, false, ◌&&◌}
use mathlib.Core.List.{List, [], ◌∷◌}
use native.Mathlib.Omega.{arith}

unfoldable pub equal_bytes : List ℕ → List ℕ → Bool
equal_bytes [] [] = true
equal_bytes [] (y ∷ ys) = false
equal_bytes (x ∷ xs) [] = false
equal_bytes (x ∷ xs) (y ∷ ys) = (x == y) && equal_bytes xs ys

pub equal_bytes_refl : (xs : List ℕ) → equal_bytes xs xs ≡ true
unfolding equal_bytes
equal_bytes_refl [] = refl
equal_bytes_refl (x ∷ xs) =
    let same : (x == x) ≡ true = ground arith in
    ap (λ (b : Bool). b && equal_bytes xs xs) same ∙ equal_bytes_refl xs

and_true : (a b : Bool) → (a && b) ≡ true → (a ≡ true) × (b ≡ true)
and_true true b h = (refl, h)
and_true false b h = absurd (ground (arith, h))

pub equal_bytes-eq : (xs ys : List ℕ) → equal_bytes xs ys ≡ true → xs ≡ ys
unfolding equal_bytes
equal_bytes-eq [] [] h = refl
equal_bytes-eq [] (y ∷ ys) h = absurd (ground (arith, h))
equal_bytes-eq (x ∷ xs) [] h = absurd (ground (arith, h))
equal_bytes-eq (x ∷ xs) (y ∷ ys) h =
    let (first, rest) = and_true (x == y) (equal_bytes xs ys) h in
    let same : x ≡ y = ground (arith, first) in
    ap₂ (λ (z : ℕ) (zs : List ℕ). z ∷ zs) same (equal_bytes-eq xs ys rest)

pub equal_bytes_sym : (xs ys : List ℕ) → equal_bytes xs ys ≡ equal_bytes ys xs
unfolding equal_bytes
equal_bytes_sym [] [] = refl
equal_bytes_sym [] (y ∷ ys) = refl
equal_bytes_sym (x ∷ xs) [] = refl
equal_bytes_sym (x ∷ xs) (y ∷ ys) =
    let same : (x == y) ≡ (y == x) = ground arith in
    ap₂ (λ (a b : Bool). a && b) same (equal_bytes_sym xs ys)
