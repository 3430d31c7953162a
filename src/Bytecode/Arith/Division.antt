-- ===== src/Bytecode/Arith/Division.antt =====
-- Floored division and modulo on int64.
use luart.Prelude.{
  ℕ, suc, ◌+◌, ◌-◌, ◌*◌, ◌/◌, ◌%◌, ◌^◌, ◌≤◌, ◌<◌, ◌≡◌, ◌≢◌, ap, refl, arith, dec_lt, ℕ_discrete,
  inl, inr, ◌⊎◌, if◌then◌else◌,
}
use luart.Prelude.Int.{ℤ, pos, negsuc, ◌+ℤ◌, ◌*ℤ◌, ◌≤ℤ◌, ◌<ℤ◌, eqb_ℤ, sub_ℕ}
use luart.Prelude.Word64.{IsInt64, wrap, wrap_in_range, neg_ℤ}
use native.Mathlib.Nat.{mul-le-mul_left, div-add-mod', div-le_self, mod-lt}
use luart.Bytecode.Arith.{int_floor_div, int_mod}

-- A remainder that lies between 0 and the divisor, on the divisor's side of 0.
abbrev pub IsFlooredRem : ℤ → ℤ → Type 0
IsFlooredRem m b = ((pos 0 ≤ℤ m) × (m <ℤ b)) ⊎ ((m ≤ℤ pos 0) × (b <ℤ m))

-- The code's quotient and modulo, by the signs of the operands, over the natural quotient and
-- remainder of the magnitudes.
module _ (a b : ℕ) where
  div_pos_pos :
      (int_floor_div (pos a) (pos b) ≡ pos (a / b)) × (int_mod (pos a) (pos b) ≡ pos (a % b))
  unfolding int_floor_div int_mod
  div_pos_pos = (ground arith, ground arith)

  div_neg_neg :
      b ≢ 0
      → (int_floor_div (negsuc a) (negsuc b) ≡ pos (suc a / suc b))
        × (int_mod (negsuc a) (negsuc b) ≡ sub_ℕ 0 (suc a % suc b))
  unfolding int_floor_div int_mod
  div_neg_neg nz = (ground arith, ground arith)

  div_neg_pos_exact :
      suc a % b ≡ 0
      → (int_floor_div (negsuc a) (pos b) ≡ sub_ℕ 0 (suc a / b))
        × (int_mod (negsuc a) (pos b) ≡ pos 0)
  unfolding int_floor_div int_mod
  div_neg_pos_exact e = (ground arith, ground arith)

  div_neg_pos_inexact :
      suc a % b ≢ 0
      → suc a / b < 2 ^ 63
      → b < 2 ^ 63
      → 0 < b
      → (int_floor_div (negsuc a) (pos b) ≡ negsuc (suc a / b))
        × (int_mod (negsuc a) (pos b) ≡ pos (b - suc a % b))
  unfolding int_floor_div int_mod
  div_neg_pos_inexact ne hq hb pb = (
    ground (arith, wrap_in_range (negsuc (suc a / b))),
    ground (arith, wrap_in_range (pos (b - suc a % b))),
  )

  div_pos_neg_exact :
      b ≢ 0
      → a % suc b ≡ 0
      → (int_floor_div (pos a) (negsuc b) ≡ sub_ℕ 0 (a / suc b))
        × (int_mod (pos a) (negsuc b) ≡ pos 0)
  unfolding int_floor_div int_mod
  div_pos_neg_exact nz e = (ground arith, ground arith)

  div_pos_neg_inexact :
      b ≢ 0
      → a % suc b ≢ 0
      → a / suc b < 2 ^ 63
      → suc b ≤ 2 ^ 63
      → (int_floor_div (pos a) (negsuc b) ≡ negsuc (a / suc b))
        × (int_mod (pos a) (negsuc b) ≡ negsuc (b - a % suc b))
  unfolding int_floor_div int_mod
  div_pos_neg_inexact nz ne hq hb = (
    ground (arith, wrap_in_range (negsuc (a / suc b))),
    ground (arith, wrap_in_range (negsuc (b - a % suc b))),
  )

-- q and m are the floored quotient and modulo of a by b, and int64s.
abbrev pub IsFlooredDiv : ℤ → ℤ → ℤ → ℤ → Type 0
IsFlooredDiv a b q m = (q *ℤ b +ℤ m ≡ a) × IsFlooredRem m b × IsInt64 q × IsInt64 m

-- Cutting toward zero and stepping down gives the floored quotient: over the natural quotient and
-- remainder q and r of the magnitudes.
floored_pos_pos :
    (a b q r : ℕ)
    → q * b + r ≡ a
    → r < b
    → a < 2 ^ 63
    → b < 2 ^ 63
    → IsFlooredDiv (pos a) (pos b) (pos q) (pos r)
unfolding ◌+ℤ◌ ◌*ℤ◌
floored_pos_pos a b q r whole small ha hb =
    let le : q * 1 ≤ q * b = mul-le-mul_left q (omega arith) in
    (ground arith, inl (omega arith), omega arith, omega arith)

module _ (a b q r : ℕ) (hb : b < 2 ^ 63) where
  floored_neg_neg :
      q * suc b + r ≡ suc a
      → r < suc b
      → 0 < b
      → a < 2 ^ 63
      → IsFlooredDiv (negsuc a) (negsuc b) (pos q) (sub_ℕ 0 r)
  unfolding ◌+ℤ◌ ◌*ℤ◌
  floored_neg_neg whole small nz ha =
      let le : q * 2 ≤ q * suc b = mul-le-mul_left q (omega arith) in
      (ground arith, inr (ground arith), ground arith, ground arith)

  floored_neg_pos_exact :
      q * b ≡ suc a → 0 < b → a < 2 ^ 63 → IsFlooredDiv (negsuc a) (pos b) (sub_ℕ 0 q) (pos 0)
  unfolding ◌+ℤ◌ ◌*ℤ◌
  floored_neg_pos_exact whole nz ha =
      let le : q * 1 ≤ q * b = mul-le-mul_left q (omega arith) in
      (ground arith, inl (omega arith), ground arith, omega arith)

  floored_neg_pos_inexact :
      q * b + r ≡ suc a
      → r < b
      → r ≢ 0
      → a < 2 ^ 63
      → IsFlooredDiv (negsuc a) (pos b) (negsuc q) (pos (b - r))
  unfolding ◌+ℤ◌ ◌*ℤ◌
  floored_neg_pos_inexact whole small nz ha =
      let le : q * 1 ≤ q * b = mul-le-mul_left q (omega arith) in
      (ground arith, inl (omega arith), omega arith, omega arith)

  floored_pos_neg_exact :
      q * suc b ≡ a → a < 2 ^ 63 → IsFlooredDiv (pos a) (negsuc b) (sub_ℕ 0 q) (pos 0)
  unfolding ◌+ℤ◌ ◌*ℤ◌
  floored_pos_neg_exact whole ha =
      let le : q * 1 ≤ q * suc b = mul-le-mul_left q (omega arith) in
      (ground arith, inr (omega arith), ground arith, omega arith)

  floored_pos_neg_inexact :
      q * suc b + r ≡ a
      → r < suc b
      → r ≢ 0
      → a < 2 ^ 63
      → IsFlooredDiv (pos a) (negsuc b) (negsuc q) (negsuc (b - r))
  unfolding ◌+ℤ◌ ◌*ℤ◌
  floored_pos_neg_inexact whole small nz ha =
      let le : q * 1 ≤ q * suc b = mul-le-mul_left q (omega arith) in
      (ground arith, inr (omega arith), omega arith, omega arith)

-- A quotient by a positive number is not larger than the dividend.
div_bound : (a b : ℕ) → 0 < b → (a / b ≤ a) × (a % b < b) × (a / b * b + a % b ≡ a)
div_bound a b h = (div-le_self a b, mod-lt a h, div-add-mod' a b)

-- For int64 operands with a divisor that is neither 0 nor -1, a is q * b + m for the quotient q and
-- the modulo m that the code computes, both are in range, and m lies between 0 and the divisor
-- on the divisor's side: the quotient is rounded toward minus infinity.
pub floor_div-mod :
    (a b : ℤ)
    → IsInt64 a
    → IsInt64 b
    → b ≢ pos 0
    → b ≢ negsuc 0
    → IsFlooredDiv a b (int_floor_div a b) (int_mod a b)
floor_div-mod (pos a) (pos b) (_, ha) (_, hb) nz nm =
    let nz' : 0 < b = elim (dec_lt 0 b) [ yes p ↦ p | no p ↦ absurd (nz (ap pos (omega arith))) ] in
    let (_, small, whole) = div_bound a b nz' in
    let (eq, em) = div_pos_pos a b in
    rw (eq, em) (floored_pos_pos a b _ _ whole small (omega arith) (omega arith))
floor_div-mod (pos a) (negsuc b) (_, ha) (lb, _) nz nm =
    let nm' : b ≢ 0 = λ e. nm (ap negsuc e) in
    let (le, small, whole) = div_bound a (suc b) (omega arith) in
    elim (ℕ_discrete (a % suc b) 0) [
      | yes e ↦
          let (eq, em) = div_pos_neg_exact a b nm' e in
          rw (eq, em)
            (floored_pos_neg_exact a b (a / suc b) 0 (omega arith) (omega arith) (omega arith))
      | no ne ↦
          let (eq, em) = div_pos_neg_inexact a b nm' ne (omega arith) (omega arith) in
          rw (eq, em)
            (floored_pos_neg_inexact a b (a / suc b) (a % suc b) (omega arith) whole small ne
              (omega arith))
    ]
floor_div-mod (negsuc a) (pos b) (la, _) (_, hb) nz nm =
    let nz' : 0 < b = elim (dec_lt 0 b) [ yes p ↦ p | no p ↦ absurd (nz (ap pos (omega arith))) ] in
    let (le, small, whole) = div_bound (suc a) b nz' in
    elim (ℕ_discrete (suc a % b) 0) [
      | yes e ↦
          let (eq, em) = div_neg_pos_exact a b e in
          rw (eq, em)
            (floored_neg_pos_exact a b (suc a / b) 0 (omega arith) (omega arith) nz' (omega arith))
      | no ne ↦
          let step : suc a / b * 1 ≤ suc a / b * b = mul-le-mul_left (suc a / b) nz' in
          let (eq, em) = div_neg_pos_inexact a b ne (omega arith) (omega arith) nz' in
          rw (eq, em)
            (floored_neg_pos_inexact a b (suc a / b) (suc a % b) (omega arith) whole small ne
              (omega arith))
    ]
floor_div-mod (negsuc a) (negsuc b) (la, _) (lb, _) nz nm =
    let nm' : b ≢ 0 = λ e. nm (ap negsuc e) in
    let (le, small, whole) = div_bound (suc a) (suc b) (omega arith) in
    let (eq, em) = div_neg_neg a b nm' in
    rw (eq, em) (floored_neg_neg a b _ _ (omega arith) whole small (omega arith) (omega arith))

-- By -1 the quotient is the negation of the dividend, but the least int64 wraps around to itself;
-- the modulo is 0.
pub floor_div_minus_one :
    (a : ℤ)
    → IsInt64 a
    → (int_mod a (negsuc 0) ≡ pos 0)
      × (int_floor_div a (negsuc 0) ≡ (if eqb_ℤ a (negsuc (2 ^ 63 - 1)) then a else neg_ℤ a))
unfolding int_floor_div int_mod wrap neg_ℤ
floor_div_minus_one (pos a) (lo, hi) = (refl, ground arith)
floor_div_minus_one (negsuc a) (lo, hi) = (refl, ground arith)
