-- ===== src/Bytecode/Float8.antt =====
-- internal/bytecode/math.go: the floating point byte (eeeeexxx) in which NEWTABLE gives its sizes.
mod Examples
use luart.Prelude.{
  ℕ, zero, suc, ◌+◌, ◌-◌, ◌*◌, ◌/◌, ◌%◌, ◌^◌, ◌≤◌, ◌<◌, ◌≡◌, refl, ap, ◌∙◌, arith, bit_and, bit_or,
  Bool, true, false, inl, inr, ◌⊎◌, dec_lt, ◌==◌, ltb, leb, if◌then◌else◌, Bool-cases, ◌&&◌, ==_iff,
}
use luart.Prelude.Bits.{bit_and_mask, bit_or_add, pow-suc_two, bit_or_add_left}
use native.Mathlib.Nat.{pow-le-pow_right, mul-le-mul_right}

-- The loop: halve, rounding up, until x is below 16. It runs on fuel.
halve_loop : ℕ → ℕ → ℕ → ℕ × ℕ
halve_loop zero x e = (x, e)
halve_loop (suc f) x e =
    let rest = halve_loop f ((x + 1) / 2) (e + 1) in if leb 0x10 x then rest else (x, e)

-- A size is not negative, so the code's int is a natural number here. Each round makes a number
-- from 16 on smaller, so x rounds are enough.
unfoldable pub float8_from_int : ℕ → ℕ
unfolding halve_loop
float8_from_int x =
    let (y, e) = halve_loop x x 0 in if ltb x 8 then x else bit_or ((e + 1) * 2 ^ 3) (y - 8)

unfoldable pub int_from_float8 : ℕ → ℕ
int_from_float8 x =
    let e = bit_and (x / 2 ^ 3) 0x1f in if e == 0 then x else (bit_and x 7 + 8) * 2 ^ (e - 1)

pow-add-one : (e : ℕ) → 2 ^ (e + 1) ≡ 2 * 2 ^ e
pow-add-one e = ap (λ (t : ℕ). 2 ^ t) (omega arith) ∙ pow-suc_two e

-- One round: the mantissa times 2 ^ e stays what it was, or grows by 2 ^ e where x is odd.
half_up :
    (x e : ℕ)
    → ((x + 1) / 2 * 2 ^ (e + 1) ≡ x * 2 ^ e) ⊎ ((x + 1) / 2 * 2 ^ (e + 1) ≡ x * 2 ^ e + 2 ^ e)
half_up x e = rw pow-add-one (elim (parity x) [
  | inl h ↦ inl (omega (arith, ap (λ (t : ℕ). t * 2 ^ e) h))
  | inr h ↦ inr (omega (arith, ap (λ (t : ℕ). t * 2 ^ e) h))
])
  where
    parity : (n : ℕ) → ((n + 1) / 2 * 2 ≡ n) ⊎ ((n + 1) / 2 * 2 ≡ n + 1)
    parity n = omega arith

-- What the loop has reached from x₀ after e rounds: the mantissa times 2 ^ e is x₀, rounded up by
-- less than 2 ^ e, and it ends between 8 and 15.
halve_loop_lem :
    (f x e x₀ : ℕ)
    → x ≤ f + 15
    → 8 ≤ x
    → x₀ ≤ x * 2 ^ e
    → x * 2 ^ e < x₀ + 2 ^ e
    → 15 * 2 ^ e < 2 * x₀
    → (8 ≤ (halve_loop f x e).0)
      × ((halve_loop f x e).0 < 16)
      × (x₀ ≤ (halve_loop f x e).0 * 2 ^ (halve_loop f x e).1)
      × ((halve_loop f x e).0 * 2 ^ (halve_loop f x e).1 < x₀ + 2 ^ (halve_loop f x e).1)
      × (15 * 2 ^ (halve_loop f x e).1 < 2 * x₀)
unfolding halve_loop
halve_loop_lem zero x e x₀ hf h8 lo hi small = (h8, omega arith, lo, hi, small)
halve_loop_lem (suc f) x e x₀ hf h8 lo hi small = elim (Bool-cases (leb 0x10 x)) [
  | inl more ↦
      let wide : 16 * 2 ^ e ≤ x * 2 ^ e = mul-le-mul_right (2 ^ e) (ground arith) in
      rw more (
        halve_loop_lem f ((x + 1) / 2) (e + 1) x₀ (ground arith) (ground arith)
          (omega (arith, half_up x e)) (omega (arith, half_up x e, pow-add-one e))
          (omega (arith, wide, pow-add-one e)))
  | inr done ↦ rw done (h8, ground arith, lo, hi, small)
]

int_from_float8_lem :
    (x : ℕ)
    → int_from_float8 x
      ≡ (if x / 2 ^ 3 % 2 ^ 5 == 0 then x else (x % 2 ^ 3 + 8) * 2 ^ (x / 2 ^ 3 % 2 ^ 5 - 1))
unfolding int_from_float8
int_from_float8_lem x = rw (bit_and_mask 5 (x / 2 ^ 3), bit_and_mask 3 x) refl

-- The code of a mantissa y, between 8 and 15, with exponent e stands for y * 2 ^ e.
int_from_code :
    (y e c : ℕ)
    → 8 ≤ y
    → y < 16
    → e < 31
    → c ≡ (e + 1) * 8 + (y - 8)
    → int_from_float8 c ≡ y * 2 ^ e
int_from_code y e c h8 h16 he h =
    let exponent : c / 2 ^ 3 % 2 ^ 5 ≡ e + 1 = omega arith in
    let mantissa : c % 2 ^ 3 + 8 ≡ y = omega arith in
    let nonzero : (e + 1 == 0) ≡ false = ground arith in
    let back : e + 1 - 1 ≡ e = omega arith in
    int_from_float8_lem c ∙ rw (exponent, nonzero, mantissa, back)

exponent-lt : (e : ℕ) → 2 ^ e < 2 ^ 31 → e < 31
exponent-lt e h = elim (dec_lt e 31) [
  | yes p ↦ p
  | no p ↦
      absurd (omega (arith, pow-le-pow_right {n = 2} (omega arith) {i = 31} {j = e} (omega arith)))
]

-- A size from 8 on: the code is a byte, and what it stands for, in terms of the loop's result.
float8_large :
    (x y e : ℕ)
    → 8 ≤ y
    → y < 16
    → x ≤ y * 2 ^ e
    → y * 2 ^ e < x + 2 ^ e
    → e < 31
    → (bit_or ((e + 1) * 2 ^ 3) (y - 8) < 256)
      × (x ≤ int_from_float8 (bit_or ((e + 1) * 2 ^ 3) (y - 8)))
      × (7 * int_from_float8 (bit_or ((e + 1) * 2 ^ 3) (y - 8)) ≤ 8 * x)
float8_large x y e h8 h16 lo hi he =
    let code : bit_or ((e + 1) * 2 ^ 3) (y - 8) ≡ (e + 1) * 2 ^ 3 + (y - 8) =
      bit_or_add_left 3 (y - 8) (e + 1) (omega arith) in
    let value = int_from_code y e _ h8 h16 he code in
    let wide : 8 * 2 ^ e ≤ y * 2 ^ e = mul-le-mul_right (2 ^ e) h8 in
    (omega (arith, code), omega (arith, value), omega (arith, value, wide))

-- For every size up to the largest that a byte can give, the code is a byte, it stands for a size
-- that is not smaller, and for one that is larger by a seventh at most.
pub float8_covers :
    (x : ℕ)
    → x ≤ 15 * 2 ^ 30
    → (float8_from_int x < 256)
      × (x ≤ int_from_float8 (float8_from_int x))
      × (7 * int_from_float8 (float8_from_int x) ≤ 8 * x)
unfolding float8_from_int
float8_covers x hx = elim (Bool-cases (ltb x 8)) [
  | inl small ↦ rw small (
      let e : int_from_float8 x ≡ x = exact x (ground arith) in
      (ground arith, omega (arith, e), omega (arith, e)))
  | inr large ↦
      let (h8, h16, lo, hi, b) =
        halve_loop_lem x x 0 x (omega arith) (ground arith) (omega arith) (omega arith)
          (ground arith) in
      rw large (float8_large x _ _ h8 h16 lo hi (exponent-lt _ (omega arith)))
]
  where
    exact : (n : ℕ) → n < 8 → int_from_float8 n ≡ n
    exact n h = int_from_float8_lem n ∙ ground arith

agree_below : ℕ → (ℕ → ℕ) → Bool
agree_below zero f = true
agree_below (suc n) f = f n == n && agree_below n f

agree_below_lem : (n : ℕ) (f : ℕ → ℕ) (x : ℕ) → agree_below n f ≡ true → x < n → f x ≡ x
unfolding agree_below
agree_below_lem zero f x h lt = absurd (omega arith)
agree_below_lem (suc n) f x h lt = ground (arith, agree_below_lem n f x)

bytes_agree : agree_below 256 (λ b. float8_from_int (int_from_float8 b)) ≡ true
unfolding agree_below float8_from_int int_from_float8
bytes_agree = refl

-- Every byte is the code of the size that it stands for.
pub float8_from_int-int_from_float8 : (b : ℕ) → b < 256 → float8_from_int (int_from_float8 b) ≡ b
float8_from_int-int_from_float8 b h = agree_below_lem 256 _ b bytes_agree h
