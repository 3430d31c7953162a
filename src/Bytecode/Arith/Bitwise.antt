-- ===== src/Bytecode/Arith/Bitwise.antt =====
-- internal/bytecode/number.go: the shifts of int64, bit by bit.
use luart.Prelude.{
  ℕ, zero, suc, ◌+◌, ◌-◌, ◌*◌, ◌/◌, ◌%◌, ◌^◌, ◌≤◌, ◌<◌, ◌≡◌, ◌∙◌, ap, sym, Option, some, none,
  arith, Bool-cases, inl, inr, ◌||◌, dec_lt,
}
use luart.Prelude.Bits.{pow-suc_two, pow-pos}
use luart.Prelude.Int.{ℤ, pos, negsuc, leb_ℤ, neg_part, ◌-ℤ◌, ◌+ℤ◌}
use luart.Prelude.Word64.{
  IsInt64, wrap, neg_ℤ, to_u64, of_u64, to_u64-lt, to_u64-of_u64, of_u64-IsInt64, wrap_in_range,
}
use native.Mathlib.Nat.{
  pow-le-pow_right, div-le_self, div-div-eq-div-mul, div-eq_of_lt, mul-mod_left, mod-add-div',
  add-mul-div_right, mul-div_cancel,
}
use luart.Bytecode.Arith.{shift_left, int_bitwise, shl, shr}

pow-add : (n m : ℕ) → 2 ^ (n + m) ≡ 2 ^ n * 2 ^ m
pow-add n zero = let e : n + 0 ≡ n = omega arith in ap (λ (t : ℕ). 2 ^ t) e ∙ omega arith
pow-add n (suc m) =
    let e : n + suc m ≡ suc (n + m) = omega arith in
    ap (λ (t : ℕ). 2 ^ t) e
    ∙ pow-suc_two (n + m)
    ∙ omega (arith, pow-add n m, ap (λ (t : ℕ). 2 ^ n * t) (pow-suc_two m))

-- A multiple of a higher power changes no bit below it.
low_bit : (r q j w : ℕ) → j < w → (r + q * 2 ^ w) / 2 ^ j % 2 ≡ r / 2 ^ j % 2
low_bit r q j w h =
    let split : 2 ^ w ≡ 2 ^ (w - j - 1) * 2 * 2 ^ j =
      ap (λ (t : ℕ). 2 ^ t) {y = w - j - 1 + suc j} (omega arith)
      ∙ pow-add (w - j - 1) (suc j)
      ∙ omega (arith, ap (λ (t : ℕ). 2 ^ (w - j - 1) * t) (pow-suc_two j)) in
    let whole : q * 2 ^ w ≡ q * 2 ^ (w - j - 1) * 2 * 2 ^ j =
      omega (arith, ap (λ (t : ℕ). q * t) split) in
    ap (λ (t : ℕ). (r + t) / 2 ^ j % 2) whole
    ∙ ap (λ (t : ℕ). t % 2) (add-mul-div_right r (q * 2 ^ (w - j - 1) * 2) {z = 2 ^ j} (pow-pos j))
    ∙ omega arith

mod-bit : (u j : ℕ) → j < 64 → u % 2 ^ 64 / 2 ^ j % 2 ≡ u / 2 ^ j % 2
mod-bit u j h =
    sym (low_bit (u % 2 ^ 64) (u / 2 ^ 64) j 64 h)
    ∙ ap (λ (t : ℕ). t / 2 ^ j % 2) (mod-add-div' u (2 ^ 64))

-- 64 places or more: 2 ^ n is a multiple of 2 ^ 64.
high_power : (n : ℕ) → 64 ≤ n → 2 ^ n ≡ 2 ^ (n - 64) * 2 ^ 64
high_power n h =
    let e : n ≡ n - 64 + 64 = omega arith in ap (λ (t : ℕ). 2 ^ t) e ∙ pow-add (n - 64) 64

-- The patterns after a shift to the left and to the right, by any number of places.
left_pattern : (a : ℤ) (n : ℕ) → to_u64 (shift_left a (pos n)) ≡ to_u64 a * 2 ^ n % 2 ^ 64
left_pattern a n = elim (dec_lt n 64) [
  | yes h ↦ ap to_u64 (small h) ∙ to_u64-of_u64 _ (omega arith)
  | no h ↦
      let zero' : to_u64 a * 2 ^ n % 2 ^ 64 ≡ 0 =
        ap (λ (t : ℕ). t % 2 ^ 64) {y = to_u64 a * 2 ^ (n - 64) * 2 ^ 64}
          (omega (arith, ap (λ (t : ℕ). to_u64 a * t) (high_power n (omega arith))))
        ∙ mul-mod_left (to_u64 a * 2 ^ (n - 64)) (2 ^ 64) in
      ap to_u64 (large (omega arith)) ∙ sym zero'
]
  where
    small : n < 64 → shift_left a (pos n) ≡ of_u64 (to_u64 a * 2 ^ n % 2 ^ 64)
    small h = unfold shift_left in ground arith

    large : 64 ≤ n → shift_left a (pos n) ≡ pos 0
    large h = unfold shift_left in ground arith

right_pattern : (a : ℤ) (n : ℕ) → to_u64 (shift_left a (negsuc n)) ≡ to_u64 a / 2 ^ suc n
right_pattern a n = elim (dec_lt n 63) [
  | yes h ↦
      ap to_u64 (small h)
      ∙ to_u64-of_u64 _ (omega (arith, div-le_self (to_u64 a) (2 ^ suc n), to_u64-lt a))
  | no h ↦
      let wide : 2 ^ 64 ≤ 2 ^ suc n =
        pow-le-pow_right {n = 2} (omega arith) {i = 64} {j = suc n} (omega arith) in
      ap to_u64 (large (omega arith)) ∙ sym (div-eq_of_lt (omega (arith, to_u64-lt a)))
]
  where
    small : n < 63 → shift_left a (negsuc n) ≡ of_u64 (to_u64 a / 2 ^ suc n)
    small h = unfold shift_left in ground arith

    large : 63 ≤ n → shift_left a (negsuc n) ≡ pos 0
    large h = unfold shift_left in ground arith

shift_left-IsInt64 : (a n : ℤ) → IsInt64 (shift_left a n)
unfolding shift_left
shift_left-IsInt64 a n = elim (Bool-cases (leb_ℤ n (negsuc 63) || leb_ℤ (pos 64) n)) [
  | inl far ↦ rw far (omega arith)
  | inr near ↦ rw near (elim (Bool-cases (leb_ℤ (pos 0) n)) [
    | inl left ↦ rw left (of_u64-IsInt64 _ (omega arith))
    | inr right ↦
        rw right
          (of_u64-IsInt64 _ (omega (arith, div-le_self (to_u64 a) (2 ^ neg_part n), to_u64-lt a)))
  ])
]

-- Bit k of the two's complement of a, for 0 ≤ k < 64, and 0 for any other k.
unfoldable pub bit : ℤ → ℤ → ℕ
bit a (pos k) = to_u64 a / 2 ^ k % 2
bit a (negsuc k) = 0

below_word : (j n : ℕ) → j < n → pos j -ℤ pos n ≡ negsuc (n - j - 1)
unfolding ◌-ℤ◌
below_word j n h = ground arith

lower_place : (j n : ℕ) → n ≤ j → pos j -ℤ pos n ≡ pos (j - n)
unfolding ◌-ℤ◌
lower_place j n h = ground arith

higher_place : (j n : ℕ) → pos j -ℤ negsuc n ≡ pos (suc n + j)
unfolding ◌-ℤ◌
higher_place j n = ground arith

left-bit : (a : ℤ) (n j : ℕ) → j < 64 → bit (shift_left a (pos n)) (pos j) ≡ bit a (pos j -ℤ pos n)
unfolding bit
left-bit a n j h =
    ap (λ (t : ℕ). t / 2 ^ j % 2) (left_pattern a n)
    ∙ mod-bit (to_u64 a * 2 ^ n) j h
    ∙ elim (dec_lt j n) [
      | yes lt ↦
          ap (λ (t : ℕ). t / 2 ^ j % 2) {y = 0 + to_u64 a * 2 ^ n} (omega arith)
          ∙ low_bit 0 (to_u64 a) j n lt
          ∙ ap (λ (t : ℕ). t % 2) (div-eq_of_lt (pow-pos j))
          ∙ ap (bit a) (sym (below_word j n lt))
      | no ge ↦
          let above : 2 ^ j ≡ 2 ^ n * 2 ^ (j - n) =
            ap (λ (t : ℕ). 2 ^ t) {y = n + (j - n)} (omega arith) ∙ pow-add n (j - n) in
          ap (λ (t : ℕ). to_u64 a * 2 ^ n / t % 2) above
          ∙ ap (λ (t : ℕ). t % 2)
              (sym (div-div-eq-div-mul (to_u64 a * 2 ^ n) (2 ^ n) (2 ^ (j - n)))
                ∙ ap (λ (t : ℕ). t / 2 ^ (j - n)) (mul-div_cancel (to_u64 a) (pow-pos n)))
          ∙ ap (bit a) (sym (lower_place j n (omega arith)))
    ]

right-bit : (a : ℤ) (n j : ℕ) → bit (shift_left a (negsuc n)) (pos j) ≡ bit a (pos j -ℤ negsuc n)
unfolding bit
right-bit a n j =
    ap (λ (t : ℕ). t / 2 ^ j % 2) (right_pattern a n)
    ∙ ap (λ (t : ℕ). t % 2)
        (div-div-eq-div-mul (to_u64 a) (2 ^ suc n) (2 ^ j)
          ∙ ap (λ (t : ℕ). to_u64 a / t) (sym (pow-add (suc n) j)))
    ∙ ap (bit a) (sym (higher_place j n))

shift_left-bit : (a n : ℤ) (j : ℕ) → j < 64 → bit (shift_left a n) (pos j) ≡ bit a (pos j -ℤ n)
shift_left-bit a (pos n) j h = left-bit a n j h
shift_left-bit a (negsuc n) j h = right-bit a n j

beyond_word : (a : ℤ) (k : ℕ) → 64 ≤ k → bit a (pos k) ≡ 0
unfolding bit
beyond_word a k h =
    let wide : 2 ^ 64 ≤ 2 ^ k = pow-le-pow_right {n = 2} (omega arith) {i = 64} {j = k} h in
    ap (λ (t : ℕ). t % 2) (div-eq_of_lt (omega (arith, wide, to_u64-lt a)))

opposite : (n : ℤ) (j : ℕ) → pos j -ℤ neg_ℤ n ≡ pos j +ℤ n
unfolding neg_ℤ ◌-ℤ◌ ◌+ℤ◌
opposite n j = ground arith

neg_in_range :
    (a n : ℤ) (j : ℕ) → IsInt64 (neg_ℤ n) → bit a (pos j -ℤ wrap (neg_ℤ n)) ≡ bit a (pos j +ℤ n)
neg_in_range a n j h =
    ap (λ (z : ℤ). bit a (pos j -ℤ z)) (wrap_in_range (neg_ℤ n) h) ∙ ap (bit a) (opposite n j)

-- The least int64 is its own negation, and no place of a word is that far.
least : (m : ℕ) → m ≡ 2 ^ 63 - 1 → wrap (neg_ℤ (negsuc m)) ≡ negsuc m
unfolding wrap neg_ℤ ◌-ℤ◌
least m e = ground (arith, e)

below_least : (j m : ℕ) → j < 64 → m ≡ 2 ^ 63 - 1 → pos j +ℤ negsuc m ≡ negsuc (m - j)
unfolding ◌+ℤ◌
below_least j m h e = ground (arith, e)

right_place :
    (a n : ℤ) (j : ℕ) → IsInt64 n → j < 64 → bit a (pos j -ℤ wrap (neg_ℤ n)) ≡ bit a (pos j +ℤ n)
unfolding neg_ℤ ◌-ℤ◌ bit
right_place a (pos m) j h lt = neg_in_range a (pos m) j (ground arith)
right_place a (negsuc m) j h lt = elim (dec_lt m (2 ^ 63 - 1)) [
  | yes small ↦ neg_in_range a (negsuc m) j (ground arith)
  | no large ↦
      let e : m ≡ 2 ^ 63 - 1 = omega arith in
      ap (λ (z : ℤ). bit a (pos j -ℤ z)) (least m e)
      ∙ ap (bit a) (higher_place j m)
      ∙ beyond_word a (suc m + j) (omega (arith, e))
      ∙ sym (ap (bit a) (below_least j m lt e))
]

-- Bit j of a result.
abbrev pub bit_of : Option ℤ → ℕ → Option ℕ
bit_of none j = none
bit_of (some r) j = some (bit r (pos j))

-- Bit j of a << n, for j below 64, is bit j - n of a, and bit j of a >> n is bit j + n of a, for every
-- int64 n, negative ones and the least one included. A place outside the word counts as 0, so the
-- shifts are logical and one by 64 places or more leaves nothing. What shift_left returns is an int64.
pub int_bitwise-bit :
    (a n : ℤ) (j : ℕ)
    → IsInt64 n
    → j < 64
    → (bit_of (int_bitwise shl a n) j ≡ some (bit a (pos j -ℤ n)))
      × (bit_of (int_bitwise shr a n) j ≡ some (bit a (pos j +ℤ n)))
      × IsInt64 (shift_left a n)
unfolding int_bitwise
int_bitwise-bit a n j h lt = (
  ap some (shift_left-bit a n j lt),
  ap some (shift_left-bit a (wrap (neg_ℤ n)) j lt ∙ right_place a n j h lt),
  shift_left-IsInt64 a n,
)
