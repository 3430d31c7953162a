-- ===== src/Chunk/Format/Words.antt =====
-- Fixed-size values survive being written and read.
use luart.Prelude.{
  ℕ, zero, suc, ◌+◌, ◌-◌, ◌*◌, ◌/◌, ◌^◌, ◌<◌, ◌≡◌, ◌∙◌, ap, refl, arith, [], ◌∷◌, length,
  length-append, reverse, bit_and, bit_or, Bool-cases, inl, inr,
}
use luart.Prelude.Int.{ℤ, pos, negsuc, ◌≤ℤ◌}
use luart.Chunk.Proto.{Bytes}
use luart.Chunk.Format.{
  Platform, to_le, of_le, to_bytes, of_bytes, to_u32, of_u32, reuse_bit, pointer_size,
}
use luart.Prelude.Bits.{bit_and_mask, bit_and_field, bit_and_clear, bit_or_add_left}
use native.Mathlib.Nat.{pow-succ'}
use mathlib.Core.List.{reverse-reverse, reverse-append}

abbrev pub IsInt32 : ℤ → Type 0
IsInt32 z = (negsuc (2 ^ 31 - 1) ≤ℤ z) × (z ≤ℤ pos (2 ^ 31 - 1))

length-to_le : (k n : ℕ) → length (to_le k n) ≡ k
unfolding to_le
length-to_le zero n = refl
length-to_le (suc k) n = ap suc (length-to_le k (n / 256))

of_le-to_le : (k n : ℕ) → n < 256 ^ k → of_le (to_le k n) ≡ n
unfolding to_le of_le
of_le-to_le zero n h = omega arith
of_le-to_le (suc k) n h =
    let h' : n < 256 * 256 ^ k = rw (pow-succ' 256 k) at h in
    omega (arith, of_le-to_le k (n / 256) (omega arith))

length-reverse : (bs : Bytes) → length (reverse bs) ≡ length bs
length-reverse [] = refl
length-reverse (b ∷ bs) =
    ap (λ (t : Bytes). length t) (reverse-append (b ∷ []) bs)
    ∙ omega (arith, length-append (reverse bs) (b ∷ []), length-reverse bs)

module _ (platform : Platform) where
  pub length-to_bytes : (k n : ℕ) → length (to_bytes platform k n) ≡ k
  unfolding to_bytes
  length-to_bytes k n = elim (Bool-cases platform.little) [
    | inl e ↦ rw e (length-to_le k n)
    | inr e ↦ rw e (length-reverse (to_le k n) ∙ length-to_le k n)
  ]

  pub of_bytes-to_bytes : (k n : ℕ) → n < 256 ^ k → of_bytes platform (to_bytes platform k n) ≡ n
  unfolding to_bytes of_bytes
  of_bytes-to_bytes k n h = elim (Bool-cases platform.little) [
    | inl e ↦ rw e (of_le-to_le k n h)
    | inr e ↦ rw e (ap of_le (reverse-reverse (to_le k n)) ∙ of_le-to_le k n h)
  ]

  -- The reuse bit beside an index below it.
  pub reuse_word :
      (j : ℕ) → j < reuse_bit platform → bit_or (reuse_bit platform) j ≡ reuse_bit platform + j
  reuse_word j h = elim (Bool-cases platform.wide) [
    | inl e ↦ let h' : j < 2 ^ 63 = ground arith in rw e (omega (arith, bit_or_add_left 63 j 1 h'))
    | inr e ↦ let h' : j < 2 ^ 31 = ground arith in rw e (omega (arith, bit_or_add_left 31 j 1 h'))
  ]

  pub reuse_word-lt :
      (j : ℕ) → j < reuse_bit platform → reuse_bit platform + j < 256 ^ pointer_size platform
  reuse_word-lt j h = ground arith

  pub size-lt : (n : ℕ) → n < reuse_bit platform → n < 256 ^ pointer_size platform
  size-lt n h = ground arith

  pub reuse_set :
      (j : ℕ)
      → j < reuse_bit platform
      → bit_and (reuse_bit platform + j) (reuse_bit platform) ≡ reuse_bit platform
  reuse_set j h = elim (Bool-cases platform.wide) [
    | inl e ↦
        let h' : j < 2 ^ 63 = ground arith in rw e (omega (arith, bit_and_field 63 1 (2 ^ 63 + j)))
    | inr e ↦
        let h' : j < 2 ^ 31 = ground arith in rw e (omega (arith, bit_and_field 31 1 (2 ^ 31 + j)))
  ]

  pub reuse_clear : (n : ℕ) → n < reuse_bit platform → bit_and n (reuse_bit platform) ≡ 0
  reuse_clear n h = elim (Bool-cases platform.wide) [
    | inl e ↦ let h' : n < 2 ^ 63 = ground arith in rw e (omega (arith, bit_and_field 63 1 n))
    | inr e ↦ let h' : n < 2 ^ 31 = ground arith in rw e (omega (arith, bit_and_field 31 1 n))
  ]

  pub reuse_index :
      (j : ℕ)
      → j < reuse_bit platform
      → bit_and (reuse_bit platform + j) (2 ^ 64 - 1 - reuse_bit platform) ≡ j
  reuse_index j h = elim (Bool-cases platform.wide) [
    | inl e ↦
        let h' : j < 2 ^ 63 = ground arith in rw e (omega (arith, bit_and_mask 63 (2 ^ 63 + j)))
    | inr e ↦
        let h' : j < 2 ^ 31 = ground arith in
        rw e (omega (arith, bit_and_clear 31 32 32 (2 ^ 31 + j) (omega arith) (omega arith)))
  ]

pub of_u32-to_u32 : (z : ℤ) → IsInt32 z → of_u32 (to_u32 z) ≡ z
of_u32-to_u32 (pos n) h = ground arith
of_u32-to_u32 (negsuc n) h = ground arith

pub to_u32-lt : (z : ℤ) → to_u32 z < 256 ^ 4
to_u32-lt (pos n) = omega arith
to_u32-lt (negsuc n) = omega arith
