-- ===== src/Utf8/Encoding.antt =====
-- What `Encode` writes, in plain arithmetic.
use luart.Prelude.{
  ℕ, suc, ◌+◌, ◌-◌, ◌*◌, ◌/◌, ◌%◌, ◌^◌, ◌≤◌, ◌<◌, ◌≡◌, ◌∙◌, ap, arith, true, ltb, leb,
  if◌then◌else◌, some, List, [], ◌∷◌, bit_and, bit_or,
}
use luart.Prelude.Bits.{bit_and_mask, bit_or_add_left}
use luart.Utf8.{max_utf, encode, encode_loop}

-- A continuation byte that holds y, and the lead byte over which h is added.
continuation : (x : ℕ) → bit_or 0x80 (bit_and x 0x3f) % 256 ≡ 128 + x % 64
continuation x =
    let m : bit_and x 0x3f ≡ x % 64 = bit_and_mask 6 x in
    ap (λ (t : ℕ). bit_or 0x80 t % 256) m
    ∙ ap (λ (t : ℕ). t % 256) (bit_or_add_left 7 (x % 64) 1 (omega arith))
    ∙ omega arith

-- One round of the loop that goes on, and the last round, in which `2 ^ k` is the room that is left
-- in the first byte.
step_more :
    (n x mfb : ℕ) (out : List ℕ)
    → mfb / 2 < x / 64
    → encode_loop (suc (suc n)) x mfb out
      ≡ encode_loop (suc n) (x / 64) (mfb / 2) ((128 + x % 64) ∷ out)
unfolding encode_loop
step_more n x mfb out h = rw continuation (ground arith)

step_done :
    (n x mfb : ℕ) (out : List ℕ) (k m : ℕ)
    → x / 64 ≤ mfb / 2
    → x / 64 < 2 ^ k
    → (2 ^ 32 - 1 - mfb / 2) * 2 % 2 ^ 32 ≡ m * 2 ^ k
    → m * 2 ^ k % 256 + x / 64 < 256
    → encode_loop (suc (suc n)) x mfb out ≡ some ((m * 2 ^ k % 256 + x / 64) ∷ (128 + x % 64) ∷ out)
unfolding encode_loop
step_done n x mfb out k m h hk e hm =
    let first : bit_or ((2 ^ 32 - 1 - mfb / 2) * 2 % 2 ^ 32) (x / 64) % 256
        ≡ m * 2 ^ k % 256 + x / 64 =
      ap (λ (t : ℕ). bit_or t (x / 64) % 256) e
      ∙ ap (λ (t : ℕ). t % 256) (bit_or_add_left k (x / 64) m hk)
      ∙ omega arith in
    let test : leb (x / 64) (mfb / 2) ≡ true = ground arith in rw (continuation, first, test)

-- What `encode` writes, by the size of the value.
unfoldable pub encoding : ℕ → List ℕ
encoding x =
    let c = λ (y : ℕ). 128 + y % 64 in
    let x₁ = x / 64 in
    let x₂ = x₁ / 64 in
    let x₃ = x₂ / 64 in
    let x₄ = x₃ / 64 in
    let x₅ = x₄ / 64 in
    if ltb x 0x80
    then x ∷ []
    else if ltb x 0x800
    then (0xc0 + x₁) ∷ c x ∷ []
    else if ltb x 0x10000
    then (0xe0 + x₂) ∷ c x₁ ∷ c x ∷ []
    else if ltb x 0x200000
    then (0xf0 + x₃) ∷ c x₂ ∷ c x₁ ∷ c x ∷ []
    else if ltb x 0x4000000
    then (0xf8 + x₄) ∷ c x₃ ∷ c x₂ ∷ c x₁ ∷ c x ∷ []
    else (0xfc + x₅) ∷ c x₄ ∷ c x₃ ∷ c x₂ ∷ c x₁ ∷ c x ∷ []

encode_1 :
    (x : ℕ)
    → 0x80 ≤ x
    → x < 0x800
    → encode_loop 8 x 0x3f [] ≡ some ((0xc0 + x / 64) ∷ (128 + x % 64) ∷ [])
encode_1 x lo hi =
    step_done 6 (x) 0x3f ([]) 5 134217726 (omega arith) (omega arith) (omega arith) (omega arith)

encode_2 :
    (x : ℕ)
    → 0x800 ≤ x
    → x < 0x10000
    → encode_loop 8 x 0x3f []
      ≡ some ((0xe0 + x / 64 / 64) ∷ (128 + x / 64 % 64) ∷ (128 + x % 64) ∷ [])
encode_2 x lo hi =
    step_more 6 (x) 0x3f ([]) (omega arith)
    ∙ step_done 5 (x / 64) 0x1f ((128 + x % 64) ∷ []) 4 268435454 (omega arith) (omega arith)
        (omega arith) (omega arith)

encode_3 :
    (x : ℕ)
    → 0x10000 ≤ x
    → x < 0x200000
    → encode_loop 8 x 0x3f []
      ≡ some (
          (0xf0 + x / 64 / 64 / 64)
          ∷ (128 + x / 64 / 64 % 64)
          ∷ (128 + x / 64 % 64)
          ∷ (128 + x % 64)
          ∷ [])
encode_3 x lo hi =
    step_more 6 (x) 0x3f ([]) (omega arith)
    ∙ step_more 5 (x / 64) 0x1f ((128 + x % 64) ∷ []) (omega arith)
    ∙ step_done 4 (x / 64 / 64) 0xf ((128 + x / 64 % 64) ∷ (128 + x % 64) ∷ []) 3 536870910
        (omega arith) (omega arith) (omega arith) (omega arith)

encode_4 :
    (x : ℕ)
    → 0x200000 ≤ x
    → x < 0x4000000
    → encode_loop 8 x 0x3f []
      ≡ some (
          (0xf8 + x / 64 / 64 / 64 / 64)
          ∷ (128 + x / 64 / 64 / 64 % 64)
          ∷ (128 + x / 64 / 64 % 64)
          ∷ (128 + x / 64 % 64)
          ∷ (128 + x % 64)
          ∷ [])
encode_4 x lo hi =
    step_more 6 (x) 0x3f ([]) (omega arith)
    ∙ step_more 5 (x / 64) 0x1f ((128 + x % 64) ∷ []) (omega arith)
    ∙ step_more 4 (x / 64 / 64) 0xf ((128 + x / 64 % 64) ∷ (128 + x % 64) ∷ []) (omega arith)
    ∙ step_done 3 (x / 64 / 64 / 64) 0x7
        ((128 + x / 64 / 64 % 64) ∷ (128 + x / 64 % 64) ∷ (128 + x % 64) ∷ []) 2 1073741822
        (omega arith) (omega arith) (omega arith) (omega arith)

encode_5 :
    (x : ℕ)
    → 0x4000000 ≤ x
    → x < 0x80000000
    → encode_loop 8 x 0x3f []
      ≡ some (
          (0xfc + x / 64 / 64 / 64 / 64 / 64)
          ∷ (128 + x / 64 / 64 / 64 / 64 % 64)
          ∷ (128 + x / 64 / 64 / 64 % 64)
          ∷ (128 + x / 64 / 64 % 64)
          ∷ (128 + x / 64 % 64)
          ∷ (128 + x % 64)
          ∷ [])
encode_5 x lo hi =
    step_more 6 (x) 0x3f ([]) (omega arith)
    ∙ step_more 5 (x / 64) 0x1f ((128 + x % 64) ∷ []) (omega arith)
    ∙ step_more 4 (x / 64 / 64) 0xf ((128 + x / 64 % 64) ∷ (128 + x % 64) ∷ []) (omega arith)
    ∙ step_more 3 (x / 64 / 64 / 64) 0x7
        ((128 + x / 64 / 64 % 64) ∷ (128 + x / 64 % 64) ∷ (128 + x % 64) ∷ []) (omega arith)
    ∙ step_done 2 (x / 64 / 64 / 64 / 64) 0x3
        ((128 + x / 64 / 64 / 64 % 64)
          ∷ (128 + x / 64 / 64 % 64)
          ∷ (128 + x / 64 % 64)
          ∷ (128 + x % 64)
          ∷ [])
        1 2147483646 (omega arith) (omega arith) (omega arith) (omega arith)

pub encode-encoding : (x : ℕ) → x ≤ max_utf → encode x ≡ some (encoding x)
unfolding encode encoding
encode-encoding x h = ground (arith, encode_1 x, encode_2 x, encode_3 x, encode_4 x, encode_5 x)
