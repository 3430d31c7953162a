-- ===== src/Utf8/RoundTrip.antt =====
-- Decoding after encoding.
use luart.Prelude.{
  ℕ, suc, ◌+◌, ◌*◌, ◌/◌, ◌%◌, ◌^◌, ◌≤◌, ◌<◌, ◌≡◌, ◌∙◌, refl, arith, Bool, true, false, ◌&&◌, ◌||◌,
  ltb, leb, if◌then◌else◌, some, none, List, ◌++◌, length, dec_lt,
}
use luart.Utf8.{max_utf, max_unicode, encode, decode, decode_lax}
use luart.Utf8.Encoding.{encoding, encode-encoding}
use luart.Utf8.Decoding.{decode_1, decode_2, decode_3, decode_4, decode_5}

-- Lax decoding reads x back from the start of a text, over k bytes beyond the first.
abbrev ReadsBack : ℕ → List ℕ → ℕ → Type 0
ReadsBack x rest k = (decode_lax (encoding x ++ rest) ≡ some (x, k)) × (length (encoding x) ≡ suc k)

decode-encoding_0 : (x : ℕ) (rest : List ℕ) → x < 0x80 → ReadsBack x rest 0
unfolding encoding
decode-encoding_0 x rest hi = let t0 : ltb x 0x80 ≡ true = ground arith in rw (t0, t0) (refl, refl)

decode-encoding_1 : (x : ℕ) (rest : List ℕ) → 0x80 ≤ x → x < 0x800 → ReadsBack x rest 1
unfolding encoding
decode-encoding_1 x rest lo hi =
    let whole : x % 64 + 0 * 64 + x / 64 * 2 ^ 6 ≡ x = omega arith in
    let in_range : (ltb max_utf x || ltb x 0x80) ≡ false = ground arith in
    let t0 : ltb x 0x80 ≡ false = ground arith in
    let t1 : ltb x 0x800 ≡ true = ground arith in
    rw (t0, t1)
      (decode_1 rest (x / 64) (x % 64) (omega arith) (omega arith) ∙ rw (whole, in_range), refl)

decode-encoding_2 : (x : ℕ) (rest : List ℕ) → 0x800 ≤ x → x < 0x10000 → ReadsBack x rest 2
unfolding encoding
decode-encoding_2 x rest lo hi =
    let whole : x % 64 + (x / 64 % 64 + 0 * 64) * 64 + x / 64 / 64 * 2 ^ 12 ≡ x = omega arith in
    let in_range : (ltb max_utf x || ltb x 0x800) ≡ false = ground arith in
    let t0 : ltb x 0x80 ≡ false = ground arith in
    let t1 : ltb x 0x800 ≡ false = ground arith in
    let t2 : ltb x 0x10000 ≡ true = ground arith in
    rw (t0, t1, t2)
      (
        decode_2 rest (x / 64 / 64) (x / 64 % 64) (x % 64) (omega arith) (omega arith) (omega arith)
            ∙ rw (whole, in_range),
        refl,
      )

decode-encoding_3 : (x : ℕ) (rest : List ℕ) → 0x10000 ≤ x → x < 0x200000 → ReadsBack x rest 3
unfolding encoding
decode-encoding_3 x rest lo hi =
    let whole : x % 64
          + (x / 64 % 64 + (x / 64 / 64 % 64 + 0 * 64) * 64) * 64
          + x / 64 / 64 / 64 * 2 ^ 18
        ≡ x =
      omega arith in
    let in_range : (ltb max_utf x || ltb x 0x10000) ≡ false = ground arith in
    let t0 : ltb x 0x80 ≡ false = ground arith in
    let t1 : ltb x 0x800 ≡ false = ground arith in
    let t2 : ltb x 0x10000 ≡ false = ground arith in
    let t3 : ltb x 0x200000 ≡ true = ground arith in
    rw (t0, t1, t2, t3)
      (
        decode_3 rest (x / 64 / 64 / 64) (x / 64 / 64 % 64) (x / 64 % 64) (x % 64) (omega arith)
              (omega arith) (omega arith) (omega arith)
            ∙ rw (whole, in_range),
        refl,
      )

decode-encoding_4 : (x : ℕ) (rest : List ℕ) → 0x200000 ≤ x → x < 0x4000000 → ReadsBack x rest 4
unfolding encoding
decode-encoding_4 x rest lo hi =
    let whole : x % 64
          + (x / 64 % 64 + (x / 64 / 64 % 64 + (x / 64 / 64 / 64 % 64 + 0 * 64) * 64) * 64) * 64
          + x / 64 / 64 / 64 / 64 * 2 ^ 24
        ≡ x =
      omega arith in
    let in_range : (ltb max_utf x || ltb x 0x200000) ≡ false = ground arith in
    let t0 : ltb x 0x80 ≡ false = ground arith in
    let t1 : ltb x 0x800 ≡ false = ground arith in
    let t2 : ltb x 0x10000 ≡ false = ground arith in
    let t3 : ltb x 0x200000 ≡ false = ground arith in
    let t4 : ltb x 0x4000000 ≡ true = ground arith in
    rw (t0, t1, t2, t3, t4)
      (
        decode_4 rest (x / 64 / 64 / 64 / 64) (x / 64 / 64 / 64 % 64) (x / 64 / 64 % 64)
              (x / 64 % 64) (x % 64) (omega arith) (omega arith) (omega arith) (omega arith)
              (omega arith)
            ∙ rw (whole, in_range),
        refl,
      )

decode-encoding_5 : (x : ℕ) (rest : List ℕ) → 0x4000000 ≤ x → x < 0x80000000 → ReadsBack x rest 5
unfolding encoding
decode-encoding_5 x rest lo hi =
    let whole : x % 64
          + (x / 64 % 64
              + (x / 64 / 64 % 64
                  + (x / 64 / 64 / 64 % 64 + (x / 64 / 64 / 64 / 64 % 64 + 0 * 64) * 64) * 64)
                * 64)
            * 64
          + x / 64 / 64 / 64 / 64 / 64 * 2 ^ 30
        ≡ x =
      omega arith in
    let in_range : (ltb max_utf x || ltb x 0x4000000) ≡ false = ground arith in
    let t0 : ltb x 0x80 ≡ false = ground arith in
    let t1 : ltb x 0x800 ≡ false = ground arith in
    let t2 : ltb x 0x10000 ≡ false = ground arith in
    let t3 : ltb x 0x200000 ≡ false = ground arith in
    let t4 : ltb x 0x4000000 ≡ false = ground arith in
    rw (t0, t1, t2, t3, t4)
      (
        decode_5 rest (x / 64 / 64 / 64 / 64 / 64) (x / 64 / 64 / 64 / 64 % 64)
              (x / 64 / 64 / 64 % 64) (x / 64 / 64 % 64) (x / 64 % 64) (x % 64) (omega arith)
              (omega arith) (omega arith) (omega arith) (omega arith) (omega arith)
            ∙ rw (whole, in_range),
        refl,
      )

decode-encoding : (x : ℕ) (rest : List ℕ) → x ≤ max_utf → (k : ℕ) × (k < 6) × ReadsBack x rest k
decode-encoding x rest h = elim (dec_lt x 0x80) [
  | yes a ↦ (0, omega arith, decode-encoding_0 x rest a)
  | no a ↦ elim (dec_lt x 0x800) [
    | yes b ↦ (1, omega arith, decode-encoding_1 x rest (omega arith) b)
    | no b ↦ elim (dec_lt x 0x10000) [
      | yes c ↦ (2, omega arith, decode-encoding_2 x rest (omega arith) c)
      | no c ↦ elim (dec_lt x 0x200000) [
        | yes d ↦ (3, omega arith, decode-encoding_3 x rest (omega arith) d)
        | no d ↦ elim (dec_lt x 0x4000000) [
          | yes e ↦ (4, omega arith, decode-encoding_4 x rest (omega arith) e)
          | no e ↦ (5, omega arith, decode-encoding_5 x rest (omega arith) (omega arith))
        ]
      ]
    ]
  ]
]

-- The code points that strict decoding refuses: surrogates and values past the last code point.
abbrev pub is_scalar : ℕ → Bool
is_scalar x = leb x max_unicode && (ltb x 0xd800 || ltb 0xdfff x)

-- Every value up to 2 ^ 31 - 1 has an encoding, of one to six bytes. Whatever follows it, lax
-- decoding gives the value and its length back, and strict decoding does so exactly for a scalar
-- value.
pub decode-encode :
    (x : ℕ) (rest : List ℕ)
    → x ≤ max_utf
    → (bytes : List ℕ) × (encode x ≡ some bytes)
      × (1 ≤ length bytes)
      × (length bytes ≤ 6)
      × (decode (bytes ++ rest) false ≡ some (x, length bytes))
      × (decode (bytes ++ rest) true ≡ (if is_scalar x then some (x, length bytes) else none))
unfolding decode
decode-encode x rest h =
    let (k, small, back) = decode-encoding x rest h in
    (
      encoding x,
      encode-encoding x h,
      omega (arith, back.1),
      omega (arith, back.1),
      rw (back.0, back.1) (ground arith),
      rw (back.0, back.1) (ground arith),
    )
