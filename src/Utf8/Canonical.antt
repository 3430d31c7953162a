-- ===== src/Utf8/Canonical.antt =====
-- Every sequence that `Decode` accepts is the one that `Encode` writes for its value.
use luart.Prelude.{
  ℕ, ◌+◌, ◌-◌, ◌*◌, ◌%◌, ◌^◌, ◌≤◌, ◌<◌, ◌≡◌, arith, Bool, false, not, ◌&&◌, Option, some, none,
  List, [], ◌∷◌, ◌++◌, bit_and, length, inl, inr, ◌⊎◌, All, IsByte, dec_lt,
}
use luart.Prelude.Bits.{bit_and_mask, zero-bit_or}
use luart.Utf8.{max_utf, encode, decode, finish, decode_lax, below_limit}
use luart.Utf8.Encoding.{encoding, encode-encoding}
use luart.Utf8.RoundTrip.{is_scalar}
use luart.Utf8.Decoding.{decode_stop}
use luart.Utf8.Leads.{
  Canonical, decode_lax-Canonical_1, decode_lax-Canonical_2, decode_lax-Canonical_3,
}
use luart.Utf8.LongLeads.{decode_lax-Canonical_4, decode_lax-Canonical_5, decode_lax-Canonical_0}

-- A continuation byte cannot begin a sequence, nor can 0xfe or 0xff.
no_lead :
    (s : List ℕ) (c : ℕ) {p : ℕ × ℕ}
    → 0x80 ≤ c
    → c < 0xc0 ⊎ 0xfe ≤ c
    → c < 256
    → decode_lax (c ∷ s) ≡ some p
    → ⊥
unfolding below_limit
no_lead s c lo (inl hi) hb e = ground (
  arith,
  decode_stop s c 0 0,
  bit_and_mask 7 c,
  zero-bit_or (bit_and c 0x7f * 2 ^ (0 * 5) % 2 ^ 32),
)
no_lead s c lo (inr hi) hb e = ground arith

decode_lax-Canonical :
    (s : List ℕ) (c : ℕ) {x n : ℕ}
    → All IsByte (c ∷ s)
    → decode_lax (c ∷ s) ≡ some (x, n)
    → Canonical (c ∷ s) x n
decode_lax-Canonical s c {x} {n} (hc, hs) e = elim (dec_lt c 0x80) [
  | yes a ↦ decode_lax-Canonical_0 s c a e
  | no a ↦ elim (dec_lt c 0xc0) [
    | yes b ↦ absurd (no_lead s c (omega arith) (inl b) hc e)
    | no b ↦ elim (dec_lt c 0xe0) [
      | yes d ↦ lead 0xc0 (omega arith) (λ h. decode_lax-Canonical_1 s h) (omega arith)
      | no d ↦ elim (dec_lt c 0xf0) [
        | yes f ↦ lead 0xe0 (omega arith) (λ h. decode_lax-Canonical_2 s h) (omega arith)
        | no f ↦ elim (dec_lt c 0xf8) [
          | yes g ↦ lead 0xf0 (omega arith) (λ h. decode_lax-Canonical_3 s h) (omega arith)
          | no g ↦ elim (dec_lt c 0xfc) [
            | yes i ↦ lead 0xf8 (omega arith) (λ h. decode_lax-Canonical_4 s h) (omega arith)
            | no i ↦ elim (dec_lt c 0xfe) [
              | yes j ↦ lead 0xfc (omega arith) (λ h. decode_lax-Canonical_5 s h) (omega arith)
              | no j ↦ absurd (no_lead s c (omega arith) (inr (omega arith)) hc e)
            ]
          ]
        ]
      ]
    ]
  ]
]
  where
    lead :
        {k : ℕ} (l : ℕ)
        → l ≤ c
        → ((h : ℕ)
            → h < k
            → All IsByte s
            → decode_lax ((l + h) ∷ s) ≡ some (x, n)
            → Canonical ((l + h) ∷ s) x n)
        → c - l < k
        → Canonical (c ∷ s) x n
    lead l le apply small =
        let whole : l + (c - l) ≡ c = omega arith in
        rw whole at (apply (c - l) small hs (rw whole e))

finish_inv :
    (strict : Bool) (o : Option (ℕ × ℕ)) {x n : ℕ}
    → finish strict o ≡ some (x, n)
    → (k : ℕ) × (o ≡ some (x, k)) × (n ≡ k + 1) × ((strict && not (is_scalar x)) ≡ false)
finish_inv strict none e = absurd (ground arith)
finish_inv strict (some (y, k)) e = (k, ground arith, ground arith, ground arith)

-- Whatever bytes `Decode` accepts, strictly or not: the value is at most 2 ^ 31 - 1, and a scalar
-- value if decoding is strict; the bytes begin with the very sequence that `Encode` writes for
-- the value, and the size is its length. No other sequence, an overlong one say, is accepted.
pub decode-canonical :
    (s : List ℕ) (strict : Bool) (x n : ℕ)
    → All IsByte s
    → decode s strict ≡ some (x, n)
    → (x ≤ max_utf)
      × ((strict && not (is_scalar x)) ≡ false)
      × (bytes : List ℕ) × (rest : List ℕ) × (encode x ≡ some bytes)
      × (s ≡ bytes ++ rest)
      × (n ≡ length bytes)
unfolding decode Canonical
decode-canonical [] strict x n hs e = absurd (ground arith)
decode-canonical (c ∷ s) strict x n hs e =
    let (k, ek, en, scalar) = finish_inv strict (decode_lax (c ∷ s)) e in
    let (small, size, rest, whole) = decode_lax-Canonical s c hs ek in
    (small, scalar, encoding x, rest, encode-encoding x small, whole, omega arith)
