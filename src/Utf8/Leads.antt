-- ===== src/Utf8/Leads.antt =====
-- `Decode` on a sequence of two to four bytes: it is the one that `Encode` writes for its value.
use luart.Prelude.{
  ℕ, suc, ◌+◌, ◌*◌, ◌/◌, ◌%◌, ◌^◌, ◌≤◌, ◌<◌, ◌≡◌, ◌∙◌, ap, sym, arith, true, false, ltb, some, none,
  List, [], ◌∷◌, ◌++◌, length, Bool-cases, inl, inr, All, IsByte, Option-cases,
}
use luart.Prelude.Bits.{bit_and_field}
use luart.Utf8.{max_utf, decode_loop, is_continuation, decode_lax}
use luart.Utf8.Encoding.{encoding}
use luart.Utf8.Decoding.{decode_1, decode_2, decode_3, is_continuation_lem, decode_on, ranged_inv}

-- What follows a lead byte whose next bit is 1, where the loop succeeds, is a continuation byte.
-- `use` proves P from that byte.
pub decode_on_inv :
    {P : Type 0} (s : List ℕ) (c count res : ℕ) {t : ℕ × ℕ × ℕ}
    → All IsByte s
    → c / 64 % 2 ≡ 1
    → c < 2 ^ 31
    → res < 2 ^ 26
    → decode_loop s c count res ≡ some t
    → ((y : ℕ) (rest : List ℕ)
        → y < 64
        → s ≡ (128 + y) ∷ rest
        → All IsByte rest
        → decode_loop rest (c * 2) (count + 1) (y + res * 64) ≡ some t
        → P)
    → P
decode_on_inv [] c count res hs hc wide hr e then_ =
    unfold decode_loop in absurd (ground (arith, bit_and_field 6 1 c))
decode_on_inv (b ∷ rest) c count res (hb, hs) hc wide hr e then_ =
    elim (Bool-cases (is_continuation b)) [
      | inl cont ↦
          let byte : 128 + b % 64 ≡ b = ground (arith, is_continuation_lem b) in
          then_ (b % 64) rest (omega arith) (ap (λ (t : ℕ). t ∷ rest) (sym byte)) hs (
            sym (decode_on rest (b % 64) c count res (omega arith) hc wide hr)
            ∙ ap (λ (t : ℕ). decode_loop (t ∷ rest) c count res) byte
            ∙ e)
      | inr other ↦ absurd (unfold decode_loop in ground (arith, bit_and_field 6 1 c))
    ]

-- c ∷ s begins with the encoding of x, which has k bytes after the first.
unfoldable pub Canonical : List ℕ → ℕ → ℕ → Type 0
Canonical s x k =
    (x ≤ max_utf) × (length (encoding x) ≡ suc k) × (rest : List ℕ) × (s ≡ encoding x ++ rest)

encoding_1 :
    (rest : List ℕ) (h y1 v : ℕ)
    → h < 2 ^ 5
    → y1 < 64
    → y1 + 0 * 64 + h * 2 ^ 6 ≡ v
    → 0x80 ≤ v
    → Canonical ((0xc0 + h) ∷ (128 + y1) ∷ rest) v 1
unfolding encoding Canonical
encoding_1 rest h y1 v hh h1 e lo =
    let lead : v / 64 ≡ h = omega arith in
    let c1 : v % 64 ≡ y1 = omega arith in
    let t0 : ltb v 0x80 ≡ false = ground arith in
    let t1 : ltb v 0x800 ≡ true = ground arith in
    (omega arith, rw (t0, t1), rest, rw (t0, t1, lead, c1))

pub decode_lax-Canonical_1 :
    (s : List ℕ) (h : ℕ) {x n : ℕ}
    → h < 2 ^ 5
    → All IsByte s
    → decode_lax ((0xc0 + h) ∷ s) ≡ some (x, n)
    → Canonical ((0xc0 + h) ∷ s) x n
decode_lax-Canonical_1 s h {x} {n} hh hs e = elim (Option-cases (decode_loop s (0xc0 + h) 0 0)) [
  | inl stuck ↦ absurd (refused stuck)
  | inr (t, ok) ↦
      decode_on_inv s ((0xc0 + h)) (0) (0) hs (omega arith) (omega arith) (omega arith) ok
        λ y1 r1 h1 e1 b1 l1.
          let whole : s ≡ (128 + y1) ∷ r1 = e1 in
          let (ev, en, lo, hi) = ranged_inv 0x80 (y1 + 0 * 64 + h * 2 ^ 6) 1 (
            sym (decode_1 r1 h y1 hh h1)
            ∙ ap (λ (t : List ℕ). decode_lax ((0xc0 + h) ∷ t)) (sym whole)
            ∙ e) in
          rw (whole, en) (encoding_1 r1 h y1 x hh h1 ev (omega arith))
]
  where
    refused : decode_loop s (0xc0 + h) 0 0 ≡ none → ⊥
    refused stuck = ground arith

encoding_2 :
    (rest : List ℕ) (h y1 y2 v : ℕ)
    → h < 2 ^ 4
    → y1 < 64
    → y2 < 64
    → y2 + (y1 + 0 * 64) * 64 + h * 2 ^ 12 ≡ v
    → 0x800 ≤ v
    → Canonical ((0xe0 + h) ∷ (128 + y1) ∷ (128 + y2) ∷ rest) v 2
unfolding encoding Canonical
encoding_2 rest h y1 y2 v hh h1 h2 e lo =
    let lead : v / 64 / 64 ≡ h = omega arith in
    let c1 : v / 64 % 64 ≡ y1 = omega arith in
    let c2 : v % 64 ≡ y2 = omega arith in
    let t0 : ltb v 0x80 ≡ false = ground arith in
    let t1 : ltb v 0x800 ≡ false = ground arith in
    let t2 : ltb v 0x10000 ≡ true = ground arith in
    (omega arith, rw (t0, t1, t2), rest, rw (t0, t1, t2, lead, c1, c2))

pub decode_lax-Canonical_2 :
    (s : List ℕ) (h : ℕ) {x n : ℕ}
    → h < 2 ^ 4
    → All IsByte s
    → decode_lax ((0xe0 + h) ∷ s) ≡ some (x, n)
    → Canonical ((0xe0 + h) ∷ s) x n
decode_lax-Canonical_2 s h {x} {n} hh hs e = elim (Option-cases (decode_loop s (0xe0 + h) 0 0)) [
  | inl stuck ↦ absurd (refused stuck)
  | inr (t, ok) ↦
      decode_on_inv s ((0xe0 + h)) (0) (0) hs (omega arith) (omega arith) (omega arith) ok
        λ y1 r1 h1 e1 b1 l1.
          decode_on_inv r1 ((0xe0 + h) * 2) (0 + 1) (y1 + 0 * 64) b1 (omega arith) (omega arith)
            (omega arith) l1
            λ y2 r2 h2 e2 b2 l2.
              let whole : s ≡ (128 + y1) ∷ (128 + y2) ∷ r2 =
                e1 ∙ ap (λ (t : List ℕ). (128 + y1) ∷ t) e2 in
              let (ev, en, lo, hi) = ranged_inv 0x800 (y2 + (y1 + 0 * 64) * 64 + h * 2 ^ 12) 2 (
                sym (decode_2 r2 h y1 y2 hh h1 h2)
                ∙ ap (λ (t : List ℕ). decode_lax ((0xe0 + h) ∷ t)) (sym whole)
                ∙ e) in
              rw (whole, en) (encoding_2 r2 h y1 y2 x hh h1 h2 ev (omega arith))
]
  where
    refused : decode_loop s (0xe0 + h) 0 0 ≡ none → ⊥
    refused stuck = ground arith

encoding_3 :
    (rest : List ℕ) (h y1 y2 y3 v : ℕ)
    → h < 2 ^ 3
    → y1 < 64
    → y2 < 64
    → y3 < 64
    → y3 + (y2 + (y1 + 0 * 64) * 64) * 64 + h * 2 ^ 18 ≡ v
    → 0x10000 ≤ v
    → Canonical ((0xf0 + h) ∷ (128 + y1) ∷ (128 + y2) ∷ (128 + y3) ∷ rest) v 3
unfolding encoding Canonical
encoding_3 rest h y1 y2 y3 v hh h1 h2 h3 e lo =
    let lead : v / 64 / 64 / 64 ≡ h = omega arith in
    let c1 : v / 64 / 64 % 64 ≡ y1 = omega arith in
    let c2 : v / 64 % 64 ≡ y2 = omega arith in
    let c3 : v % 64 ≡ y3 = omega arith in
    let t0 : ltb v 0x80 ≡ false = ground arith in
    let t1 : ltb v 0x800 ≡ false = ground arith in
    let t2 : ltb v 0x10000 ≡ false = ground arith in
    let t3 : ltb v 0x200000 ≡ true = ground arith in
    (omega arith, rw (t0, t1, t2, t3), rest, rw (t0, t1, t2, t3, lead, c1, c2, c3))

pub decode_lax-Canonical_3 :
    (s : List ℕ) (h : ℕ) {x n : ℕ}
    → h < 2 ^ 3
    → All IsByte s
    → decode_lax ((0xf0 + h) ∷ s) ≡ some (x, n)
    → Canonical ((0xf0 + h) ∷ s) x n
decode_lax-Canonical_3 s h {x} {n} hh hs e = elim (Option-cases (decode_loop s (0xf0 + h) 0 0)) [
  | inl stuck ↦ absurd (refused stuck)
  | inr (t, ok) ↦
      decode_on_inv s ((0xf0 + h)) (0) (0) hs (omega arith) (omega arith) (omega arith) ok
        λ y1 r1 h1 e1 b1 l1.
          decode_on_inv r1 ((0xf0 + h) * 2) (0 + 1) (y1 + 0 * 64) b1 (omega arith) (omega arith)
            (omega arith) l1
            λ y2 r2 h2 e2 b2 l2.
              decode_on_inv r2 ((0xf0 + h) * 2 * 2) (0 + 1 + 1) (y2 + (y1 + 0 * 64) * 64) b2
                (omega arith) (omega arith) (omega arith) l2
                λ y3 r3 h3 e3 b3 l3.
                  let whole : s ≡ (128 + y1) ∷ (128 + y2) ∷ (128 + y3) ∷ r3 =
                    e1
                    ∙ ap (λ (t : List ℕ). (128 + y1) ∷ t) e2
                    ∙ ap (λ (t : List ℕ). (128 + y1) ∷ (128 + y2) ∷ t) e3 in
                  let (ev, en, lo, hi) =
                    ranged_inv 0x10000 (y3 + (y2 + (y1 + 0 * 64) * 64) * 64 + h * 2 ^ 18) 3 (
                      sym (decode_3 r3 h y1 y2 y3 hh h1 h2 h3)
                      ∙ ap (λ (t : List ℕ). decode_lax ((0xf0 + h) ∷ t)) (sym whole)
                      ∙ e) in
                  rw (whole, en) (encoding_3 r3 h y1 y2 y3 x hh h1 h2 h3 ev (omega arith))
]
  where
    refused : decode_loop s (0xf0 + h) 0 0 ≡ none → ⊥
    refused stuck = ground arith
