-- ===== src/Utf8/LongLeads.antt =====
-- The same for a sequence of five or six bytes, and for one of a single byte.
use luart.Prelude.{
  ℕ, ◌+◌, ◌*◌, ◌/◌, ◌%◌, ◌^◌, ◌≤◌, ◌<◌, ◌≡◌, ◌∙◌, ap, refl, sym, arith, true, false, ltb, Option,
  some, none, List, ◌∷◌, inl, inr, All, IsByte, Option-cases,
}
use luart.Utf8.{decode_loop, decode_lax}
use luart.Utf8.Encoding.{encoding}
use luart.Utf8.Decoding.{decode_4, decode_5, ranged_inv}
use luart.Utf8.Leads.{Canonical, decode_on_inv}

encoding_4 :
    (rest : List ℕ) (h y1 y2 y3 y4 v : ℕ)
    → h < 2 ^ 2
    → y1 < 64
    → y2 < 64
    → y3 < 64
    → y4 < 64
    → y4 + (y3 + (y2 + (y1 + 0 * 64) * 64) * 64) * 64 + h * 2 ^ 24 ≡ v
    → 0x200000 ≤ v
    → Canonical ((0xf8 + h) ∷ (128 + y1) ∷ (128 + y2) ∷ (128 + y3) ∷ (128 + y4) ∷ rest) v 4
unfolding encoding Canonical
encoding_4 rest h y1 y2 y3 y4 v hh h1 h2 h3 h4 e lo =
    let lead : v / 64 / 64 / 64 / 64 ≡ h = omega arith in
    let c1 : v / 64 / 64 / 64 % 64 ≡ y1 = omega arith in
    let c2 : v / 64 / 64 % 64 ≡ y2 = omega arith in
    let c3 : v / 64 % 64 ≡ y3 = omega arith in
    let c4 : v % 64 ≡ y4 = omega arith in
    let t0 : ltb v 0x80 ≡ false = ground arith in
    let t1 : ltb v 0x800 ≡ false = ground arith in
    let t2 : ltb v 0x10000 ≡ false = ground arith in
    let t3 : ltb v 0x200000 ≡ false = ground arith in
    let t4 : ltb v 0x4000000 ≡ true = ground arith in
    (omega arith, rw (t0, t1, t2, t3, t4), rest, rw (t0, t1, t2, t3, t4, lead, c1, c2, c3, c4))

pub decode_lax-Canonical_4 :
    (s : List ℕ) (h : ℕ) {x n : ℕ}
    → h < 2 ^ 2
    → All IsByte s
    → decode_lax ((0xf8 + h) ∷ s) ≡ some (x, n)
    → Canonical ((0xf8 + h) ∷ s) x n
decode_lax-Canonical_4 s h {x} {n} hh hs e = elim (Option-cases (decode_loop s (0xf8 + h) 0 0)) [
  | inl stuck ↦ absurd (refused stuck)
  | inr (t, ok) ↦
      decode_on_inv s ((0xf8 + h)) (0) (0) hs (omega arith) (omega arith) (omega arith) ok
        λ y1 r1 h1 e1 b1 l1.
          decode_on_inv r1 ((0xf8 + h) * 2) (0 + 1) (y1 + 0 * 64) b1 (omega arith) (omega arith)
            (omega arith) l1
            λ y2 r2 h2 e2 b2 l2.
              decode_on_inv r2 ((0xf8 + h) * 2 * 2) (0 + 1 + 1) (y2 + (y1 + 0 * 64) * 64) b2
                (omega arith) (omega arith) (omega arith) l2
                λ y3 r3 h3 e3 b3 l3.
                  decode_on_inv r3 ((0xf8 + h) * 2 * 2 * 2) (0 + 1 + 1 + 1)
                    (y3 + (y2 + (y1 + 0 * 64) * 64) * 64) b3 (omega arith) (omega arith)
                    (omega arith) l3
                    λ y4 r4 h4 e4 b4 l4.
                      let whole : s ≡ (128 + y1) ∷ (128 + y2) ∷ (128 + y3) ∷ (128 + y4) ∷ r4 =
                        e1
                        ∙ ap (λ (t : List ℕ). (128 + y1) ∷ t) e2
                        ∙ ap (λ (t : List ℕ). (128 + y1) ∷ (128 + y2) ∷ t) e3
                        ∙ ap (λ (t : List ℕ). (128 + y1) ∷ (128 + y2) ∷ (128 + y3) ∷ t) e4 in
                      let (ev, en, lo, hi) =
                        ranged_inv 0x200000
                          (y4 + (y3 + (y2 + (y1 + 0 * 64) * 64) * 64) * 64 + h * 2 ^ 24) 4
                          (sym (decode_4 r4 h y1 y2 y3 y4 hh h1 h2 h3 h4)
                            ∙ ap (λ (t : List ℕ). decode_lax ((0xf8 + h) ∷ t)) (sym whole)
                            ∙ e) in
                      rw (whole, en) (encoding_4 r4 h y1 y2 y3 y4 x hh h1 h2 h3 h4 ev (omega arith))
]
  where
    refused : decode_loop s (0xf8 + h) 0 0 ≡ none → ⊥
    refused stuck = ground arith

encoding_5 :
    (rest : List ℕ) (h y1 y2 y3 y4 y5 v : ℕ)
    → h < 2 ^ 1
    → y1 < 64
    → y2 < 64
    → y3 < 64
    → y4 < 64
    → y5 < 64
    → y5 + (y4 + (y3 + (y2 + (y1 + 0 * 64) * 64) * 64) * 64) * 64 + h * 2 ^ 30 ≡ v
    → 0x4000000 ≤ v
    → Canonical
        ((0xfc + h) ∷ (128 + y1) ∷ (128 + y2) ∷ (128 + y3) ∷ (128 + y4) ∷ (128 + y5) ∷ rest)
        v
        5
unfolding encoding Canonical
encoding_5 rest h y1 y2 y3 y4 y5 v hh h1 h2 h3 h4 h5 e lo =
    let lead : v / 64 / 64 / 64 / 64 / 64 ≡ h = omega arith in
    let c1 : v / 64 / 64 / 64 / 64 % 64 ≡ y1 = omega arith in
    let c2 : v / 64 / 64 / 64 % 64 ≡ y2 = omega arith in
    let c3 : v / 64 / 64 % 64 ≡ y3 = omega arith in
    let c4 : v / 64 % 64 ≡ y4 = omega arith in
    let c5 : v % 64 ≡ y5 = omega arith in
    let t0 : ltb v 0x80 ≡ false = ground arith in
    let t1 : ltb v 0x800 ≡ false = ground arith in
    let t2 : ltb v 0x10000 ≡ false = ground arith in
    let t3 : ltb v 0x200000 ≡ false = ground arith in
    let t4 : ltb v 0x4000000 ≡ false = ground arith in
    (omega arith, rw (t0, t1, t2, t3, t4), rest, rw (t0, t1, t2, t3, t4, lead, c1, c2, c3, c4, c5))

pub decode_lax-Canonical_5 :
    (s : List ℕ) (h : ℕ) {x n : ℕ}
    → h < 2 ^ 1
    → All IsByte s
    → decode_lax ((0xfc + h) ∷ s) ≡ some (x, n)
    → Canonical ((0xfc + h) ∷ s) x n
decode_lax-Canonical_5 s h {x} {n} hh hs e = elim (Option-cases (decode_loop s (0xfc + h) 0 0)) [
  | inl stuck ↦ absurd (refused stuck)
  | inr (t, ok) ↦
      decode_on_inv s ((0xfc + h)) (0) (0) hs (omega arith) (omega arith) (omega arith) ok
        λ y1 r1 h1 e1 b1 l1.
          decode_on_inv r1 ((0xfc + h) * 2) (0 + 1) (y1 + 0 * 64) b1 (omega arith) (omega arith)
            (omega arith) l1
            λ y2 r2 h2 e2 b2 l2.
              decode_on_inv r2 ((0xfc + h) * 2 * 2) (0 + 1 + 1) (y2 + (y1 + 0 * 64) * 64) b2
                (omega arith) (omega arith) (omega arith) l2
                λ y3 r3 h3 e3 b3 l3.
                  decode_on_inv r3 ((0xfc + h) * 2 * 2 * 2) (0 + 1 + 1 + 1)
                    (y3 + (y2 + (y1 + 0 * 64) * 64) * 64) b3 (omega arith) (omega arith)
                    (omega arith) l3
                    λ y4 r4 h4 e4 b4 l4.
                      decode_on_inv r4 ((0xfc + h) * 2 * 2 * 2 * 2) (0 + 1 + 1 + 1 + 1)
                        (y4 + (y3 + (y2 + (y1 + 0 * 64) * 64) * 64) * 64) b4 (omega arith)
                        (omega arith) (omega arith) l4
                        λ y5 r5 h5 e5 b5 l5.
                          let whole : s
                              ≡ (128 + y1)
                                ∷ (128 + y2)
                                ∷ (128 + y3)
                                ∷ (128 + y4)
                                ∷ (128 + y5)
                                ∷ r5 =
                            e1
                            ∙ ap (λ (t : List ℕ). (128 + y1) ∷ t) e2
                            ∙ ap (λ (t : List ℕ). (128 + y1) ∷ (128 + y2) ∷ t) e3
                            ∙ ap (λ (t : List ℕ). (128 + y1) ∷ (128 + y2) ∷ (128 + y3) ∷ t) e4
                            ∙ ap
                                (λ (t : List ℕ).
                                  (128 + y1) ∷ (128 + y2) ∷ (128 + y3) ∷ (128 + y4) ∷ t)
                                e5 in
                          let (ev, en, lo, hi) =
                            ranged_inv 0x4000000
                              (y5
                                + (y4 + (y3 + (y2 + (y1 + 0 * 64) * 64) * 64) * 64) * 64
                                + h * 2 ^ 30)
                              5
                              (sym (decode_5 r5 h y1 y2 y3 y4 y5 hh h1 h2 h3 h4 h5)
                                ∙ ap (λ (t : List ℕ). decode_lax ((0xfc + h) ∷ t)) (sym whole)
                                ∙ e) in
                          rw (whole, en)
                            (encoding_5 r5 h y1 y2 y3 y4 y5 x hh h1 h2 h3 h4 h5 ev (omega arith))
]
  where
    refused : decode_loop s (0xfc + h) 0 0 ≡ none → ⊥
    refused stuck = ground arith

pub decode_lax-Canonical_0 :
    (s : List ℕ) (c : ℕ) {x n : ℕ}
    → c < 0x80
    → decode_lax (c ∷ s) ≡ some (x, n)
    → Canonical (c ∷ s) x n
unfolding encoding Canonical
decode_lax-Canonical_0 s c {x} {n} h e =
    let (ex, en) = same_pair (sym (rw small refl) ∙ e) in
    rw (← ex, ← en, small) (omega arith, refl, s, refl)
  where
    small : ltb c 0x80 ≡ true
    small = ground arith

    same_pair : ◌≡◌ {A = Option (ℕ × ℕ)} (some (c, 0)) (some (x, n)) → (c ≡ x) × (0 ≡ n)
    same_pair p = ground arith
