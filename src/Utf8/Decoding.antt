-- ===== src/Utf8/Decoding.antt =====
-- What `Decode` reads from a lead byte and the continuation bytes that it announces.
use luart.Prelude.{
  ℕ, ◌+◌, ◌*◌, ◌/◌, ◌%◌, ◌^◌, ◌≤◌, ◌<◌, ◌≡◌, ◌∙◌, ap, ap₂, refl, arith, true, false, ◌||◌, ◌==◌,
  ltb, leb, if◌then◌else◌, Option, some, none, List, [], ◌∷◌, bit_and, bit_or,
}
use luart.Prelude.Bits.{bit_and_mask, bit_or_add, bit_or_add_left, bit_and_field}
use luart.Utf8.{max_utf, decode_loop, is_continuation, decode_lax, below_limit}

pub is_continuation_lem : (b : ℕ) → is_continuation b ≡ (b / 64 % 4 * 64 == 0x80)
unfolding is_continuation
is_continuation_lem b = ap (λ (t : ℕ). t == 0x80) (bit_and_field 6 2 b)

-- One round of the loop on a continuation byte, and the end of the loop at a lead byte whose
-- run of ones is over.
pub decode_on :
    (rest : List ℕ) (y c count res : ℕ)
    → y < 64
    → c / 64 % 2 ≡ 1
    → c < 2 ^ 31
    → res < 2 ^ 26
    → decode_loop ((128 + y) ∷ rest) c count res
      ≡ decode_loop rest (c * 2) (count + 1) (y + res * 64)
unfolding decode_loop
decode_on rest y c count res hy hc wide hr =
    let low_zero : res * 2 ^ 6 % 2 ^ 32 ≡ res * 2 ^ 6 = omega arith in
    let low_y : bit_and (128 + y) 0x3f ≡ y = omega (arith, bit_and_mask 6 (128 + y)) in
    let e : bit_or (res * 2 ^ 6 % 2 ^ 32) (bit_and (128 + y) 0x3f) ≡ y + res * 64 =
      ap₂ bit_or low_zero low_y ∙ bit_or_add_left 6 y res hy ∙ omega arith in
    let w : c * 2 % 2 ^ 32 ≡ c * 2 = omega arith in
    let test : (bit_and c 0x40 == 0) ≡ false = ground (arith, bit_and_field 6 1 c) in
    let cont : is_continuation (128 + y) ≡ true = is_continuation_lem (128 + y) ∙ ground arith in
    rw (e, w, test, cont)

pub decode_stop :
    (rest : List ℕ) (c count res : ℕ)
    → c / 64 % 2 ≡ 0
    → decode_loop rest c count res ≡ some (c, count, res)
unfolding decode_loop
decode_stop [] c count res h = ground (arith, bit_and_field 6 1 c)
decode_stop (b ∷ rest) c count res h = ground (arith, bit_and_field 6 1 c)

-- The lead byte's part of the value is joined to the bits of the continuation bytes.
join_lead :
    (c count res h j : ℕ)
    → res < 2 ^ j
    → c % 128 * 2 ^ (count * 5) % 2 ^ 32 ≡ h * 2 ^ j
    → bit_or res (bit_and c 0x7f * 2 ^ (count * 5) % 2 ^ 32) ≡ res + h * 2 ^ j
join_lead c count res h j hr e =
    ap (λ (t : ℕ). bit_or res (t * 2 ^ (count * 5) % 2 ^ 32)) (bit_and_mask 7 c)
    ∙ ap (bit_or res) e
    ∙ bit_or_add j res h hr

loop_1 :
    (rest : List ℕ) (h y1 : ℕ)
    → h < 2 ^ 5
    → y1 < 64
    → decode_loop ((128 + y1) ∷ rest) (0xc0 + h) 0 0 ≡ some ((0xc0 + h) * 2, 1, y1 + 0 * 64)
loop_1 rest h y1 hh h1 =
    decode_on (rest) y1 ((0xc0 + h)) (0) (0) h1 (omega arith) (omega arith) (omega arith)
    ∙ decode_stop rest ((0xc0 + h) * 2) (0 + 1) (y1 + 0 * 64) (omega arith)

loop_2 :
    (rest : List ℕ) (h y1 y2 : ℕ)
    → h < 2 ^ 4
    → y1 < 64
    → y2 < 64
    → decode_loop ((128 + y1) ∷ (128 + y2) ∷ rest) (0xe0 + h) 0 0
      ≡ some ((0xe0 + h) * 2 * 2, 2, y2 + (y1 + 0 * 64) * 64)
loop_2 rest h y1 y2 hh h1 h2 =
    decode_on ((128 + y2) ∷ rest) y1 ((0xe0 + h)) (0) (0) h1 (omega arith) (omega arith)
      (omega arith)
    ∙ decode_on (rest) y2 ((0xe0 + h) * 2) (0 + 1) (y1 + 0 * 64) h2 (omega arith) (omega arith)
        (omega arith)
    ∙ decode_stop rest ((0xe0 + h) * 2 * 2) (0 + 1 + 1) (y2 + (y1 + 0 * 64) * 64) (omega arith)

loop_3 :
    (rest : List ℕ) (h y1 y2 y3 : ℕ)
    → h < 2 ^ 3
    → y1 < 64
    → y2 < 64
    → y3 < 64
    → decode_loop ((128 + y1) ∷ (128 + y2) ∷ (128 + y3) ∷ rest) (0xf0 + h) 0 0
      ≡ some ((0xf0 + h) * 2 * 2 * 2, 3, y3 + (y2 + (y1 + 0 * 64) * 64) * 64)
loop_3 rest h y1 y2 y3 hh h1 h2 h3 =
    decode_on ((128 + y2) ∷ (128 + y3) ∷ rest) y1 ((0xf0 + h)) (0) (0) h1 (omega arith)
      (omega arith) (omega arith)
    ∙ decode_on ((128 + y3) ∷ rest) y2 ((0xf0 + h) * 2) (0 + 1) (y1 + 0 * 64) h2 (omega arith)
        (omega arith) (omega arith)
    ∙ decode_on (rest) y3 ((0xf0 + h) * 2 * 2) (0 + 1 + 1) (y2 + (y1 + 0 * 64) * 64) h3
        (omega arith) (omega arith) (omega arith)
    ∙ decode_stop rest ((0xf0 + h) * 2 * 2 * 2) (0 + 1 + 1 + 1)
        (y3 + (y2 + (y1 + 0 * 64) * 64) * 64) (omega arith)

loop_4 :
    (rest : List ℕ) (h y1 y2 y3 y4 : ℕ)
    → h < 2 ^ 2
    → y1 < 64
    → y2 < 64
    → y3 < 64
    → y4 < 64
    → decode_loop ((128 + y1) ∷ (128 + y2) ∷ (128 + y3) ∷ (128 + y4) ∷ rest) (0xf8 + h) 0 0
      ≡ some ((0xf8 + h) * 2 * 2 * 2 * 2, 4, y4 + (y3 + (y2 + (y1 + 0 * 64) * 64) * 64) * 64)
loop_4 rest h y1 y2 y3 y4 hh h1 h2 h3 h4 =
    decode_on ((128 + y2) ∷ (128 + y3) ∷ (128 + y4) ∷ rest) y1 ((0xf8 + h)) (0) (0) h1 (omega arith)
      (omega arith) (omega arith)
    ∙ decode_on ((128 + y3) ∷ (128 + y4) ∷ rest) y2 ((0xf8 + h) * 2) (0 + 1) (y1 + 0 * 64) h2
        (omega arith) (omega arith) (omega arith)
    ∙ decode_on ((128 + y4) ∷ rest) y3 ((0xf8 + h) * 2 * 2) (0 + 1 + 1) (y2 + (y1 + 0 * 64) * 64) h3
        (omega arith) (omega arith) (omega arith)
    ∙ decode_on (rest) y4 ((0xf8 + h) * 2 * 2 * 2) (0 + 1 + 1 + 1)
        (y3 + (y2 + (y1 + 0 * 64) * 64) * 64) h4 (omega arith) (omega arith) (omega arith)
    ∙ decode_stop rest ((0xf8 + h) * 2 * 2 * 2 * 2) (0 + 1 + 1 + 1 + 1)
        (y4 + (y3 + (y2 + (y1 + 0 * 64) * 64) * 64) * 64) (omega arith)

loop_5 :
    (rest : List ℕ) (h y1 y2 y3 y4 y5 : ℕ)
    → h < 2 ^ 1
    → y1 < 64
    → y2 < 64
    → y3 < 64
    → y4 < 64
    → y5 < 64
    → decode_loop
        ((128 + y1) ∷ (128 + y2) ∷ (128 + y3) ∷ (128 + y4) ∷ (128 + y5) ∷ rest)
        (0xfc + h)
        0
        0
      ≡ some (
        (0xfc + h) * 2 * 2 * 2 * 2 * 2,
        5,
        y5 + (y4 + (y3 + (y2 + (y1 + 0 * 64) * 64) * 64) * 64) * 64,
      )
loop_5 rest h y1 y2 y3 y4 y5 hh h1 h2 h3 h4 h5 =
    decode_on ((128 + y2) ∷ (128 + y3) ∷ (128 + y4) ∷ (128 + y5) ∷ rest) y1 ((0xfc + h)) (0) (0) h1
      (omega arith) (omega arith) (omega arith)
    ∙ decode_on ((128 + y3) ∷ (128 + y4) ∷ (128 + y5) ∷ rest) y2 ((0xfc + h) * 2) (0 + 1)
        (y1 + 0 * 64) h2 (omega arith) (omega arith) (omega arith)
    ∙ decode_on ((128 + y4) ∷ (128 + y5) ∷ rest) y3 ((0xfc + h) * 2 * 2) (0 + 1 + 1)
        (y2 + (y1 + 0 * 64) * 64) h3 (omega arith) (omega arith) (omega arith)
    ∙ decode_on ((128 + y5) ∷ rest) y4 ((0xfc + h) * 2 * 2 * 2) (0 + 1 + 1 + 1)
        (y3 + (y2 + (y1 + 0 * 64) * 64) * 64) h4 (omega arith) (omega arith) (omega arith)
    ∙ decode_on (rest) y5 ((0xfc + h) * 2 * 2 * 2 * 2) (0 + 1 + 1 + 1 + 1)
        (y4 + (y3 + (y2 + (y1 + 0 * 64) * 64) * 64) * 64) h5 (omega arith) (omega arith)
        (omega arith)
    ∙ decode_stop rest ((0xfc + h) * 2 * 2 * 2 * 2 * 2) (0 + 1 + 1 + 1 + 1 + 1)
        (y5 + (y4 + (y3 + (y2 + (y1 + 0 * 64) * 64) * 64) * 64) * 64) (omega arith)

-- The check of the value: at least the least value of its length, and at most the largest.
abbrev pub ranged : ℕ → ℕ → ℕ → Option (ℕ × ℕ)
ranged lo v k = if ltb max_utf v || ltb v lo then none else some (v, k)

pub ranged_inv :
    (lo v k : ℕ) {x n : ℕ}
    → ranged lo v k ≡ some (x, n)
    → (v ≡ x) × (n ≡ k) × (lo ≤ v) × (v ≤ max_utf)
ranged_inv lo v k e = ground arith

pub decode_1 :
    (rest : List ℕ) (h y1 : ℕ)
    → h < 2 ^ 5
    → y1 < 64
    → decode_lax ((0xc0 + h) ∷ (128 + y1) ∷ rest) ≡ ranged 0x80 (y1 + 0 * 64 + h * 2 ^ 6) 1
unfolding below_limit
decode_1 rest h y1 hh h1 =
    let small : ltb (0xc0 + h) 0x80 ≡ false = ground arith in
    let large : leb 0xfe (0xc0 + h) ≡ false = ground arith in
    let joined = join_lead ((0xc0 + h) * 2) 1 (y1 + 0 * 64) h 6 (omega arith) (omega arith) in
    rw (small, large, loop_1 rest h y1 hh h1) (rw joined refl)

pub decode_2 :
    (rest : List ℕ) (h y1 y2 : ℕ)
    → h < 2 ^ 4
    → y1 < 64
    → y2 < 64
    → decode_lax ((0xe0 + h) ∷ (128 + y1) ∷ (128 + y2) ∷ rest)
      ≡ ranged 0x800 (y2 + (y1 + 0 * 64) * 64 + h * 2 ^ 12) 2
unfolding below_limit
decode_2 rest h y1 y2 hh h1 h2 =
    let small : ltb (0xe0 + h) 0x80 ≡ false = ground arith in
    let large : leb 0xfe (0xe0 + h) ≡ false = ground arith in
    let joined =
      join_lead ((0xe0 + h) * 2 * 2) 2 (y2 + (y1 + 0 * 64) * 64) h 12 (omega arith) (omega arith) in
    rw (small, large, loop_2 rest h y1 y2 hh h1 h2) (rw joined refl)

pub decode_3 :
    (rest : List ℕ) (h y1 y2 y3 : ℕ)
    → h < 2 ^ 3
    → y1 < 64
    → y2 < 64
    → y3 < 64
    → decode_lax ((0xf0 + h) ∷ (128 + y1) ∷ (128 + y2) ∷ (128 + y3) ∷ rest)
      ≡ ranged 0x10000 (y3 + (y2 + (y1 + 0 * 64) * 64) * 64 + h * 2 ^ 18) 3
unfolding below_limit
decode_3 rest h y1 y2 y3 hh h1 h2 h3 =
    let small : ltb (0xf0 + h) 0x80 ≡ false = ground arith in
    let large : leb 0xfe (0xf0 + h) ≡ false = ground arith in
    let joined =
      join_lead ((0xf0 + h) * 2 * 2 * 2) 3 (y3 + (y2 + (y1 + 0 * 64) * 64) * 64) h 18 (omega arith)
        (omega arith) in
    rw (small, large, loop_3 rest h y1 y2 y3 hh h1 h2 h3) (rw joined refl)

pub decode_4 :
    (rest : List ℕ) (h y1 y2 y3 y4 : ℕ)
    → h < 2 ^ 2
    → y1 < 64
    → y2 < 64
    → y3 < 64
    → y4 < 64
    → decode_lax ((0xf8 + h) ∷ (128 + y1) ∷ (128 + y2) ∷ (128 + y3) ∷ (128 + y4) ∷ rest)
      ≡ ranged 0x200000 (y4 + (y3 + (y2 + (y1 + 0 * 64) * 64) * 64) * 64 + h * 2 ^ 24) 4
unfolding below_limit
decode_4 rest h y1 y2 y3 y4 hh h1 h2 h3 h4 =
    let small : ltb (0xf8 + h) 0x80 ≡ false = ground arith in
    let large : leb 0xfe (0xf8 + h) ≡ false = ground arith in
    let joined =
      join_lead ((0xf8 + h) * 2 * 2 * 2 * 2) 4 (y4 + (y3 + (y2 + (y1 + 0 * 64) * 64) * 64) * 64) h
        24 (omega arith) (omega arith) in
    rw (small, large, loop_4 rest h y1 y2 y3 y4 hh h1 h2 h3 h4) (rw joined refl)

pub decode_5 :
    (rest : List ℕ) (h y1 y2 y3 y4 y5 : ℕ)
    → h < 2 ^ 1
    → y1 < 64
    → y2 < 64
    → y3 < 64
    → y4 < 64
    → y5 < 64
    → decode_lax
        ((0xfc + h) ∷ (128 + y1) ∷ (128 + y2) ∷ (128 + y3) ∷ (128 + y4) ∷ (128 + y5) ∷ rest)
      ≡ ranged 0x4000000
          (y5 + (y4 + (y3 + (y2 + (y1 + 0 * 64) * 64) * 64) * 64) * 64 + h * 2 ^ 30)
          5
unfolding below_limit
decode_5 rest h y1 y2 y3 y4 y5 hh h1 h2 h3 h4 h5 =
    let small : ltb (0xfc + h) 0x80 ≡ false = ground arith in
    let large : leb 0xfe (0xfc + h) ≡ false = ground arith in
    let joined =
      join_lead ((0xfc + h) * 2 * 2 * 2 * 2 * 2) 5
        (y5 + (y4 + (y3 + (y2 + (y1 + 0 * 64) * 64) * 64) * 64) * 64) h 30 (omega arith)
        (omega arith) in
    rw (small, large, loop_5 rest h y1 y2 y3 y4 y5 hh h1 h2 h3 h4 h5) (rw joined refl)
