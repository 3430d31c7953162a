-- ===== src/Table/Search.antt =====
-- lua/tables.go: the searches of the length operator end at a border.
use luart.Prelude.{
  ℕ, zero, suc, ◌+◌, ◌-◌, ◌*◌, ◌/◌, ◌^◌, ◌≤◌, ◌<◌, ◌≡◌, ◌⊎◌, ◌∙◌, ap, ap₂, ltb, arith, inl, inr,
  Bool, true, false, Option, some, if◌then◌else◌, Bool-cases, if-true, if-false,
}
use luart.Prelude.Int.{ℤ, sub_ℕ, pos, ltb_ℤ, ◌+ℤ◌, ◌-ℤ◌}
use luart.Prelude.Word64.{wrap}
use native.Mathlib.Nat.{pow-succ'}
use luart.Table.{half, bisect, first_absent, double}

-- n is 0 or present, and the index after it is absent.
pub record Border (absent : ℤ → Bool) (n : ℕ) : Type 0 where
  pub present : (n ≡ 0) ⊎ (absent (pos n) ≡ false)
  pub after : absent (pos (suc n)) ≡ true

abbrev pub Found : (ℤ → Bool) → Option ℤ → Type 0
Found absent r = (n : ℕ) × (r ≡ some (pos n)) × Border absent n

abbrev pub FoundBelow : (ℤ → Bool) → ℕ → Option ℤ → Type 0
FoundBelow absent j r = (n : ℕ) × (r ≡ some (pos n)) × Border absent n × (n < j)

pub wrap_pos : (n : ℕ) → n < 2 ^ 63 → wrap (pos n) ≡ pos n
unfolding wrap
wrap_pos n h = ground arith

middle : (i j : ℕ) → i + j < 2 ^ 63 → half (wrap (pos i +ℤ pos j)) ≡ pos ((i + j) / 2)
unfolding half ◌+ℤ◌
middle i j h =
    let sum : sub_ℕ (i + j) 0 ≡ pos (i + j) = ground arith in
    ap (λ (z : ℤ). half (wrap z)) sum ∙ ap half (wrap_pos (i + j) h)

distance : (i j : ℕ) → i < j → j < 2 ^ 63 → wrap (pos j -ℤ pos i) ≡ pos (j - i)
unfolding ◌-ℤ◌
distance i j lt h = ap wrap (ground arith) ∙ wrap_pos (j - i) (omega arith)

-- One round of the loop, on indices whose sum does not overflow.
bisect_step :
    (absent : ℤ → Bool) (fuel i j : ℕ)
    → i < j
    → i + j < 2 ^ 63
    → bisect absent (suc fuel) (pos i) (pos j) ≡ (
        if ltb 1 (j - i)
        then bisect absent fuel
            (if absent (pos ((i + j) / 2)) then pos i else pos ((i + j) / 2))
            (if absent (pos ((i + j) / 2)) then pos ((i + j) / 2) else pos j)
        else some (pos i))
unfolding bisect
bisect_step absent fuel i j lt small =
    ap₂
      (λ (m d : ℤ).
        if ltb_ℤ (pos 1) d
        then bisect absent fuel (if absent m then pos i else m) (if absent m then m else pos j)
        else some (pos i))
      (middle i j small) (distance i j lt (omega arith))
    ∙ ap
        (λ (b : Bool).
          if b
          then bisect absent fuel (if absent (pos ((i + j) / 2)) then pos i else pos ((i + j) / 2))
              (if absent (pos ((i + j) / 2)) then pos ((i + j) / 2) else pos j)
          else some (pos i))
        same
  where
    same : ltb 1 (j - i + 0) ≡ ltb 1 (j - i)
    same = ap (ltb 1) (omega arith)

-- From a present index to an absent one at most 2 ^ fuel away, low enough for sums not to overflow.
abbrev Narrows : (ℤ → Bool) → ℕ → Type 0
Narrows absent fuel =
    (i j : ℕ)
    → i < j
    → j ≤ 2 ^ 62
    → j - i ≤ 2 ^ fuel
    → (i ≡ 0) ⊎ (absent (pos i) ≡ false)
    → absent (pos j) ≡ true
    → FoundBelow absent j (bisect absent (suc fuel) (pos i) (pos j))

neighbours :
    (absent : ℤ → Bool) (fuel i j : ℕ)
    → i < j
    → j ≤ 2 ^ 62
    → ltb 1 (j - i) ≡ false
    → (i ≡ 0) ⊎ (absent (pos i) ≡ false)
    → absent (pos j) ≡ true
    → FoundBelow absent j (bisect absent (suc fuel) (pos i) (pos j))
neighbours absent fuel i j lt small close hi hj = (
  i,
  bisect_step absent fuel i j lt (omega arith) ∙ if-false _ _ close,
  record { present = hi; after = ap (λ (k : ℕ). absent (pos k)) (ground arith) ∙ hj },
  lt,
)

halve :
    (absent : ℤ → Bool) (fuel i j : ℕ)
    → Narrows absent fuel
    → j ≤ 2 ^ 62
    → j - i ≤ 2 ^ suc fuel
    → 1 < j - i
    → (i ≡ 0) ⊎ (absent (pos i) ≡ false)
    → absent (pos j) ≡ true
    → (absent (pos ((i + j) / 2)) ≡ true) ⊎ (absent (pos ((i + j) / 2)) ≡ false)
    → FoundBelow absent j (
        bisect absent
          (suc fuel)
          (if absent (pos ((i + j) / 2)) then pos i else pos ((i + j) / 2))
          (if absent (pos ((i + j) / 2)) then pos ((i + j) / 2) else pos j))
halve absent fuel i j narrow small near far hi hj c =
    let near' : j - i ≤ 2 * 2 ^ fuel = rw (pow-succ' 2 fuel) at near in
    elim c [
      | inl e ↦
          let (n, f, border, below) =
            narrow i ((i + j) / 2) (omega arith) (omega arith) (omega (arith, near')) hi e in
          rw e (n, f, border, omega (arith, below, far))
      | inr e ↦ rw e (narrow ((i + j) / 2) j (omega arith) small (omega (arith, near')) (inr e) hj)
    ]

pub bisect-Border : (absent : ℤ → Bool) (fuel : ℕ) → Narrows absent fuel
bisect-Border absent zero i j lt small near hi hj =
    neighbours absent zero i j lt small (ground arith) hi hj
bisect-Border absent (suc fuel) i j lt small near hi hj = elim (Bool-cases (ltb 1 (j - i))) [
  | inr close ↦ neighbours absent (suc fuel) i j lt small close hi hj
  | inl far ↦
      let (n, e, border, below) =
        halve absent fuel i j (bisect-Border absent fuel) small near (ground arith) hi hj
          (Bool-cases (absent (pos ((i + j) / 2)))) in
      (n, bisect_step absent (suc fuel) i j lt (omega arith) ∙ if-true _ _ far ∙ e, border, below)
]

twice : (j : ℕ) → j + j < 2 ^ 63 → wrap (pos j +ℤ pos j) ≡ pos (j + j)
unfolding ◌+ℤ◌
twice j h =
    let sum : sub_ℕ (j + j) 0 ≡ pos (j + j) = ground arith in ap wrap sum ∙ wrap_pos (j + j) h

not_negative : (n : ℕ) → ltb_ℤ (pos n) (pos 0) ≡ false
not_negative n = ground arith

-- The doubling loop, where no present index is above 2 ^ 61.
pub double-Border :
    (absent : ℤ → Bool) (entries : ℕ)
    → ((k : ℕ) → absent (pos k) ≡ false → k ≤ 2 ^ 61)
    → (fuel i j : ℕ) → i < j
    → j ≤ 2 ^ 62
    → 2 ^ 63 ≤ j * 2 ^ fuel
    → (i ≡ 0) ⊎ (absent (pos i) ≡ false)
    → Found absent (double absent entries fuel (pos i) (pos j))
unfolding double
double-Border absent entries low zero i j lt small enough hi = ground arith
double-Border absent entries low (suc fuel) i j lt small enough hi =
    elim (Bool-cases (absent (pos j))) [
      | inl e ↦
          let (n, f, border, _) = bisect-Border absent 63 i j lt small (omega arith) hi e in
          (n, if-true _ _ e ∙ f, border)
      | inr e ↦
          let below = low j e in
          let enough' : 2 ^ 63 ≤ j * (2 * 2 ^ fuel) = rw (pow-succ' 2 fuel) at enough in
          let (n, f, border) =
            double-Border absent entries low fuel j (j + j) (omega arith) (omega arith)
              (omega (arith, enough')) (inr e) in
          (
            n,
            if-false _ _ e
                ∙ ap
                    (λ (z : ℤ).
                      if ltb_ℤ z (pos 0)
                      then first_absent absent entries (pos 1)
                      else double absent entries fuel (pos j) z)
                    (twice j (omega arith))
                ∙ if-false _ _ (not_negative (j + j))
                ∙ f,
            border,
          )
    ]
