-- ===== src/Prelude/Bits.antt =====
-- Laws of `bit_and` and `bit_or` at variables: an operation acts on the digits below 2 ^ k and on
-- those above it separately, and a mask of ones or zeros takes or clears the low digits.
use Prim.Native.Nat.{
  ℕ, zero, suc, ◌+◌, ◌-◌, ◌*◌, ◌/◌, ◌%◌, ◌^◌, ◌≤◌, ◌<◌, min, max, bit_and, bit_or, digits,
  bit_and-bitwise, bit_or-bitwise,
}
use mathlib.Core.Path.{◌≡◌, refl, sym, ap, ap₂, ◌∙◌}
use native.Mathlib.Omega.{arith}
use native.Mathlib.Nat.{le_refl, pow-succ', mod-add-div', mod-lt}

-- A digit-wise operation, as the native one is defined: `digit` on two digits, and `left` for what
-- the second operand gives once the first is used up.
module _ (digit : ℕ → ℕ → ℕ) (left : ℕ → ℕ) where
  one_more_round :
      (fuel p q : ℕ) → p ≤ fuel → digits left digit (suc fuel) p q ≡ digits left digit fuel p q
  one_more_round fuel zero q le = ends fuel
    where
      ends : (k : ℕ) → digits left digit (suc k) zero q ≡ digits left digit k zero q
      ends zero = refl
      ends (suc k) = refl
  one_more_round zero (suc p) q le = elim le [ ]
  one_more_round (suc fuel) (suc p) q le =
      let halved = one_more_round fuel (suc p / 2) (q / 2) (omega arith) in
      ap (λ (t : ℕ). t * 2 + digit (suc p % 2) (q % 2)) halved

  more_rounds :
      (extra fuel p q : ℕ)
      → p ≤ fuel
      → digits left digit (extra + fuel) p q ≡ digits left digit fuel p q
  more_rounds zero fuel p q le =
      let e : 0 + fuel ≡ fuel = omega arith in ap (λ (t : ℕ). digits left digit t p q) e
  more_rounds (suc extra) fuel p q le =
      let e : suc extra + fuel ≡ suc (extra + fuel) = omega arith in
      ap (λ (t : ℕ). digits left digit t p q) e
      ∙ one_more_round (extra + fuel) p q (omega arith)
      ∙ more_rounds extra fuel p q le

  -- The step law, for a native operation `op` and its law.
  step_law :
      (op : ℕ → ℕ → ℕ)
      → ((p q : ℕ) → op p q ≡ digits left digit p p q)
      → (p q : ℕ) → op (suc p) q ≡ op (suc p / 2) (q / 2) * 2 + digit (suc p % 2) (q % 2)
  step_law op law p q =
      let h = suc p / 2 in
      let fuel : p - h + h ≡ p = omega arith in
      let rounds : digits left digit p h (q / 2) ≡ op h (q / 2) =
        ap (λ (t : ℕ). digits left digit t h (q / 2)) (sym fuel)
        ∙ more_rounds (p - h) h h (q / 2) (le_refl h)
        ∙ sym (law h (q / 2)) in
      law (suc p) q ∙ ap (λ (t : ℕ). t * 2 + digit (suc p % 2) (q % 2)) rounds

pub zero-bit_and : (q : ℕ) → bit_and 0 q ≡ 0
zero-bit_and = bit_and-bitwise 0

pub zero-bit_or : (q : ℕ) → bit_or 0 q ≡ q
zero-bit_or = bit_or-bitwise 0

pub bit_and_step : (p q : ℕ) → bit_and p q ≡ bit_and (p / 2) (q / 2) * 2 + min (p % 2) (q % 2)
bit_and_step zero q = zero-bit_and q ∙ omega (arith, zero-bit_and (q / 2))
bit_and_step (suc p) q = step_law min (λ _. zero) bit_and (λ a b. bit_and-bitwise a b) p q

pub bit_or_step : (p q : ℕ) → bit_or p q ≡ bit_or (p / 2) (q / 2) * 2 + max (p % 2) (q % 2)
bit_or_step zero q = zero-bit_or q ∙ omega (arith, zero-bit_or (q / 2))
bit_or_step (suc p) q = step_law max (λ d. d) bit_or (λ a b. bit_or-bitwise a b) p q

-- With nothing on the right the digits of the left operand are cleared, or kept.
right_zero : (bound p : ℕ) → p < bound → (bit_and p 0 ≡ 0) × (bit_or p 0 ≡ p)
right_zero (suc bound) zero lt = (refl, refl)
right_zero zero p lt = elim lt [ ]
right_zero (suc bound) (suc p) lt =
    let (cleared, kept) = right_zero bound (suc p / 2) (omega arith) in
    (omega (arith, cleared, bit_and_step (suc p) 0), omega (arith, kept, bit_or_step (suc p) 0))

pub bit_and-zero : (p : ℕ) → bit_and p 0 ≡ 0
bit_and-zero p = (right_zero (suc p) p (le_refl (suc p))).0

pub bit_or-zero : (p : ℕ) → bit_or p 0 ≡ p
bit_or-zero p = (right_zero (suc p) p (le_refl (suc p))).1

pub pow-suc_two : (k : ℕ) → 2 ^ suc k ≡ 2 * 2 ^ k
pow-suc_two k = pow-succ' 2 k

-- The split at digit k, for any operation with the step law.
module _ (op : ℕ → ℕ → ℕ) (digit : ℕ → ℕ → ℕ)
    (step : (a b : ℕ) → op a b ≡ op (a / 2) (b / 2) * 2 + digit (a % 2) (b % 2))
    (zeros : op 0 0 ≡ 0) where
  split :
      (k a b x y : ℕ)
      → a < 2 ^ k
      → b < 2 ^ k
      → op (a + x * 2 ^ k) (b + y * 2 ^ k) ≡ op a b + op x y * 2 ^ k
  split zero a b x y ha hb =
      let ea : a + x * 1 ≡ x = omega arith in
      let eb : b + y * 1 ≡ y = omega arith in
      let za : op a b ≡ op 0 0 = ap₂ op (omega arith) (omega arith) in
      ap₂ op ea eb ∙ omega (arith, za, zeros)
  split (suc k) a b x y ha hb = rw pow-suc_two (
      let A = a + x * (2 * 2 ^ k) in
      let B = b + y * (2 * 2 ^ k) in
      let ha' : a < 2 * 2 ^ k = rw pow-suc_two at ha in
      let hb' : b < 2 * 2 ^ k = rw pow-suc_two at hb in
      let halves : op (A / 2) (B / 2) ≡ op (a / 2 + x * 2 ^ k) (b / 2 + y * 2 ^ k) =
        ap₂ op (omega arith) (omega arith) in
      let low : digit (A % 2) (B % 2) ≡ digit (a % 2) (b % 2) =
        ap₂ digit (omega arith) (omega arith) in
      omega (
        arith,
        step A B,
        step a b,
        halves,
        low,
        split k (a / 2) (b / 2) x y (omega arith) (omega arith),
      ))

module _ (k a b x y : ℕ) (ha : a < 2 ^ k) (hb : b < 2 ^ k) where
  pub bit_and-split : bit_and (a + x * 2 ^ k) (b + y * 2 ^ k) ≡ bit_and a b + bit_and x y * 2 ^ k
  bit_and-split = split bit_and min bit_and_step refl k a b x y ha hb

  pub bit_or-split : bit_or (a + x * 2 ^ k) (b + y * 2 ^ k) ≡ bit_or a b + bit_or x y * 2 ^ k
  bit_or-split = split bit_or max bit_or_step refl k a b x y ha hb

pub pow-pos : (k : ℕ) → 0 < 2 ^ k
pow-pos zero = omega arith
pow-pos (suc k) = rw pow-suc_two (omega (arith, pow-pos k))

-- A mask of k ones keeps a number below 2 ^ k.
bit_and_ones : (k a : ℕ) → a < 2 ^ k → bit_and a (2 ^ k - 1) ≡ a
bit_and_ones zero a h = omega (arith, bit_and-zero a)
bit_and_ones (suc k) a h = rw pow-suc_two (
    let h' : a < 2 * 2 ^ k = rw pow-suc_two at h in
    let m : (2 * 2 ^ k - 1) / 2 ≡ 2 ^ k - 1 = omega (arith, pow-pos k) in
    omega (
      arith,
      pow-pos k,
      bit_and_step a (2 * 2 ^ k - 1),
      ap (bit_and (a / 2)) m,
      bit_and_ones k (a / 2) (omega arith),
    ))

-- a & (2 ^ k - 1) is a % 2 ^ k.
pub bit_and_mask : (k a : ℕ) → bit_and a (2 ^ k - 1) ≡ a % 2 ^ k
bit_and_mask k a =
    let low = a % 2 ^ k in
    let high = a / 2 ^ k in
    let whole : a ≡ low + high * 2 ^ k = sym (mod-add-div' a (2 ^ k)) in
    let lt : low < 2 ^ k = mod-lt a (pow-pos k) in
    ap₂ bit_and whole (omega (arith, pow-pos k))
    ∙ bit_and-split k low (2 ^ k - 1) high 0 lt (omega (arith, pow-pos k))
    ∙ omega (arith, ap (λ (t : ℕ). t * 2 ^ k) (bit_and-zero high), bit_and_ones k low lt)

-- The parts of disjoint fields are added.
pub bit_or_add : (k a x : ℕ) → a < 2 ^ k → bit_or a (x * 2 ^ k) ≡ a + x * 2 ^ k
bit_or_add k a x h =
    ap₂ bit_or (omega arith) (omega arith)
    ∙ bit_or-split k a 0 0 x h (pow-pos k)
    ∙ omega (arith, bit_or-zero a, ap (λ (t : ℕ). t * 2 ^ k) (zero-bit_or x))

-- The field of n ones from digit p on.
pub bit_and_field : (p n a : ℕ) → bit_and a ((2 ^ n - 1) * 2 ^ p) ≡ a / 2 ^ p % 2 ^ n * 2 ^ p
bit_and_field p n a =
    let low = a % 2 ^ p in
    let high = a / 2 ^ p in
    let whole : a ≡ low + high * 2 ^ p = sym (mod-add-div' a (2 ^ p)) in
    ap₂ bit_and whole (omega arith)
    ∙ bit_and-split p low 0 high (2 ^ n - 1) (mod-lt a (pow-pos p)) (pow-pos p)
    ∙ omega (arith, bit_and-zero low, ap (λ (t : ℕ). t * 2 ^ p) (bit_and_mask n high))

-- A mask of p ones, zeros up to digit q, and w ones above them clears the digits from p to q.
pub bit_and_clear :
    (p q w a : ℕ)
    → 2 ^ p ≤ 2 ^ q
    → a / 2 ^ q < 2 ^ w
    → bit_and a (2 ^ p - 1 + (2 ^ w - 1) * 2 ^ q) ≡ a % 2 ^ q % 2 ^ p + a / 2 ^ q * 2 ^ q
bit_and_clear p q w a hpq ha =
    let low = a % 2 ^ q in
    let high = a / 2 ^ q in
    let whole : a ≡ low + high * 2 ^ q = sym (mod-add-div' a (2 ^ q)) in
    ap (λ (t : ℕ). bit_and t (2 ^ p - 1 + (2 ^ w - 1) * 2 ^ q)) whole
    ∙ bit_and-split q low (2 ^ p - 1) high (2 ^ w - 1) (mod-lt a (pow-pos q))
        (omega (arith, pow-pos p))
    ∙ omega (arith, bit_and_mask p low, ap (λ (t : ℕ). t * 2 ^ q) (bit_and_ones w high ha))

-- A field set in a number whose digits from p to q are clear.
pub bit_or_insert :
    (p q a x b : ℕ)
    → a < 2 ^ p
    → 2 ^ p ≤ 2 ^ q
    → x * 2 ^ p < 2 ^ q
    → bit_or (a + b * 2 ^ q) (x * 2 ^ p) ≡ a + x * 2 ^ p + b * 2 ^ q
bit_or_insert p q a x b ha hpq hx =
    ap (bit_or (a + b * 2 ^ q)) (omega arith)
    ∙ bit_or-split q a (x * 2 ^ p) b 0 (omega arith) hx
    ∙ omega (arith, bit_or_add p a x ha, ap (λ (t : ℕ). t * 2 ^ q) (bit_or-zero b))

pub bit_or_add_left : (k a x : ℕ) → a < 2 ^ k → bit_or (x * 2 ^ k) a ≡ x * 2 ^ k + a
bit_or_add_left k a x h =
    ap₂ bit_or (omega arith) (omega arith)
    ∙ bit_or-split k 0 a x 0 (pow-pos k) h
    ∙ omega (arith, zero-bit_or a, ap (λ (t : ℕ). t * 2 ^ k) (bit_or-zero x))
