-- ===== src/Chunk/Settles.antt =====
-- internal/chunk/load.go: that reading a chunk ends, whatever the bytes. A read never gives input
-- back, and a function takes bytes before the functions nested in it, so the levels that the
-- length of the input allows are enough.
pub mod Reading
use luart.Prelude.{
  ℕ, zero, suc, ◌+◌, ◌-◌, ◌*◌, ◌^◌, ◌≤◌, ◌<◌, ◌≡◌, ◌∙◌, ap, sym, refl, arith, Bool, true, false,
  not, List, [], ◌∷◌, ◌++◌, Option, some, none, length, length-append, min, if◌then◌else◌,
  Option-cases, inl, inr, Bool-cases,
}
use mathlib.Core.Path.{subst}
use luart.Chunk.Proto.{Bytes}
use luart.Chunk.Format.{Platform}
use luart.Chunk.Load
use luart.Chunk.Load.{
  LoadState, Result, ok, err, stuck, Reads, ◌>>=◌, return, fail, split_at, read_n, batch_size,
  LoadError,
}

-- A result that is not `stuck`, and leaves k bytes fewer than n at least.
abbrev pub Settled : {A : Type 0} → ℕ → ℕ → Result A → Type 0
Settled k n (ok a s) = length s.input + k ≤ n
Settled k n (err e) = Unit {0}
Settled k n stuck = ⊥

-- A read that settles on an input of up to m bytes, and takes k of them when it succeeds.
pub record Settles {A : Type 0} (m k : ℕ) (r : Reads A) : Type 0 where
  pub run : (s : LoadState) → length s.input ≤ m → Settled k (length s.input) (r s)

bind-Settles :
    {A B : Type 0} {m k : ℕ} {r : Reads A} (j : ℕ) {f : A → Reads B}
    → Settles m k r
    → ((a : A) (m' : ℕ) → m' + k ≤ m → Settles m' j (f a))
    → Settles m (k + j) (r >>= f)
bind-Settles {A} {B} {m} {k} {r} j {f} h g = record { run = λ s le. go s le (r s) (h.run s le) }
  where
    less :
        (s s' : LoadState)
        → length s'.input + k ≤ length s.input
        → (y : Result B) → Settled j (length s'.input) y
        → Settled (k + j) (length s.input) y
    less s s' taken (ok b s'') t = omega (arith, t, taken)
    less s s' taken (err e) t = tt
    less s s' taken stuck t = t

    go :
        (s : LoadState)
        → length s.input ≤ m
        → (x : Result A) → Settled k (length s.input) x
        → Settled
            (k + j)
            (length s.input)
            (elim x [ ok a s' ↦ f a s' | err e ↦ err e | stuck ↦ stuck ])
    go s le (ok a s') taken =
        less s s' taken (f a s')
          ((g a (length s'.input) (omega (arith, taken, le))).run s' (omega arith))
    go s le (err e) taken = tt
    go s le stuck taken = taken

weaken-Settles :
    {A : Type 0} {m m' k k' : ℕ} {r : Reads A} → m' ≤ m → k' ≤ k → Settles m k r → Settles m' k' r
weaken-Settles {A} {m} {m'} {k} {k'} {r} hm hk h = record {
  run = λ s le. less s (r s) (h.run s (omega (arith, le, hm)));
}
  where
    less :
        (s : LoadState) (x : Result A)
        → Settled k (length s.input) x
        → Settled k' (length s.input) x
    less s (ok a s') t = omega (arith, t, hk)
    less s (err e) t = tt
    less s stuck t = t

return-Settles : {A : Type 0} {m : ℕ} (a : A) → Settles m 0 (return a)
return-Settles a = record { run = λ s le. omega arith }

fail-Settles : {A : Type 0} {m k : ℕ} (e : LoadError) → Settles m k (fail {A = A} e)
fail-Settles e = record { run = λ s le. tt }

if-Settles :
    {A : Type 0} {m k : ℕ} {r r' : Reads A} (b : Bool)
    → Settles m k r
    → Settles m k r'
    → Settles m k (if b then r else r')
if-Settles true h h' = h
if-Settles false h h' = h'

-- Reads that need not take anything, on an input of any length.
then-Settles :
    {A B : Type 0} {m : ℕ} {r : Reads A} {f : A → Reads B}
    → Settles m 0 r
    → ((a : A) (m' : ℕ) → m' ≤ m → Settles m' 0 (f a))
    → Settles m 0 (r >>= f)
then-Settles h g = bind-Settles 0 h (λ a m' le. g a m' (omega (arith, le)))

pub n-Settles :
    {A : Type 0} {r : Reads A} (m n : ℕ)
    → ((m' : ℕ) → m' ≤ m → Settles m' 0 r)
    → Settles m 0 (read_n n r)
unfolding read_n
n-Settles m zero h = return-Settles []
n-Settles m (suc n) h = then-Settles (h m (omega arith)) (λ x m' le.
    then-Settles (n-Settles m' n (λ m'' le'. h m'' (omega (arith, le, le'))))
      (λ xs m'' le'. return-Settles (x ∷ xs)))

pub split_at-length :
    (n : ℕ) (bs : Bytes) {front rest : Bytes}
    → split_at n bs ≡ some (front, rest)
    → length rest + n ≡ length bs
unfolding split_at
split_at-length zero bs e = ground arith
split_at-length (suc n) [] e = ground arith
split_at-length (suc n) (b ∷ bs) e = elim (Option-cases (split_at n bs)) [
  | inl f ↦ ground (arith, e, f)
  | inr ((front', rest'), f) ↦ ground (arith, e, f, split_at-length n bs f)
]
