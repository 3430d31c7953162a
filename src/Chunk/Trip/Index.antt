-- ===== src/Chunk/Trip/Index.antt =====
-- The index that a dump's map gives a string.
use luart.Prelude.{
  ℕ, suc, ◌+◌, ◌<◌, ◌≡◌, ap, sym, refl, arith, true, false, List, [], ◌∷◌, some, length, get_elem?,
  ◌==◌, ==_iff, inl, inr, ap₂, Bool-cases,
}
use luart.Chunk.Proto.{Bytes}
use luart.Chunk.Format.{Platform, reuse_bit}
use luart.Chunk.Dump.{index_of, same_bytes}

pub same_bytes-eq : (s t : Bytes) → same_bytes s t ≡ true → s ≡ t
unfolding same_bytes
same_bytes-eq [] [] h = refl
same_bytes-eq [] (y ∷ ys) h = ground arith
same_bytes-eq (x ∷ xs) [] h = ground arith
same_bytes-eq (x ∷ xs) (y ∷ ys) h = elim (Bool-cases (x == y)) [
  | inl e ↦
      let tail : same_bytes xs ys ≡ true = ground arith in
      ap₂ (λ (a : ℕ) (r : Bytes). a ∷ r) (omega (arith, (==_iff x y).0 e))
        (same_bytes-eq xs ys tail)
  | inr e ↦ ground arith
]

-- The string stands at the index that the map gives.
pub record At (s : Bytes) (ts : List Bytes) (i k : ℕ) : Type 0 where
  pub j : ℕ
  pub index : k ≡ i + j
  pub bound : j < length ts
  pub here : get_elem? ts j ≡ some s

pub index_of-At : (s : Bytes) (ts : List Bytes) (i k : ℕ) → index_of s ts i ≡ some k → At s ts i k
unfolding index_of
index_of-At s [] i k h = ground arith
index_of-At s (t ∷ ts) i k h = elim (Bool-cases (same_bytes s t)) [
  | inl e ↦
      let start : k ≡ i = ground arith in
      record {
        j = 0;
        index = omega (arith, start);
        bound = omega arith;
        here = ap some (sym (same_bytes-eq s t e));
      }
  | inr e ↦
      let later : index_of s ts (suc i) ≡ some k = ground arith in
      let at = index_of-At s ts (suc i) k later in
      record {
        j = suc at.j;
        index = omega (arith, at.index);
        bound = omega (arith, at.bound);
        here = at.here;
      }
]

pub nonzero : (platform : Platform) (n : ℕ) → (reuse_bit platform + n == 0) ≡ false
nonzero platform n = ground arith

pub suc_nonzero : (n : ℕ) → (n + 1 == 0) ≡ false
suc_nonzero n = ground arith
