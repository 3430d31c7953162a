-- ===== src/Chunk/Trip/Values.antt =====
-- The trips of the values that a chunk is made of.
use mathlib.Core.Path.{subst}
use luart.Prelude.{
  ℕ, ◌%◌, ◌^◌, ◌<◌, ◌≡◌, ◌∙◌, ap, sym, refl, arith, Bool, true, false, not, List, [], ◌∷◌, ◌++◌,
  Option, some, none, length, append-nil, append_assoc, ◌==◌, Bool-cases, inl, inr,
}
use luart.Prelude.Int.{ℤ, pos, negsuc}
use luart.Chunk.Proto.{Bytes}
use luart.Chunk.Format.{Platform, to_bytes, of_bytes, to_u32, of_u32, to_le, order}
use luart.Chunk.Format.Words.{IsInt32, length-to_bytes, of_bytes-to_bytes, of_u32-to_u32, to_u32-lt}
use luart.Chunk.Dump
use luart.Chunk.Dump.{DumpState}
use luart.Chunk.Load
use luart.Chunk.Load.{LoadState, Result, ok, err, stuck, Reads, ◌>>=◌, return, split_at, read_n}
use luart.Chunk.Trip.{state, bind_ok, Wrote, Trip, W, return-Trip, then-Trip, map-Trip, weaken-Trip}

pub split_at-append : (bs rest : Bytes) → split_at (length bs) (bs ++ rest) ≡ some (bs, rest)
unfolding split_at
split_at-append [] rest = refl
split_at-append (b ∷ bs) rest = rw (split_at-append bs rest)

-- The parameters: a writer that takes everything, whether to strip, and how the reader ends.
module _ (platform : Platform) (write_error : Bytes → Bytes → Option ℕ)
    (accepts : (out bs : Bytes) → write_error out bs ≡ none) (strip : Bool)
    (ending : Option ℕ) where
  abbrev pub T : {A : Type 0} → ℕ → W platform → Reads A → A → Type 0
  T = Trip platform

  abbrev pub write : Bytes → W platform
  write = Dump.write platform write_error strip

  pub read_bytes_lem :
      (k : ℕ) (bs rest : Bytes) (absent : Bool) (strings : List Bytes)
      → length bs ≡ k
      → Load.read_bytes platform ending k (state platform (bs ++ rest) absent strings)
        ≡ ok bs (state platform rest absent strings)
  unfolding Load.read_bytes
  read_bytes_lem k bs rest absent strings h =
      let e : split_at k (bs ++ rest) ≡ some (bs, rest) =
        ap (λ (j : ℕ). split_at j (bs ++ rest)) (sym h) ∙ split_at-append bs rest in
      ground (arith, e)

  pub write_lem :
      (bs : Bytes) (d : DumpState) → d.err ≡ none → write bs d ≡ record d { out = d.out ++ bs }
  unfolding Dump.write
  write_lem bs d e = ground (arith, accepts d.out bs)

  pub write-write :
      (bs bs' : Bytes) (d : DumpState)
      → d.err ≡ none
      → write bs' (write bs d) ≡ record d { out = d.out ++ (bs ++ bs') }
  write-write bs bs' d e =
      ap (write bs') (write_lem bs d e)
      ∙ write_lem bs' (record d { out = d.out ++ bs }) e
      ∙ ap (λ (t : Bytes). record d { out = t }) (append_assoc d.out bs bs')

  pub write-Trip :
      (bs : Bytes) → T (length bs) (write bs) (Load.read_bytes platform ending (length bs)) bs
  write-Trip bs d e =
      subst (λ d'. Wrote platform (length bs) d d' (Load.read_bytes platform ending (length bs)) bs)
        (sym (write_lem bs d e))
        (record {
          bytes = bs;
          fresh = [];
          at_least = omega arith;
          out = refl;
          strings = sym (append-nil d.strings);
          no_err = e;
          reads = λ rest absent bound.
              (absent, read_bytes_lem (length bs) bs rest absent d.strings refl);
        })

  pub read_word_lem :
      (k n : ℕ) (rest : Bytes) (absent : Bool) (strings : List Bytes)
      → n < 256 ^ k
      → Load.read_word platform ending k
          (state platform (to_bytes platform k n ++ rest) absent strings)
        ≡ ok n (state platform rest absent strings)
  unfolding Load.read_word
  read_word_lem k n rest absent strings h =
      bind_ok (Load.read_bytes platform ending k) (λ bs. return (of_bytes platform bs))
        (state platform (to_bytes platform k n ++ rest) absent strings)
        (read_bytes_lem k (to_bytes platform k n) rest absent strings
          (length-to_bytes platform k n))
      ∙ ap (λ (m : ℕ). ok m (state platform rest absent strings)) (of_bytes-to_bytes platform k n h)

  pub word-Trip :
      (k n : ℕ)
      → n < 256 ^ k
      → T k (write (to_bytes platform k n)) (Load.read_word platform ending k) n
  unfolding Load.read_word
  word-Trip k n h =
      map-Trip platform (of_bytes platform)
        (subst
          (λ j.
            T j (write (to_bytes platform k n)) (Load.read_bytes platform ending j)
              (to_bytes platform k n))
          (length-to_bytes platform k n) (write-Trip (to_bytes platform k n)))
        (of_bytes-to_bytes platform k n h)

  pub int-Trip :
      (z : ℤ)
      → IsInt32 z
      → T 4 (Dump.write_int platform write_error strip z) (Load.read_int platform ending) z
  unfolding Load.read_int Dump.write_int
  int-Trip z h = map-Trip platform of_u32 (word-Trip 4 (to_u32 z) (to_u32-lt z)) (of_u32-to_u32 z h)

  pub count-Trip :
      (n : ℕ)
      → n < 2 ^ 31
      → T 0 (Dump.write_count platform write_error strip n) (Load.read_count platform ending) n
  unfolding Load.read_count Dump.write_count
  count-Trip n h =
      then-Trip platform
        (λ (i : ℤ). elim i [ pos m ↦ return m | negsuc m ↦ Load.fail Load.corrupted ])
        (int-Trip (pos n) (omega arith)) (return-Trip platform n)

  byte-to_bytes : (b : ℕ) → to_bytes platform 1 b ≡ b % 256 ∷ []
  unfolding to_bytes to_le order
  byte-to_bytes b = elim (Bool-cases platform.little) [ inl e ↦ rw e | inr e ↦ rw e ]

  pub byte-Trip :
      (b : ℕ)
      → b < 256
      → T 0 (Dump.write_byte platform write_error strip b) (Load.read_byte platform ending) b
  unfolding Load.read_byte Dump.write_byte
  byte-Trip b h =
      subst (λ (bs : Bytes). T 0 (write bs) (Load.read_word platform ending 1) b) (byte-to_bytes b)
        (weaken-Trip platform (word-Trip 1 b (omega arith)) (omega arith))

  pub bool-Trip :
      (b : Bool)
      → T 0 (Dump.write_bool platform write_error strip b) (Load.read_bool platform ending) b
  unfolding Load.read_bool Dump.write_bool
  bool-Trip true =
      weaken-Trip platform
        (map-Trip platform (λ (n : ℕ). not (n == 0)) (byte-Trip 1 (omega arith)) refl) (omega arith)
  bool-Trip false =
      weaken-Trip platform
        (map-Trip platform (λ (n : ℕ). not (n == 0)) (byte-Trip 0 (omega arith)) refl) (omega arith)
