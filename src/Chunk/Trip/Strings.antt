-- ===== src/Chunk/Trip/Strings.antt =====
-- The trip of a string: the first time its bytes, and after that the index it got.
use luart.Prelude.{
  ℕ, ◌+◌, ◌^◌, ◌≤◌, ◌<◌, ◌≡◌, ◌∙◌, ap, sym, refl, arith, Bool, false, List, [], ◌∷◌, ◌++◌, Option,
  some, none, length, length-append, append-nil, append_assoc, get_elem?, take-append, bit_or, ◌==◌,
  Option-cases, inl, inr, ap₂,
}
use mathlib.Core.Path.{subst}
use luart.Chunk.Proto.{Bytes}
use luart.Chunk.Format.{Platform, to_bytes, reuse_bit, pointer_size}
use luart.Chunk.Format.Words.{
  reuse_word, reuse_word-lt, size-lt, reuse_set, reuse_clear, reuse_index,
}
use luart.Chunk.Dump
use luart.Chunk.Dump.{DumpState, index_of, same_bytes}
use luart.Chunk.Load
use luart.Chunk.Load.{ok, Reads, LoadState, ◌>>=◌, split_at, Result}
use luart.Chunk.Trip.{Wrote, state, bind_ok}
use luart.Chunk.Trip.Index.{At, index_of-At, nonzero, suc_nonzero}
use luart.Chunk.Trip.Values.{write-write, split_at-append, write_lem, read_word_lem, T, write}

module _ (platform : Platform) (write_error : Bytes → Bytes → Option ℕ)
    (accepts : (out bs : Bytes) → write_error out bs ≡ none) (strip : Bool)
    (ending : Option ℕ) where
  abbrev pub CanWrite : Bytes → Type 0
  CanWrite s = (length s + 1 < reuse_bit platform) × (length s + 1 ≤ 2 ^ 62)

  -- A string is read by its size, and the size 0 is that of an absent one.
  pub read_string_lem :
      (n : ℕ) (rest : Bytes) (absent : Bool) (strings : List Bytes)
      → n < 256 ^ pointer_size platform
      → Load.read_string platform ending
          (state platform (to_bytes platform (pointer_size platform) n ++ rest) absent strings)
        ≡ Load.sized_string platform ending n (state platform rest (n == 0) strings)
  unfolding Load.read_string
  read_string_lem n rest absent strings h =
      let e =
        read_word_lem platform write_error accepts strip ending (pointer_size platform) n rest
          absent strings h in
      bind_ok (Load.read_word platform ending (pointer_size platform))
        (λ (size : ℕ). Load.set_absent platform ending (size == 0) >>= λ _.
          Load.sized_string platform ending size)
        (state platform (to_bytes platform (pointer_size platform) n ++ rest) absent strings) e

  sized_string-reuse :
      (j : ℕ) (rest s : Bytes) (absent : Bool) (strings : List Bytes)
      → j < reuse_bit platform
      → get_elem? strings j ≡ some s
      → Load.sized_string platform ending
          (reuse_bit platform + j)
          (state platform rest absent strings)
        ≡ ok s (state platform rest absent strings)
  unfolding Load.reused_string
  sized_string-reuse j rest s absent strings h e =
      ground (arith, reuse_set platform j h, reuse_index platform j h, e)

  sized_string-fresh :
      (s rest : Bytes) (absent : Bool) (strings : List Bytes)
      → CanWrite s
      → Load.sized_string platform ending
          (length s + 1)
          (state platform (s ++ 0 ∷ rest) absent strings)
        ≡ ok s (state platform rest absent (strings ++ s ∷ []))
  unfolding Load.fresh_string Load.copy_bytes
  sized_string-fresh s rest absent strings (h, h') =
      let e : split_at (length s + 1) (s ++ 0 ∷ rest) ≡ some (s ++ 0 ∷ [], rest) =
        ap₂ split_at (sym (length-append s (0 ∷ []))) (sym (append_assoc s (0 ∷ []) rest))
        ∙ split_at-append (s ++ 0 ∷ []) rest in
      ground (arith, reuse_clear platform (length s + 1) h, e, take-append s (0 ∷ []))

  -- A reader that gives b once read_string gives s.
  abbrev pub Takes : {B : Type 0} → Bytes → Reads B → B → Type 0
  Takes s r b =
      (from : LoadState) (rest : Bytes) (strings : List Bytes)
      → Load.read_string platform ending from ≡ ok s (state platform rest false strings)
      → r from ≡ ok b (state platform rest false strings)

  module _ {B : Type 0} (r : Reads B) (b : B) (s : Bytes) (takes : Takes s r b) (d : DumpState)
      (e : d.err ≡ none) where
    abbrev Sent : DumpState → Type 0
    Sent d' = Wrote platform 0 d d' r b

    -- A string that the map has is sent as its index.
    reused-Trip :
        (k : ℕ)
        → At s d.strings 0 k
        → Sent (Dump.write_size platform write_error strip (bit_or (reuse_bit platform) k) d)
    unfolding Dump.write_size
    reused-Trip k at =
        let sent = bit_or (reuse_bit platform) k in
        let bytes = to_bytes platform (pointer_size platform) sent in
        subst Sent (sym (write_lem platform write_error accepts strip ending bytes d e)) (record {
          bytes = bytes;
          fresh = [];
          at_least = omega arith;
          out = refl;
          strings = sym (append-nil d.strings);
          no_err = e;
          reads = λ rest absent bound. (
            false,
            takes (state platform (bytes ++ rest) absent d.strings) rest d.strings
                (reads rest absent bound),
          );
        })
      where
        reads :
            (rest : Bytes) (absent : Bool)
            → length d.strings ≤ reuse_bit platform
            → Load.read_string platform ending (
                state platform
                  (to_bytes platform (pointer_size platform) (bit_or (reuse_bit platform) k)
                    ++ rest)
                  absent
                  d.strings)
              ≡ ok s (state platform rest false d.strings)
        reads rest absent bound =
            let small : at.j < reuse_bit platform = omega (arith, at.bound, bound) in
            let whole : bit_or (reuse_bit platform) k ≡ reuse_bit platform + at.j =
              ap (bit_or (reuse_bit platform)) (omega (arith, at.index))
              ∙ reuse_word platform at.j small in
            rw whole (
              read_string_lem (reuse_bit platform + at.j) rest absent d.strings
                (reuse_word-lt platform at.j small)
              ∙ sized_string-reuse at.j rest s (reuse_bit platform + at.j == 0) d.strings small
                  at.here
              ∙ ap (λ (t : Bool). ok s (state platform rest t d.strings)) (nonzero platform at.j))

    -- A new one is sent in full.
    fresh-Trip :
        CanWrite s
        → Sent (
            Dump.write_byte platform write_error strip 0 (
              write platform write_error accepts strip ending s (
                Dump.write_size platform write_error strip
                  (length s + 1)
                  (Dump.new_string platform write_error strip s d))))
    unfolding Dump.write_size Dump.write_byte Dump.new_string
    fresh-Trip h =
        let size = to_bytes platform (pointer_size platform) (length s + 1) in
        let named : DumpState = record d { strings = d.strings ++ s ∷ [] } in
        let all : write platform write_error accepts strip ending (0 ∷ []) (
              write platform write_error accepts strip ending s
                (write platform write_error accepts strip ending size named))
            ≡ record named { out = d.out ++ (size ++ (s ++ 0 ∷ [])) } =
          ap (write platform write_error accepts strip ending (0 ∷ []))
            (write-write platform write_error accepts strip ending size s named e)
          ∙ write_lem platform write_error accepts strip ending (0 ∷ [])
              (record named { out = d.out ++ (size ++ s) }) e
          ∙ ap (λ (t : Bytes). record named { out = t })
              (append_assoc d.out (size ++ s) (0 ∷ [])
                ∙ ap (λ (t : Bytes). d.out ++ t) (append_assoc size s (0 ∷ []))) in
        subst Sent (sym all) (record {
          bytes = size ++ (s ++ 0 ∷ []);
          fresh = s ∷ [];
          at_least = omega arith;
          out = refl;
          strings = refl;
          no_err = e;
          reads = λ rest absent bound. (
            false,
            takes (state platform ((size ++ (s ++ 0 ∷ [])) ++ rest) absent d.strings) rest
                (d.strings ++ s ∷ []) (reads rest absent),
          );
        })
      where
        reads :
            (rest : Bytes) (absent : Bool)
            → Load.read_string platform ending (
                state platform
                  ((to_bytes platform (pointer_size platform) (length s + 1) ++ (s ++ 0 ∷ []))
                    ++ rest)
                  absent
                  d.strings)
              ≡ ok s (state platform rest false (d.strings ++ s ∷ []))
        reads rest absent =
            ap (λ (t : Bytes). Load.read_string platform ending (state platform t absent d.strings))
              (append_assoc (to_bytes platform (pointer_size platform) (length s + 1)) (s ++ 0 ∷ [])
                  rest
                ∙ ap (λ (t : Bytes). to_bytes platform (pointer_size platform) (length s + 1) ++ t)
                    (append_assoc s (0 ∷ []) rest))
            ∙ read_string_lem (length s + 1) (s ++ 0 ∷ rest) absent d.strings
                (size-lt platform (length s + 1) h.0)
            ∙ sized_string-fresh s rest (length s + 1 == 0) d.strings h
            ∙ ap (λ (t : Bool). ok s (state platform rest t (d.strings ++ s ∷ [])))
                (suc_nonzero (length s))

  pub text-Trip :
      {B : Type 0} (r : Reads B) (b : B) (s : Bytes)
      → Takes s r b
      → CanWrite s
      → T platform write_error accepts strip ending 0
          (Dump.write_string platform write_error strip s)
          r
          b
  unfolding Dump.write_string
  text-Trip r b s takes h d e = elim (Option-cases (index_of s d.strings 0)) [
    | inl f ↦ subst (Sent r b s takes d e) (sym (branch f)) (fresh-Trip r b s takes d e h)
    | inr (k, f) ↦
        subst (Sent r b s takes d e) (sym (branch f))
          (reused-Trip r b s takes d e k (index_of-At s d.strings 0 k f))
  ]
    where
      branch :
          {r : Option ℕ}
          → index_of s d.strings 0 ≡ r
          → Dump.write_string platform write_error strip s d ≡ (elim r [
            | some i ↦ Dump.write_size platform write_error strip (bit_or (reuse_bit platform) i) d
            | none ↦ Dump.write_byte platform write_error strip 0 (
                write platform write_error accepts strip ending s (
                  Dump.write_size platform write_error strip
                    (length s + 1)
                    (Dump.new_string platform write_error strip s d)))
          ])
      branch f = rw (f, Dump.write_string) refl

  pub string-Trip :
      (s : Bytes)
      → CanWrite s
      → T platform write_error accepts strip ending 0
          (Dump.write_string platform write_error strip s)
          (Load.read_string platform ending)
          s
  string-Trip s = text-Trip (Load.read_string platform ending) s s (λ from rest strings e. e)
