-- ===== src/Chunk/Trip/Lists.antt =====
-- The trips of lists: one element after the other, and in batches.
use luart.Prelude.{
  ℕ, zero, suc, ◌-◌, ◌*◌, ◌^◌, ◌≤◌, ◌<◌, ◌≡◌, ◌∙◌, ap, ap₂, sym, refl, arith, Bool, List, [], ◌∷◌,
  ◌++◌, Option, none, length, length-append, append-nil, append_assoc, take, drop, take-append,
  drop-append, All-take, All-drop, min, map, All, length-take, length-drop, take-append-drop,
}
use mathlib.Core.Path.{subst}
use luart.Chunk.Proto.{Bytes}
use luart.Chunk.Format.{Platform}
use luart.Chunk.Dump
use luart.Chunk.Dump.{DumpState}
use luart.Chunk.Load
use luart.Chunk.Load.{ok, ◌>>=◌, return, Reads, split_at, read_n, batch_size}
use luart.Chunk.Trip.{Wrote, W, state, bind_ok, return-Trip, then-Trip}
use luart.Chunk.Trip.Values.{write-write, read_bytes_lem, write_lem, count-Trip, T, write}

length-drop_take : (n : ℕ) → 0 < batch_size × (suc n - min (suc n) batch_size ≤ n)
unfolding batch_size
length-drop_take n = (omega arith, omega arith)

module _ (platform : Platform) (write_error : Bytes → Bytes → Option ℕ)
    (accepts : (out bs : Bytes) → write_error out bs ≡ none) (strip : Bool)
    (ending : Option ℕ) where
  abbrev pub Goes : {A : Type 0} → W platform → Reads A → A → Type 0
  Goes = T platform write_error accepts strip ending 0

  -- A loop that writes each element, and one that reads each.
  pub write_all-Trip :
      {A : Type 0} (f : A → W platform) (r : Reads A) (xs : List A)
      → All (λ x. Goes (f x) r x) xs
      → Goes (Dump.write_all platform write_error strip f xs) (read_n (length xs) r) xs
  unfolding Dump.write_all read_n
  write_all-Trip f r [] h = return-Trip platform []
  write_all-Trip f r (x ∷ xs) (hx, h) =
      then-Trip platform (λ y. read_n (length xs) r >>= λ ys. return (y ∷ ys)) hx
        (then-Trip platform (λ ys. return (x ∷ ys)) (write_all-Trip f r xs h)
          (return-Trip platform (x ∷ xs)))

  -- A loop whose rounds are one write each is one write.
  pub write_all-write :
      {A : Type 0} (f : A → W platform) (bs : A → Bytes)
      → ((x : A) (d : DumpState)
          → d.err ≡ none
          → f x d ≡ write platform write_error accepts strip ending (bs x) d)
      → (xs : List A) (d : DumpState) → d.err ≡ none
      → Dump.write_all platform write_error strip f xs d
        ≡ write platform write_error accepts strip ending
            (Dump.concat_bytes platform write_error strip bs xs)
            d
  unfolding Dump.write_all Dump.concat_bytes
  write_all-write f bs each [] d e = sym (
      write_lem platform write_error accepts strip ending [] d e
      ∙ ap (λ (t : Bytes). record d { out = t }) (append-nil d.out))
  write_all-write f bs each (x ∷ xs) d e =
      let rest = Dump.concat_bytes platform write_error strip bs xs in
      let one : f x d ≡ record d { out = d.out ++ bs x } =
        each x d e ∙ write_lem platform write_error accepts strip ending (bs x) d e in
      ap (Dump.write_all platform write_error strip f xs) one
      ∙ write_all-write f bs each xs (record d { out = d.out ++ bs x }) e
      ∙ ap (write platform write_error accepts strip ending rest)
          (sym (write_lem platform write_error accepts strip ending (bs x) d e))
      ∙ write-write platform write_error accepts strip ending (bs x) rest d e
      ∙ sym (write_lem platform write_error accepts strip ending (bs x ++ rest) d e)

  -- Elements of `size` bytes each, of which the reader makes what h says.
  module _ {A B : Type 0} (f : A → Bytes) (g : Bytes → B) (h : A → B) (size : ℕ)
      (sized : (x : A) → length (f x) ≡ size) where
    abbrev pub all_bytes : List A → Bytes
    all_bytes = Dump.concat_bytes platform write_error strip f

    all_bytes-append : (xs ys : List A) → all_bytes (xs ++ ys) ≡ all_bytes xs ++ all_bytes ys
    unfolding Dump.concat_bytes
    all_bytes-append [] ys = refl
    all_bytes-append (x ∷ xs) ys =
        rw (all_bytes-append xs ys) (sym (append_assoc (f x) (all_bytes xs) (all_bytes ys)))

    length-all_bytes : (xs : List A) → length (all_bytes xs) ≡ length xs * size
    unfolding Dump.concat_bytes
    length-all_bytes [] = omega arith
    length-all_bytes (x ∷ xs) =
        omega (arith, length-append (f x) (all_bytes xs), sized x, length-all_bytes xs)

    abbrev pub Made : List A → Type 0
    Made xs = All (λ (x : A). g (f x) ≡ h x) xs

    map-append : (xs ys : List A) → map h (xs ++ ys) ≡ map h xs ++ map h ys
    map-append [] ys = refl
    map-append (x ∷ xs) ys = ap (λ (zs : List B). h x ∷ zs) (map-append xs ys)

    elements-all_bytes :
        (xs : List A)
        → Made xs
        → Load.elements platform ending (length xs) g size (all_bytes xs) ≡ map h xs
    unfolding Dump.concat_bytes Load.elements
    elements-all_bytes [] made = refl
    elements-all_bytes (x ∷ xs) (made_x, made) =
        let taken : take size (f x ++ all_bytes xs) ≡ f x =
          ap (λ (n : ℕ). take n (f x ++ all_bytes xs)) (sym (sized x))
          ∙ take-append (f x) (all_bytes xs) in
        let left : drop size (f x ++ all_bytes xs) ≡ all_bytes xs =
          ap (λ (n : ℕ). drop n (f x ++ all_bytes xs)) (sym (sized x))
          ∙ drop-append (f x) (all_bytes xs) in
        ap₂ (λ (y : B) (ys : List B). y ∷ ys) (ap g taken ∙ made_x)
          (ap (Load.elements platform ending (length xs) g size) left ∙ elements-all_bytes xs made)

    read_batches_round :
        (fuel n : ℕ) (front back : List A) (rest : Bytes) (absent : Bool) (strings : List Bytes)
        → length front ≡ min (suc n) batch_size
        → length back ≡ suc n - min (suc n) batch_size
        → Made front
        → Load.read_batches platform ending fuel
            (length back)
            g
            size
            (state platform (all_bytes back ++ rest) absent strings)
          ≡ ok (map h back) (state platform rest absent strings)
        → Load.read_batches platform ending
            (suc fuel)
            (suc n)
            g
            size
            (state platform (all_bytes front ++ (all_bytes back ++ rest)) absent strings)
          ≡ ok (map h front ++ map h back) (state platform rest absent strings)
    unfolding Load.read_batches
    read_batches_round fuel n front back rest absent strings e e' made later =
        let k = min (suc n) batch_size in
        bind_ok (Load.read_bytes platform ending (k * size))
          (λ bs. Load.read_batches platform ending fuel (suc n - k) g size >>= λ ys.
            return (Load.elements platform ending k g size bs ++ ys))
          (state platform (all_bytes front ++ (all_bytes back ++ rest)) absent strings)
          (read_bytes_lem platform write_error accepts strip ending (k * size) (all_bytes front)
            (all_bytes back ++ rest) absent strings
            (length-all_bytes front ∙ ap (λ (j : ℕ). j * size) e))
        ∙ bind_ok (Load.read_batches platform ending fuel (suc n - k) g size)
            (λ ys. return (Load.elements platform ending k g size (all_bytes front) ++ ys))
            (state platform (all_bytes back ++ rest) absent strings)
            (ap
                (λ (j : ℕ).
                  Load.read_batches platform ending fuel j g size
                    (state platform (all_bytes back ++ rest) absent strings))
                (sym e')
              ∙ later)
        ∙ ap (λ (ys : List B). ok (ys ++ map h back) (state platform rest absent strings))
            (ap (λ (j : ℕ). Load.elements platform ending j g size (all_bytes front)) (sym e)
              ∙ elements-all_bytes front made)

    read_batches-all_bytes :
        (fuel : ℕ) (xs : List A) (rest : Bytes) (absent : Bool) (strings : List Bytes)
        → Made xs
        → length xs ≤ fuel
        → Load.read_batches platform ending fuel
            (length xs)
            g
            size
            (state platform (all_bytes xs ++ rest) absent strings)
          ≡ ok (map h xs) (state platform rest absent strings)
    unfolding Dump.concat_bytes Load.read_batches
    read_batches-all_bytes fuel [] rest absent strings made le = refl
    read_batches-all_bytes zero (x ∷ xs) rest absent strings made le = elim le [ ]
    read_batches-all_bytes (suc fuel) (x ∷ xs) rest absent strings made le =
        let k = min (suc (length xs)) batch_size in
        let front = take k (x ∷ xs) in
        let back = drop k (x ∷ xs) in
        let whole : front ++ back ≡ x ∷ xs = take-append-drop k (x ∷ xs) in
        let (positive, smaller) = length-drop_take (length xs) in
        let e : length front ≡ k = omega (arith, length-take k (x ∷ xs)) in
        let e' : length back ≡ suc (length xs) - k = length-drop k (x ∷ xs) in
        ap
          (λ (t : Bytes).
            Load.read_batches platform ending (suc fuel) (suc (length xs)) g size
              (state platform t absent strings))
          (ap (λ (t : Bytes). t ++ rest) (ap all_bytes (sym whole) ∙ all_bytes-append front back)
            ∙ append_assoc (all_bytes front) (all_bytes back) rest)
        ∙ read_batches_round fuel (length xs) front back rest absent strings e e'
            (All-take (λ (x : A). g (f x) ≡ h x) k (x ∷ xs) made)
            (read_batches-all_bytes fuel back rest absent strings
              (All-drop (λ (x : A). g (f x) ≡ h x) k (x ∷ xs) made) (omega (arith, e')))
        ∙ ap (λ (ys : List B). ok ys (state platform rest absent strings))
            (sym (map-append front back) ∙ ap (map h) whole)

    -- A list as write_count and one write of all its bytes, and as readList reads it.
    pub list-Trip :
        (xs : List A)
        → length xs < 2 ^ 31
        → Made xs
        → Goes
            (λ d.
              write platform write_error accepts strip ending
                (all_bytes xs)
                (Dump.write_count platform write_error strip (length xs) d))
            (Load.read_list platform ending size g)
            (map h xs)
    unfolding Load.read_list
    list-Trip xs few made =
        then-Trip platform (λ n. Load.read_batches platform ending n n g size)
          (count-Trip platform write_error accepts strip ending (length xs) few) batches
      where
        batches :
            Goes
              (write platform write_error accepts strip ending (all_bytes xs))
              (Load.read_batches platform ending (length xs) (length xs) g size)
              (map h xs)
        batches d e =
            subst
              (λ d'.
                Wrote platform 0 d d'
                  (Load.read_batches platform ending (length xs) (length xs) g size) (map h xs))
              (sym (write_lem platform write_error accepts strip ending (all_bytes xs) d e))
              (record {
                bytes = all_bytes xs;
                fresh = [];
                at_least = omega arith;
                out = refl;
                strings = sym (append-nil d.strings);
                no_err = e;
                reads = λ rest absent bound. (
                  absent,
                  read_batches-all_bytes (length xs) xs rest absent d.strings made (omega arith),
                );
              })
