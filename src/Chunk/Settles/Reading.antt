-- ===== src/Chunk/Settles/Reading.antt =====
-- internal/chunk/load.go: each read settles, and so does Load.
use luart.Prelude.{
  ℕ, zero, suc, ◌-◌, ◌*◌, ◌^◌, ◌≤◌, ◌<◌, ◌≡◌, ◌≢◌, refl, arith, Bool, false, not, List, [], Option,
  some, none, length, min, take, bit_and, ltb, ◌==◌, get_elem?, drop,
}
use luart.Prelude.Int.{ℤ, pos, negsuc}
use luart.Chunk.Proto.{Bytes, UpValueDesc, Proto}
use luart.Chunk.Format.{Platform, of_bytes, pointer_size, reuse_bit, header, signature, tail_mark}
use luart.Chunk.Dump.{same_bytes}
use luart.Chunk.Load
use luart.Chunk.Load.{
  LoadState, Result, ok, err, stuck, Reads, ◌>>=◌, return, fail, split_at, read_n, batch_size,
}
use luart.Chunk.Settles.{
  Settled, Settles, bind-Settles, weaken-Settles, return-Settles, fail-Settles, if-Settles,
  then-Settles, n-Settles, split_at-length,
}

module _ (platform : Platform) (ending : Option ℕ) where
  bytes-Settles : (m n : ℕ) → Settles m n (Load.read_bytes platform ending n)
  unfolding Load.read_bytes
  bytes-Settles m n = record { run = λ s le. go s (split_at n s.input) refl }
    where
      go :
          (s : LoadState) (x : Option (Bytes × Bytes))
          → split_at n s.input ≡ x
          → Settled n (length s.input) (elim x [
            | none ↦ err (Load.short_read platform ending s.input)
            | some (front, rest) ↦ ok front (record s { input = rest })
          ])
      go s none e = tt
      go s (some (front, rest)) e = omega (arith, split_at-length n s.input e)

  copy-Settles : (m n : ℕ) → Settles m n (Load.copy_bytes platform ending n)
  unfolding Load.copy_bytes
  copy-Settles m n = record { run = λ s le. go s (split_at n s.input) refl }
    where
      go :
          (s : LoadState) (x : Option (Bytes × Bytes))
          → split_at n s.input ≡ x
          → Settled n (length s.input) (elim x [
            | none ↦ err (Load.short_copy platform ending)
            | some (front, rest) ↦ ok front (record s { input = rest })
          ])
      go s none e = tt
      go s (some (front, rest)) e = omega (arith, split_at-length n s.input e)

  word-Settles : (m k : ℕ) → Settles m k (Load.read_word platform ending k)
  unfolding Load.read_word
  word-Settles m k =
      weaken-Settles (omega arith) (omega arith)
        (bind-Settles 0 (bytes-Settles m k) (λ bs m' le. return-Settles (of_bytes platform bs)))

  int-Settles : (m : ℕ) → Settles m 4 (Load.read_int platform ending)
  unfolding Load.read_int
  int-Settles m = bind-Settles 0 (word-Settles m 4) (λ n m' le. return-Settles _)

  count-Settles : (m : ℕ) → Settles m 0 (Load.read_count platform ending)
  unfolding Load.read_count
  count-Settles m = then-Settles (weaken-Settles (omega arith) (omega arith) (int-Settles m)) go
    where
      go :
          (i : ℤ) (m' : ℕ)
          → m' ≤ m
          → Settles m' 0 (elim i [ pos n ↦ return n | negsuc n ↦ fail {A = ℕ} Load.corrupted ])
      go (pos n) m' le = return-Settles n
      go (negsuc n) m' le = fail-Settles Load.corrupted

  byte-Settles : (m : ℕ) → Settles m 0 (Load.read_byte platform ending)
  unfolding Load.read_byte
  byte-Settles m = weaken-Settles (omega arith) (omega arith) (word-Settles m 1)

  bool-Settles : (m : ℕ) → Settles m 0 (Load.read_bool platform ending)
  unfolding Load.read_bool
  bool-Settles m = then-Settles (byte-Settles m) (λ b m' le. return-Settles _)

  reused-Settles : (m i : ℕ) → Settles m 0 (Load.reused_string platform ending i)
  unfolding Load.reused_string
  reused-Settles m i = record { run = λ s le. go s (get_elem? s.strings i) }
    where
      go :
          (s : LoadState) (x : Option Bytes)
          → Settled 0
              (length s.input)
              (elim x as (λ _. Result Bytes) [ none ↦ err Load.corrupted | some t ↦ ok t s ])
      go s none = tt
      go s (some t) = omega arith

  fresh-Settles : (m n : ℕ) → Settles m 0 (Load.fresh_string platform ending n)
  unfolding Load.fresh_string
  fresh-Settles m n =
      then-Settles (weaken-Settles (omega arith) (omega arith) (copy-Settles m n))
        (λ bs m' le. record { run = λ s le'. omega arith })

  absent-Settles : (m : ℕ) (b : Bool) → Settles m 0 (Load.set_absent platform ending b)
  absent-Settles m b = record { run = λ s le. omega arith }

  string-Settles : (m : ℕ) → Settles m 0 (Load.read_string platform ending)
  unfolding Load.read_string
  string-Settles m =
      then-Settles
        (weaken-Settles (omega arith) (omega arith) (word-Settles m (pointer_size platform)))
        (λ size m' le. then-Settles (absent-Settles m' (size == 0)) (λ _ m'' le'.
          if-Settles (size == 0) (return-Settles []) (
            if-Settles (not (bit_and size (reuse_bit platform) == 0))
              (reused-Settles m'' (bit_and size (2 ^ 64 - 1 - reuse_bit platform)))
              (if-Settles (ltb (2 ^ 62) size) (fail-Settles Load.corrupted)
                (fresh-Settles m'' size)))))

  batches-Settles :
      {A : Type 0} (m fuel n : ℕ) (f : Bytes → A) (size : ℕ)
      → n ≤ fuel
      → Settles m 0 (Load.read_batches platform ending fuel n f size)
  unfolding Load.read_batches batch_size
  batches-Settles m fuel zero f size h = return-Settles []
  batches-Settles m zero (suc n) f size h = elim h [ ]
  batches-Settles m (suc fuel) (suc n) f size h =
      then-Settles
        (weaken-Settles (omega arith) (omega arith)
          (bytes-Settles m (min (suc n) batch_size * size)))
        (λ bs m' le.
          then-Settles
            (batches-Settles m' fuel (suc n - min (suc n) batch_size) f size (omega (arith, h)))
            (λ xs m'' le'. return-Settles _))

  list-Settles :
      {A : Type 0} (m size : ℕ) (f : Bytes → A)
      → Settles m 0 (Load.read_list platform ending size f)
  unfolding Load.read_list
  list-Settles m size f =
      then-Settles (count-Settles m) (λ n m' le. batches-Settles m' n n f size (omega arith))

  local-Settles : (m : ℕ) → Settles m 0 (Load.read_local_variable platform ending)
  unfolding Load.read_local_variable
  local-Settles m = then-Settles (string-Settles m) (λ name m' le.
      then-Settles (weaken-Settles (omega arith) (omega arith) (int-Settles m')) (λ start m'' le'.
        then-Settles (weaken-Settles (omega arith) (omega arith) (int-Settles m''))
          (λ end m3 le3. return-Settles _)))

  constant-Settles : (m : ℕ) → Settles m 0 (Load.read_constant platform ending)
  unfolding Load.read_constant
  constant-Settles m = then-Settles (byte-Settles m) (λ t m' le.
      if-Settles (t == 0) (return-Settles _) (
        if-Settles (t == 1) (then-Settles (bool-Settles m') (λ b m'' le'. return-Settles _)) (
          if-Settles (t == 3) (then-Settles (word m') (λ b m'' le'. return-Settles _)) (
            if-Settles (t == 0x13) (then-Settles (word m') (λ b m'' le'. return-Settles _)) (
              if-Settles (t == 4) (then-Settles (string-Settles m') (λ b m'' le'. return-Settles _))
                (fail-Settles Load.corrupted))))))
    where
      word : (m : ℕ) → Settles m 0 (Load.read_word platform ending 8)
      word m = weaken-Settles (omega arith) (omega arith) (word-Settles m 8)

  counted-Settles :
      {A : Type 0} {r : Reads A} (m : ℕ)
      → ((m' : ℕ) → m' ≤ m → Settles m' 0 r)
      → Settles m 0 (Load.read_count platform ending >>= λ n. read_n n r)
  counted-Settles m h =
      then-Settles (count-Settles m)
        (λ n m' le. n-Settles m' n (λ m'' le'. h m'' (omega (arith, le, le'))))

  debug-Settles : (m : ℕ) (us : List UpValueDesc) → Settles m 0 (Load.read_debug platform ending us)
  unfolding Load.read_debug Load.read_source Load.read_local_variables
  debug-Settles m us =
      then-Settles
        (then-Settles (string-Settles m) (λ source m' le. record { run = λ s le'. omega arith }))
        (λ source m1 le1. then-Settles (list-Settles m1 4 _) (λ lines m2 le2.
          then-Settles (counted-Settles m2 (λ m' le. local-Settles m')) (λ locals m3 le3.
            then-Settles (count-Settles m3) (λ n m4 le4.
              then-Settles
                (if-Settles (ltb (length us) n) (fail-Settles Load.corrupted) (
                  then-Settles (n-Settles m4 n (λ m' le. string-Settles m'))
                    (λ ss m' le. return-Settles _)))
                (λ us' m5 le5. return-Settles _)))))

  front-Settles : (m : ℕ) → Settles m 4 (Load.read_front platform ending)
  unfolding Load.read_front Load.read_constants
  front-Settles m = bind-Settles 0 (int-Settles m) (λ line m1 le1.
      then-Settles (weaken-Settles (omega arith) (omega arith) (int-Settles m1)) (λ last m2 le2.
        then-Settles (byte-Settles m2) (λ parameters m3 le3.
          then-Settles (byte-Settles m3) (λ vararg m4 le4.
            then-Settles (byte-Settles m4) (λ stack m5 le5.
              then-Settles (list-Settles m5 4 _) (λ code m6 le6.
                then-Settles (counted-Settles m6 (λ m' le. constant-Settles m'))
                  (λ constants m7 le7. return-Settles _)))))))

  function-Settles : (fuel m : ℕ) → m < fuel → Settles m 0 (Load.read_function platform ending fuel)
  unfolding Load.read_function Load.read_up_values
  function-Settles zero m h = elim h [ ]
  function-Settles (suc fuel) m h = weaken-Settles (omega arith) (omega arith) (
      bind-Settles 0 (front-Settles m) (λ front m1 le1. then-Settles (count-Settles m1) (λ n m2 le2.
        then-Settles
          (n-Settles m2 n (λ m' le. function-Settles fuel m' (omega (arith, le, le1, le2, h))))
          (λ ps m3 le3.
            then-Settles (list-Settles m3 2 _) (λ us m4 le4.
              then-Settles (debug-Settles m4 us) (λ debug m5 le5. return-Settles _))))))

  header-Settles : (m : ℕ) (h : Bytes) → Settles m 0 (Load.test_header platform ending h)
  header-Settles m h = if-Settles (same_bytes h (header platform)) (return-Settles tt) (
      if-Settles (not (same_bytes (take 4 h) signature)) (fail-Settles Load.not_precompiled) (
        if-Settles (not (same_bytes (take 2 (drop 4 h)) (take 2 (drop 4 (header platform)))))
          (fail-Settles Load.version_mismatch)
          (if-Settles (not (same_bytes (drop 12 h) tail_mark)) (fail-Settles Load.corrupted)
            (fail-Settles Load.incompatible))))

  load-Settles :
      (bytes : Bytes)
      → Settles (length bytes) 0 (
          Load.check_header platform ending >>= λ _.
          Load.read_function platform ending (length bytes))
  unfolding Load.check_header
  load-Settles bytes = weaken-Settles (omega arith) (omega arith) (
      bind-Settles 0
        (bind-Settles 0 (bytes-Settles (length bytes) 18) (λ h m' le. header-Settles m' h))
        (λ _ m' le. function-Settles (length bytes) m' (omega (arith, le))))

  -- Load always returns a function or an error.
  pub load_total : (bytes : Bytes) → Load.load platform ending bytes ≢ Load.load_stuck
  unfolding Load.load
  load_total bytes = go (length bytes) _ (
      (load-Settles bytes).run (record { input = bytes; absent = false; strings = [] })
        (omega arith))
    where
      go :
          (k : ℕ) (x : Result (Proto (Load.Source platform ending)))
          → Settled 0 k x
          → Load.finish_load platform ending x ≢ Load.load_stuck
      go k (ok p s) settled e = ground arith
      go k (err e') settled e = ground arith
      go k stuck settled e = settled
