-- ===== src/Table/Examples.antt =====
-- Tables with numbers as values, and the theorems of this part applied to them.
use luart.Prelude.{
  ℕ, ◌+◌, ◌*◌, ◌^◌, ◌≡◌, ◌≢◌, refl, arith, true, false, List, [], ◌∷◌, Option, some, none, suc,
  zero,
}
use luart.Prelude.Int.{pos}
use luart.Table.{
  Table, Key, integer, other, Heap, at_int, lookup, has_key, table_length, put_at_int,
}
use luart.Table.Search.{Border}
use luart.Table.Length.{Small, absent, table_length-Border}
use luart.Table.Update.{Unique}
use luart.Table.Grow.{WellFormed}
use luart.Table.Put.{Stores, put_at_int-at_int, put_at_int_total}
use luart.Table.Keep.{Keeps, put_at_int-Keeps}

-- Two values in the array, one after it and one at another key in the hash part.
abbrev sample : Table ℕ
sample = record {
  array = some 10 ∷ some 20 ∷ [];
  has_hash = true;
  hash = (integer (pos 4), some 40) ∷ (other 7, some 70) ∷ [];
}

sample-WellFormed : WellFormed sample
unfolding Unique has_key
sample-WellFormed = record { unique = (refl, (refl, tt)); separate = λ j inside. ground arith }

sample-Small : Small sample
unfolding at_int lookup
sample-Small = record {
  keys = λ k h. ground arith;
  array = omega arith;
  no_hash = λ e. ground arith;
}

table_length-Border_example :
    (n : ℕ) × (table_length sample ≡ some (pos n)) × Border (absent sample) n
table_length-Border_example = table_length-Border sample sample-Small

abbrev free : Heap
free = record { remaining = 100; limited = false }

-- The store at 3 grows the array, which takes the value at 4 from the hash part.
put_at_int-at_int_example :
    Stores sample (pos 3) (some 30) (put_at_int 16 40 free sample (pos 3) (some 30))
put_at_int-at_int_example = put_at_int-at_int 16 40 free sample (pos 3) (some 30) sample-WellFormed

put_at_int-Keeps_example : Keeps (put_at_int 16 40 free sample (pos 3) (some 30))
put_at_int-Keeps_example = put_at_int-Keeps 16 40 free sample (pos 3) (some 30) sample-WellFormed

put_at_int_total_example : put_at_int 16 40 free sample (pos 3) (some 30) ≢ none
put_at_int_total_example = put_at_int_total 16 40 free sample (pos 3) (some 30) refl

grows :
    put_at_int 16 40 free sample (pos 3) (some 30)
    ≡ some (
      record { remaining = 68; limited = false },
      record {
        array = some 10 ∷ some 20 ∷ some 30 ∷ some 40 ∷ [];
        has_hash = true;
        hash = (other 7, some 70) ∷ [];
      },
    )
unfolding put_at_int
grows = refl

-- The keys 3, 6, 12 and so on, doubled n times.
abbrev doubled : ℕ → ℕ → List (Key × Option ℕ)
doubled zero k = []
doubled (suc n) k = (integer (pos k), some 1) ∷ doubled n (k * 2)

-- With values up to 3 * 2 ^ 60 and at the key after it, the sum of the binary search overflows.
abbrev overflowing : Table ℕ
overflowing = record {
  array = some 1 ∷ some 1 ∷ [];
  has_hash = true;
  hash = (integer (pos (3 * 2 ^ 60 + 1)), some 1) ∷ doubled 61 3;
}

no_border : table_length overflowing ≡ some (pos (3 * 2 ^ 60))
unfolding table_length
no_border = refl
