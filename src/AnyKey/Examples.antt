-- ===== src/AnyKey/Examples.antt =====
-- lua/tables.go at keys of any kind, at concrete inputs.
use luart.Prelude.{
  none_ne_some, ℕ, [], ◌∷◌, ◌≡◌, ◌≢◌, refl, arith, Option, none, some, Bool, true, false, ◌==◌,
}
use luart.Prelude.Int.{ℤ, pos}
use luart.Table.{Table, integer, other, has_key}
use luart.Table.Update.{Unique}
use luart.Shape.{empty_shape}
use luart.Shape.Fields.{Shared}
use luart.Shape.Store.{root-WfStore}
use luart.AnyKey.{
  integer_number, float_number, AnyKey, nil_key, number_key, object_key, Object, PutResult,
  put_done, memory_thrown, nil_index, nan_index, at, put, try_put,
}
use luart.AnyKey.Places.{Sound}
use luart.AnyKey.Put.{Puts, put-Puts}
use luart.AnyKey.Free.{put-memory_thrown}
use luart.AnyKey.Try.{Tries, try_put-Tries}

-- The bits 4 stand for the float 2.0 here, 5 for 0.5 and 9 for a NaN.
abbrev to_integer : ℕ → Option ℤ
to_integer x = elim (x == 4) [ true ↦ some (pos 2) | false ↦ none ]

abbrev nan : ℕ → Bool
nan x = x == 9

abbrev two : AnyKey
two = number_key (float_number 4)

abbrev half_key : AnyKey
half_key = number_key (float_number 5)

abbrev shared : Shared
shared = record {
  shapes = empty_shape ∷ [];
  sites = [];
  heap = record { remaining = 1000; limited = false };
}

abbrev parts : Table ℕ
parts = record {
  array = some 10 ∷ some 20 ∷ [];
  has_hash = true;
  hash = (integer (pos 4), some 40) ∷ (other 7, some 70) ∷ [];
}

abbrev object : Object ℕ
object = record {
  strings = record {
    shape = none;
    values = [];
    dead = pos 0;
    buried = pos 0;
    walking = true;
    site = none;
  };
  table = parts;
}

object-Sound : Sound shared object
unfolding Unique has_key
object-Sound = record {
  store = root-WfStore;
  strings = record {
    bare = λ e. refl;
    in_store = λ r e. absurd (none_ne_some e);
    lies = λ r e. absurd (none_ne_some e);
  };
  table = record { unique = (refl, (refl, tt)); separate = λ j inside. ground arith };
}

put-Puts_example :
    Puts to_integer nan shared object half_key
      (some 5)
      (put to_integer nan 16 40 shared object half_key (some 5))
put-Puts_example = put-Puts to_integer nan shared object (some 5) object-Sound 16 40 half_key

put-memory_thrown_example : put to_integer nan 16 40 shared object half_key (some 5) ≢ memory_thrown
put-memory_thrown_example =
    put-memory_thrown to_integer nan 16 40 shared object (some 5) refl half_key

try_put-Tries_example :
    Tries to_integer nan shared object two
      (some 5)
      (try_put to_integer nan shared.shapes object two (some 5))
try_put-Tries_example = try_put-Tries to_integer nan shared object (some 5) object-Sound two

abbrev read_after : PutResult ℕ → AnyKey → Option ℕ
read_after (put_done sh o) k = at to_integer sh.shapes o k
read_after r k = none

-- 2.0 and 2 are one key.
one_key :
    read_after
      (put to_integer nan 16 40 shared object two (some 5))
      (number_key (integer_number (pos 2)))
    ≡ some 5
unfolding put at
one_key = refl

abbrev walks_after : PutResult ℕ → Bool
walks_after (put_done sh o) = o.strings.walking
walks_after r = true

-- A new entry of the hash part ends a traversal, and a store to an old one does not.
walk_ends : walks_after (put to_integer nan 16 40 shared object half_key (some 5)) ≡ false
unfolding put
walk_ends = refl

walk_goes_on : walks_after (put to_integer nan 16 40 shared object (object_key 3) (some 5)) ≡ true
unfolding put
walk_goes_on = refl

no_nil : put to_integer nan 16 40 shared object nil_key (some 5) ≡ nil_index
unfolding put
no_nil = refl

no_nan : put to_integer nan 16 40 shared object (number_key (float_number 9)) (some 5) ≡ nan_index
unfolding put
no_nan = refl

not_there : try_put to_integer nan shared.shapes object half_key (some 5) ≡ (false, object)
unfolding try_put
not_there = refl
