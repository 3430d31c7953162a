-- ===== src/Chunk/Format.antt =====
-- internal/chunk/chunk.go: the platform's byte order and pointer size, the header of the chunks it
-- reads and writes, and fixed-size values as bytes (what encoding/binary does with them).
pub mod Words
use luart.Prelude.{
  ℕ, zero, suc, ◌+◌, ◌-◌, ◌*◌, ◌/◌, ◌%◌, ◌^◌, Bool, true, false, List, [], ◌∷◌, ◌++◌, ltb,
  if◌then◌else◌, reverse,
}
use luart.Prelude.Int.{ℤ, pos, negsuc}
use luart.Chunk.Proto.{Bytes}

-- Whether the byte order is little endian, and whether pointers take 8 bytes or 4.
pub record Platform : Type 0 where
  pub little : Bool
  pub wide : Bool

-- The last k bytes of a number, the lowest first, and back.
unfoldable pub to_le : ℕ → ℕ → Bytes
to_le zero n = []
to_le (suc k) n = n % 256 ∷ to_le k (n / 256)

unfoldable pub of_le : Bytes → ℕ
of_le [] = 0
of_le (b ∷ bs) = b + 256 * of_le bs

-- The patterns of an int32 and an int64.
abbrev pub to_u32 : ℤ → ℕ
to_u32 (pos n) = n % 2 ^ 32
to_u32 (negsuc n) = 2 ^ 32 - 1 - n % 2 ^ 32

abbrev pub of_u32 : ℕ → ℤ
of_u32 u = if ltb u (2 ^ 31) then pos u else negsuc (2 ^ 32 - 1 - u)

abbrev pub byte_of_bool : Bool → ℕ
byte_of_bool true = 1
byte_of_bool false = 0

abbrev pub signature : Bytes
signature = 27 ∷ 76 ∷ 117 ∷ 97 ∷ []

abbrev pub tail_mark : Bytes
tail_mark = 0x19 ∷ 0x93 ∷ 13 ∷ 10 ∷ 0x1a ∷ 10 ∷ []

abbrev pub tag_nil : ℕ
tag_nil = 0

abbrev pub tag_boolean : ℕ
tag_boolean = 1

abbrev pub tag_number : ℕ
tag_number = 3

abbrev pub tag_string : ℕ
tag_string = 4

abbrev pub tag_integer : ℕ
tag_integer = 0x13

module _ (platform : Platform) where
  -- The order in which the bytes of a value stand.
  unfoldable pub order : Bytes → Bytes
  order bs = if platform.little then bs else reverse bs

  -- A value of k bytes as it is written, and as it is read.
  unfoldable pub to_bytes : ℕ → ℕ → Bytes
  unfolding to_le order
  to_bytes k n = order (to_le k n)

  unfoldable pub of_bytes : Bytes → ℕ
  unfolding of_le order
  of_bytes bs = of_le (order bs)

  abbrev pub pointer_size : ℕ
  pointer_size = if platform.wide then 8 else 4

  -- `reuseBit()`: the top bit of a size field.
  abbrev pub reuse_bit : ℕ
  reuse_bit = if platform.wide then 2 ^ 63 else 2 ^ 31

  -- Signature, version, format, endianness, int size, pointer size, instruction size, number size,
  -- integral number, tail.
  abbrev pub header : Bytes
  header =
      signature
      ++ (0x55 ∷ 4 ∷ byte_of_bool platform.little ∷ 4 ∷ pointer_size ∷ 4 ∷ 8 ∷ 0 ∷ tail_mark)
