-- ===== src/Utf8/Examples.antt =====
-- Concrete sequences, and the theorems of `Utf8` at them.
use luart.Prelude.{
  ℕ, ◌≤◌, ◌≡◌, refl, arith, true, false, not, ◌&&◌, some, none, if◌then◌else◌, List, [], ◌∷◌, ◌++◌,
  length,
}
use luart.Utf8.{encode, decode, max_utf}
use luart.Utf8.RoundTrip.{decode-encode, is_scalar}
use luart.Utf8.Canonical.{decode-canonical}

-- The euro sign.
abbrev euro : List ℕ
euro = 0xe2 ∷ 0x82 ∷ 0xac ∷ []

encode-euro : encode 0x20ac ≡ some euro
unfolding encode
encode-euro = refl

encode_largest : encode max_utf ≡ some (0xfd ∷ 0xbf ∷ 0xbf ∷ 0xbf ∷ 0xbf ∷ 0xbf ∷ [])
unfolding encode
encode_largest = refl

decode-euro : decode (euro ++ 65 ∷ []) true ≡ some (0x20ac, 3)
unfolding decode
decode-euro = refl

overlong : decode (0xc1 ∷ 0x81 ∷ []) false ≡ none
unfolding decode
overlong = refl

surrogate_is_lax : decode (0xed ∷ 0xa0 ∷ 0x80 ∷ []) false ≡ some (0xd800, 3)
unfolding decode
surrogate_is_lax = refl

decode-encode_example :
    (bytes : List ℕ) × (encode 0xd800 ≡ some bytes)
    × (1 ≤ length bytes)
    × (length bytes ≤ 6)
    × (decode (bytes ++ euro) false ≡ some (0xd800, length bytes))
    × (decode (bytes ++ euro) true
        ≡ (if is_scalar 0xd800 then some (0xd800, length bytes) else none))
decode-encode_example = decode-encode 0xd800 euro (omega arith)

decode-canonical_example :
    (0x20ac ≤ max_utf)
    × ((true && not (is_scalar 0x20ac)) ≡ false)
    × (bytes : List ℕ) × (rest : List ℕ) × (encode 0x20ac ≡ some bytes)
    × (euro ++ 65 ∷ [] ≡ bytes ++ rest)
    × (3 ≡ length bytes)
decode-canonical_example =
    decode-canonical (euro ++ 65 ∷ []) true 0x20ac 3 (omega arith) decode-euro
