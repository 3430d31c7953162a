-- ===== src/Utf8.antt =====
-- internal/luautf8/utf8.go: Lua's UTF-8, of up to six bytes for a value below 2 ^ 31.
-- Strings and buffers are lists of bytes; a uint32 is a number below 2 ^ 32.
mod Encoding
mod Decoding
mod RoundTrip
mod Leads
mod LongLeads
mod Canonical
mod Examples
use luart.Prelude.{
  ℕ, zero, suc, ◌+◌, ◌-◌, ◌*◌, ◌/◌, ◌%◌, ◌^◌, Bool, true, false, not, ◌&&◌, ◌||◌, ◌==◌, ltb, leb,
  if◌then◌else◌, Option, some, none, List, [], ◌∷◌, bit_and, bit_or, get_elem?,
}

abbrev pub max_unicode : ℕ
max_unicode = 0x10ffff

abbrev pub max_utf : ℕ
max_utf = 0x7fffffff

-- `buf[n] = b` after `n--`, where n is the number of bytes still free at the front of the buffer;
-- `none` is the panic of an index out of range.
pub encode_loop : ℕ → ℕ → ℕ → List ℕ → Option (List ℕ)
encode_loop zero x mfb out = none
encode_loop (suc zero) x mfb out = none
encode_loop (suc (suc n)) x mfb out =
    let out' = bit_or 0x80 (bit_and x 0x3f) % 256 ∷ out in
    let x' = x / 2 ^ 6 in
    let mfb' = mfb / 2 in
    let first = bit_or ((2 ^ 32 - 1 - mfb') * 2 % 2 ^ 32) x' % 256 in
    let more = encode_loop (suc n) x' mfb' out' in if leb x' mfb' then some (first ∷ out') else more

unfoldable pub encode : ℕ → Option (List ℕ)
unfolding encode_loop
encode x = if ltb x 0x80 then some (x % 256 ∷ []) else encode_loop 8 x 0x3f []

unfoldable pub is_continuation : ℕ → Bool
is_continuation c = bit_and c 0xc0 == 0x80

-- The loop over the continuation bytes. The list is what follows `s[count]`; the result is the
-- final c, count and res, or `none` where the code returns with ok false.
pub decode_loop : List ℕ → ℕ → ℕ → ℕ → Option (ℕ × ℕ × ℕ)
unfolding is_continuation
decode_loop [] c count res = if not (bit_and c 0x40 == 0) then none else some (c, count, res)
decode_loop (b ∷ rest) c count res =
    let next =
      decode_loop rest (c * 2 % 2 ^ 32) (count + 1)
        (bit_or (res * 2 ^ 6 % 2 ^ 32) (bit_and b 0x3f)) in
    if not (bit_and c 0x40 == 0)
    then if is_continuation b then next else none
    else some (c, count, res)

abbrev pub limits : List ℕ
limits = (2 ^ 32 - 1) ∷ 0x80 ∷ 0x800 ∷ 0x10000 ∷ 0x200000 ∷ 0x4000000 ∷ []

-- An index past the end of `limits` would panic; `below_limit` then answers that the value is
-- refused, and `count` never exceeds 5.
pub below_limit : ℕ → ℕ → Bool
below_limit res count = elim (get_elem? limits count) [ none ↦ true | some limit ↦ ltb res limit ]

abbrev pub finish_multi : Option (ℕ × ℕ × ℕ) → Option (ℕ × ℕ)
finish_multi none = none
finish_multi (some (c, count, res)) =
    let res' = bit_or res (bit_and c 0x7f * 2 ^ (count * 5) % 2 ^ 32) in
    if ltb max_utf res' || below_limit res' count then none else some (res', count)

abbrev pub decode_lax : List ℕ → Option (ℕ × ℕ)
decode_lax [] = none
decode_lax (c ∷ rest) =
    if ltb c 0x80
    then some (c, 0)
    else if leb 0xfe c
    then none
    else finish_multi (decode_loop rest c 0 0)

abbrev pub finish : Bool → Option (ℕ × ℕ) → Option (ℕ × ℕ)
finish strict none = none
finish strict (some (res, count)) =
    if strict && (ltb max_unicode res || (leb 0xd800 res && leb res 0xdfff))
    then none
    else some (res, count + 1)

-- The value and the size of the sequence at the start of s, or `none`.
unfoldable pub decode : List ℕ → Bool → Option (ℕ × ℕ)
unfolding decode_loop below_limit
decode s strict = finish strict (decode_lax s)
