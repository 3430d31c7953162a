-- ===== src/Chunk/Short.antt =====
-- internal/chunk/load.go: what Load reports of an input that ends within the header.
use luart.Prelude.{ℕ, zero, suc, ◌<◌, ◌≡◌, refl, arith, [], ◌∷◌, Option, some, none, length}
use luart.Chunk.Proto.{Bytes}
use luart.Chunk.Format.{Platform}
use luart.Chunk.Load
use luart.Chunk.Load.{split_at, LoadError, truncated, io}

split_at-short : (n : ℕ) (bs : Bytes) → length bs < n → split_at n bs ≡ none
unfolding split_at
split_at-short zero bs h = elim h [ ]
split_at-short (suc n) [] h = refl
split_at-short (suc n) (b ∷ bs) h = rw (split_at-short n bs (omega arith)) refl

-- A reader's own error, or that the chunk is truncated.
abbrev pub short_error : Option ℕ → LoadError
short_error none = truncated
short_error (some e) = io e

-- An input of fewer than 18 bytes, whether none or some, is reported as truncated where it ends,
-- and by the reader's own error where the reader fails.
pub load-short_error :
    (platform : Platform) (ending : Option ℕ) (bytes : Bytes)
    → length bytes < 18
    → Load.load platform ending bytes ≡ Load.load_error (short_error ending)
unfolding Load.load
load-short_error platform none [] h = refl
load-short_error platform (some e) [] h = refl
load-short_error platform none (b ∷ bs) h =
    let short : split_at 18 (b ∷ bs) ≡ none = split_at-short 18 (b ∷ bs) h in ground (arith, short)
load-short_error platform (some e) (b ∷ bs) h =
    let short : split_at 18 (b ∷ bs) ≡ none = split_at-short 18 (b ∷ bs) h in ground (arith, short)
