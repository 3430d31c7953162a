-- ===== src/Chunk/Trip.antt =====
-- A write and a read that belong together: whatever the one adds to the output, the other takes from
-- the input and gives the value back, and both keep the same list of strings.
pub mod Values
pub mod Index
pub mod Strings
pub mod Lists
pub mod Parts
pub mod Debug
pub mod AnyDebug
pub mod Front
pub mod Whole
use luart.Prelude.{
  ℕ, zero, suc, ◌+◌, ◌-◌, ◌*◌, ◌^◌, ◌≤◌, ◌<◌, ◌≡◌, ◌∙◌, ap, sym, refl, arith, Bool, true, false,
  List, [], ◌∷◌, ◌++◌, Option, some, none, length, length-append, append-nil, append_assoc, map,
  All,
}
use mathlib.Core.Path.{subst}
use luart.Chunk.Proto.{Bytes}
use luart.Chunk.Format.{Platform, reuse_bit}
use luart.Chunk.Dump
use luart.Chunk.Dump.{DumpState, write, write_all}
use luart.Chunk.Load.{
  LoadState, Result, ok, err, stuck, Reads, ◌>>=◌, return, split_at, read_bytes, read_n,
}

-- A read that succeeds is followed by the rest.
pub bind_ok :
    {A B : Type 0} (r : Reads A) (k : A → Reads B) (s : LoadState) {a : A} {s' : LoadState}
    → r s ≡ ok a s'
    → (r >>= k) s ≡ k a s'
bind_ok r k s e = rw (e, ◌>>=◌)

module _ (platform : Platform) where
  abbrev pub W : Type 0
  W = DumpState → DumpState

  abbrev pub state : Bytes → Bool → List Bytes → LoadState
  state input absent strings = record { input = input; absent = absent; strings = strings }

  -- One write from d to d', of at least `least` bytes, and what `r` makes of them.
  pub record Wrote {A : Type 0} (least : ℕ) (d d' : DumpState) (r : Reads A) (a : A) : Type 0 where
    pub bytes : Bytes
    pub fresh : List Bytes
    pub at_least : least ≤ length bytes
    pub out : d'.out ≡ d.out ++ bytes
    pub strings : d'.strings ≡ d.strings ++ fresh
    pub no_err : d'.err ≡ none
    pub reads :
        (rest : Bytes) (absent : Bool)
        → length d'.strings ≤ reuse_bit platform
        → (absent' : Bool) × (r (state (bytes ++ rest) absent d.strings)
            ≡ ok a (state rest absent' d'.strings))

  abbrev pub Trip : {A : Type 0} → ℕ → W → Reads A → A → Type 0
  Trip least w r a = (d : DumpState) → d.err ≡ none → Wrote least d (w d) r a

  -- Nothing is written, and nothing is read.
  pub return-Trip : {A : Type 0} (a : A) → Trip 0 (λ d. d) (return a) a
  return-Trip a d e = record {
    bytes = [];
    fresh = [];
    at_least = omega arith;
    out = sym (append-nil d.out);
    strings = sym (append-nil d.strings);
    no_err = e;
    reads = λ rest absent bound. (absent, refl);
  }

  -- One after the other.
  pub bind-Trip :
      {A B : Type 0} {n m : ℕ} {w w' : W} {r : Reads A} {a : A} {b : B} (k : A → Reads B)
      → Trip n w r a
      → Trip m w' (k a) b
      → Trip (n + m) (λ d. w' (w d)) (r >>= k) b
  bind-Trip {A} {B} {n} {m} {w} {w'} {r} {a} {b} k t t' d e =
      joined (t d e) (t' (w d) (t d e).no_err)
    where
      joined :
          Wrote n d (w d) r a
          → Wrote m (w d) (w' (w d)) (k a) b
          → Wrote (n + m) d (w' (w d)) (r >>= k) b
      joined f g = record {
        bytes = f.bytes ++ g.bytes;
        fresh = f.fresh ++ g.fresh;
        at_least = omega (arith, length-append f.bytes g.bytes, f.at_least, g.at_least);
        out = g.out ∙ ap (λ (t : Bytes). t ++ g.bytes) f.out ∙ append_assoc d.out f.bytes g.bytes;
        strings =
            g.strings
            ∙ ap (λ (t : List Bytes). t ++ g.fresh) f.strings
            ∙ append_assoc d.strings f.fresh g.fresh;
        no_err = g.no_err;
        reads = λ rest absent bound.
            let fewer : length (w d).strings ≤ length (w' (w d)).strings = omega (
              arith,
              ap (λ (t : List Bytes). length t) g.strings,
              length-append (w d).strings g.fresh,
            ) in
            let (absent₁, e₁) = f.reads (g.bytes ++ rest) absent (omega arith) in
            let (absent₂, e₂) = g.reads rest absent₁ bound in
            (
              absent₂,
              ap (λ (t : Bytes). (r >>= k) (state t absent d.strings))
                    (append_assoc f.bytes g.bytes rest)
                  ∙ bind_ok r k (state (f.bytes ++ (g.bytes ++ rest)) absent d.strings) e₁
                  ∙ e₂,
            );
      }

  pub weaken-Trip :
      {A : Type 0} {n l : ℕ} {w : W} {r : Reads A} {a : A} → Trip n w r a → l ≤ n → Trip l w r a
  weaken-Trip {A} {n} {l} {w} {r} {a} t le d e = weaker (t d e)
    where
      weaker : Wrote n d (w d) r a → Wrote l d (w d) r a
      weaker f = record {
        bytes = f.bytes;
        fresh = f.fresh;
        at_least = omega (arith, le, f.at_least);
        out = f.out;
        strings = f.strings;
        no_err = f.no_err;
        reads = f.reads;
      }

  -- The same, where the number of bytes does not matter.
  pub then-Trip :
      {A B : Type 0} {n m : ℕ} {w w' : W} {r : Reads A} {a : A} {b : B} (k : A → Reads B)
      → Trip n w r a
      → Trip m w' (k a) b
      → Trip 0 (λ d. w' (w d)) (r >>= k) b
  then-Trip k t t' = weaken-Trip (bind-Trip k t t') (omega arith)

  -- A value that is made of what was read.
  pub map-Trip :
      {A B : Type 0} {n : ℕ} {w : W} {r : Reads A} {a : A} {b : B} (f : A → B)
      → Trip n w r a
      → f a ≡ b
      → Trip n w (r >>= λ x. return (f x)) b
  map-Trip {A} {B} {n} {w} {r} {a} {b} f t e =
      subst (λ (y : B). Trip n w (r >>= λ x. return (f x)) y) e
        (weaken-Trip (bind-Trip (λ x. return (f x)) t (return-Trip (f a))) (omega arith))
