-- ===== src/Chunk/RoundTrip.antt =====
-- internal/chunk: what Load makes of the chunk that Dump wrote.
use luart.Prelude.{
  if-true, ℕ, ◌+◌, ◌≤◌, ◌≡◌, ◌∙◌, ap, sym, refl, arith, Bool, true, false, [], ◌∷◌, ◌++◌, Option,
  none, length, append-nil,
}
use mathlib.Core.Path.{subst}
use native.Mathlib.Nat.{le_refl}
use luart.Chunk.Proto.{Bytes, Proto, depth}
use luart.Chunk.Format.{Platform, header, reuse_bit}
use luart.Chunk.Dump
use luart.Chunk.Dump.{same_bytes, DumpState}
use luart.Chunk.Load
use luart.Chunk.Load.{ok, ◌>>=◌, return, Reads}
use luart.Chunk.Trip.{Trip, Wrote, state, return-Trip, bind-Trip}
use luart.Chunk.Trip.Values.{write-Trip}
use luart.Chunk.Inherit.{Around, inherit-sent, inherit-sent-stripped, stripped}
use luart.Chunk.Trip.Whole.{ProtoFits, sent, function-Trip}

same_bytes_refl : (s : Bytes) → same_bytes s s ≡ true
unfolding same_bytes
same_bytes_refl [] = refl
same_bytes_refl (x ∷ s) = ground (arith, same_bytes_refl s)

module _ (platform : Platform) (write_error : Bytes → Bytes → Option ℕ)
    (accepts : (out bs : Bytes) → write_error out bs ≡ none) (strip : Bool)
    (ending : Option ℕ) where
  header-Trip :
      Trip platform 18
        (Dump.write platform write_error strip (header platform))
        (Load.check_header platform ending)
        tt
  unfolding Load.check_header
  header-Trip =
      bind-Trip platform (Load.test_header platform ending)
        (write-Trip platform write_error accepts strip ending (header platform))
        (subst (λ r. Trip platform 0 (λ d. d) r tt)
          (sym (if-true _ _ (same_bytes_refl (header platform)))) (return-Trip platform tt))

  -- What a whole chunk gives, before the sources are inherited.
  module _ (p : Proto Bytes) (fits : ProtoFits platform write_error accepts strip ending p) where
    whole :
        (fuel : ℕ)
        → depth p ≤ fuel
        → Wrote platform
            (18 + depth p)
            (Dump.empty_dump platform write_error strip)
            (Dump.dump platform write_error strip p)
            (Load.check_header platform ending >>= λ _. Load.read_function platform ending fuel)
            (sent platform write_error accepts strip ending p none)
    unfolding Dump.dump
    whole fuel le =
        bind-Trip platform (λ _. Load.read_function platform ending fuel) header-Trip
          (function-Trip platform write_error accepts strip ending fuel p none le fits)
          (Dump.empty_dump platform write_error strip) refl

    load-sent :
        length (Dump.dump platform write_error strip p).strings ≤ reuse_bit platform
        → Load.load platform ending (Dump.dump platform write_error strip p).out
          ≡ Load.loaded (
              Load.inherit_sources platform ending
                (sent platform write_error accepts strip ending p none)
                (Load.unnamed platform ending))
    unfolding Load.load
    load-sent bound =
        let out = (Dump.dump platform write_error strip p).out in
        let fuel = length out in
        let first = whole (depth p) (le_refl (depth p)) in
        let long : depth p ≤ fuel =
          omega (arith, first.at_least, ap (λ (t : Bytes). length t) first.out) in
        let sent_whole = whole fuel long in
        let (absent, e) = sent_whole.reads [] false bound in
        let bytes : out ≡ sent_whole.bytes ++ [] =
          sent_whole.out ∙ sym (append-nil sent_whole.bytes) in
        ap
          (λ (t : Bytes). Load.finish_load platform ending (
            (Load.check_header platform ending >>= λ _. Load.read_function platform ending fuel)
              (state platform t false [])))
          bytes
        ∙ ap (Load.finish_load platform ending) e

  -- A function whose parts fit the format, dumped whole to a writer that does not fail, is what
  -- loading the bytes gives, if its strings are no more than the reuse bit allows to number.
  pub load-dump :
      (p : Proto Bytes)
      → strip ≡ false
      → ProtoFits platform write_error accepts strip ending p
      → length (Dump.dump platform write_error strip p).strings ≤ reuse_bit platform
      → Load.load platform ending (Dump.dump platform write_error strip p).out ≡ Load.loaded p
  unfolding Around
  load-dump p keep fits bound =
      load-sent p fits bound
      ∙ ap Load.loaded (
          inherit-sent platform write_error accepts strip ending p none
            (Load.unnamed platform ending) keep (λ s e. ground arith) fits)

  -- Dumped without debug information, it is loaded as itself with no line numbers, no local
  -- variables, no names of upvalues, and "=?" for the source of every function.
  pub load-dump-stripped :
      (p : Proto Bytes)
      → strip ≡ true
      → ProtoFits platform write_error accepts strip ending p
      → length (Dump.dump platform write_error strip p).strings ≤ reuse_bit platform
      → Load.load platform ending (Dump.dump platform write_error strip p).out
        ≡ Load.loaded (stripped platform write_error accepts strip ending p)
  load-dump-stripped p drop fits bound =
      load-sent p fits bound
      ∙ ap Load.loaded
          (inherit-sent-stripped platform write_error accepts strip ending p none drop fits)
