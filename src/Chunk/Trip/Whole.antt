-- ===== src/Chunk/Trip/Whole.antt =====
-- The trip of a function with the functions nested in it.
use luart.Prelude.{
  ℕ, zero, suc, ◌^◌, ◌≤◌, ◌<◌, ◌≡◌, arith, Bool, List, [], ◌∷◌, Option, some, none, refl,
}
use luart.Chunk.Proto.{
  Bytes, Proto, Protos, proto, done, more, count_protos, to_protos, depth, depth_protos,
}
use luart.Chunk.Format.{Platform}
use luart.Chunk.Dump
use luart.Chunk.Load
use luart.Chunk.Load.{◌>>=◌, return, read_n}
use luart.Chunk.Trip.{Trip, return-Trip, map-Trip, weaken-Trip, bind-Trip}
use luart.Chunk.Trip.Values.{count-Trip}
use luart.Chunk.Trip.Strings.{CanWrite}
use luart.Chunk.Trip.Parts.{up_values-Trip}
use luart.Chunk.Trip.AnyDebug.{sent_debug, any_debug-Trip}
use luart.Chunk.Trip.Front.{BodyFits, front_of, front-Trip}

module _ (platform : Platform) (write_error : Bytes → Bytes → Option ℕ)
    (accepts : (out bs : Bytes) → write_error out bs ≡ none) (strip : Bool)
    (ending : Option ℕ) where
  abbrev Source : Type 0
  Source = Load.Source platform ending

  -- Everything in a function fits the format, and so do the functions nested in it.
  unfoldable mutual
    pub ProtoFits : Proto Bytes → Type 0
    ProtoFits (proto p ps source) =
        BodyFits platform write_error accepts strip ending p
        × CanWrite platform write_error accepts strip ending source
        × (count_protos ps < 2 ^ 31)
        × ProtosFit ps

    pub ProtosFit : Protos Bytes → Type 0
    ProtosFit done = Unit {0}
    ProtosFit (more p ps) = ProtoFits p × ProtosFit ps

  -- What is read, before sources are inherited.
  unfoldable mutual
    pub sent : Proto Bytes → Option Bytes → Proto Source
    sent (proto p ps source) parent =
        Load.assemble platform ending (front_of platform write_error accepts strip ending p)
          (to_protos (sent_list ps source))
          (sent_debug platform write_error accepts strip ending p source parent)

    pub sent_list : Protos Bytes → Bytes → List (Proto Source)
    sent_list done source = []
    sent_list (more p ps) source = sent p (some source) ∷ sent_list ps source

  mutual
    unfolding depth ProtoFits sent Dump.dump_function Load.read_function read_n count_protos

    pub function-Trip :
        (fuel : ℕ) (p : Proto Bytes) (parent : Option Bytes)
        → depth p ≤ fuel
        → ProtoFits p
        → Trip platform
            (depth p)
            (Dump.dump_function platform write_error strip p parent)
            (Load.read_function platform ending fuel)
            (sent p parent)
    function-Trip zero (proto p ps source) parent le fits = elim le [ ]
    function-Trip (suc fuel) (proto p ps source) parent le (fits, fits_source, few, fits_all) =
        weaken-Trip platform
          (bind-Trip platform _ (front-Trip platform write_error accepts strip ending p fits) (
            bind-Trip platform _
              (count-Trip platform write_error accepts strip ending (count_protos ps) few)
              (bind-Trip platform _ (protos-Trip fuel ps source (omega (arith, le)) fits_all) (
                bind-Trip platform _
                  (up_values-Trip platform write_error accepts strip ending p
                    fits.debug.few_up_values fits.up_values)
                  (map-Trip platform
                    (Load.assemble platform ending
                      (front_of platform write_error accepts strip ending p)
                      (to_protos (sent_list ps source)))
                    (any_debug-Trip platform write_error accepts strip ending p source parent
                      fits.debug fits_source)
                    refl)))))
          (omega arith)

    protos-Trip :
        (fuel : ℕ) (ps : Protos Bytes) (source : Bytes)
        → depth_protos ps ≤ fuel
        → ProtosFit ps
        → Trip platform
            (depth_protos ps)
            (Dump.dump_protos platform write_error strip ps source)
            (read_n (count_protos ps) (Load.read_function platform ending fuel))
            (sent_list ps source)
    protos-Trip fuel done source le fits = return-Trip platform []
    protos-Trip fuel (more p ps) source le (fits, fits_all) =
        weaken-Trip platform
          (bind-Trip platform
            (λ x. read_n (count_protos ps) (Load.read_function platform ending fuel) >>= λ xs.
              return (x ∷ xs))
            (function-Trip fuel p (some source) (omega (arith, le)) fits)
            (map-Trip platform (λ xs. sent p (some source) ∷ xs)
              (protos-Trip fuel ps source (omega (arith, le)) fits_all) refl))
          (omega arith)
