-- ===== src/Chunk/Trip/AnyDebug.antt =====
-- The trip of a function's debug information, stripped or not.
use luart.Prelude.{
  ℕ, ◌≡◌, sym, refl, arith, Bool, true, false, List, [], Option, none, length, map, ltb,
  if◌then◌else◌, if-true, if-false, Bool-cases, inl, inr,
}
use mathlib.Core.Path.{subst}
use luart.Chunk.Proto.{Bytes, UpValueDesc, Body}
use luart.Chunk.Format.{Platform, of_bytes, of_u32}
use luart.Chunk.Dump
use luart.Chunk.Dump.{DumpState}
use luart.Chunk.Load
use luart.Chunk.Load.{ok, ◌>>=◌, return, Reads, read_n, LoadState}
use luart.Chunk.Trip.{W, return-Trip, then-Trip, map-Trip}
use luart.Chunk.Trip.Values.{count-Trip}
use luart.Chunk.Trip.Strings.{CanWrite}
use luart.Chunk.Trip.Lists.{Goes}
use luart.Chunk.Trip.Debug.{DebugFits, moved, absent-Trip, sent_source, debug-Trip}
use luart.Chunk.Trip.Parts.{unnamed}

module _ (platform : Platform) (write_error : Bytes → Bytes → Option ℕ)
    (accepts : (out bs : Bytes) → write_error out bs ≡ none) (strip : Bool)
    (ending : Option ℕ) where
  abbrev Fits : Bytes → Type 0
  Fits = CanWrite platform write_error accepts strip ending

  abbrev G : {A : Type 0} → W platform → Reads A → A → Type 0
  G = Goes platform write_error accepts strip ending

  abbrev Debug : Type 0
  Debug = Load.Debug platform ending

  abbrev pub bare : Body → List UpValueDesc
  bare p = map (unnamed platform write_error accepts strip ending) p.up_values

  -- The debug information that is read: all of it, or none but the upvalues without their names.
  abbrev pub sent_debug : Body → Bytes → Option Bytes → Debug
  sent_debug p source parent = if strip then (([], true), [], [], bare p) else (
    sent_source platform write_error accepts strip ending source parent,
    p.line_info,
    p.local_variables,
    p.up_values,
  )

  stripped-Trip :
      (p : Body)
      → G
          (λ d. Dump.write_count platform write_error strip 0 (
            Dump.write_count platform write_error strip 0 (
              Dump.write_count platform write_error strip 0
                (Dump.write_absent platform write_error strip d))))
          (Load.read_debug platform ending (bare p))
          (([], true), [], [], bare p)
  unfolding Load.read_debug Load.read_list Load.read_batches Load.read_local_variables read_n
      Load.name_up_values
  stripped-Trip p = then-Trip platform _ (absent-Trip platform write_error accepts strip ending) (
      then-Trip platform _
        (then-Trip platform
          (λ n. Load.read_batches platform ending n n (λ bs. of_u32 (of_bytes platform bs)) 4)
          zero_count (return-Trip platform []))
        (then-Trip platform _
          (then-Trip platform (λ n. read_n n (Load.read_local_variable platform ending)) zero_count
            (return-Trip platform []))
          (then-Trip platform
            (λ n.
              Load.read_names platform ending (bare p) n >>= λ us. return (([], true), [], [], us))
            zero_count (map-Trip platform (λ us. (([], true), [], [], us)) unnamed_still refl))))
    where
      zero_count :
          G (Dump.write_count platform write_error strip 0) (Load.read_count platform ending) 0
      zero_count = count-Trip platform write_error accepts strip ending 0 (omega arith)

      never_less : ltb (length (bare p)) 0 ≡ false
      never_less = ground arith

      unnamed_still : G (λ d. d) (Load.read_names platform ending (bare p) 0) (bare p)
      unnamed_still =
          subst (λ r. G (λ d. d) r (bare p)) (sym (if-false _ _ never_less))
            (map-Trip platform (λ ss. Load.name_up_values platform ending ss (bare p))
              (return-Trip platform []) refl)

  pub any_debug-Trip :
      (p : Body) (source : Bytes) (parent : Option Bytes)
      → DebugFits platform write_error accepts strip ending p
      → Fits source
      → G
          (Dump.write_debug platform write_error strip p source parent)
          (Load.read_debug platform ending (bare p))
          (sent_debug p source parent)
  unfolding Dump.write_debug
  any_debug-Trip p source parent fits h = elim (Bool-cases strip) [
    | inl e ↦
        moved platform write_error accepts strip ending (sym (if-true _ _ e)) (sym (if-true _ _ e))
          (stripped-Trip p)
    | inr e ↦
        moved platform write_error accepts strip ending refl (sym (if-false _ _ e))
          (debug-Trip platform write_error accepts strip ending p source parent e fits h)
  ]
