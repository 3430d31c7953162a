-- ===== src/Chunk/Trip/Debug.antt =====
-- The trip of a function's debug information: its source, which a function leaves out when it is
-- that of the function around it, its line numbers, its local variables and its upvalues' names.
use luart.Prelude.{
  ℕ, ◌^◌, ◌<◌, ◌≡◌, ◌∙◌, ap, sym, refl, arith, Bool, true, false, List, [], ◌∷◌, ◌++◌, Option, none,
  length, length-map, append-nil, map, All, ltb, ◌&&◌, if◌then◌else◌, if-true, if-false, Bool-cases,
  inl, inr,
}
use mathlib.Core.Path.{subst}
use luart.Chunk.Proto.{Bytes, UpValueDesc, Body}
use luart.Chunk.Format.{Platform, to_u32, to_bytes, pointer_size}
use luart.Chunk.Format.Words.{IsInt32, size-lt}
use luart.Chunk.Dump
use luart.Chunk.Dump.{DumpState}
use luart.Chunk.Load
use luart.Chunk.Load.{ok, ◌>>=◌, return, Reads, read_n, LoadState}
use luart.Chunk.Trip.{Wrote, W, state, bind_ok, return-Trip, then-Trip, map-Trip}
use luart.Chunk.Trip.Values.{write_lem, count-Trip}
use luart.Chunk.Trip.Strings.{CanWrite, string-Trip, text-Trip, read_string_lem}
use luart.Chunk.Trip.Lists.{Goes}
use luart.Chunk.Trip.Parts.{unnamed, LocalFits, lines-Trip, locals-Trip}

name_of : UpValueDesc → Bytes
name_of u = u.name

module _ (platform : Platform) (write_error : Bytes → Bytes → Option ℕ)
    (accepts : (out bs : Bytes) → write_error out bs ≡ none) (strip : Bool)
    (ending : Option ℕ) where
  never : (b : Bool) → (b && false) ≡ false
  never true = refl
  never false = refl

  abbrev Fits : Bytes → Type 0
  Fits = CanWrite platform write_error accepts strip ending

  abbrev G : {A : Type 0} → W platform → Reads A → A → Type 0
  G = Goes platform write_error accepts strip ending

  pub moved :
      {A : Type 0} {w w' : W platform} {r : Reads A} {a a' : A}
      → w ≡ w'
      → a ≡ a'
      → G w r a
      → G w' r a'
  moved {A} {w} {w'} {r} {a} {a'} e f t = subst (λ b. G w' r b) f (subst (λ v. G v r a) e t)

  -- What read_source makes of a string that was written.
  source-Trip :
      (s : Bytes)
      → Fits s
      → G
          (Dump.write_string platform write_error strip s)
          (Load.read_source platform ending)
          (s, false)
  unfolding Load.read_source
  source-Trip s =
      text-Trip platform write_error accepts strip ending (Load.read_source platform ending)
        (s, false) s
        (λ from rest strings e.
          bind_ok (Load.read_string platform ending)
            (λ t. λ st. ok (t, Load.is_empty platform ending t && st.absent) st) from e
          ∙ ap (λ (b : Bool). ok (s, b) (state platform rest false strings))
              (never (Load.is_empty platform ending s)))

  pub absent-Trip :
      G (Dump.write_absent platform write_error strip) (Load.read_source platform ending) ([], true)
  unfolding Dump.write_absent Dump.write_size Load.read_source
  absent-Trip d e =
      let bytes = to_bytes platform (pointer_size platform) 0 in
      subst (λ d'. Wrote platform 0 d d' (Load.read_source platform ending) ([], true))
        (sym (write_lem platform write_error accepts strip ending bytes d e))
        (record {
          bytes = bytes;
          fresh = [];
          at_least = omega arith;
          out = refl;
          strings = sym (append-nil d.strings);
          no_err = e;
          reads = λ rest absent bound. (
            true,
            bind_ok (Load.read_string platform ending)
                (λ t. λ st. ok (t, Load.is_empty platform ending t && st.absent) st)
                (state platform (bytes ++ rest) absent d.strings)
                (read_string_lem platform write_error accepts strip ending 0 rest absent d.strings
                  (size-lt platform 0 (ground arith))),
          );
        })

  names-Trip :
      (us : List UpValueDesc)
      → All (λ (u : UpValueDesc). Fits u.name) us
      → G
          (Dump.write_all platform write_error strip
            (λ (u : UpValueDesc). Dump.write_string platform write_error strip u.name)
            us)
          (read_n (length us) (Load.read_string platform ending))
          (map name_of us)
  unfolding Dump.write_all read_n name_of
  names-Trip [] h = return-Trip platform []
  names-Trip (u ∷ us) (hu, h) =
      then-Trip platform
        (λ y. read_n (length us) (Load.read_string platform ending) >>= λ ys. return (y ∷ ys))
        (string-Trip platform write_error accepts strip ending u.name hu)
        (map-Trip platform (λ ys. u.name ∷ ys) (names-Trip us h) refl)

  name_up_values_lem :
      (us : List UpValueDesc)
      → Load.name_up_values platform ending
          (map name_of us)
          (map (unnamed platform write_error accepts strip ending) us)
        ≡ us
  unfolding Load.name_up_values name_of
  name_up_values_lem [] = refl
  name_up_values_lem (u ∷ us) = ap (λ (r : List UpValueDesc). u ∷ r) (name_up_values_lem us)

  -- What of its debug information a function keeps in a chunk, whatever its source.
  pub record DebugFits (p : Body) : Type 0 where
    pub few_lines : length p.line_info < 2 ^ 31
    pub lines : All IsInt32 p.line_info
    pub few_locals : length p.local_variables < 2 ^ 31
    pub locals : All (LocalFits platform write_error accepts strip ending) p.local_variables
    pub few_up_values : length p.up_values < 2 ^ 31
    pub names : All (λ (u : UpValueDesc). Fits u.name) p.up_values

  abbrev Debug : Type 0
  Debug = Load.Debug platform ending

  abbrev pub bare : Body → List UpValueDesc
  bare p = map (unnamed platform write_error accepts strip ending) p.up_values

  abbrev write_name : UpValueDesc → W platform
  write_name u = Dump.write_string platform write_error strip u.name

  up_value_names-Trip :
      {B : Type 0} (f : List UpValueDesc → B) (p : Body)
      → DebugFits p
      → G
          (λ d.
            Dump.write_all platform write_error strip write_name p.up_values
              (Dump.write_count platform write_error strip (length p.up_values) d))
          (Load.read_count platform ending >>= λ n.
            Load.read_names platform ending (bare p) n >>= λ us. return (f us))
          (f p.up_values)
  up_value_names-Trip f p fits =
      then-Trip platform (λ n. Load.read_names platform ending (bare p) n >>= λ us. return (f us))
        (count-Trip platform write_error accepts strip ending (length p.up_values)
          fits.few_up_values)
        (map-Trip platform f named refl)
    where
      enough : ltb (length (bare p)) (length p.up_values) ≡ false
      enough =
          ground (arith, length-map p.up_values (unnamed platform write_error accepts strip ending))

      named :
          G
            (Dump.write_all platform write_error strip write_name p.up_values)
            (Load.read_names platform ending (bare p) (length p.up_values))
            p.up_values
      named =
          subst
            (λ r.
              G (Dump.write_all platform write_error strip write_name p.up_values) r p.up_values)
            (sym (if-false _ _ enough))
            (map-Trip platform (λ ss. Load.name_up_values platform ending ss (bare p))
              (names-Trip p.up_values fits.names) (name_up_values_lem p.up_values))

  kept-Trip :
      (p : Body) (w : W platform) (source : Load.Source platform ending)
      → DebugFits p
      → G w (Load.read_source platform ending) source
      → G
          (λ d. Dump.write_all platform write_error strip write_name p.up_values (
            Dump.write_count platform write_error strip (length p.up_values) (
              Dump.write_local_variables platform write_error strip p (
                Dump.write platform write_error strip
                  (Dump.concat_bytes platform write_error strip
                    (λ i. to_bytes platform 4 (to_u32 i))
                    p.line_info)
                  (Dump.write_count platform write_error strip (length p.line_info) (w d))))))
          (Load.read_debug platform ending (bare p))
          (source, p.line_info, p.local_variables, p.up_values)
  unfolding Load.read_debug
  kept-Trip p w source fits t = then-Trip platform _ t (
      then-Trip platform _
        (lines-Trip platform write_error accepts strip ending p fits.few_lines fits.lines)
        (then-Trip platform _
          (locals-Trip platform write_error accepts strip ending p fits.few_locals fits.locals)
          (up_value_names-Trip (λ us. (source, p.line_info, p.local_variables, us)) p fits)))

  -- The source that is read: none, with the mark, where that of the function around it is meant.
  abbrev pub sent_source : Bytes → Option Bytes → Load.Source platform ending
  sent_source source parent =
      if Dump.same_source platform write_error strip parent source
      then ([], true)
      else (source, false)

  pub debug-Trip :
      (p : Body) (source : Bytes) (parent : Option Bytes)
      → strip ≡ false
      → DebugFits p
      → Fits source
      → G
          (Dump.write_debug platform write_error strip p source parent)
          (Load.read_debug platform ending (bare p))
          (sent_source source parent, p.line_info, p.local_variables, p.up_values)
  unfolding Dump.write_debug Dump.write_source
  debug-Trip p source parent whole fits h =
      subst
        (λ w.
          G w (Load.read_debug platform ending (bare p))
            (sent_source source parent, p.line_info, p.local_variables, p.up_values))
        (sym (if-false _ _ whole))
        (kept-Trip p (Dump.write_source platform write_error strip source parent)
          (sent_source source parent) fits sent)
    where
      sent :
          G
            (Dump.write_source platform write_error strip source parent)
            (Load.read_source platform ending)
            (sent_source source parent)
      sent = elim (Bool-cases (Dump.same_source platform write_error strip parent source)) [
        | inl e ↦ moved (sym (if-true _ _ e)) (sym (if-true _ _ e)) absent-Trip
        | inr e ↦ moved (sym (if-false _ _ e)) (sym (if-false _ _ e)) (source-Trip source h)
      ]
