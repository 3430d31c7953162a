-- ===== src/Chunk/Inherit.antt =====
-- internal/chunk/load.go: the sources that functions inherit, and what is left of a stripped
-- function.
use luart.Prelude.{
  if-true, if-false, ℕ, ◌/◌, ◌<◌, ◌≡◌, ◌∙◌, ap, ap₂, sym, refl, Bool, true, false, not, [], Option,
  some, none, map, bit_and, ◌==◌, Bool-cases, inl, inr,
}
use luart.Chunk.Proto.{Bytes, Body, Proto, Protos, proto, done, more, to_protos}
use luart.Chunk.Format.{Platform}
use luart.Chunk.Dump
use luart.Chunk.Dump.{same_bytes, DumpState}
use luart.Chunk.Load
use luart.Chunk.Load.{ok, ◌>>=◌, return, Reads}
use luart.Chunk.Trip.Index.{same_bytes-eq}
use luart.Chunk.Trip.Parts.{unnamed}
use luart.Chunk.Trip.Debug.{sent_source}
use luart.Chunk.Trip.Front.{front_of, vararg_byte_lem}
use luart.Chunk.Trip.Whole.{ProtoFits, ProtosFit, sent, sent_list}

module _ (platform : Platform) (write_error : Bytes → Bytes → Option ℕ)
    (accepts : (out bs : Bytes) → write_error out bs ≡ none) (strip : Bool)
    (ending : Option ℕ) where
  -- The sources: a function whose source was left out has that of the function around it.
  unfoldable pub Around : Option Bytes → Bytes → Type 0
  Around parent q =
      (s : Bytes) → Dump.same_source platform write_error strip parent s ≡ true → s ≡ q

  body_lem :
      (p : Body)
      → p.vararg_kind < 128
      → Path Body
          (record p {
            is_vararg = not (bit_and (Dump.vararg_byte platform write_error strip p) 1 == 0);
            vararg_kind = Dump.vararg_byte platform write_error strip p / 2;
          })
          p
  body_lem p h =
      let (_, flag, kind) = vararg_byte_lem platform write_error accepts strip ending p h in
      ap₂ (λ (b : Bool) (k : ℕ). record p { is_vararg = b; vararg_kind = k }) flag kind

  assemble_lem :
      (p : Body) (ps : Protos (Load.Source platform ending)) (source : Load.Source platform ending)
      → p.vararg_kind < 128
      → Load.assemble platform ending
          (front_of platform write_error accepts strip ending p)
          ps
          (source, p.line_info, p.local_variables, p.up_values)
        ≡ proto p ps source
  assemble_lem p ps source h = ap (λ (b : Body). proto b ps source) (body_lem p h)

  mutual
    unfolding Load.inherit_sources sent ProtoFits Around to_protos

    pub inherit-sent :
        (p : Proto Bytes) (parent : Option Bytes) (q : Bytes)
        → strip ≡ false
        → Around parent q
        → ProtoFits platform write_error accepts strip ending p
        → Load.inherit_sources platform ending
            (sent platform write_error accepts strip ending p parent)
            q
          ≡ p
    inherit-sent (proto p ps source) parent q keep around (fits, _, _, fits_all) =
        ap
          (λ debug.
            Load.inherit_sources platform ending
              (Load.assemble platform ending (front_of platform write_error accepts strip ending p)
                (to_protos (sent_list platform write_error accepts strip ending ps source)) debug)
              q)
          (if-false _ _ keep)
        ∙ ap (λ r. Load.inherit_sources platform ending r q)
            (assemble_lem p
              (to_protos (sent_list platform write_error accepts strip ending ps source))
              (sent_source platform write_error accepts strip ending source parent) fits.kind)
        ∙ elim (Bool-cases (Dump.same_source platform write_error strip parent source)) [
          | inl e ↦
              let eq : source ≡ q = around source e in
              ap
                (λ src.
                  Load.inherit_sources platform ending
                    (proto p
                      (to_protos (sent_list platform write_error accepts strip ending ps source))
                      src)
                    q)
                (if-true ([], true) (source, false) e)
              ∙ ap
                  (λ (t : Bytes).
                    proto p
                      (Load.inherit_all platform ending
                        (to_protos (sent_list platform write_error accepts strip ending ps source))
                        t)
                      t)
                  (sym eq)
              ∙ ap (λ (r : Protos Bytes). proto p r source)
                  (inherit_all-sent ps source keep fits_all)
          | inr e ↦
              ap
                (λ src.
                  Load.inherit_sources platform ending
                    (proto p
                      (to_protos (sent_list platform write_error accepts strip ending ps source))
                      src)
                    q)
                (if-false ([], true) (source, false) e)
              ∙ ap (λ (r : Protos Bytes). proto p r source)
                  (inherit_all-sent ps source keep fits_all)
        ]

    inherit_all-sent :
        (ps : Protos Bytes) (source : Bytes)
        → strip ≡ false
        → ProtosFit platform write_error accepts strip ending ps
        → Load.inherit_all platform ending
            (to_protos (sent_list platform write_error accepts strip ending ps source))
            source
          ≡ ps
    inherit_all-sent done source keep fits = refl
    inherit_all-sent (more p ps) source keep (fits, fits_all) =
        ap₂ more (inherit-sent p (some source) source keep (λ s e. same_bytes-eq s source e) fits)
          (inherit_all-sent ps source keep fits_all)

  -- What stripping leaves of a function.
  abbrev stripped_body : Body → Body
  stripped_body p = record p {
    line_info = [];
    local_variables = [];
    up_values = map (unnamed platform write_error accepts strip ending) p.up_values;
  }

  unfoldable mutual
    pub stripped : Proto Bytes → Proto Bytes
    stripped (proto p ps source) =
        proto (stripped_body p) (stripped_all ps) (Load.unnamed platform ending)

    pub stripped_all : Protos Bytes → Protos Bytes
    stripped_all done = done
    stripped_all (more p ps) = more (stripped p) (stripped_all ps)

  mutual
    unfolding Load.inherit_sources sent ProtoFits stripped to_protos

    pub inherit-sent-stripped :
        (p : Proto Bytes) (parent : Option Bytes)
        → strip ≡ true
        → ProtoFits platform write_error accepts strip ending p
        → Load.inherit_sources platform ending
            (sent platform write_error accepts strip ending p parent)
            (Load.unnamed platform ending)
          ≡ stripped p
    inherit-sent-stripped (proto p ps source) parent drop (fits, _, _, fits_all) =
        ap
          (λ debug.
            Load.inherit_sources platform ending
              (Load.assemble platform ending (front_of platform write_error accepts strip ending p)
                (to_protos (sent_list platform write_error accepts strip ending ps source)) debug)
              (Load.unnamed platform ending))
          (if-true _ _ drop)
        ∙ ap₂ (λ (b : Body) (r : Protos Bytes). proto b r (Load.unnamed platform ending))
            (ap stripped_body (body_lem p fits.kind))
            (inherit_all-sent-stripped ps source drop fits_all)

    inherit_all-sent-stripped :
        (ps : Protos Bytes) (source : Bytes)
        → strip ≡ true
        → ProtosFit platform write_error accepts strip ending ps
        → Load.inherit_all platform ending
            (to_protos (sent_list platform write_error accepts strip ending ps source))
            (Load.unnamed platform ending)
          ≡ stripped_all ps
    inherit_all-sent-stripped done source drop fits = refl
    inherit_all-sent-stripped (more p ps) source drop (fits, fits_all) =
        ap₂ more (inherit-sent-stripped p (some source) drop fits)
          (inherit_all-sent-stripped ps source drop fits_all)
