-- ===== src/Chunk/Trip/Front.antt =====
-- The trip of what a function writes before the functions nested in it.
use luart.Prelude.{
  ℕ, ◌+◌, ◌*◌, ◌/◌, ◌%◌, ◌^◌, ◌<◌, ◌≡◌, ◌∙◌, ap, sym, refl, arith, Bool, not, Option, none, length,
  All, bit_and, bit_or, ◌==◌, Bool-cases, inl, inr,
}
use luart.Prelude.Bits.{bit_and_mask, bit_or_add_left}
use mathlib.Core.Path.{subst}
use luart.Chunk.Proto.{Bytes, Body}
use luart.Chunk.Format.{Platform, byte_of_bool}
use luart.Chunk.Format.Words.{IsInt32}
use luart.Chunk.Dump
use luart.Chunk.Load
use luart.Chunk.Trip.{Trip, then-Trip, map-Trip, weaken-Trip, bind-Trip}
use luart.Chunk.Trip.Values.{byte-Trip, int-Trip}
use luart.Chunk.Trip.Parts.{ConstantFits, UpValueFits, code-Trip, constants-Trip}
use luart.Chunk.Trip.Debug.{DebugFits}

module _ (platform : Platform) (write_error : Bytes → Bytes → Option ℕ)
    (accepts : (out bs : Bytes) → write_error out bs ≡ none) (strip : Bool)
    (ending : Option ℕ) where
  -- The numbers of a function's head fit their fields, and its lists are counted by an int32.
  pub record BodyFits (p : Body) : Type 0 where
    pub line : IsInt32 p.line_defined
    pub last : IsInt32 p.last_line_defined
    pub parameters : p.parameter_count < 256
    pub kind : p.vararg_kind < 128
    pub stack : p.max_stack_size < 256
    pub few_code : length p.code < 2 ^ 31
    pub code : All (λ (i : ℕ). i < 2 ^ 32) p.code
    pub few_constants : length p.constants < 2 ^ 31
    pub constants : All (ConstantFits platform write_error accepts strip ending) p.constants
    pub up_values : All (UpValueFits platform write_error accepts strip ending) p.up_values
    pub debug : DebugFits platform write_error accepts strip ending p

  abbrev pub front_of : Body → Load.Front platform ending
  front_of p = (
    p.line_defined,
    p.last_line_defined,
    p.parameter_count,
    Dump.vararg_byte platform write_error strip p,
    p.max_stack_size,
    p.code,
    p.constants,
  )

  vararg_byte_eq :
      (p : Body)
      → p.vararg_kind < 128
      → Dump.vararg_byte platform write_error strip p ≡ p.vararg_kind * 2 + byte_of_bool p.is_vararg
  unfolding Dump.vararg_byte
  vararg_byte_eq p h = elim (Bool-cases p.is_vararg) [
    | inl e ↦ rw e (
        ap (λ (b : ℕ). bit_or b 1) (omega (arith, h))
        ∙ bit_or_add_left 1 1 p.vararg_kind (omega arith))
    | inr e ↦ rw e (omega (arith, h))
  ]

  -- The flag in bit 0 of the vararg byte, the kind above it.
  pub vararg_byte_lem :
      (p : Body)
      → p.vararg_kind < 128
      → (Dump.vararg_byte platform write_error strip p < 256)
        × (not (bit_and (Dump.vararg_byte platform write_error strip p) 1 == 0) ≡ p.is_vararg)
        × (Dump.vararg_byte platform write_error strip p / 2 ≡ p.vararg_kind)
  vararg_byte_lem p h =
      let byte = Dump.vararg_byte platform write_error strip p in
      let e = vararg_byte_eq p h in
      let low = bit_and_mask 1 byte in
      elim (Bool-cases p.is_vararg) [
        | inl f ↦
            let e' : byte ≡ p.vararg_kind * 2 + 1 =
              e ∙ ap (λ (b : Bool). p.vararg_kind * 2 + byte_of_bool b) f in
            (omega (arith, e', h), ground (arith, e', low, f), omega (arith, e'))
        | inr f ↦
            let e' : byte ≡ p.vararg_kind * 2 =
              e ∙ ap (λ (b : Bool). p.vararg_kind * 2 + byte_of_bool b) f ∙ omega arith in
            (omega (arith, e', h), ground (arith, e', low, f), omega (arith, e'))
      ]

  byte_again :
      (b : ℕ)
      → b < 256
      → Trip platform 0
          (Dump.write_byte platform write_error strip (b % 256))
          (Load.read_byte platform ending)
          b
  byte_again b h =
      let same : b % 256 ≡ b = omega (arith, h) in
      subst
        (λ n.
          Trip platform 0 (Dump.write_byte platform write_error strip n)
            (Load.read_byte platform ending) b)
        (sym same) (byte-Trip platform write_error accepts strip ending b h)

  pub front-Trip :
      (p : Body)
      → BodyFits p
      → Trip platform 4
          (Dump.write_front platform write_error strip p)
          (Load.read_front platform ending)
          (front_of p)
  unfolding Dump.write_front Load.read_front
  front-Trip p fits =
      weaken-Trip platform
        (bind-Trip platform _
          (int-Trip platform write_error accepts strip ending p.line_defined fits.line)
          (then-Trip platform _
            (int-Trip platform write_error accepts strip ending p.last_line_defined fits.last)
            (then-Trip platform _ (byte_again p.parameter_count fits.parameters) (
              then-Trip platform _
                (byte-Trip platform write_error accepts strip ending
                  (Dump.vararg_byte platform write_error strip p) (vararg_byte_lem p fits.kind).0)
                (then-Trip platform _ (byte_again p.max_stack_size fits.stack) (
                  then-Trip platform _
                    (code-Trip platform write_error accepts strip ending p fits.few_code fits.code)
                    (map-Trip platform
                      (λ constants. (
                        p.line_defined,
                        p.last_line_defined,
                        p.parameter_count,
                        Dump.vararg_byte platform write_error strip p,
                        p.max_stack_size,
                        p.code,
                        constants,
                      ))
                      (constants-Trip platform write_error accepts strip ending p fits.few_constants
                        fits.constants)
                      refl)))))))
        (omega arith)
