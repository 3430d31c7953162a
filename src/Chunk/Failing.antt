-- ===== src/Chunk/Failing.antt =====
-- internal/chunk/dump.go: what Dump does once a Write has failed.
use luart.Prelude.{
  ℕ, ◌+◌, ◌≡◌, ◌∙◌, refl, arith, Bool, true, false, List, [], ◌∷◌, Option, some, none, length,
  bit_or, if◌then◌else◌,
}
use luart.Chunk.Proto.{
  Bytes, Constant, nil, boolean, number, integer, text, UpValueDesc, Body, Proto, Protos, proto,
  done, more, count_protos,
}
use luart.Chunk.Format.{Platform, reuse_bit}
use luart.Chunk.Dump
use luart.Chunk.Dump.{DumpState, index_of}

module _ (platform : Platform) (write_error : Bytes → Bytes → Option ℕ) (strip : Bool) where
  -- After an error nothing is written, and the error stays.
  record Halts (w : DumpState → DumpState) : Type 0 where
    pub run : (d : DumpState) (e : ℕ) → d.err ≡ some e → ((w d).out ≡ d.out) × ((w d).err ≡ some e)

  then-Halts : {w w' : DumpState → DumpState} → Halts w → Halts w' → Halts (λ d. w' (w d))
  then-Halts {w} {w'} h h' = record {
    run = λ d e f.
        let (out, err) = h.run d e f in let (out', err') = h'.run (w d) e err in (out' ∙ out, err');
  }

  if-Halts :
      {w w' : DumpState → DumpState} (b : Bool) → Halts w → Halts w' → Halts (if b then w else w')
  if-Halts true h h' = h
  if-Halts false h h' = h'

  write-Halts : (bs : Bytes) → Halts (Dump.write platform write_error strip bs)
  unfolding Dump.write
  write-Halts bs = record { run = λ d e f. (ground (arith, f), ground (arith, f)) }

  write_all-Halts :
      {A : Type 0} (w : A → DumpState → DumpState)
      → ((x : A) → Halts (w x))
      → (xs : List A) → Halts (Dump.write_all platform write_error strip w xs)
  unfolding Dump.write_all
  write_all-Halts w h [] = record { run = λ d e f. (refl, f) }
  write_all-Halts w h (x ∷ xs) = then-Halts (h x) (write_all-Halts w h xs)

  write_count-Halts : (n : ℕ) → Halts (Dump.write_count platform write_error strip n)
  unfolding Dump.write_count Dump.write_int
  write_count-Halts n = write-Halts _

  write_bool-Halts : (b : Bool) → Halts (Dump.write_bool platform write_error strip b)
  unfolding Dump.write_bool Dump.write_byte
  write_bool-Halts true = write-Halts _
  write_bool-Halts false = write-Halts _

  write_string-Halts : (s : Bytes) → Halts (Dump.write_string platform write_error strip s)
  unfolding Dump.write_string Dump.write_size Dump.write_byte Dump.new_string
  write_string-Halts s = record { run = λ d e f. go d e f (index_of s d.strings 0) }
    where
      fresh : Halts (λ d. Dump.write_byte platform write_error strip 0 (
          Dump.write platform write_error strip s (
            Dump.write_size platform write_error strip
              (length s + 1)
              (Dump.new_string platform write_error strip s d))))
      fresh =
          then-Halts
            (then-Halts (then-Halts (record { run = λ d e f. (refl, f) }) (write-Halts _))
              (write-Halts s))
            (write-Halts _)

      go :
          (d : DumpState) (e : ℕ)
          → d.err ≡ some e
          → (r : Option ℕ)
          → let d' : DumpState = elim r [
            | some i ↦ Dump.write_size platform write_error strip (bit_or (reuse_bit platform) i) d
            | none ↦ Dump.write_byte platform write_error strip 0 (
                Dump.write platform write_error strip s (
                  Dump.write_size platform write_error strip
                    (length s + 1)
                    (Dump.new_string platform write_error strip s d)))
          ] in
            (d'.out ≡ d.out) × (d'.err ≡ some e)
      go d e f none = fresh.run d e f
      go d e f (some i) = (write-Halts _).run d e f

  write_constant-Halts : (c : Constant) → Halts (Dump.write_constant platform write_error strip c)
  unfolding Dump.write_constant Dump.write_byte
  write_constant-Halts nil = write-Halts _
  write_constant-Halts (boolean b) = then-Halts (write-Halts _) (write_bool-Halts b)
  write_constant-Halts (number f) = then-Halts (write-Halts _) (write-Halts _)
  write_constant-Halts (integer i) = then-Halts (write-Halts _) (write-Halts _)
  write_constant-Halts (text s) = then-Halts (write-Halts _) (write_string-Halts s)

  write_front-Halts : (p : Body) → Halts (Dump.write_front platform write_error strip p)
  unfolding Dump.write_front Dump.write_int Dump.write_byte Dump.write_code Dump.write_constants
  write_front-Halts p =
      then-Halts
        (then-Halts
          (then-Halts
            (then-Halts (then-Halts (then-Halts (write-Halts _) (write-Halts _)) (write-Halts _))
              (write-Halts _))
            (write-Halts _))
          (then-Halts (write_count-Halts (length p.code)) (write-Halts _)))
        (then-Halts (write_count-Halts (length p.constants)) (
          write_all-Halts (Dump.write_constant platform write_error strip) write_constant-Halts
            p.constants))

  write_up_values-Halts : (p : Body) → Halts (Dump.write_up_values platform write_error strip p)
  unfolding Dump.write_up_values Dump.write_up_value Dump.write_byte
  write_up_values-Halts p = then-Halts (write_count-Halts (length p.up_values)) (
      write_all-Halts (Dump.write_up_value platform write_error strip)
        (λ u. then-Halts (write_bool-Halts u.is_local) (write-Halts _)) p.up_values)

  write_locals-Halts : (p : Body) → Halts (Dump.write_local_variables platform write_error strip p)
  unfolding Dump.write_local_variables Dump.write_local_variable Dump.write_int
  write_locals-Halts p = then-Halts (write_count-Halts (length p.local_variables)) (
      write_all-Halts (Dump.write_local_variable platform write_error strip)
        (λ v. then-Halts (then-Halts (write_string-Halts v.name) (write-Halts _)) (write-Halts _))
        p.local_variables)

  write_debug-Halts :
      (p : Body) (source : Bytes) (parent : Option Bytes)
      → Halts (Dump.write_debug platform write_error strip p source parent)
  unfolding Dump.write_debug Dump.write_source Dump.write_absent Dump.write_size
  write_debug-Halts p source parent =
      if-Halts strip
        (then-Halts
          (then-Halts (then-Halts (write-Halts _) (write_count-Halts 0)) (write_count-Halts 0))
          (write_count-Halts 0))
        (then-Halts
          (then-Halts
            (then-Halts
              (then-Halts
                (then-Halts
                  (if-Halts (Dump.same_source platform write_error strip parent source)
                    (write-Halts _) (write_string-Halts source))
                  (write_count-Halts (length p.line_info)))
                (write-Halts _))
              (write_locals-Halts p))
            (write_count-Halts (length p.up_values)))
          (write_all-Halts
            (λ (u : UpValueDesc). Dump.write_string platform write_error strip u.name)
            (λ u. write_string-Halts u.name) p.up_values))

  mutual
    unfolding Dump.dump_function

    dump_function-Halts :
        (p : Proto Bytes) (parent : Option Bytes)
        → Halts (Dump.dump_function platform write_error strip p parent)
    dump_function-Halts (proto p ps source) parent =
        then-Halts
          (then-Halts
            (then-Halts (then-Halts (write_front-Halts p) (write_count-Halts (count_protos ps)))
              (dump_protos-Halts ps source))
            (write_up_values-Halts p))
          (write_debug-Halts p source parent)

    dump_protos-Halts :
        (ps : Protos Bytes) (source : Bytes)
        → Halts (Dump.dump_protos platform write_error strip ps source)
    dump_protos-Halts done source = record { run = λ d e f. (refl, f) }
    dump_protos-Halts (more p ps) source =
        then-Halts (dump_function-Halts p (some source)) (dump_protos-Halts ps source)

  -- Once a Write has failed, dumping a function writes nothing more and keeps the error.
  pub dump_function_err :
      (p : Proto Bytes) (parent : Option Bytes) (d : DumpState) (e : ℕ)
      → d.err ≡ some e
      → ((Dump.dump_function platform write_error strip p parent d).out ≡ d.out)
        × ((Dump.dump_function platform write_error strip p parent d).err ≡ some e)
  dump_function_err p parent = (dump_function-Halts p parent).run
