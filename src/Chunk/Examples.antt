-- ===== src/Chunk/Examples.antt =====
-- Chunks of concrete functions, and the theorems of this part applied to them.
use luart.Prelude.{
  ℕ, ◌≤◌, ◌^◌, ◌≡◌, ◌≢◌, refl, arith, Bool, true, false, [], ◌∷◌, Option, none, some, length, take,
}
use luart.Prelude.Int.{pos, negsuc}
use luart.Chunk.Proto.{
  Bytes, nil, boolean, number, integer, text, Body, Proto, proto, done, more, count_protos,
}
use luart.Chunk.Format.{Platform, header}
use luart.Chunk.Dump
use luart.Chunk.Load.{load, loaded, load_error, load_stuck, truncated}
use luart.Chunk.Trip.Front.{BodyFits}
use luart.Chunk.Trip.Whole.{ProtoFits}
use luart.Chunk.Failing.{dump_function_err}
use luart.Chunk.RoundTrip.{load-dump, load-dump-stripped}
use luart.Chunk.Inherit.{stripped}
use luart.Chunk.Settles.Reading.{load_total}
use luart.Chunk.Short.{load-short_error, short_error}

abbrev amd64 : Platform
amd64 = record { little = true; wide = true }

abbrev accept_all : Bytes → Bytes → Option ℕ
accept_all out bs = none

accepts : (out bs : Bytes) → accept_all out bs ≡ none
accepts out bs = refl

abbrev inner_body : Body
inner_body = record {
  constants = text (b'x' ∷ []) ∷ nil ∷ [];
  code = 0x0100 ∷ [];
  line_info = pos 2 ∷ [];
  local_variables = [];
  up_values = record { name = b'x' ∷ []; is_local = true; index = 3 } ∷ [];
  line_defined = pos 2;
  last_line_defined = pos 3;
  parameter_count = 0;
  max_stack_size = 2;
  is_vararg = false;
  vararg_kind = 0;
}

abbrev outer_body : Body
outer_body = record {
  constants = text (b'x' ∷ []) ∷ integer (negsuc 4) ∷ number 0x3ff8000000000000 ∷ boolean true ∷ [];
  code = 0x0105 ∷ 0xffffffff ∷ [];
  line_info = pos 1 ∷ negsuc 0 ∷ [];
  local_variables = record { name = b'x' ∷ []; start_pc = pos 0; end_pc = pos 2 } ∷ [];
  up_values = record { name = []; is_local = false; index = 0 } ∷ [];
  line_defined = pos 0;
  last_line_defined = pos 0;
  parameter_count = 1;
  max_stack_size = 250;
  is_vararg = true;
  vararg_kind = 2;
}

abbrev two_functions : Proto Bytes
two_functions =
    proto outer_body (more (proto inner_body done (b'@' ∷ b'a' ∷ [])) done) (b'@' ∷ b'a' ∷ [])

two_functions_fit : (strip : Bool) → ProtoFits amd64 accept_all accepts strip none two_functions
unfolding ProtoFits count_protos
two_functions_fit strip = (
  outer,
  (ground arith, ground arith),
  ground arith,
  ((inner, (ground arith, ground arith), ground arith, tt), tt),
)
  where
    outer : BodyFits amd64 accept_all accepts strip none outer_body
    outer = record {
      line = ground arith;
      last = ground arith;
      parameters = ground arith;
      kind = ground arith;
      stack = ground arith;
      few_code = ground arith;
      code = ground arith;
      few_constants = ground arith;
      constants = ground arith;
      up_values = ground arith;
      debug = record {
        few_lines = ground arith;
        lines = ground arith;
        few_locals = ground arith;
        locals = ground arith;
        few_up_values = ground arith;
        names = ground arith;
      };
    }

    inner : BodyFits amd64 accept_all accepts strip none inner_body
    inner = record {
      line = ground arith;
      last = ground arith;
      parameters = ground arith;
      kind = ground arith;
      stack = ground arith;
      few_code = ground arith;
      code = ground arith;
      few_constants = ground arith;
      constants = ground arith;
      up_values = ground arith;
      debug = record {
        few_lines = ground arith;
        lines = ground arith;
        few_locals = ground arith;
        locals = ground arith;
        few_up_values = ground arith;
        names = ground arith;
      };
    }

few_strings :
    (strip : Bool) → length (Dump.dump amd64 accept_all strip two_functions).strings ≤ 2 ^ 63
unfolding Dump.dump
few_strings true = omega arith
few_strings false = omega arith

load-dump-two_functions :
    load amd64 none (Dump.dump amd64 accept_all false two_functions).out ≡ loaded two_functions
load-dump-two_functions =
    load-dump amd64 accept_all accepts false none two_functions refl (two_functions_fit false)
      (few_strings false)

load-dump-stripped-two_functions :
    load amd64 none (Dump.dump amd64 accept_all true two_functions).out
    ≡ loaded (stripped amd64 accept_all accepts true none two_functions)
load-dump-stripped-two_functions =
    load-dump-stripped amd64 accept_all accepts true none two_functions refl
      (two_functions_fit true) (few_strings true)

load_total_example : load amd64 none (27 ∷ 76 ∷ 117 ∷ []) ≢ load_stuck
load_total_example = load_total amd64 none (27 ∷ 76 ∷ 117 ∷ [])

load-short : load amd64 none (take 17 (header amd64)) ≡ load_error truncated
unfolding load
load-short = refl

abbrev full : Bytes → Bytes → Option ℕ
full out bs = some 28

dump_function_err_example :
    ((Dump.dump_function amd64 full false two_functions none
        (record { out = 27 ∷ []; err = some 28; strings = [] })).out
      ≡ 27 ∷ [])
    × ((Dump.dump_function amd64 full false two_functions none
          (record { out = 27 ∷ []; err = some 28; strings = [] })).err
        ≡ some 28)
dump_function_err_example =
    dump_function_err amd64 full false two_functions none
      (record { out = 27 ∷ []; err = some 28; strings = [] }) 28 refl

load-short_error_example : load amd64 none (27 ∷ 76 ∷ 117 ∷ []) ≡ load_error (short_error none)
load-short_error_example = load-short_error amd64 none (27 ∷ 76 ∷ 117 ∷ []) (omega arith)
