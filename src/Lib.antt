-- ===== src/Lib.antt =====
-- Verification of apogee (formerly luart), a Lua 5.5 virtual machine in Go.
--
-- Parts modelled, each in a module named for it:
--   Bytecode     internal/bytecode: Instruction (instructions.go, the 32-bit instruction word: accessors,
--                setters and CreateABC, CreateABx, CreateAx), Float8 (math.go, Float8FromInt and
--                IntFromFloat8) and Arith (number.go, Arith and the integer operators).
--   Chunk        internal/chunk: Format (chunk.go), Dump (dump.go) and Load (load.go), over the compiled
--                functions of internal/bytecode/proto.go (Proto). Trip relates a write to the read that
--                takes its bytes, RoundTrip composes them to whole chunks. Settles is about termination,
--                Failing and Short about errors of the writer and the reader.
--   Pattern      stdlib/pattern.go: Classes (character classes and sets), Match (the matcher), Find
--                (captures as values, find, gmatch) and Substitute (gsub), with relativePosition of
--                stdlib/string.go and unpackPosition of stdlib/pack.go. Ends is the form of the
--                results without a panic; Sets, Captures and Safety are about the matcher, Found,
--                Results, Progress and Replaced about the library's functions, Plain about patterns
--                that are texts.
--   Shape        lua/shape.go, and lua/tables.go and lua/gc.go at string keys: Shape (a store of the
--                shapes that tables share, shape.with), Fields (atString, putString, compact, tryPut,
--                newTableAt) and Bury (buried, buriedSlot, buryDeadKeys). Keys, Store, Linking and Adding are
--                about shapes, Views and Live about the values in their slots, Growing, Moved, Put and
--                Collected about tables. A shape's address is its index in the store.
--   AnyKey       lua/tables.go at keys of any kind, over Shape and Table: at, put and tryPut, with
--                normaliseKey and hashKey of lua/types.go. Hash is about the array and hash parts, Places
--                about the keys that a table keeps apart, Put, Free and Try about put and tryPut.
--   Table        lua/tables.go at integer keys: atInt, putAtInt, maybeResizeArray, extendArray,
--                addOrInsertHash, length and unboundSearch, with the counting of lua/memory.go. Search
--                and Length are about the length operator, Update, Grow, Put and Keep about stores.
--   Utf8         internal/luautf8/utf8.go: Encode and Decode.
-- Prelude holds what they share: tests on numbers, lists, integers and int64 words, bit laws.
--
-- Go's unsigned integers are natural numbers with the wrap-around written out, int64 is the
-- integer that it stands for with `wrap` after each operation, byte slices and strings are
-- lists of numbers below 256. An index out of range or another panic is `none` or a case of its own.
-- Floats are a parameter (Bytecode.Arith.Floats): their operations are not under the model.
-- Loops recur on the list they read, on the free places of a buffer, or on fuel that is
-- proved to be enough (the size itself for Float8's halving loop, the length of the input for
-- Load's nested functions, 64 rounds for the searches of a table's length, the length of the
-- pattern or the subject for the matcher's loops, and its own limit of 200 nested calls). A writer and a reader
-- are parameters: what Write fails on, and how the reader ends.
--
-- Not modelled: the traversal of tables, the compiler, the virtual machine, the
-- library but for patterns, the just-in-time compiler, and all input and output. Memory counting keeps what remains
-- of the limit, not the running total.
pub mod Prelude
pub mod Bytecode
pub mod Utf8
pub mod Chunk
pub mod Table
pub mod Shape
pub mod AnyKey
pub mod Pattern
