-- ===== src/Chunk.antt =====
-- internal/chunk: binary chunks, the precompiled functions that string.dump writes and load reads.
--   Proto      internal/bytecode/proto.go, the compiled functions
--   Format     chunk.go: the platform, the header, and fixed-size values as bytes
--   Dump       dump.go
--   Load       load.go
--   Trip, Inherit, RoundTrip, Settles, Failing and Short are about Dump and Load together and alone.
pub mod Proto
pub mod Format
pub mod Dump
pub mod Load
pub mod Trip
pub mod Inherit
pub mod RoundTrip
pub mod Settles
pub mod Failing
pub mod Short
mod Examples
