-- ===== src/Delta/Lz.antt =====
-- delta/internal/lz/lz.go: the exact-match engine. `Lz/Match` is the index over a source, `Lz/Emit`
-- the encoder, `Lz/Apply` the decoder.
pub mod Match
pub mod Emit
pub mod Apply
pub mod RoundTrip
